-- ===== src/BaseIo/Pipe/TimesOut.antt =====
-- The pipe's fixed-size read where the time is over before all bytes are there.
use socketxx.Common.{
  ℕ, zero, suc, ◌+◌, ◌-◌, ◌<◌, ◌≡◌, ◌≢◌, refl, ap, sym, ◌∙◌, ◌⊎◌, inl, inr, true, false, some, List,
  [], ◌∷◌, ◌++◌, length, length-append, suc-ne-zero, arith,
}
use socketxx.Common.Int.{ℤ, minus_one}
use socketxx.Common.Outcome.{ok, throws, io_error, reading, resume}
use socketxx.BaseIo.{Os, Timeval, timeval_eq, timeout_inf}
use socketxx.BaseIo.Pipe.{
  pipe_select_wait, wait_ready, selected, ifix_step, ifix_loop, i_fixsize, read_end, etimedout,
  is_timeout_error,
}
use socketxx.BaseIo.Pipe.Exact.{IsReadable, ifix_step-some}

-- select() finds bytes that are there, or waits until the time is over; the time that is left is
-- never infinite.
pub record Expires {os : Os} {fd : ℤ} (κ : IsReadable os fd) : Type 0 where
  pub finds :
      (tm : Timeval) (s : os.World)
      → timeval_eq tm timeout_inf ≡ false
      → κ.pending s ≢ []
      → (n : ℕ) × (tm' : Timeval) × (s' : os.World) × (os.select_read fd tm s
          ≡ ((some (suc n), tm'), s'))
        × (timeval_eq tm' timeout_inf ≡ false)
        × (κ.pending s' ≡ κ.pending s)
  pub expires :
      (tm : Timeval) (s : os.World)
      → timeval_eq tm timeout_inf ≡ false
      → κ.pending s ≡ []
      → (tm' : Timeval) × (s' : os.World) × (os.select_read fd tm s ≡ ((some zero, tm'), s'))
        × (κ.pending s' ≡ [])
  pub errno_stored : (n : ℕ) (s : os.World) → os.errno (os.set_errno n s) ≡ n
  pub errno_keeps : (n : ℕ) (s : os.World) → κ.pending (os.set_errno n s) ≡ κ.pending s

List-cases : (xs : List ℕ) → (xs ≡ []) ⊎ (xs ≢ [])
List-cases [] = inl refl
List-cases (x ∷ xs) = inr (λ e. cc)

module _ {os : Os} {fd : ℤ} {κ : IsReadable os fd} (η : Expires κ) (signals : ℕ) where
  wait_ready-finds :
      (tm tm' : Timeval) (n : ℕ) (s s' : os.World)
      → timeval_eq tm timeout_inf ≡ false
      → os.select_read fd tm s ≡ ((some (suc n), tm'), s')
      → wait_ready os fd (suc signals) tm s ≡ (ok tm', s')
  unfolding wait_ready pipe_select_wait selected
  wait_ready-finds tm tm' n s s' h e = rw h (rw e refl)

  wait_ready-expires :
      (tm tm' : Timeval) (s s' : os.World)
      → timeval_eq tm timeout_inf ≡ false
      → os.select_read fd tm s ≡ ((some zero, tm'), s')
      → wait_ready os fd (suc signals) tm s
        ≡ (throws (io_error minus_one reading etimedout), os.set_errno etimedout s')
  unfolding wait_ready pipe_select_wait selected
  wait_ready-expires tm tm' s s' h e = rw h (rw e (rw (η.errno_stored etimedout s') refl))

  ifix_loop-round :
      (fuel n : ℕ) (tm : Timeval) (filled : List ℕ) (s : os.World)
      → ifix_loop os fd (suc signals) (suc fuel) tm (suc n) filled s
        ≡ resume
            (wait_ready os fd (suc signals) tm s).0
            (λ tm' s'.
              ifix_step os fd
                (ifix_loop os fd (suc signals) fuel tm')
                (suc n)
                filled
                (os.read fd (suc n) s'))
            (wait_ready os fd (suc signals) tm s).1
  unfolding ifix_loop
  ifix_loop-round fuel n tm filled s = rw (suc-ne-zero n, ifix_loop)

  ifix_loop-expires :
      (fuel len : ℕ) (tm : Timeval) (filled : List ℕ) (s : os.World)
      → len < fuel
      → timeval_eq tm timeout_inf ≡ false
      → length (κ.pending s) < len
      → (s' : os.World) × (ifix_loop os fd (suc signals) fuel tm len filled s
          ≡ (throws (io_error minus_one reading etimedout), s'))
        × (κ.pending s' ≡ [])
  ifix_loop-expires zero len tm filled s f h b = absurd (omega (arith, f))
  ifix_loop-expires (suc fuel) zero tm filled s f h b = absurd (omega (arith, b))
  ifix_loop-expires (suc fuel) (suc n) tm filled s f h b = elim (List-cases (κ.pending s)) [
    | inl empty ↦
        let (tm', s', e, p) = η.expires tm s h empty in
        (
          os.set_errno etimedout s',
          ifix_loop-round fuel n tm filled s ∙ rw (wait_ready-expires tm tm' s s' h e) refl,
          η.errno_keeps etimedout s' ∙ p,
        )
    | inr waits ↦
        let (k, tm', s1, e, h', p) = η.finds tm s h waits in
        let (bs, s2, r, q, pos, le) =
          κ.read_takes (suc n) s1 (omega arith) (λ z. waits (sym p ∙ z)) in
        let size : length (κ.pending s) ≡ length bs + length (κ.pending s2) =
          ap length (sym p ∙ q) ∙ length-append bs (κ.pending s2) in
        let (s', g, z) =
          ifix_loop-expires fuel (suc n - length bs) tm' (filled ++ bs) s2 (omega (arith, pos, f))
            h' (omega (arith, size, b)) in
        (
          s',
          ifix_loop-round fuel n tm filled s
              ∙ rw (wait_ready-finds tm tm' k s s1 h e)
                  (rw r (ifix_step-some os fd _ (suc n) filled bs s2 pos le ∙ g)),
          z,
        )
  ]

  -- A read of fixed size with a timeout, on a pipe with fewer bytes waiting than are asked for:
  -- where no more come in the time, it throws a timeout error, and the bytes that were waiting are
  -- taken out of the pipe and lost.
  pub i_fixsize-expires :
      (len : ℕ) (tm : Timeval) (s : os.World)
      → timeval_eq tm timeout_inf ≡ false
      → length (κ.pending s) < len
      → (s' : os.World) × (i_fixsize os fd read_end (suc signals) len tm s
          ≡ (throws (io_error minus_one reading etimedout), s'))
        × (is_timeout_error (io_error minus_one reading etimedout) ≡ true)
        × (κ.pending s' ≡ [])
  unfolding i_fixsize is_timeout_error
  i_fixsize-expires len tm s h b =
      let (s', e, p) = ifix_loop-expires (suc len) len tm [] s (omega arith) h b in (s', e, refl, p)

-- ===== src/BaseIo/Pipe/Exact.antt =====
-- The pipe's fixed-size read returns just the bytes asked for, however the kernel cuts the stream.
use socketxx.Common.{
  ℕ, zero, suc, ◌-◌, ◌≤◌, ◌<◌, ◌≡◌, ◌≢◌, ap, sym, ◌∙◌, some, List, [], ◌∷◌, ◌++◌, length,
  length-append, append_assoc, split_prefix, append-nil, suc-ne-zero, arith,
}
use socketxx.Common.Int.{ℤ}
use socketxx.Common.Outcome.{Exec, ok}
use socketxx.BaseIo.{Os, timeout_inf}
use socketxx.BaseIo.Pipe.{ifix_step, ifix_loop, i_fixsize, read_end}

-- read() on a descriptor with bytes waiting: at least one and at most `n` of the next bytes.
pub record IsReadable (os : Os) (fd : ℤ) : Type 0 where
  pub pending : os.World → List ℕ
  pub read_takes :
      (n : ℕ) (s : os.World)
      → 0 < n
      → pending s ≢ []
      → (bs : List ℕ) × (s' : os.World) × (os.read fd n s ≡ (some bs, s'))
        × (pending s ≡ bs ++ pending s')
        × (0 < length bs)
        × (length bs ≤ n)

module _ (os : Os) (fd : ℤ) where
  pub ifix_step-some :
      (next : ℕ → List ℕ → Exec os.World (List ℕ)) (len : ℕ) (filled bs : List ℕ) (s : os.World)
      → 0 < length bs
      → length bs ≤ len
      → ifix_step os fd next len filled (some bs, s) ≡ next (len - length bs) (filled ++ bs) s
  unfolding ifix_step
  ifix_step-some next len filled bs s pos le = ground arith

  -- Without a timeout a round of the loop is one read.
  ifix_loop-round :
      (signals fuel n : ℕ) (filled : List ℕ) (s : os.World)
      → ifix_loop os fd signals (suc fuel) timeout_inf (suc n) filled s
        ≡ ifix_step os fd
            (ifix_loop os fd signals fuel timeout_inf)
            (suc n)
            filled
            (os.read fd (suc n) s)
  unfolding ifix_loop
  ifix_loop-round signals fuel n filled s = rw (suc-ne-zero n, ifix_loop)

  -- A round that reads `bs`, and the rounds after it.
  ifix_loop-read :
      (signals fuel : ℕ) {x : ℕ} (xs filled bs ys : List ℕ) (s s1 s' : os.World)
      → os.read fd (length (x ∷ xs)) s ≡ (some bs, s1)
      → 0 < length bs
      → length bs ≤ length (x ∷ xs)
      → x ∷ xs ≡ bs ++ ys
      → length (x ∷ xs) - length bs ≡ length ys
      → ifix_loop os fd signals fuel timeout_inf (length ys) (filled ++ bs) s1
        ≡ (ok ((filled ++ bs) ++ ys), s')
      → ifix_loop os fd signals (suc fuel) timeout_inf (length (x ∷ xs)) filled s
        ≡ (ok (filled ++ x ∷ xs), s')
  ifix_loop-read signals fuel {x} xs filled bs ys s s1 s' er pos le ex left g =
      ifix_loop-round signals fuel (length xs) filled s
      ∙ ap (ifix_step os fd (ifix_loop os fd signals fuel timeout_inf) (length (x ∷ xs)) filled) er
      ∙ ifix_step-some _ (length (x ∷ xs)) filled bs s1 pos le
      ∙ ap (λ n. ifix_loop os fd signals fuel timeout_inf n (filled ++ bs) s1) left
      ∙ g
      ∙ ap (λ l. (ok l, s')) (append_assoc filled bs ys ∙ ap (λ l. filled ++ l) (sym ex))

module _ (os : Os) (fd : ℤ) (κ : IsReadable os fd) (signals : ℕ) where
  ifix_loop_exact :
      (fuel : ℕ) (filled xs rest : List ℕ) (s : os.World)
      → length xs < fuel
      → κ.pending s ≡ xs ++ rest
      → (s' : os.World) × (ifix_loop os fd signals fuel timeout_inf (length xs) filled s
          ≡ (ok (filled ++ xs), s'))
        × (κ.pending s' ≡ rest)
  ifix_loop_exact zero filled xs rest s h e = absurd (omega arith)
  ifix_loop_exact (suc fuel) filled [] rest s h e =
      (s, unfold ifix_loop in ap (λ l. (ok l, s)) (sym (append-nil filled)), e)
  ifix_loop_exact (suc fuel) filled (x ∷ xs) rest s h e =
      let (bs, s1, er, ep, pos, le) = κ.read_takes (length (x ∷ xs)) s (omega arith) (λ n. cc) in
      let (ys, ex, ey) = split_prefix bs (x ∷ xs) (κ.pending s1) rest le (sym e ∙ ep) in
      let left : length (x ∷ xs) - length bs ≡ length ys =
        omega (arith, ap length ex, length-append bs ys) in
      let (s', g, p) =
        ifix_loop_exact fuel (filled ++ bs) ys rest s1
          (omega (arith, ap length ex, length-append bs ys)) ey in
      (s', ifix_loop-read os fd signals fuel xs filled bs ys s s1 s' er pos le ex left g, p)

  -- A read of fixed size, without a timeout, on a pipe with that many bytes waiting returns just
  -- those bytes and leaves the rest, in whatever portions the kernel hands them out.
  pub ifix_pipe_exact :
      (xs rest : List ℕ) (s : os.World)
      → κ.pending s ≡ xs ++ rest
      → (s' : os.World) × (i_fixsize os fd read_end signals (length xs) timeout_inf s ≡ (ok xs, s'))
        × (κ.pending s' ≡ rest)
  unfolding i_fixsize ifix_loop
  ifix_pipe_exact xs rest s e = ifix_loop_exact (suc (length xs)) [] xs rest s (omega arith) e

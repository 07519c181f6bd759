-- ===== src/Client/Flags.antt =====
-- The blocking mode of the descriptor during a connection attempt.
use socketxx.Common.{
  ℕ, zero, suc, ◌≡◌, ◌%◌, ◌/◌, refl, ap, ◌∙◌, true, false, none, some, Bool, Option, arith, inl,
  inr, Bool-cases,
}
use socketxx.Common.Int.{ℤ}
use socketxx.Common.Outcome.{ok, Outcome}
use socketxx.BaseIo.{Timeval, timeval_eq, timeout_inf}
use socketxx.BaseIo.Pipe.{etimedout}
use socketxx.Client.{
  ClientOs, socket_client, connect_timeout, connect, in_progress, redo, answered, so_error, fail,
  connected, call_connect, change_flags, with_nonblock, without_nonblock, o_nonblock,
}

-- fcntl() reads and stores the flags, and the other calls leave them alone.
pub record KeepsFlags (os : ClientOs) (fd : ℤ) : Type 0 where
  pub flags : os.World → ℕ
  pub get : (w : os.World) → os.get_flags fd w ≡ (some (flags w), w)
  pub set :
      (n : ℕ) (w : os.World) → (w' : os.World) × (os.set_flags fd n w ≡ (true, w')) × (flags w' ≡ n)
  pub connect_keeps : (w : os.World) → flags (os.connect fd w).1 ≡ flags w
  pub select_keeps : (tm : Timeval) (w : os.World) → flags (os.select_write fd tm w).1 ≡ flags w
  pub so_error_keeps : (w : os.World) → flags (os.get_so_error fd w).1 ≡ flags w
  pub set_errno_keeps : (n : ℕ) (w : os.World) → flags (os.set_errno n w) ≡ flags w

module _ {os : ClientOs} {fd : ℤ} (κ : KeepsFlags os fd) where
  so_error_flags : (r : Option ℕ) (s : os.World) → κ.flags (so_error os fd (r, s)).1 ≡ κ.flags s
  unfolding so_error fail
  so_error_flags none s = refl
  so_error_flags (some zero) s = refl
  so_error_flags (some (suc r)) s = κ.set_errno_keeps (suc r) s

  answered-flags :
      (again : Timeval → os.World → Outcome (Unit {0}) × os.World)
      → ((tm : Timeval) (s : os.World) → κ.flags (again tm s).1 ≡ κ.flags s)
      → (r : Option ℕ) (tm : Timeval) (s : os.World)
      → κ.flags (answered os fd again ((r, tm), s)).1 ≡ κ.flags s
  unfolding answered fail
  answered-flags again ih none tm s = ground (arith, ih tm s)
  answered-flags again ih (some zero) tm s = κ.set_errno_keeps etimedout s
  answered-flags again ih (some (suc n)) tm s =
      so_error_flags (os.get_so_error fd s).0 (os.get_so_error fd s).1 ∙ κ.so_error_keeps s

  redo-flags :
      (fuel : ℕ) (tm : Timeval) (s : os.World) → κ.flags (redo os fd fuel tm s).1 ≡ κ.flags s
  unfolding redo
  redo-flags zero tm s = refl
  redo-flags (suc fuel) tm s =
      let w = os.select_write fd tm s in
      answered-flags (redo os fd fuel) (redo-flags fuel) w.0.0 w.0.1 w.1 ∙ κ.select_keeps tm s

  in_progress-flags :
      (fuel : ℕ) (tm : Timeval) (r : Bool) (s : os.World)
      → κ.flags (in_progress os fd fuel tm r s).1 ≡ κ.flags s
  unfolding in_progress fail
  in_progress-flags fuel tm true s = refl
  in_progress-flags fuel tm false s = ground (arith, redo-flags fuel tm s)

  change_flags-flags :
      (f : ℕ → ℕ) (s : os.World)
      → (s' : os.World) × (change_flags os fd f s ≡ (ok tt, s')) × (κ.flags s' ≡ f (κ.flags s))
  unfolding change_flags
  change_flags-flags f s =
      let (w, e, h) = κ.set (f (κ.flags s)) s in (w, rw (κ.get s) (rw e refl), h)

  connect-flags : (s : os.World) → κ.flags (connect os fd s).1 ≡ κ.flags s
  unfolding connect connected fail
  connect-flags s = elim (Bool-cases (os.connect fd s).0) [
    | inl e ↦ rw e (κ.connect_keeps s)
    | inr e ↦ rw e (κ.connect_keeps s)
  ]

  without_with : (f : ℕ) → f / o_nonblock % 2 ≡ 0 → without_nonblock (with_nonblock f) ≡ f
  without_with f h = ground arith

  connect_timeout-flags :
      (fuel : ℕ) (timeout : Timeval) (s : os.World)
      → κ.flags s / o_nonblock % 2 ≡ 0
      → κ.flags (connect_timeout os fd fuel timeout s).1 ≡ κ.flags s
  unfolding connect_timeout call_connect
  connect_timeout-flags fuel timeout s h =
      let (s1, e1, f1) = change_flags-flags with_nonblock s in
      let (s2, e2, f2) = change_flags-flags without_nonblock (os.connect fd s1).1 in
      rw e1 (
        rw e2 (
          in_progress-flags fuel timeout (os.connect fd s1).0 s2
          ∙ f2
          ∙ ap without_nonblock (κ.connect_keeps s1 ∙ f1)
          ∙ without_with (κ.flags s) h))

  -- A socket in blocking mode has the flags that it had after a connection attempt, with or
  -- without a timeout, whether it succeeds or fails.
  pub socket_client-flags :
      (fuel : ℕ) (max_wait : Timeval) (s : os.World)
      → κ.flags s / o_nonblock % 2 ≡ 0
      → κ.flags (socket_client os fd fuel max_wait s).1 ≡ κ.flags s
  unfolding socket_client
  socket_client-flags fuel max_wait s h = elim (Bool-cases (timeval_eq max_wait timeout_inf)) [
    | inl e ↦ rw e (connect-flags s)
    | inr e ↦ rw e (connect_timeout-flags fuel max_wait s h)
  ]

-- ===== src/Client/Outcomes.antt =====
-- A client returns connected, or throws.
use socketxx.Common.{
  ℕ, zero, suc, ◌+◌, ◌≤◌, ◌<◌, ◌≡◌, ◌≢◌, ◌∙◌, refl, ◌==◌, Bool, true, false, Option, none, some,
  inl, inr, Bool-cases, arith,
}
use socketxx.Common.Int.{ℤ}
use socketxx.Common.Outcome.{Outcome, Exec, ok, throws, halts}
use socketxx.BaseIo.{Timeval, timeval_eq, timeout_inf}
use socketxx.BaseIo.Pipe.{eintr, etimedout}
use socketxx.Client.{
  ClientOs, socket_client, connect_timeout, connect, in_progress, redo, answered, so_error, fail,
  connected, call_connect, change_flags, with_nonblock, without_nonblock, got_flags, flags_set,
  einprogress,
}

-- What the calls say of the connection. fcntl() succeeds and leaves everything else alone, errno
-- included; getsockopt() succeeds; select() fails only when a signal interrupts it, which happens
-- `left` times at most. `IsOver` is that select() has found the socket writable, which tells that
-- the attempt to connect is over; only then does SO_ERROR tell how it went.
pub record Connects (os : ClientOs) (fd : ℤ) : Type 1 where
  pub IsConnected : os.World → Type 0
  pub IsOver : os.World → Type 0
  pub left : os.World → ℕ
  pub get_flags_keeps :
      (w : os.World)
      → (n : ℕ) × (w' : os.World) × (os.get_flags fd w ≡ (some n, w'))
        × (IsConnected w → IsConnected w')
        × (IsConnected w' → IsConnected w)
        × (left w' ≡ left w)
  pub set_flags_keeps :
      (n : ℕ) (w : os.World)
      → (w' : os.World) × (os.set_flags fd n w ≡ (true, w'))
        × (IsConnected w → IsConnected w')
        × (IsConnected w' → IsConnected w)
        × (left w' ≡ left w)
  pub connect_yes : (w w' : os.World) → os.connect fd w ≡ (true, w') → IsConnected w'
  pub connect_no : (w w' : os.World) → os.connect fd w ≡ (false, w') → ¬ IsConnected w'
  pub connect_left : (w : os.World) → left (os.connect fd w).1 ≤ left w
  pub interrupted :
      (tm tm' : Timeval) (w w' : os.World)
      → os.select_write fd tm w ≡ ((none, tm'), w')
      → ((os.errno w' == eintr) ≡ true) × (left w' + 1 ≤ left w)
  pub expired :
      (tm tm' : Timeval) (w w' : os.World)
      → os.select_write fd tm w ≡ ((some 0, tm'), w')
      → ¬ IsConnected w'
  pub found :
      (n : ℕ) (tm tm' : Timeval) (w w' : os.World)
      → os.select_write fd tm w ≡ ((some (suc n), tm'), w')
      → IsOver w'
  pub no_error : (w w' : os.World) → IsOver w → os.get_so_error fd w ≡ (some 0, w') → IsConnected w'
  pub some_error :
      (r : ℕ) (w w' : os.World)
      → IsOver w
      → os.get_so_error fd w ≡ (some (suc r), w')
      → ¬ IsConnected w'
  pub error_read : (w w' : os.World) → os.get_so_error fd w ≢ (none, w')
  pub set_errno_keeps : (n : ℕ) (w : os.World) → IsConnected (os.set_errno n w) → IsConnected w

module _ {os : ClientOs} {fd : ℤ} (κ : Connects os fd) where
  -- It returns with the connection made, or throws without one.
  abbrev pub Told : {A : Type 0} → Outcome A × os.World → Type 0
  Told (ok a, w) = κ.IsConnected w
  Told (throws e, w) = ¬ κ.IsConnected w
  Told (halts h, w) = ⊥

  so_error-Told :
      (r : Option ℕ) (w w' : os.World)
      → κ.IsOver w
      → os.get_so_error fd w ≡ (r, w')
      → Told (so_error os fd (r, w'))
  unfolding so_error fail
  so_error-Told none w w' h e = absurd (κ.error_read w w' e)
  so_error-Told (some zero) w w' h e = κ.no_error w w' h e
  so_error-Told (some (suc r)) w w' h e =
      λ c. κ.some_error r w w' h e (κ.set_errno_keeps (suc r) w' c)

  answered-Told :
      (fuel : ℕ) (again : Timeval → Exec os.World (Unit {0})) (tm : Timeval)
      (r : Option ℕ × Timeval) (w w' : os.World)
      → κ.left w ≤ fuel
      → ((tm : Timeval) (u : os.World) → κ.left u < fuel → Told (again tm u))
      → os.select_write fd tm w ≡ (r, w')
      → Told (answered os fd again (r, w'))
  unfolding answered fail
  answered-Told fuel again tm (none, tm') w w' b k e =
      let (signal, less) = κ.interrupted tm tm' w w' e in
      rw signal (k tm' w' (omega (arith, b, less)))
  answered-Told fuel again tm (some zero, tm') w w' b k e =
      λ c. κ.expired tm tm' w w' e (κ.set_errno_keeps etimedout w' c)
  answered-Told fuel again tm (some (suc n), tm') w w' b k e =
      let r = os.get_so_error fd w' in so_error-Told r.0 w' r.1 (κ.found n tm tm' w w' e) refl

  redo-Told :
      (fuel : ℕ) (tm : Timeval) (w : os.World) → κ.left w < fuel → Told (redo os fd fuel tm w)
  unfolding redo
  redo-Told zero tm w b = absurd (omega (arith, b))
  redo-Told (suc fuel) tm w b =
      let r = os.select_write fd tm w in
      answered-Told fuel (redo os fd fuel) tm r.0 w r.1 (omega (arith, b)) (redo-Told fuel) refl

  change_flags-runs :
      (f : ℕ → ℕ) (w : os.World)
      → (w' : os.World) × (change_flags os fd f w ≡ (ok tt, w'))
        × (κ.IsConnected w → κ.IsConnected w')
        × (κ.IsConnected w' → κ.IsConnected w)
        × (κ.left w' ≡ κ.left w)
  unfolding change_flags got_flags flags_set
  change_flags-runs f w =
      let (n, w1, e1, c1, d1, l1) = κ.get_flags_keeps w in
      let (w2, e2, c2, d2, l2) = κ.set_flags_keeps (f n) w1 in
      (w2, rw e1 (rw e2 refl), λ h. c2 (c1 h), λ h. d1 (d2 h), l2 ∙ l1)

  in_progress-Told :
      (fuel : ℕ) (timeout : Timeval) (r : Bool) (w w' u : os.World)
      → os.connect fd w ≡ (r, w')
      → (κ.IsConnected w' → κ.IsConnected u)
      → (κ.IsConnected u → κ.IsConnected w')
      → κ.left u < fuel
      → Told (in_progress os fd fuel timeout r u)
  unfolding in_progress fail
  in_progress-Told fuel timeout true w w' u e c d b = c (κ.connect_yes w w' e)
  in_progress-Told fuel timeout false w w' u e c d b =
      elim (Bool-cases (os.errno u == einprogress)) [
        | inl waits ↦ rw waits (redo-Told fuel timeout u b)
        | inr failed ↦ rw failed (λ h. κ.connect_no w w' e (d h))
      ]

  connect_timeout-Told :
      (fuel : ℕ) (timeout : Timeval) (w : os.World)
      → κ.left w < fuel
      → Told (connect_timeout os fd fuel timeout w)
  unfolding connect_timeout call_connect
  connect_timeout-Told fuel timeout w b =
      let (w1, e1, c1, d1, l1) = change_flags-runs with_nonblock w in
      let r = os.connect fd w1 in
      let (w2, e2, c2, d2, l2) = change_flags-runs without_nonblock r.1 in
      rw e1 (
        rw e2 (
          in_progress-Told fuel timeout r.0 w1 r.1 w2 refl c2 d2
            (omega (arith, b, l1, l2, κ.connect_left w1))))

  connected-Told :
      (r : Bool) (w w' : os.World) → os.connect fd w ≡ (r, w') → Told (connected os fd (r, w'))
  unfolding connected fail
  connected-Told true w w' e = κ.connect_yes w w' e
  connected-Told false w w' e = κ.connect_no w w' e

  -- Where fcntl() and getsockopt() succeed, connect() tells whether the connection is made, and
  -- so does SO_ERROR once select() has found the socket writable, it is not made when the time is
  -- over, select() fails only when a signal interrupts
  -- it, and the fuel is above how often that happens: with and without a timeout, the constructor
  -- of a client either returns with the connection made or throws without one.
  pub socket_client-Told :
      (fuel : ℕ) (max_wait : Timeval) (w : os.World)
      → κ.left w < fuel
      → Told (socket_client os fd fuel max_wait w)
  unfolding socket_client connect
  socket_client-Told fuel max_wait w b = elim (Bool-cases (timeval_eq max_wait timeout_inf)) [
    | inl forever ↦ let r = os.connect fd w in rw forever (connected-Told r.0 w r.1 refl)
    | inr limited ↦ rw limited (connect_timeout-Told fuel max_wait w b)
  ]

-- ===== src/Tests/Connecting.antt =====
-- A connection that takes a while, with signals in between.
use socketxx.Common.{
  ℕ, zero, suc, ◌+◌, ◌≤◌, ◌≡◌, ◌≢◌, ◌==◌, ◌∙◌, refl, ap, sym, Bool, true, false, Option, none, some,
  arith,
}
use socketxx.Common.Int.{ℤ, pos}
use socketxx.BaseIo.{Timeval}
use socketxx.BaseIo.Pipe.{eintr}
use socketxx.Client.{ClientOs, socket_client}
use socketxx.Client.Outcomes.{Connects, socket_client-Told}

record Attempt : Type 0 where
  made : Bool
  over : Bool
  signals : ℕ
  cause : ℕ
  flags : ℕ

abbrev await : ℕ → Timeval → Attempt → (Option ℕ × Timeval) × Attempt
await zero tm w = ((some 1, tm), record w { made = true; over = true })
await (suc n) tm w = ((none, tm), record w { signals = n; cause = 4 })

-- SO_ERROR, which is 0 while the attempt goes on.
abbrev refused : Bool → Bool → ℕ
refused false made = 0
refused true true = 0
refused true false = 111

abbrev slow_os : ClientOs
slow_os = record {
  World = Attempt;
  errno = λ w. w.cause;
  set_errno = λ n w. record w { cause = n };
  connect = λ fd w. (false, record w { made = false; over = false; cause = 115 });
  select_write = λ fd tm w. await w.signals tm w;
  get_so_error = λ fd w. (some (refused w.over w.made), w);
  get_flags = λ fd w. (some w.flags, w);
  set_flags = λ fd n w. (true, record w { flags = n });
}

await_interrupted :
    (n : ℕ) (tm tm' : Timeval) (w w' : Attempt)
    → await n tm w ≡ ((none, tm'), w')
    → ((w'.cause == eintr) ≡ true) × (w'.signals + 1 ≤ n)
await_interrupted zero tm tm' w w' e = cc
await_interrupted (suc n) tm tm' w w' e = ground arith

await_expired : (n : ℕ) (tm tm' : Timeval) (w w' : Attempt) → await n tm w ≢ ((some 0, tm'), w')
await_expired zero tm tm' w w' e = ground arith
await_expired (suc n) tm tm' w w' e = cc

no_error_made :
    (b : Bool) (w w' : Attempt)
    → w.made ≡ b
    → ◌≡◌ {A = Option ℕ × Attempt} (some (refused true b), w) (some 0, w')
    → w'.made ≡ true
no_error_made true w w' m e = cc
no_error_made false w w' m e = ground arith

error_not_made :
    (b : Bool) (r : ℕ) (w w' : Attempt)
    → w.made ≡ b
    → ◌≡◌ {A = Option ℕ × Attempt} (some (refused true b), w) (some (suc r), w')
    → w'.made ≢ true
error_not_made true r w w' m e h = ground arith
error_not_made false r w w' m e h = cc

await_over :
    (k n : ℕ) (tm tm' : Timeval) (w w' : Attempt)
    → await k tm w ≡ ((some (suc n), tm'), w')
    → w'.over ≡ true
await_over zero n tm tm' w w' e = cc
await_over (suc k) n tm tm' w w' e = cc

over_refused :
    (b : Bool) (r : ℕ) (w w' : Attempt)
    → w.over ≡ true
    → ◌≡◌ {A = Option ℕ × Attempt} (some (refused w.over b), w) (some r, w')
    → ◌≡◌ {A = Option ℕ × Attempt} (some (refused true b), w) (some r, w')
over_refused b r w w' h e = ap (λ o. (some (refused o b), w)) (sym h) ∙ e

unfoldable slow_Connects : (fd : ℤ) → Connects slow_os fd
unfolding await_interrupted await_expired await_over over_refused no_error_made error_not_made
slow_Connects fd = record {
  IsConnected = λ w. w.made ≡ true;
  IsOver = λ w. w.over ≡ true;
  left = λ w. w.signals;
  get_flags_keeps = λ w. (w.flags, w, refl, λ h. h, λ h. h, refl);
  set_flags_keeps = λ n w. (record w { flags = n }, refl, λ h. h, λ h. h, refl);
  connect_yes = λ w w' e. cc;
  connect_no = λ w w' e h. cc;
  connect_left = λ w. omega arith;
  interrupted = λ tm tm' w w' e. await_interrupted w.signals tm tm' w w' e;
  expired = λ tm tm' w w' e h. absurd (await_expired w.signals tm tm' w w' e);
  found = λ n tm tm' w w' e. await_over w.signals n tm tm' w w' e;
  no_error = λ w w' h e. no_error_made w.made w w' refl (over_refused w.made 0 w w' h e);
  some_error =
      λ r w w' h e. error_not_made w.made r w w' refl (over_refused w.made (suc r) w w' h e);
  error_read = λ w w' e. cc;
  set_errno_keeps = λ n w h. h;
}

abbrev two_seconds : Timeval
two_seconds = record { sec = pos 2; usec = pos 0 }

-- Two signals interrupt the wait.
socket_client-Told_example :
    (socket_client slow_os
      (pos 4)
      3
      two_seconds
      (record { made = false; over = false; signals = 2; cause = 0; flags = 2 })).1.made
    ≡ true
unfolding slow_Connects socket_client
socket_client-Told_example =
    socket_client-Told (slow_Connects (pos 4)) 3 two_seconds
      (record { made = false; over = false; signals = 2; cause = 0; flags = 2 }) (omega arith)

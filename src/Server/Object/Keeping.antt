-- ===== src/Server/Object/Keeping.antt =====
-- The methods that leave the server's own descriptor alone.
use socketxx.Common.{ℕ, ◌≡◌, refl, inl, inr, Bool, true, Option, none, some, List, Bool-cases}
use socketxx.Common.Int.{ℤ, pos, minus_one}
use socketxx.Common.Outcome.{Exec, Outcome, ◌>>◌}
use socketxx.Common.Keeps.{Keeps, Keeps-bind, Keeps-pure}
use socketxx.BaseIo.Lifetime.{Handle}
use socketxx.Server.{
  ServerOs, Server, chkl, accepted, wait_new_client, wait_new_client_retained, retain_client,
  append_client, erase_client, release_client, with_lock, unlock, in_world, or_undefined,
  select_ready, highest, first_ready, move_to_end, wait_client_activity, wait_client_activity_fair,
  wait_client_activity_locked,
}
use socketxx.Server.Stoppable.{
  wait_new_client_timeout, wait_new_client_stoppable_one, wait_new_client_stoppable, on_world,
  select_throw_stop_one, select_throw_stop,
}

module _ (os : ServerOs) where
  abbrev pub own : Server os.World → Handle
  own s = s.handle

  chkl-Keeps : Keeps own (chkl os)
  unfolding chkl
  chkl-Keeps = record {
    at = λ s. elim (Bool-cases s.listening) [ inl l ↦ rw l refl | inr l ↦ rw l refl ];
  }

  accepted-Keeps : (r : Option ℤ × os.World) (s : Server os.World) → own (accepted os r s).1 ≡ own s
  unfolding accepted
  accepted-Keeps (none, w) s = refl
  accepted-Keeps (some cli, w) s = refl

  pub wait_new_client-Keeps : Keeps own (wait_new_client os)
  unfolding wait_new_client
  wait_new_client-Keeps =
      Keeps-bind own _ chkl-Keeps
        (λ _. record { at = λ s. accepted-Keeps (os.accept s.handle.fd s.world) s })

  with_lock-Keeps :
      {A : Type 0} {m : Exec (Server os.World) A} → Keeps own m → Keeps own (with_lock os m)
  unfolding with_lock unlock
  with_lock-Keeps h = record {
    at = λ s. elim (Bool-cases s.locked) [
      | inl l ↦ rw l refl
      | inr l ↦ rw l (h.at (record s { locked = true }))
    ];
  }

  append_client-Keeps : (cli : ℤ) → Keeps own (append_client os cli)
  unfolding append_client
  append_client-Keeps cli = record { at = λ s. refl }

  pub retain_client-Keeps : (cli : ℤ) → Keeps own (retain_client os cli)
  unfolding retain_client
  retain_client-Keeps cli = with_lock-Keeps (append_client-Keeps cli)

  erase_client-Keeps : (k : ℕ) → Keeps own (erase_client os k)
  unfolding erase_client
  erase_client-Keeps k = record { at = λ s. refl }

  pub release_client-Keeps : (k : ℕ) → Keeps own (release_client os k)
  unfolding release_client
  release_client-Keeps k = with_lock-Keeps (erase_client-Keeps k)

  pub wait_new_client_retained-Keeps : Keeps own (wait_new_client_retained os)
  unfolding wait_new_client_retained
  wait_new_client_retained-Keeps =
      with_lock-Keeps (Keeps-bind own _ wait_new_client-Keeps retain_client-Keeps)

  or_undefined-Keeps : (o : Option ℕ) → Keeps own (or_undefined os o)
  unfolding or_undefined
  or_undefined-Keeps none = record { at = λ s. refl }
  or_undefined-Keeps (some k) = record { at = λ s. refl }

  polled : ℕ → Exec (Server os.World) (List ℤ)
  unfolding in_world
  polled fuel s =
      in_world os
        (select_ready os fuel (highest os (pos 0) s.retained_clients) s.retained_clients
          s.pool_timeout s.world)
        s

  polled-Keeps : (fuel : ℕ) → Keeps own (polled fuel)
  unfolding polled
  polled-Keeps fuel = record { at = λ s. refl }

  wait_client_activity_locked-Keeps : (fuel : ℕ) → Keeps own (wait_client_activity_locked os fuel)
  unfolding wait_client_activity_locked polled
  wait_client_activity_locked-Keeps fuel = with_lock-Keeps (
      Keeps-bind own {m = polled fuel}
        (λ set s. or_undefined os (first_ready os set s.retained_clients) s) (polled-Keeps fuel)
        (λ set. record {
          at = λ s. (or_undefined-Keeps (first_ready os set s.retained_clients)).at s;
        }))

  pub wait_client_activity-Keeps : (fuel : ℕ) → Keeps own (wait_client_activity os fuel)
  unfolding wait_client_activity
  wait_client_activity-Keeps fuel =
      Keeps-bind own _ chkl-Keeps (λ _. with_lock-Keeps (wait_client_activity_locked-Keeps fuel))

  move_to_end-Keeps : (k : ℕ) → Keeps own (move_to_end os k)
  unfolding move_to_end
  move_to_end-Keeps k = record { at = λ s. refl }

  pub wait_client_activity_fair-Keeps : (fuel : ℕ) → Keeps own (wait_client_activity_fair os fuel)
  unfolding wait_client_activity_fair
  wait_client_activity_fair-Keeps fuel = Keeps-bind own _ chkl-Keeps (λ _. with_lock-Keeps (
      Keeps-bind own _ (wait_client_activity_locked-Keeps fuel)
        (λ k. Keeps-bind own _ (move_to_end-Keeps k) (λ _. Keeps-pure own k))))

  -- A wait on the world, before a client is accepted.
  waited : (Server os.World → Outcome (Unit {0}) × os.World) → Exec (Server os.World) ℤ
  waited wait = chkl os >> (λ s. on_world os (wait s) s) >> wait_new_client os

  waited-Keeps : (wait : Server os.World → Outcome (Unit {0}) × os.World) → Keeps own (waited wait)
  unfolding waited on_world
  waited-Keeps wait =
      Keeps-bind own (λ _. wait_new_client os)
        (Keeps-bind own {m = chkl os} (λ _ s. on_world os (wait s) s) chkl-Keeps
          (λ _. record { at = λ s. refl }))
        (λ _. wait_new_client-Keeps)

  pub wait_new_client_timeout-Keeps : (fuel : ℕ) → Keeps own (wait_new_client_timeout os fuel)
  unfolding wait_new_client_timeout waited
  wait_new_client_timeout-Keeps fuel =
      waited-Keeps
        (λ s. select_throw_stop_one os fuel s.handle.fd minus_one s.pool_timeout true s.world)

  pub wait_new_client_stoppable-Keeps :
      (fuel : ℕ) (fds : List ℤ) (ignsig : Bool)
      → Keeps own (wait_new_client_stoppable os fuel fds ignsig)
  unfolding wait_new_client_stoppable waited
  wait_new_client_stoppable-Keeps fuel fds ignsig =
      waited-Keeps (λ s. select_throw_stop os fuel s.handle.fd fds s.pool_timeout ignsig s.world)

  pub wait_new_client_stoppable_one-Keeps :
      (fuel : ℕ) (fd : ℤ) (ignsig : Bool)
      → Keeps own (wait_new_client_stoppable_one os fuel fd ignsig)
  unfolding wait_new_client_stoppable_one waited
  wait_new_client_stoppable_one-Keeps fuel fd ignsig =
      waited-Keeps (λ s. select_throw_stop_one os fuel s.handle.fd fd s.pool_timeout ignsig s.world)

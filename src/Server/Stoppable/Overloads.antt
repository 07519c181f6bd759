-- ===== src/Server/Stoppable/Overloads.antt =====
-- The overloads that wait for a client (socket++/handler/socket_server.hpp and .cpp): the loop for
-- one monitored descriptor is written out apart from that for a vector.
use socketxx.Common.{
  ℕ, zero, suc, ◌≡◌, ◌∙◌, refl, ap, sym, Bool, true, false, Option, none, some, List, [], ◌∷◌,
  if◌then◌else◌, arith, inl, inr, Bool-cases,
}
use socketxx.Common.Int.{ℤ, pos, negsuc, minus_one, eqb, succ, ltb_ℤ}
use socketxx.Common.Outcome.{Exec}
use socketxx.BaseIo.{Timeval, timeval_eq, timeout_inf}
use socketxx.Server.{ServerOs, Server, is_set, highest, chkl, timeout_arg}
use socketxx.Server.Stoppable.{
  first_stop, stopped, answered, answered_one, watch, watch_one, select_throw_stop,
  select_throw_stop_one, wait_new_client_stoppable, wait_new_client_stoppable_one,
  wait_new_client_timeout,
}

-- Both loops give select() the same number, the first time and again.
abbrev larger : ℤ → ℤ → ℤ
larger top x = if ltb_ℤ top x then x else top

top_of_two : (fd1 fd2 : ℤ) → (if ltb_ℤ fd2 fd1 then succ fd1 else succ fd2) ≡ succ (larger fd1 fd2)
top_of_two (pos a) (pos b) = ground arith
top_of_two (pos a) (negsuc b) = refl
top_of_two (negsuc a) (pos b) = refl
top_of_two (negsuc a) (negsuc b) = ground arith

larger-larger : (a b : ℤ) → larger (larger a b) b ≡ larger a b
larger-larger (pos a) (pos b) = ground arith
larger-larger (pos a) (negsuc b) = refl
larger-larger (negsuc a) (pos b) = ground arith
larger-larger (negsuc a) (negsuc b) = ground arith

module _ (os : ServerOs) where
  -- What follows select() is the same if the loops agree from there on.
  answered-one :
      (again again' : Timeval → Exec os.World (Unit {0})) (ignsig : Bool) (fd2 : ℤ) (tm : Timeval)
      (r : Option (List ℤ)) (w : os.World)
      → eqb fd2 minus_one ≡ false
      → ((tm : Timeval) (w : os.World) → again tm w ≡ again' tm w)
      → answered_one os again ignsig fd2 tm (r, w) ≡ answered os again' ignsig (fd2 ∷ []) tm (r, w)
  unfolding answered answered_one stopped first_stop
  answered-one again again' ignsig fd2 tm none w v h =
      rw (h (if timeval_eq tm timeout_inf then tm else os.time_left w) w) refl
  answered-one again again' ignsig fd2 tm (some []) w v h = refl
  answered-one again again' ignsig fd2 tm (some (x ∷ xs)) w v h =
      elim (Bool-cases (is_set fd2 (x ∷ xs))) [
        | inl y ↦ rw v (rw y refl)
        | inr n ↦ rw v (rw n refl)
      ]

  answered-none :
      (again again' : Timeval → Exec os.World (Unit {0})) (ignsig : Bool) (tm : Timeval)
      (r : Option (List ℤ)) (w : os.World)
      → ((tm : Timeval) (w : os.World) → again tm w ≡ again' tm w)
      → answered_one os again ignsig minus_one tm (r, w) ≡ answered os again' ignsig [] tm (r, w)
  unfolding answered answered_one stopped first_stop
  answered-none again again' ignsig tm none w h =
      rw (h (if timeval_eq tm timeout_inf then tm else os.time_left w) w) refl
  answered-none again again' ignsig tm (some []) w h = refl
  answered-none again again' ignsig tm (some (x ∷ xs)) w h = refl

  -- The two loops, from a `maxfd` of the second that leads to the number of the first.
  watch-one :
      (fuel : ℕ) (maxfd fd1 fd2 : ℤ) (ignsig : Bool) (tm : Timeval) (w : os.World)
      → eqb fd2 minus_one ≡ false
      → watch_one os fuel (succ (larger maxfd fd2)) fd1 fd2 ignsig tm w
        ≡ watch os fuel maxfd fd1 (fd2 ∷ []) ignsig tm w
  unfolding watch watch_one highest
  watch-one zero maxfd fd1 fd2 ignsig tm w v = refl
  watch-one (suc fuel) maxfd fd1 fd2 ignsig tm w v =
      let top = larger maxfd fd2 in
      let r = os.select (succ top) (fd1 ∷ fd2 ∷ []) (timeout_arg os tm) w in
      rw v (
        answered-one (watch_one os fuel (succ top) fd1 fd2 ignsig)
          (watch os fuel top fd1 (fd2 ∷ []) ignsig) ignsig fd2 tm r.0 r.1 v
          (λ tm w.
            ap (λ n. watch_one os fuel (succ n) fd1 fd2 ignsig tm w) (sym (larger-larger maxfd fd2))
            ∙ watch-one fuel top fd1 fd2 ignsig tm w v))

  watch-none :
      (fuel : ℕ) (fd1 : ℤ) (ignsig : Bool) (tm : Timeval) (w : os.World)
      → watch_one os fuel (succ fd1) fd1 minus_one ignsig tm w
        ≡ watch os fuel fd1 fd1 [] ignsig tm w
  unfolding watch watch_one highest
  watch-none zero fd1 ignsig tm w = refl
  watch-none (suc fuel) fd1 ignsig tm w =
      let r = os.select (succ fd1) (fd1 ∷ []) (timeout_arg os tm) w in
      answered-none (watch_one os fuel (succ fd1) fd1 minus_one ignsig)
        (watch os fuel fd1 fd1 [] ignsig) ignsig tm r.0 r.1 (watch-none fuel fd1 ignsig)

  one-vector :
      (fuel : ℕ) (fd1 fd2 : ℤ) (tm : Timeval) (ignsig : Bool) (w : os.World)
      → eqb fd2 minus_one ≡ false
      → select_throw_stop_one os fuel fd1 fd2 tm ignsig w
        ≡ select_throw_stop os fuel fd1 (fd2 ∷ []) tm ignsig w
  unfolding select_throw_stop select_throw_stop_one
  one-vector fuel fd1 fd2 tm ignsig w v =
      rw (top_of_two fd1 fd2) (watch-one fuel fd1 fd1 fd2 ignsig tm w v)

  none-vector :
      (fuel n : ℕ) (tm : Timeval) (ignsig : Bool) (w : os.World)
      → select_throw_stop_one os fuel (pos n) minus_one tm ignsig w
        ≡ select_throw_stop os fuel (pos n) [] tm ignsig w
  unfolding select_throw_stop select_throw_stop_one
  none-vector fuel n tm ignsig w = watch-none fuel (pos n) ignsig tm w

  -- `wait_new_client_stoppable` on a valid descriptor is the one on a vector of just that
  -- descriptor, though its loop is written out apart; and on a server with a valid descriptor
  -- `wait_new_client_timeout` is the one on an empty vector, with signals ignored. So it is on every
  -- branch: descriptors that are ready, timeouts, signals and errors.
  pub wait_new_client_stoppable-overloads :
      (fuel : ℕ) (fd : ℤ) (ignsig : Bool) (s : Server os.World) (n : ℕ)
      → eqb fd minus_one ≡ false
      → s.handle.fd ≡ pos n
      → (wait_new_client_stoppable_one os fuel fd ignsig s
          ≡ wait_new_client_stoppable os fuel (fd ∷ []) ignsig s)
        × (wait_new_client_timeout os fuel s ≡ wait_new_client_stoppable os fuel [] true s)
  unfolding wait_new_client_stoppable wait_new_client_stoppable_one wait_new_client_timeout chkl
  wait_new_client_stoppable-overloads fuel fd ignsig s n v h = elim (Bool-cases s.listening) [
    | inl l ↦ (
      rw l (rw (one-vector fuel s.handle.fd fd s.pool_timeout ignsig s.world v) refl),
      rw l (rw h (rw (none-vector fuel n s.pool_timeout true s.world) refl)),
    )
    | inr l ↦ (rw l refl, rw l refl)
  ]

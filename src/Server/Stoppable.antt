-- ===== src/Server/Stoppable.antt =====
-- Waiting for a new client while descriptors are monitored (socket++/handler/socket_server.cpp).
pub mod Overloads
use socketxx.Common.{
  ℕ, zero, suc, ◌≡◌, ◌==◌, ◌&&◌, Bool, true, Option, none, some, List, [], ◌∷◌, ◌++◌, if◌then◌else◌,
  arith, not,
}
use socketxx.Common.Int.{ℤ, minus_one, eqb, succ, ltb_ℤ}
use socketxx.Common.Outcome.{
  Exec, Outcome, ok, throws, halts, server_pool_error, select_err, timeout_event, stop_event,
  no_fuel, ◌>>◌,
}
use socketxx.BaseIo.{Timeval, timeval_eq, timeout_inf}
use socketxx.BaseIo.Pipe.{eintr}
use socketxx.Server.{ServerOs, Server, is_set, highest, chkl, wait_new_client, timeout_arg}

-- The first monitored descriptor that is ready.
unfoldable pub first_stop : List ℤ → List ℤ → Option ℤ
first_stop set [] = none
first_stop set (fd ∷ fds) = let rest = first_stop set fds in if is_set fd set then some fd else rest

module _ (os : ServerOs) where
  stopped : Option ℤ → Exec os.World (Unit {0})
  stopped none w = (ok tt, w)
  stopped (some fd) w = (throws (stop_event fd), w)

  answered :
      (Timeval → Exec os.World (Unit {0}))
      → Bool
      → List ℤ
      → Timeval
      → Option (List ℤ) × os.World
      → Outcome (Unit {0}) × os.World
  unfolding stopped
  answered again ignsig fds timeout (none, w) =
      if os.errno w == eintr && ignsig
      then again (if timeval_eq timeout timeout_inf then timeout else os.time_left w) w
      else (throws (server_pool_error select_err (os.errno w)), w)
  answered again ignsig fds timeout (some [], w) = (throws timeout_event, w)
  answered again ignsig fds timeout (some (x ∷ xs), w) = stopped (first_stop (x ∷ xs) fds) w

  -- From `select_redo` on, where the set and `maxfd` are made up again; `fuel` bounds how often a
  -- signal that is ignored interrupts select().
  watch : ℕ → ℤ → ℤ → List ℤ → Bool → Timeval → Exec os.World (Unit {0})
  unfolding answered highest
  watch zero maxfd fd1 fds ignsig timeout w = (halts no_fuel, w)
  watch (suc fuel) maxfd fd1 fds ignsig timeout w =
      let maxfd' = highest os maxfd fds in
      answered (watch fuel maxfd' fd1 fds ignsig) ignsig fds timeout
        (os.select (succ maxfd') (fd1 ∷ fds) (timeout_arg os timeout) w)

  -- _select_throw_stop on a vector of descriptors
  unfoldable pub select_throw_stop : ℕ → ℤ → List ℤ → Timeval → Bool → Exec os.World (Unit {0})
  unfolding watch
  select_throw_stop fuel fd1 fds timeout ignsig = watch fuel fd1 fd1 fds ignsig timeout

  -- The same for one descriptor `fd2`, written apart.
  answered_one :
      (Timeval → Exec os.World (Unit {0}))
      → Bool
      → ℤ
      → Timeval
      → Option (List ℤ) × os.World
      → Outcome (Unit {0}) × os.World
  answered_one again ignsig fd2 timeout (none, w) =
      if os.errno w == eintr && ignsig
      then again (if timeval_eq timeout timeout_inf then timeout else os.time_left w) w
      else (throws (server_pool_error select_err (os.errno w)), w)
  answered_one again ignsig fd2 timeout (some [], w) = (throws timeout_event, w)
  answered_one again ignsig fd2 timeout (some (x ∷ xs), w) =
      if not (eqb fd2 minus_one) && is_set fd2 (x ∷ xs)
      then (throws (stop_event fd2), w)
      else (ok tt, w)

  watch_one : ℕ → ℤ → ℤ → ℤ → Bool → Timeval → Exec os.World (Unit {0})
  unfolding answered_one
  watch_one zero maxfd fd1 fd2 ignsig timeout w = (halts no_fuel, w)
  watch_one (suc fuel) maxfd fd1 fd2 ignsig timeout w =
      let set = fd1 ∷ (if not (eqb fd2 minus_one) then fd2 ∷ [] else []) in
      answered_one (watch_one fuel maxfd fd1 fd2 ignsig) ignsig fd2 timeout
        (os.select maxfd set (timeout_arg os timeout) w)

  -- _select_throw_stop on one descriptor, or on none if it is invalid
  unfoldable pub select_throw_stop_one : ℕ → ℤ → ℤ → Timeval → Bool → Exec os.World (Unit {0})
  unfolding watch_one
  select_throw_stop_one fuel fd1 fd2 timeout ignsig =
      watch_one fuel (if ltb_ℤ fd2 fd1 then succ fd1 else succ fd2) fd1 fd2 ignsig timeout

  unfoldable pub on_world :
      {A : Type 0} → Outcome A × os.World → Server os.World → Outcome A × Server os.World
  on_world (r, w) s = (r, record s { world = w })

  -- wait_new_client_timeout, and wait_new_client_stoppable on one descriptor and on a vector
  unfoldable pub wait_new_client_timeout : ℕ → Exec (Server os.World) ℤ
  unfolding chkl on_world
  wait_new_client_timeout fuel =
      chkl os
      >> (λ s.
          on_world (select_throw_stop_one fuel s.handle.fd minus_one s.pool_timeout true s.world) s)
      >> wait_new_client os

  unfoldable pub wait_new_client_stoppable_one : ℕ → ℤ → Bool → Exec (Server os.World) ℤ
  unfolding chkl on_world
  wait_new_client_stoppable_one fuel fd_monitor ignsig =
      chkl os
      >> (λ s.
          on_world (select_throw_stop_one fuel s.handle.fd fd_monitor s.pool_timeout ignsig s.world)
            s)
      >> wait_new_client os

  unfoldable pub wait_new_client_stoppable : ℕ → List ℤ → Bool → Exec (Server os.World) ℤ
  unfolding chkl on_world
  wait_new_client_stoppable fuel fds ignsig =
      chkl os
      >> (λ s. on_world (select_throw_stop fuel s.handle.fd fds s.pool_timeout ignsig s.world) s)
      >> wait_new_client os

  first_stop-append :
      (set pre post : List ℤ) (fd : ℤ)
      → first_stop set pre ≡ none
      → is_set fd set ≡ true
      → first_stop set (pre ++ fd ∷ post) ≡ some fd
  unfolding first_stop
  first_stop-append set [] post fd h e = rw e
  first_stop-append set (x ∷ pre) post fd h e = ground (arith, first_stop-append set pre post fd)

  -- On a listening server, where the first select() answers with descriptors that are ready: if
  -- one of them is monitored, the first such one in the vector stops the wait and no client is
  -- accepted.
  pub wait_new_client_stoppable-stops :
      (fuel : ℕ) (pre post ready : List ℤ) (x fd : ℤ) (ignsig : Bool) (s : Server os.World)
      (w : os.World)
      → s.listening ≡ true
      → os.select
          (succ (highest os s.handle.fd (pre ++ fd ∷ post)))
          (s.handle.fd ∷ (pre ++ fd ∷ post))
          (timeout_arg os s.pool_timeout)
          s.world
        ≡ (some (x ∷ ready), w)
      → first_stop (x ∷ ready) pre ≡ none
      → is_set fd (x ∷ ready) ≡ true
      → wait_new_client_stoppable (suc fuel) (pre ++ fd ∷ post) ignsig s
        ≡ (throws (stop_event fd), record s { world = w })
  unfolding wait_new_client_stoppable select_throw_stop watch answered stopped chkl on_world
  wait_new_client_stoppable-stops fuel pre post ready x fd ignsig s w l e h r =
      rw l (rw e (rw (first_stop-append (x ∷ ready) pre post fd h r)))

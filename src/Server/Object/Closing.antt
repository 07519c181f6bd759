-- ===== src/Server/Object/Closing.antt =====
-- The descriptor of a server is closed once.
use mathlib.Core.Path.{subst}
use socketxx.Common.{
  ℕ, ◌≡◌, refl, sym, ◌⊎◌, inl, inr, Bool, true, false, List, [], ◌∷◌, arith, Bool-cases,
}
use socketxx.Common.Int.{ℤ, minus_one, eqb}
use socketxx.Common.Outcome.{Outcome, ok, throws, halts}
use socketxx.BaseIo.Lifetime.{
  shutdown_rdwr, close, Handle, construct, socket_close, destroy_socket, farewell,
}
use socketxx.Server.{ServerOs, Server, listening_start, listening_stop}
use socketxx.Server.Object.{
  Operation, start, stop, set_timeout, accept, accept_retained, accept_timeout,
  accept_stoppable_one, accept_stoppable, retain, release, wait_activity, wait_activity_fair,
  new_server, new_listening_server, or_destroyed, destroy_server, perform, perform_all, live,
  set_pool_timeout,
}
use socketxx.Server.Object.Keeping.{
  own, wait_new_client-Keeps, retain_client-Keeps, release_client-Keeps,
  wait_new_client_retained-Keeps, wait_client_activity-Keeps, wait_client_activity_fair-Keeps,
  wait_new_client_timeout-Keeps, wait_new_client_stoppable_one-Keeps,
  wait_new_client_stoppable-Keeps,
}

halted : {A : Type 0} → Outcome A → Bool
halted (ok a) = false
halted (throws e) = false
halted (halts h) = true

module _ (os : ServerOs) where
  -- It ends, and leaves the descriptor alone.
  abbrev Ends : Server os.World → Outcome (Unit {0}) × Server os.World → Type 0
  Ends s r = (own os r.1 ≡ own os s) × (halted r.0 ≡ false)

  start-Ends :
      (listen_max : ℕ) (reuse : Bool) (s : Server os.World)
      → Ends s (listening_start os listen_max reuse s)
  unfolding listening_start halted
  start-Ends listen_max reuse s = (ground arith, ground arith)

  module _ (fd : ℤ) where
    -- The descriptor after it was closed.
    abbrev gone : Handle
    gone = record {
      fd = minus_one;
      autoclose = true;
      preserve_fd = false;
      shd_alive = true;
      calls = farewell false fd;
    }

    -- The descriptor is open, or was closed once.
    abbrev IsSound : Handle → Type 0
    IsSound h = (h ≡ construct true fd) ⊎ (h ≡ gone)

    module _ (valid : eqb fd minus_one ≡ false) where
      close-IsSound : (h : Handle) → IsSound h → IsSound (socket_close h)
      unfolding socket_close construct
      close-IsSound h (inl e) = inr (rw e (rw valid refl))
      close-IsSound h (inr e) = inr (rw e refl)

      destroyed : (h : Handle) → IsSound h → (destroy_socket true h).calls ≡ farewell false fd
      unfolding destroy_socket construct
      destroyed h (inl e) = rw e (rw valid refl)
      destroyed h (inr e) = rw e refl

      keeps-IsSound : {h h' : Handle} → h' ≡ h → IsSound h → IsSound h'
      keeps-IsSound e s = subst IsSound (sym e) s

      stop-IsSound :
          (s : Server os.World) → IsSound s.handle → IsSound (listening_stop os s).1.handle
      unfolding listening_stop
      stop-IsSound s h = elim (Bool-cases s.listening) [
        | inl l ↦ rw l (close-IsSound s.handle h)
        | inr l ↦ rw l h
      ]

      perform-IsSound :
          (op : Operation) (s : Server os.World)
          → IsSound s.handle
          → IsSound (perform os op s).handle
      unfolding perform set_pool_timeout
      perform-IsSound (start n reuse) s h = keeps-IsSound (start-Ends n reuse s).0 h
      perform-IsSound stop s h = stop-IsSound s h
      perform-IsSound (set_timeout tm) s h = h
      perform-IsSound accept s h = keeps-IsSound ((wait_new_client-Keeps os).at s) h
      perform-IsSound accept_retained s h =
          keeps-IsSound ((wait_new_client_retained-Keeps os).at s) h
      perform-IsSound (accept_timeout fuel) s h =
          keeps-IsSound ((wait_new_client_timeout-Keeps os fuel).at s) h
      perform-IsSound (accept_stoppable_one fuel fd' ignsig) s h =
          keeps-IsSound ((wait_new_client_stoppable_one-Keeps os fuel fd' ignsig).at s) h
      perform-IsSound (accept_stoppable fuel fds ignsig) s h =
          keeps-IsSound ((wait_new_client_stoppable-Keeps os fuel fds ignsig).at s) h
      perform-IsSound (retain cli) s h = keeps-IsSound ((retain_client-Keeps os cli).at s) h
      perform-IsSound (release k) s h = keeps-IsSound ((release_client-Keeps os k).at s) h
      perform-IsSound (wait_activity fuel) s h =
          keeps-IsSound ((wait_client_activity-Keeps os fuel).at s) h
      perform-IsSound (wait_activity_fair fuel) s h =
          keeps-IsSound ((wait_client_activity_fair-Keeps os fuel).at s) h

      perform_all-IsSound :
          (ops : List Operation) (s : Server os.World)
          → IsSound s.handle
          → IsSound (perform_all os ops s).handle
      unfolding perform_all
      perform_all-IsSound [] s h = h
      perform_all-IsSound (op ∷ ops) s h =
          perform_all-IsSound ops (perform os op s) (perform-IsSound op s h)

      live-closes :
          (r : Outcome (Unit {0}) × Server os.World) (ops : List Operation)
          → halted r.0 ≡ false
          → IsSound r.1.handle
          → (live os (or_destroyed os r) ops).handle.calls ≡ farewell false fd
      unfolding live or_destroyed destroy_server halted
      live-closes (ok tt, s) ops n h = destroyed _ (perform_all-IsSound ops s h)
      live-closes (throws e, s) ops n h = destroyed s.handle h
      live-closes (halts e, s) ops n h = absurd (ground arith)

  -- A server on a new socket, made by either constructor, destroyed after any sequence of calls
  -- that start and stop listening, accept, retain, release and wait for clients, and set the
  -- timeout, whatever fails in them: its socket is shut down and closed once. So it is where the
  -- constructor that starts to listen throws.
  pub live-calls :
      (ops : List Operation) (listen_max : ℕ) (reuse : Bool) (fd : ℤ) (w : os.World)
      → eqb fd minus_one ≡ false
      → ((live os (ok tt, new_server os fd w) ops).handle.calls ≡ shutdown_rdwr fd ∷ close fd ∷ [])
        × ((live os (new_listening_server os listen_max reuse fd w) ops).handle.calls
            ≡ shutdown_rdwr fd ∷ close fd ∷ [])
  unfolding new_listening_server new_server live or_destroyed halted
  live-calls ops listen_max reuse fd w valid =
      let s = new_server os fd w in
      let (kept, ends) = start-Ends listen_max reuse s in
      (
        live-closes fd valid (ok tt, s) ops refl (inl refl),
        live-closes fd valid (listening_start os listen_max reuse s) ops ends (inl kept),
      )

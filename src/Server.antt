-- ===== src/Server.antt =====
-- The server side of a connection (socket++/handler/socket_server.hpp and .cpp): the listening
-- state, the retained clients and the mutex that guards them. Here one thread runs the operations.
pub mod Listening
pub mod Mutex
pub mod Stoppable
pub mod Pool
pub mod Clients
pub mod Object
use socketxx.Common.{
  ℕ, zero, suc, ◌+◌, ◌==◌, ◌&&◌, ◌||◌, not, Bool, true, false, Option, none, some, List, [], ◌∷◌,
  ◌++◌, length, if◌then◌else◌,
}
use socketxx.Common.Int.{ℤ, pos, eqb, ltb_ℤ, succ}
use socketxx.Common.Outcome.{
  Exec, Outcome, ok, throws, halts, pure, throw, halt, logic_error, deadlock, undefined, no_fuel,
  server_launch_error, server_pool_error, other_error, bind_err, listen_err, select_err, accept_err,
  timeout_event, ◌>>=◌, ◌>>◌,
}
use socketxx.BaseIo.{Timeval, timeval_eq, timeout_inf}
use socketxx.BaseIo.Lifetime.{Handle, socket_close}
use socketxx.BaseIo.Pipe.{eintr}

-- The calls that the server makes. `bind`, `listen` and `set_reuseaddr` say whether they succeed.
-- `select` is given the highest descriptor plus one, the descriptors to watch and the timeout, if
-- any; it returns those that are ready, none of them when the time is over. `time_left` is what the
-- last call left in the timeout that it was given, as on Linux.
pub record ServerOs : Type 1 where
  pub World : Type 0
  pub errno : World → ℕ
  pub set_reuseaddr : ℤ → World → Bool × World
  pub bind : ℤ → World → Bool × World
  pub listen : ℤ → ℕ → World → Bool × World
  pub accept : ℤ → World → Option ℤ × World
  pub select : ℤ → List ℤ → Option Timeval → World → Option (List ℤ) × World
  pub time_left : World → Timeval

-- FD_ISSET
unfoldable pub is_set : ℤ → List ℤ → Bool
is_set fd [] = false
is_set fd (x ∷ xs) = eqb fd x || is_set fd xs

-- A retained client is its descriptor. `locked` says that the thread holds the mutex.
pub record Server (W : Type 0) : Type 0 where
  pub handle : Handle
  pub listening : Bool
  pub locked : Bool
  pub retained_clients : List ℤ
  pub pool_timeout : Timeval
  pub world : W

module _ (os : ServerOs) where
  abbrev pub M : Type 0 → Type 0
  M A = Exec (Server os.World) A

  -- chkl
  unfoldable pub chkl : M (Unit {0})
  chkl s =
      if s.listening
      then (ok tt, s)
      else (throws (logic_error "socket server : Bad listening state"), s)

  -- struct _mutex_lock: the mutex is a plain one, and is released when the scope is left.
  unlock {ℓ} : {A : Type ℓ} → A × Server os.World → A × Server os.World
  unlock (r, s) = (r, record s { locked = false })

  unfoldable pub with_lock : {A : Type 0} → M A → M A
  unfolding unlock
  with_lock m s = if s.locked then (halts deadlock, s) else unlock (m (record s { locked = true }))

  launched :
      Bool × os.World
      → Server os.World
      → (Unit {0} → M (Unit {0}))
      → Outcome (Unit {0})
      → Outcome (Unit {0}) × Server os.World
  launched (true, w) s next failed = next tt (record s { world = w })
  launched (false, w) s next failed = (failed, record s { world = w })

  -- _server_launch
  unfoldable pub server_launch : ℕ → Bool → M (Unit {0})
  unfolding launched
  server_launch listen_max reuse s =
      launched (if reuse then os.set_reuseaddr s.handle.fd s.world else (true, s.world)) s
        (λ _ s1.
          launched (os.bind s1.handle.fd s1.world) s1
            (λ _ s2. launched (os.listen s2.handle.fd listen_max s2.world) s2 pure (
              throws (
                server_launch_error listen_err
                  (os.errno (os.listen s2.handle.fd listen_max s2.world).1))))
            (throws (server_launch_error bind_err (os.errno (os.bind s1.handle.fd s1.world).1))))
        (throws
          (other_error "setsockopt() error" (os.errno (os.set_reuseaddr s.handle.fd s.world).1)))

  set_listening : Bool → M (Unit {0})
  set_listening b s = (ok tt, record s { listening = b })

  -- listening_start, for an address without a file of its own
  unfoldable pub listening_start : ℕ → Bool → M (Unit {0})
  unfolding server_launch set_listening
  listening_start listen_max reuse s =
      if s.listening
      then (throws (logic_error "socket server : Bad listening state"), s)
      else (server_launch listen_max reuse >> set_listening true) s

  -- listening_stop
  unfoldable pub listening_stop : M (Unit {0})
  listening_stop s =
      if s.listening
      then (ok tt, record s { handle = socket_close s.handle; listening = false })
      else (throws (logic_error "socket server : Bad listening state"), s)

  accepted : Option ℤ × os.World → Server os.World → Outcome ℤ × Server os.World
  accepted (none, w) s =
      (throws (server_pool_error accept_err (os.errno w)), record s { world = w })
  accepted (some cli, w) s = (ok cli, record s { world = w })

  -- wait_new_client, with _server_accept
  unfoldable pub wait_new_client : M ℤ
  unfolding chkl accepted
  wait_new_client = chkl >> λ s. accepted (os.accept s.handle.fd s.world) s

  append_client : ℤ → M ℕ
  append_client cli s = (
    ok (length s.retained_clients),
    record s { retained_clients = s.retained_clients ++ cli ∷ [] },
  )

  -- retain_client: the position of the new entry stands for the iterator.
  unfoldable pub retain_client : ℤ → M ℕ
  unfolding with_lock append_client
  retain_client cli = with_lock (append_client cli)

  -- wait_new_client_retained
  unfoldable pub wait_new_client_retained : M ℕ
  unfolding with_lock retain_client
  wait_new_client_retained = with_lock (do cli ← wait_new_client; retain_client cli)

  -- clients_fill_fdset: the highest descriptor of the set, which is the list of the clients.
  unfoldable pub highest : ℤ → List ℤ → ℤ
  highest top [] = top
  highest top (x ∷ xs) = highest (if ltb_ℤ top x then x else top) xs

  abbrev pub timeout_arg : Timeval → Option Timeval
  timeout_arg tm = if timeval_eq tm timeout_inf then none else some tm

  unfoldable pub selected :
      (os.World → Outcome (List ℤ) × os.World)
      → Option (List ℤ) × os.World
      → Outcome (List ℤ) × os.World
  selected again (none, w) =
      if os.errno w == eintr
      then again w
      else (throws (server_pool_error select_err (os.errno w)), w)
  selected again (some [], w) = (throws timeout_event, w)
  selected again (some (x ∷ xs), w) = (ok (x ∷ xs), w)

  -- _select: again on every EINTR, of which `fuel` are allowed.
  unfoldable pub select_ready : ℕ → ℤ → List ℤ → Timeval → Exec os.World (List ℤ)
  unfolding selected
  select_ready zero maxfd set timeout w = (halts no_fuel, w)
  select_ready (suc fuel) maxfd set timeout w =
      selected (select_ready fuel maxfd set timeout)
        (os.select (succ maxfd) set (timeout_arg timeout) w)

  in_world : Outcome (List ℤ) × os.World → Server os.World → Outcome (List ℤ) × Server os.World
  in_world (r, w) s = (r, record s { world = w })

  -- The position of the first client that is ready; without one the function ends with no value.
  unfoldable pub first_ready : List ℤ → List ℤ → Option ℕ
  first_ready set [] = none
  first_ready set (x ∷ xs) =
      if is_set x set
      then some 0
      else elim (first_ready set xs) [ none ↦ none | some k ↦ some (suc k) ]

  or_undefined : Option ℕ → M ℕ
  or_undefined none = halt undefined
  or_undefined (some k) = pure k

  -- _wait_client_activity
  unfoldable pub wait_client_activity_locked : ℕ → M ℕ
  unfolding with_lock in_world or_undefined highest
  wait_client_activity_locked fuel = with_lock (
      (λ s.
        in_world
          (select_ready fuel (highest (pos 0) s.retained_clients) s.retained_clients s.pool_timeout
            s.world)
          s)
      >>= λ set s. or_undefined (first_ready set s.retained_clients) s)

  -- wait_client_activity
  unfoldable pub wait_client_activity : ℕ → M ℕ
  unfolding chkl with_lock
  wait_client_activity fuel = chkl >> with_lock (wait_client_activity_locked fuel)

  -- list::splice of one element to the end
  abbrev pub without : ℕ → List ℤ → List ℤ
  without k [] = []
  without zero (x ∷ xs) = xs
  without (suc k) (x ∷ xs) = x ∷ without k xs

  abbrev pub entry : ℕ → List ℤ → List ℤ
  entry k [] = []
  entry zero (x ∷ xs) = x ∷ []
  entry (suc k) (x ∷ xs) = entry k xs

  unfoldable pub move_to_end : ℕ → M (Unit {0})
  move_to_end k s = (
    ok tt,
    record s { retained_clients = without k s.retained_clients ++ entry k s.retained_clients },
  )

  -- wait_client_activity_fair
  unfoldable pub wait_client_activity_fair : ℕ → M ℕ
  unfolding chkl with_lock
  wait_client_activity_fair fuel =
      chkl >> with_lock (do k ← wait_client_activity_locked fuel; move_to_end k; pure k)

  -- release_client
  erase_client : ℕ → M (Unit {0})
  erase_client k s = (ok tt, record s { retained_clients = without k s.retained_clients })

  unfoldable pub release_client : ℕ → M (Unit {0})
  unfolding with_lock erase_client
  release_client k = with_lock (erase_client k)

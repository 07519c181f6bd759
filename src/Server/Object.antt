-- ===== src/Server/Object.antt =====
-- A server object from its constructor to its destructor (socket++/handler/socket_server.hpp), once
-- the base class has made the socket.
pub mod Keeping
pub mod Closing
use socketxx.Common.{ℕ, Bool, true, false, List, [], ◌∷◌}
use socketxx.Common.Int.{ℤ}
use socketxx.Common.Outcome.{Outcome, ok, throws, halts}
use socketxx.BaseIo.{Timeval, timeout_inf}
use socketxx.BaseIo.Lifetime.{construct, destroy_socket}
use socketxx.Server.{
  ServerOs, Server, listening_start, listening_stop, wait_new_client, wait_new_client_retained,
  retain_client, release_client, wait_client_activity, wait_client_activity_fair,
}
use socketxx.Server.Stoppable.{
  wait_new_client_timeout, wait_new_client_stoppable_one, wait_new_client_stoppable,
}

-- The methods to listen, to accept, to retain and to wait. Those that wait for activity take the fuel
-- of their select().
pub data Operation : Type 0 where
  start : ℕ → Bool → Operation
  stop : Operation
  set_timeout : Timeval → Operation
  accept : Operation
  accept_retained : Operation
  accept_timeout : ℕ → Operation
  accept_stoppable_one : ℕ → ℤ → Bool → Operation
  accept_stoppable : ℕ → List ℤ → Bool → Operation
  retain : ℤ → Operation
  release : ℕ → Operation
  wait_activity : ℕ → Operation
  wait_activity_fair : ℕ → Operation

module _ (os : ServerOs) where
  -- socket_server(addr)
  unfoldable pub new_server : ℤ → os.World → Server os.World
  unfolding construct
  new_server fd w = record {
    handle = construct true fd;
    listening = false;
    locked = false;
    retained_clients = [];
    pool_timeout = timeout_inf;
    world = w;
  }

  -- ~socket_server, with the list of clients and the base class; what becomes of a client is up to
  -- the objects that are left of it.
  unfoldable pub destroy_server : Server os.World → Server os.World
  unfolding destroy_socket
  destroy_server s = record s { handle = destroy_socket true s.handle; retained_clients = [] }

  -- What a constructor that throws leaves behind is destroyed.
  or_destroyed : Outcome (Unit {0}) × Server os.World → Outcome (Unit {0}) × Server os.World
  unfolding destroy_server
  or_destroyed (ok tt, s) = (ok tt, s)
  or_destroyed (throws e, s) = (throws e, destroy_server s)
  or_destroyed (halts h, s) = (halts h, s)

  -- socket_server(addr, listen_max, reuse)
  unfoldable pub new_listening_server :
      ℕ → Bool → ℤ → os.World → Outcome (Unit {0}) × Server os.World
  unfolding or_destroyed new_server
  new_listening_server listen_max reuse fd w =
      or_destroyed (listening_start os listen_max reuse (new_server fd w))

  -- set_pool_timeout
  unfoldable pub set_pool_timeout : Timeval → Server os.World → Server os.World
  set_pool_timeout timeout s = record s { pool_timeout = timeout }

  -- What an operation leaves, however it ends; where it hangs, nothing that follows is reached.
  unfoldable pub perform : Operation → Server os.World → Server os.World
  perform (start listen_max reuse) s = (listening_start os listen_max reuse s).1
  perform stop s = (listening_stop os s).1
  perform (set_timeout timeout) s = set_pool_timeout timeout s
  perform accept s = (wait_new_client os s).1
  perform accept_retained s = (wait_new_client_retained os s).1
  perform (accept_timeout fuel) s = (wait_new_client_timeout os fuel s).1
  perform (accept_stoppable_one fuel fd ignsig) s =
      (wait_new_client_stoppable_one os fuel fd ignsig s).1
  perform (accept_stoppable fuel fds ignsig) s = (wait_new_client_stoppable os fuel fds ignsig s).1
  perform (retain cli) s = (retain_client os cli s).1
  perform (release k) s = (release_client os k s).1
  perform (wait_activity fuel) s = (wait_client_activity os fuel s).1
  perform (wait_activity_fair fuel) s = (wait_client_activity_fair os fuel s).1

  unfoldable pub perform_all : List Operation → Server os.World → Server os.World
  unfolding perform
  perform_all [] s = s
  perform_all (op ∷ ops) s = perform_all ops (perform op s)

  -- The whole life after a constructor: an object that could not be made is not used.
  unfoldable pub live : Outcome (Unit {0}) × Server os.World → List Operation → Server os.World
  unfolding perform_all destroy_server
  live (ok tt, s) ops = destroy_server (perform_all ops s)
  live (throws e, s) ops = s
  live (halts h, s) ops = s

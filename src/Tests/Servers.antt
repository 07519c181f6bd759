-- ===== src/Tests/Servers.antt =====
-- Servers, their mutex and their pool.
use socketxx.Common.{◌≡◌, ◌≢◌, refl, ap, some, true, false, List, [], ◌∷◌}
use socketxx.Common.Int.{ℤ, pos}
use socketxx.Common.Outcome.{ok, halts, deadlock}
use socketxx.BaseIo.{timeout_inf}
use socketxx.BaseIo.Lifetime.{construct, shutdown_rdwr, close}
use socketxx.Server.{
  ServerOs, Server, listening_start, listening_stop, wait_client_activity,
  wait_client_activity_fair,
}
use socketxx.Server.Listening.{restart_fails}
use socketxx.Server.Mutex.{wait_client_activity_deadlocks}
use socketxx.Server.{is_set, select_ready}
use socketxx.Server.Stoppable.{
  first_stop, wait_new_client_stoppable, wait_new_client_stoppable-stops,
  wait_new_client_stoppable_one, wait_new_client_timeout,
}
use socketxx.Server.Stoppable.Overloads.{wait_new_client_stoppable-overloads}
use socketxx.Server.Pool.{Pool, pool_continue, pool_quit, wait_activity_loop, watched}
use socketxx.Server.Pool.Highest.{below}
use socketxx.Server.Pool.Watching.{LooksBelow, watched-covers, wait_activity_loop-quits}
use socketxx.Common.Outcome.{throws, stop_event}
use socketxx.Server.Object.{
  Operation, start, stop, accept, accept_stoppable, retain, release, new_server,
  new_listening_server, live,
}
use socketxx.Server.Object.Closing.{live-calls}
use socketxx.Tests.Fixtures.{server_os, server_os_refuses}

abbrev idle : Server (Unit {0})
unfolding construct
idle = record {
  handle = construct true (pos 3);
  listening = false;
  locked = false;
  retained_clients = pos 7 ∷ [];
  pool_timeout = timeout_inf;
  world = tt;
}

abbrev listening_server : Server (Unit {0})
unfolding construct
listening_server = record {
  handle = construct true (pos 3);
  listening = true;
  locked = false;
  retained_clients = pos 7 ∷ [];
  pool_timeout = timeout_inf;
  world = tt;
}

restart_fails_example :
    (listening_start server_os 5 false (listening_stop server_os listening_server).1).0 ≢ ok tt
unfolding construct
restart_fails_example = restart_fails server_os server_os_refuses 5 false listening_server refl refl

wait_client_activity_deadlocks_example :
    ((wait_client_activity server_os 1 listening_server).0 ≡ halts deadlock)
    × ((wait_client_activity_fair server_os 1 listening_server).0 ≡ halts deadlock)
unfolding construct
wait_client_activity_deadlocks_example =
    wait_client_activity_deadlocks server_os 1 listening_server refl

-- Standard input is monitored besides a pipe; every descriptor is ready at once.
wait_new_client_stoppable-stops_example :
    wait_new_client_stoppable server_os 1 (pos 0 ∷ pos 8 ∷ []) true listening_server
    ≡ (throws (stop_event (pos 0)), listening_server)
unfolding is_set construct first_stop
wait_new_client_stoppable-stops_example =
    wait_new_client_stoppable-stops server_os 0 [] (pos 8 ∷ []) (pos 0 ∷ pos 8 ∷ []) (pos 3) (pos 0)
      true listening_server tt refl refl refl refl

abbrev stdin_pool : Pool server_os
stdin_pool = record {
  client_activity = λ fd s. (ok pool_continue, s);
  new_client = λ fd s. (ok pool_continue, s);
  fd_activity = λ fd s. (ok pool_quit, s);
  newcli = true;
  monfds = true;
  fds = pos 0 ∷ [];
}

-- A select() that finds ready what it looks at.
abbrev looking_os : ServerOs
looking_os = record server_os { select = λ n set tm w. (some (below n set), w) }

looking_os_LooksBelow : LooksBelow looking_os
looking_os_LooksBelow = record {
  select_below = λ m n set tm w e. ap (λ (l : List ℤ). (some l, w)) e;
}

abbrev looking_pool : Pool looking_os
looking_pool = record {
  client_activity = λ fd s. (ok pool_continue, s);
  new_client = λ fd s. (ok pool_continue, s);
  fd_activity = λ fd s. (ok pool_quit, s);
  newcli = true;
  monfds = true;
  fds = pos 0 ∷ [];
}

watched-covers_example :
    (is_set (pos 7) (watched looking_os looking_pool listening_server).1 ≡ true)
    × (select_ready looking_os 1 (pos 7) (pos 0 ∷ pos 3 ∷ pos 7 ∷ []) timeout_inf tt
        ≡ select_ready looking_os 1 (pos 1022) (pos 0 ∷ pos 3 ∷ pos 7 ∷ []) timeout_inf tt)
unfolding is_set construct watched
watched-covers_example =
    watched-covers looking_os looking_pool 1 (pos 1022) (pos 7) listening_server timeout_inf tt
      looking_os_LooksBelow refl

wait_activity_loop-quits_example :
    wait_activity_loop server_os stdin_pool 4 1 listening_server ≡ (ok tt, listening_server)
unfolding is_set construct select_ready watched first_stop
wait_activity_loop-quits_example =
    wait_activity_loop-quits server_os stdin_pool 3 1 [] [] (pos 0 ∷ pos 3 ∷ pos 7 ∷ []) (pos 0)
      listening_server listening_server tt refl refl refl refl refl refl refl

wait_new_client_stoppable-overloads_example :
    (wait_new_client_stoppable_one server_os 1 (pos 8) false listening_server
      ≡ wait_new_client_stoppable server_os 1 (pos 8 ∷ []) false listening_server)
    × (wait_new_client_timeout server_os 1 listening_server
        ≡ wait_new_client_stoppable server_os 1 [] true listening_server)
unfolding construct
wait_new_client_stoppable-overloads_example =
    wait_new_client_stoppable-overloads server_os 1 (pos 8) false listening_server 3 refl refl

-- It listens, stops, fails to start again, and is used all the same.
abbrev busy_life : List Operation
busy_life =
    start 5 true
    ∷ accept
    ∷ accept_stoppable 1 (pos 0 ∷ []) false
    ∷ retain (pos 5)
    ∷ stop
    ∷ start 5 false
    ∷ release 0
    ∷ stop
    ∷ []

live-calls_example :
    ((live server_os (ok tt, new_server server_os (pos 3) tt) busy_life).handle.calls
      ≡ shutdown_rdwr (pos 3) ∷ close (pos 3) ∷ [])
    × ((live server_os (new_listening_server server_os 5 false (pos 3) tt) busy_life).handle.calls
        ≡ shutdown_rdwr (pos 3) ∷ close (pos 3) ∷ [])
live-calls_example = live-calls server_os busy_life 5 false (pos 3) tt refl

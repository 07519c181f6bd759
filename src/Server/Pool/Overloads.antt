-- ===== src/Server/Pool/Overloads.antt =====
-- The overloads of `wait_activity_loop` (socket++/handler/socket_server.hpp). A callback that is left
-- out is a null function, which throws if it is called.
use mathlib.Core.Path.{fun_ext}
use socketxx.Common.{ℕ, zero, suc, ◌+◌, ◌≡◌, refl, ap, ◌∙◌, true, false, List, [], ◌∷◌, get_elem?}
use socketxx.Common.Int.{ℤ}
use socketxx.Common.Outcome.{throw, Exception, ◌>>=◌}
use socketxx.Server.{ServerOs, M}
use socketxx.Server.Pool.{
  Pool, PoolRet, wait_activity_loop, clients_round, client_round, unless_left, pool_round,
  pool_loop, after_round, scan, watched, wait_ready,
}

module _ (os : ServerOs) (bad_function_call : Exception) where
  nullptr : ℤ → M os PoolRet
  nullptr fd = throw bad_function_call

  module _ (rounds fuel : ℕ) (cli_activity_f : ℤ → M os PoolRet) where
    -- Only the retained clients
    unfoldable loop_clients : M os (Unit {0})
    unfolding nullptr
    loop_clients =
        wait_activity_loop os
          (record {
            client_activity = cli_activity_f;
            new_client = nullptr;
            fd_activity = nullptr;
            newcli = false;
            monfds = false;
            fds = [];
          })
          rounds fuel

    -- New clients too
    unfoldable loop_new_clients : (ℤ → M os PoolRet) → M os (Unit {0})
    unfolding nullptr
    loop_new_clients new_client_f =
        wait_activity_loop os
          (record {
            client_activity = cli_activity_f;
            new_client = new_client_f;
            fd_activity = nullptr;
            newcli = true;
            monfds = false;
            fds = [];
          })
          rounds fuel

    -- And the descriptors of a vector, or one
    unfoldable loop_monitored : (ℤ → M os PoolRet) → List ℤ → (ℤ → M os PoolRet) → M os (Unit {0})
    loop_monitored new_client_f fds fd_activity_f =
        wait_activity_loop os
          (record {
            client_activity = cli_activity_f;
            new_client = new_client_f;
            fd_activity = fd_activity_f;
            newcli = true;
            monfds = true;
            fds = fds;
          })
          rounds fuel

    unfoldable loop_monitored_one : (ℤ → M os PoolRet) → ℤ → (ℤ → M os PoolRet) → M os (Unit {0})
    unfolding loop_monitored
    loop_monitored_one new_client_f fd_monitor fd_activity_f =
        loop_monitored new_client_f (fd_monitor ∷ []) fd_activity_f

-- Two pools that watch only the clients, with the same callback for them.
module _ (os : ServerOs) (cli_activity_f : ℤ → M os PoolRet) where
  abbrev only_clients : (ℤ → M os PoolRet) → (ℤ → M os PoolRet) → Pool os
  only_clients new_client fd_activity = record {
    client_activity = cli_activity_f;
    new_client = new_client;
    fd_activity = fd_activity;
    newcli = false;
    monfds = false;
    fds = [];
  }

module _ (os : ServerOs) (cli_activity_f f g f' g' : ℤ → M os PoolRet) where
  same_clients :
      (fuel : ℕ) (cpset : List ℤ) (k : ℕ)
      → clients_round os (only_clients os cli_activity_f f g) fuel cpset k
        ≡ clients_round os (only_clients os cli_activity_f f' g') fuel cpset k
  unfolding clients_round client_round unless_left
  same_clients zero cpset k = refl
  same_clients (suc fuel) cpset k = fun_ext (λ s.
      ap
        (λ (next : M os PoolRet).
          client_round os (only_clients os cli_activity_f f g) next cpset
            (get_elem? s.retained_clients k) s)
        (same_clients fuel cpset (k + 1)))

  same_round :
      (fuel : ℕ) (cpset : List ℤ)
      → pool_round os (only_clients os cli_activity_f f g) fuel cpset
        ≡ pool_round os (only_clients os cli_activity_f f' g') fuel cpset
  unfolding pool_round unless_left
  same_round fuel cpset = same_clients fuel cpset 0

  same_loop :
      (rounds fuel : ℕ) (set : ℤ × List ℤ)
      → pool_loop os (only_clients os cli_activity_f f g) rounds fuel set
        ≡ pool_loop os (only_clients os cli_activity_f f' g') rounds fuel set
  unfolding pool_loop after_round scan watched wait_ready
  same_loop zero fuel set = refl
  same_loop (suc rounds) fuel set =
      let step : (List ℤ → M os PoolRet) → (ℤ × List ℤ → M os (Unit {0})) → M os (Unit {0}) =
        λ round again. wait_ready os (only_clients os cli_activity_f f g) fuel set >>= λ cpset.
        round cpset >>= after_round os (only_clients os cli_activity_f f g) again set in
      ap (λ r. step r (pool_loop os (only_clients os cli_activity_f f g) rounds fuel))
        (fun_ext (same_round fuel))
      ∙ ap (step (pool_round os (only_clients os cli_activity_f f' g') fuel))
          (fun_ext (same_loop rounds fuel))

-- Waiting for the activity of the retained clients alone: the null functions are never called,
-- whatever the clients' callback does; with any other callbacks in their place it is the same.
loop_clients-ignores :
    (os : ServerOs) (bad_function_call : Exception) (rounds fuel : ℕ)
    (cli_activity_f f g : ℤ → M os PoolRet)
    → loop_clients os bad_function_call rounds fuel cli_activity_f
      ≡ wait_activity_loop os (only_clients os cli_activity_f f g) rounds fuel
unfolding loop_clients wait_activity_loop scan watched
loop_clients-ignores os e rounds fuel cli_activity_f f g = fun_ext (λ s.
    let null = nullptr os e in
    ap (λ loop. loop s)
      (same_loop os cli_activity_f null null f g rounds fuel
        (watched os (only_clients os cli_activity_f f g) s)))

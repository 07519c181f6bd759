-- ===== src/Server/Mutex.antt =====
-- Operations that lock the mutex, and those that lock it twice.
use socketxx.Common.{ℕ, ◌≡◌, refl, ap, true, false, some, List, [], ◌∷◌, ◌++◌, length, arith}
use socketxx.Common.Int.{ℤ}
use socketxx.Common.Outcome.{ok, halts, deadlock}
use socketxx.Server.{
  ServerOs, Server, wait_client_activity, wait_client_activity_fair, wait_client_activity_locked,
  wait_new_client_retained, retain_client, release_client, without, wait_new_client,
}

module _ (os : ServerOs) where
  -- On a listening server both methods that wait for a retained client wait for themselves.
  pub wait_client_activity_deadlocks :
      (fuel : ℕ) (s : Server os.World)
      → s.listening ≡ true
      → ((wait_client_activity os fuel s).0 ≡ halts deadlock)
        × ((wait_client_activity_fair os fuel s).0 ≡ halts deadlock)
  unfolding wait_client_activity wait_client_activity_fair wait_client_activity_locked
  wait_client_activity_deadlocks fuel s h = (ground arith, ground arith)

  -- On a listening server, accepting a client and retaining it in one call accepts it, and then
  -- waits for itself.
  wait_new_client_retained_deadlocks :
      (s : Server os.World) (cli : ℤ) (w : os.World)
      → s.listening ≡ true
      → os.accept s.handle.fd s.world ≡ (some cli, w)
      → (wait_new_client_retained os s).0 ≡ halts deadlock
  unfolding wait_new_client_retained wait_new_client
  wait_new_client_retained_deadlocks s cli w h e = ground arith

  without_last : (cli : ℤ) (xs : List ℤ) → without os (length xs) (xs ++ cli ∷ []) ≡ xs
  without_last cli [] = refl
  without_last cli (x ∷ xs) = ap (λ t. x ∷ t) (without_last cli xs)

  -- With the mutex free a client is retained at the end of the list and the mutex is free again;
  -- releasing it at the position returned brings back the server as it was.
  release_client-retain_client :
      (cli : ℤ) (s : Server os.World)
      → s.locked ≡ false
      → (retain_client os cli s ≡ (
        ok (length s.retained_clients),
        record s { retained_clients = s.retained_clients ++ cli ∷ [] },
      ))
        × (release_client os
              (length s.retained_clients)
              (record s { retained_clients = s.retained_clients ++ cli ∷ [] })
            ≡ (ok tt, s))
  unfolding retain_client release_client
  release_client-retain_client cli s h =
      (ground arith, rw (without_last cli s.retained_clients) (ground arith))

-- ===== src/Server/Pool.antt =====
-- `_wait_activity_loop` and `clients_foreach` (socket++/handler/socket_server.hpp). The callbacks
-- are the user's: they may change the server. An iterator over the retained clients is a position
-- in the list, so a callback that releases a client has to answer POOL_RESCAN or POOL_QUIT, as the
-- header asks.
pub mod Highest
pub mod Watching
pub mod Overloads
use socketxx.Common.{
  ℕ, zero, suc, ◌+◌, ◌≡◌, Bool, true, false, Option, none, some, List, [], ◌∷◌, ◌++◌, if◌then◌else◌,
  arith, get_elem?, refl,
}
use socketxx.Common.Int.{ℤ, pos}
use socketxx.Common.Outcome.{Exec, Outcome, ok, halts, pure, no_fuel, ◌>>=◌, ◌>>◌, resume}
use socketxx.Server.{ServerOs, Server, M, is_set, highest, chkl, wait_new_client, select_ready}
use socketxx.Server.Stoppable.{first_stop}

-- enum pool_ret_t
pub data PoolRet : Type 0 where
  pool_continue pool_quit pool_rescan : PoolRet

-- The callbacks, and the two parameters of the template.
pub record Pool (os : ServerOs) : Type 0 where
  pub client_activity : ℤ → M os PoolRet
  pub new_client : ℤ → M os PoolRet
  pub fd_activity : ℤ → M os PoolRet
  pub newcli : Bool
  pub monfds : Bool
  pub fds : List ℤ

module _ (os : ServerOs) (p : Pool os) where
  -- if (r != POOL_CONTINUE) goto _r_check;
  unless_left : M os PoolRet → PoolRet → M os PoolRet
  unless_left next pool_continue = next
  unless_left next pool_quit = pure pool_quit
  unless_left next pool_rescan = pure pool_rescan

  fds_round : List ℤ → List ℤ → M os PoolRet
  unfolding unless_left
  fds_round cpset [] s = (ok pool_continue, s)
  fds_round cpset (fd ∷ fds) s =
      let rest = fds_round cpset fds in
      (if is_set fd cpset then p.fd_activity fd >>= unless_left rest else rest) s

  new_client_round : List ℤ → M os PoolRet
  new_client_round cpset s =
      if is_set s.handle.fd cpset
      then (wait_new_client os >>= p.new_client) s
      else (ok pool_continue, s)

  -- The clients from a position on, also those that a callback adds at the end; `fuel` bounds
  -- how many there are.
  client_round : (M os PoolRet) → List ℤ → Option ℤ → M os PoolRet
  unfolding unless_left
  client_round next cpset none = pure pool_continue
  client_round next cpset (some fd) =
      if is_set fd cpset then p.client_activity fd >>= unless_left next else next

  clients_round : ℕ → List ℤ → ℕ → M os PoolRet
  unfolding client_round
  clients_round zero cpset k s = (halts no_fuel, s)
  clients_round (suc fuel) cpset k s =
      client_round (clients_round fuel cpset (k + 1)) cpset (get_elem? s.retained_clients k) s

  -- What follows one select(), up to `_r_check`.
  pool_round : ℕ → List ℤ → M os PoolRet
  unfolding fds_round new_client_round clients_round unless_left
  pool_round fuel cpset =
      (if p.monfds then fds_round cpset p.fds else pure pool_continue)
      >>= unless_left (
          (if p.newcli then new_client_round cpset else pure pool_continue)
          >>= unless_left (clients_round fuel cpset 0))

  -- From `_rescan` on: `maxsock` and the set.
  unfoldable pub watched : Server os.World → ℤ × List ℤ
  unfolding highest
  watched s =
      let clients = s.retained_clients in
      let max1 = highest os (pos 0) clients in
      let set2 = if p.newcli then s.handle.fd ∷ clients else clients in
      let max2 = if p.newcli then highest os max1 (s.handle.fd ∷ []) else max1 in
      (if p.monfds then highest os max2 p.fds else max2, if p.monfds then p.fds ++ set2 else set2)

  scan : M os (ℤ × List ℤ)
  unfolding watched
  scan s = (ok (watched s), s)

  wait_ready : ℕ → ℤ × List ℤ → M os (List ℤ)
  unfolding select_ready
  wait_ready fuel set s =
      let (r, w) = select_ready os fuel set.0 set.1 s.pool_timeout s.world in
      (r, record s { world = w })

  after_round : (ℤ × List ℤ → M os (Unit {0})) → ℤ × List ℤ → PoolRet → M os (Unit {0})
  unfolding scan
  after_round again set pool_continue = again set
  after_round again set pool_rescan = scan >>= again
  after_round again set pool_quit = pure tt

  -- `rounds` bounds how often the pool wakes up, `fuel` the loops inside a round.
  pool_loop : ℕ → ℕ → ℤ × List ℤ → M os (Unit {0})
  unfolding wait_ready pool_round after_round
  pool_loop zero fuel set s = (halts no_fuel, s)
  pool_loop (suc rounds) fuel set s =
      (wait_ready fuel set >>= λ cpset.
      pool_round fuel cpset >>= after_round (pool_loop rounds fuel) set)
        s

  -- _wait_activity_loop
  unfoldable pub wait_activity_loop : ℕ → ℕ → M os (Unit {0})
  unfolding pool_loop
  wait_activity_loop rounds fuel =
      (if p.newcli then chkl os else pure tt) >> (scan >>= pool_loop rounds fuel)

foreach_step : {W : Type 0} → Exec W (Unit {0}) → PoolRet → Exec W (Unit {0})
foreach_step rest pool_quit = pure tt
foreach_step rest pool_continue = rest
foreach_step rest pool_rescan = rest

foreach : {W : Type 0} → (ℤ → Exec W PoolRet) → List ℤ → Exec W (Unit {0})
unfolding foreach_step
foreach f [] = pure tt
foreach f (cli ∷ clients) = f cli >>= foreach_step (foreach f clients)

-- clients_foreach, with a callback that leaves the server alone
unfoldable clients_foreach : {W : Type 0} → (ℤ → Exec W PoolRet) → Exec (Server W) (Unit {0})
unfolding foreach
clients_foreach f s =
    let r = foreach f s.retained_clients s.world in (r.0, record s { world = r.1 })

-- ===== src/Server/Pool/Watching.antt =====
-- The descriptors that the pool watches, and the callback that ends it.
use socketxx.Common.{
  sym, ap, ◌∙◌, ◌&&◌, ◌||◌, ℕ, zero, suc, ◌≡◌, refl, true, false, Option, none, some, List, [], ◌∷◌,
  ◌++◌, arith, Bool-cases, inl, inr, if◌then◌else◌,
}
use socketxx.Common.Int.{ℤ, pos, ltb_ℤ, eqb, succ}
use socketxx.Common.Outcome.{ok, Outcome, resume, pure, ◌>>=◌}
use socketxx.BaseIo.{Timeval}
use socketxx.Server.{ServerOs, Server, is_set, highest, selected, select_ready, timeout_arg, chkl}
use socketxx.Server.Stoppable.{first_stop}
use socketxx.Server.Pool.{
  Pool, PoolRet, pool_quit, wait_activity_loop, watched, scan, pool_loop, pool_round, fds_round,
  wait_ready, after_round, unless_left,
}
use socketxx.Server.Pool.Highest.{
  AtLeast-refl, below, with_server, with_monitored, is_set-append_eq, below-all,
}

-- select() looks only at the descriptors below the number that it is given.
pub record LooksBelow (os : ServerOs) : Type 0 where
  pub select_below :
      (m n : ℤ) (set : List ℤ) (tm : Option Timeval) (w : os.World)
      → below m set ≡ below n set
      → os.select m set tm w ≡ os.select n set tm w

module _ (os : ServerOs) (p : Pool os) where
  watched-top :
      (s : Server os.World) (fd : ℤ)
      → is_set fd (watched os p s).1 ≡ true
      → ltb_ℤ (watched os p s).0 fd ≡ false
  unfolding watched
  watched-top s fd h =
      let clients = s.retained_clients in
      with_monitored os p.monfds
        (if p.newcli
          then highest os (highest os (pos 0) clients) (s.handle.fd ∷ [])
          else highest os (pos 0) clients)
        fd (if p.newcli then s.handle.fd ∷ clients else clients) p.fds
        (with_server os p.newcli s.handle.fd fd clients) h

  own-mem :
      (s : Server os.World) (fd : ℤ)
      → is_set fd (if p.newcli then s.handle.fd ∷ s.retained_clients else s.retained_clients)
        ≡ ((p.newcli && eqb fd s.handle.fd) || is_set fd s.retained_clients)
  unfolding is_set
  own-mem s fd = elim (Bool-cases p.newcli) [ inl y ↦ rw y refl | inr n ↦ rw n refl ]

  watched-mem :
      (s : Server os.World) (fd : ℤ)
      → is_set fd (watched os p s).1 ≡ (
          (p.monfds && is_set fd p.fds)
          || ((p.newcli && eqb fd s.handle.fd) || is_set fd s.retained_clients))
  unfolding watched is_set
  watched-mem s fd =
      let clients = s.retained_clients in
      elim (Bool-cases p.monfds) [
        | inl m ↦ rw m (
            is_set-append_eq os fd p.fds (if p.newcli then s.handle.fd ∷ clients else clients)
            ∙ ap (λ b. is_set fd p.fds || b) (own-mem s fd))
        | inr m ↦ rw m (own-mem s fd)
      ]

  selected-same :
      (again again' : os.World → Outcome (List ℤ) × os.World) (r : Option (List ℤ)) (w : os.World)
      → ((w : os.World) → again w ≡ again' w)
      → selected os again (r, w) ≡ selected os again' (r, w)
  unfolding selected
  selected-same again again' none w h = rw (h w) refl
  selected-same again again' (some []) w h = refl
  selected-same again again' (some (x ∷ xs)) w h = refl

  selects-same :
      (fuel : ℕ) (top n : ℤ) (set : List ℤ) (tm : Timeval) (w : os.World)
      → LooksBelow os
      → below (succ top) set ≡ set
      → below (succ n) set ≡ set
      → select_ready os fuel top set tm w ≡ select_ready os fuel n set tm w
  unfolding select_ready
  selects-same zero top n set tm w κ a b = refl
  selects-same (suc fuel) top n set tm w κ a b =
      let r = os.select (succ n) set (timeout_arg os tm) w in
      rw (κ.select_below (succ top) (succ n) set (timeout_arg os tm) w (a ∙ sym b)) (
        selected-same (select_ready os fuel top set tm) (select_ready os fuel n set tm) r.0 r.1
          (λ w. selects-same fuel top n set tm w κ a b))

  -- Where select() looks only at the descriptors below the number that it is given: the set that
  -- the pool watches is the retained clients, the server's own descriptor if new clients are
  -- awaited, and the monitored ones if there are any; and none of them is too high for the number
  -- that select() is given, since waiting on the set ends as with any higher number, on every
  -- branch.
  pub watched-covers :
      (fuel : ℕ) (n fd : ℤ) (s : Server os.World) (tm : Timeval) (w : os.World)
      → LooksBelow os
      → ltb_ℤ n (watched os p s).0 ≡ false
      → (is_set fd (watched os p s).1 ≡ (
          (p.monfds && is_set fd p.fds)
          || ((p.newcli && eqb fd s.handle.fd) || is_set fd s.retained_clients)))
        × (select_ready os fuel (watched os p s).0 (watched os p s).1 tm w
            ≡ select_ready os fuel n (watched os p s).1 tm w)
  watched-covers fuel n fd s tm w κ h =
      let set = watched os p s in
      (
        watched-mem s fd,
        selects-same fuel set.0 n set.1 tm w κ
            (below-all os set.0 set.0 set.1 (AtLeast-refl set.0) (watched-top s))
            (below-all os set.0 n set.1 h (watched-top s)),
      )

  fds_round-quits :
      (cpset pre post : List ℤ) (fd : ℤ) (s s' : Server os.World)
      → first_stop cpset pre ≡ none
      → is_set fd cpset ≡ true
      → p.fd_activity fd s ≡ (ok pool_quit, s')
      → fds_round os p cpset (pre ++ fd ∷ post) s ≡ (ok pool_quit, s')
  unfolding fds_round unless_left first_stop
  fds_round-quits cpset [] post fd s s' h e q = rw e (rw q)
  fds_round-quits cpset (x ∷ pre) post fd s s' h e q = elim (Bool-cases (is_set x cpset)) [
    | inl y ↦ absurd (ground arith)
    | inr n ↦ rw n (fds_round-quits cpset pre post fd s s' (ground arith) e q)
  ]

  pool_round-quits :
      (fuel : ℕ) (cpset : List ℤ) (s s' : Server os.World)
      → p.monfds ≡ true
      → fds_round os p cpset p.fds s ≡ (ok pool_quit, s')
      → pool_round os p fuel cpset s ≡ (ok pool_quit, s')
  unfolding pool_round unless_left
  pool_round-quits fuel cpset s s' m round = rw m (rw round refl)

  pool_loop-quits :
      (rounds fuel : ℕ) (set : ℤ × List ℤ) (cpset : List ℤ) (s s1 s' : Server os.World)
      → wait_ready os p fuel set s ≡ (ok cpset, s1)
      → pool_round os p fuel cpset s1 ≡ (ok pool_quit, s')
      → pool_loop os p (suc rounds) fuel set s ≡ (ok tt, s')
  unfolding pool_loop after_round
  pool_loop-quits rounds fuel set cpset s s1 s' ready round =
      let next = after_round os p (pool_loop os p rounds fuel) set in
      ap
        (λ (r : Outcome (List ℤ) × Server os.World).
          resume r.0 (λ c. pool_round os p fuel c >>= next) r.1)
        ready
      ∙ ap (λ (r : Outcome PoolRet × Server os.World). resume r.0 next r.1) round

  wait_ready-selects :
      (fuel : ℕ) (set : ℤ × List ℤ) (cpset : List ℤ) (s : Server os.World) (w : os.World)
      → select_ready os fuel set.0 set.1 s.pool_timeout s.world ≡ (ok cpset, w)
      → wait_ready os p fuel set s ≡ (ok cpset, record s { world = w })
  unfolding wait_ready
  wait_ready-selects fuel set cpset s w e = rw e refl

  may_wait :
      (s : Server os.World)
      → s.listening ≡ true
      → (if p.newcli then chkl os else pure tt) s ≡ (ok tt, s)
  unfolding chkl
  may_wait s l = ground arith

  listening-loop :
      (rounds fuel : ℕ) (s s' : Server os.World)
      → s.listening ≡ true
      → pool_loop os p rounds fuel (watched os p s) s ≡ (ok tt, s')
      → wait_activity_loop os p rounds fuel s ≡ (ok tt, s')
  unfolding wait_activity_loop scan chkl
  listening-loop rounds fuel s s' l e =
      ap
        (λ (r : Outcome (Unit {0}) × Server os.World).
          resume r.0 (λ _. scan os p >>= pool_loop os p rounds fuel) r.1)
        (may_wait s l)
      ∙ e

  -- On a listening server whose pool monitors descriptors, where select() finds one of them
  -- ready, the first of those in the vector is served before any client; if its callback answers
  -- POOL_QUIT the pool returns, and has done nothing after that callback.
  pub wait_activity_loop-quits :
      (rounds fuel : ℕ) (pre post cpset : List ℤ) (fd : ℤ) (s s' : Server os.World) (w : os.World)
      → s.listening ≡ true
      → p.monfds ≡ true
      → p.fds ≡ pre ++ fd ∷ post
      → select_ready os fuel (watched os p s).0 (watched os p s).1 s.pool_timeout s.world
        ≡ (ok cpset, w)
      → first_stop cpset pre ≡ none
      → is_set fd cpset ≡ true
      → p.fd_activity fd (record s { world = w }) ≡ (ok pool_quit, s')
      → wait_activity_loop os p (suc rounds) fuel s ≡ (ok tt, s')
  wait_activity_loop-quits rounds fuel pre post cpset fd s s' w l m f e h r q =
      let s1 = record s { world = w } in
      let round : fds_round os p cpset p.fds s1 ≡ (ok pool_quit, s') =
        ap (λ l. fds_round os p cpset l s1) f ∙ (fds_round-quits cpset pre post fd s1 s' h r q) in
      listening-loop (suc rounds) fuel s s' l (
        pool_loop-quits rounds fuel (watched os p s) cpset s s1 s'
          (wait_ready-selects fuel (watched os p s) cpset s w e)
          (pool_round-quits fuel cpset s1 s' m round))

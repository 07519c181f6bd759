-- ===== src/Tunnel/Relay.antt =====
-- What a tunnel without a callback has copied, however it ends.
use socketxx.Common.{
  ℕ, zero, suc, ◌≡◌, ◌∙◌, refl, sym, ap, ◌==◌, Bool, true, false, Option, none, some, List, [], ◌∷◌,
  ◌++◌, inl, inr, Bool-cases,
}
use socketxx.Common.Int.{ℤ}
use socketxx.Common.Outcome.{Outcome, ok, throws, halts, Exec, resume, pure, ◌>>◌}
use socketxx.BaseIo.{Timeval}
use socketxx.BaseIo.Pipe.{eintr}
use socketxx.Server.{is_set}
use socketxx.Tunnel.{
  Side, Wiring, is_connection_closed, relay, relay_if, copy_round, caught, answered, copy_loop,
  do_copy_tunneling, intercept,
}
use socketxx.Tunnel.Flow.{
  Flow, Level, Stays, Took, Relayed, Ended, Carries, Waits, Level→Behind, Level→Relayed,
  Stays-Level, Stays-trans, Put-Relayed,
}

resume-pure : {W A B : Type 0} (a : B) (r : Outcome A) (w : W) → (resume r (λ _. pure a) w).1 ≡ w
resume-pure a (ok _) w = refl
resume-pure a (throws e) w = refl
resume-pure a (halts h) w = refl

module _ {W : Type 0} {source target : Side W} {here there : Flow W}
    (κ : Carries source target here there) (dir : Bool) where
  relay-write :
      (sz : ℕ) (bs : List ℕ) (w : W)
      → here.came w ≡ here.went w ++ bs
      → Relayed here ((target.o bs >> pure sz) w) × Stays there w ((target.o bs >> pure sz) w).1
  relay-write sz bs w b =
      let (p, s) = κ.o_puts bs w in
      let r = target.o bs w in
      (
        Put-Relayed here sz bs w r.0 r.1 b p,
        (
          ap there.came (resume-pure sz r.0 r.1) ∙ s.0,
          ap there.went (resume-pure sz r.0 r.1) ∙ s.1,
        ),
      )

  relay-read :
      (sz : ℕ) (r : Outcome (List ℕ)) (w w' : W)
      → Level here w
      → Took here w (r, w')
      → Relayed here (resume r (λ bs. target.o bs >> pure sz) w')
        × Stays there w' (resume r (λ bs. target.o bs >> pure sz) w').1
  relay-read sz (ok bs) w w' l (c, g) = relay-write sz bs w' (c ∙ ap (λ q. q ++ bs) (l ∙ sym g))
  relay-read sz (throws e) w w' l s =
      (Level→Relayed here {A = ℕ} (throws e) w' (Stays-Level here w w' s l), (refl, refl))
  relay-read sz (halts h) w w' l s =
      (Level→Relayed here {A = ℕ} (halts h) w' (Stays-Level here w w' s l), (refl, refl))

  relay-Relayed :
      (sz : ℕ) (w : W)
      → Level here w
      → Relayed here (relay none dir source target sz w)
        × Stays there w (relay none dir source target sz w).1
  unfolding relay intercept
  relay-Relayed sz w l =
      let (took, s) = κ.i_takes sz w in
      let r = source.i sz w in
      let (d, s') = relay-read sz r.0 w r.1 l took in (d, Stays-trans there w r.1 _ s s')

  relay_if-Relayed :
      (ready : Bool) (sz : ℕ) (w : W)
      → Level here w
      → Relayed here (relay_if none ready dir source target sz w)
        × Stays there w (relay_if none ready dir source target sz w).1
  unfolding relay_if
  relay_if-Relayed true sz w l = relay-Relayed sz w l
  relay_if-Relayed false sz w l = (l, (refl, refl))

module _ {W : Type 0} (x : Wiring W) {s1 s2 : Side W} {forth back : Flow W}
    (κ1 : Carries s1 s2 forth back) (κ2 : Carries s2 s1 back forth) (ω1 : Waits x forth)
    (ω2 : Waits x back) where
  second-Relayed :
      (ready : List ℤ) (r : Outcome ℕ) (w : W)
      → Relayed forth (r, w)
      → Level back w
      → Relayed forth (resume r (relay_if none (is_set s2.fd ready) false s2 s1) w)
        × Relayed back (resume r (relay_if none (is_set s2.fd ready) false s2 s1) w)
  second-Relayed ready (ok sz) w l b =
      let (d, s) = relay_if-Relayed κ2 false (is_set s2.fd ready) sz w b in
      (Level→Relayed forth _ _ (Stays-Level forth w _ s l), d)
  second-Relayed ready (throws e) w l b = (l, Level→Relayed back {A = ℕ} (throws e) w b)
  second-Relayed ready (halts h) w l b = (l, Level→Relayed back {A = ℕ} (halts h) w b)

  copy_round-Relayed :
      (ready : List ℤ) (sz : ℕ) (w : W)
      → Level forth w
      → Level back w
      → Relayed forth (copy_round none s1 s2 ready sz w)
        × Relayed back (copy_round none s1 s2 ready sz w)
  unfolding copy_round
  copy_round-Relayed ready sz w l b =
      let (d, s) = relay_if-Relayed κ1 true (is_set s1.fd ready) sz w l in
      let first = relay_if none (is_set s1.fd ready) true s1 s2 sz w in
      second-Relayed ready first.0 first.1 d (Stays-Level back w first.1 s b)

  -- What the rounds that follow do, from a state in which all is copied.
  abbrev Continues : (ℕ → Exec W (Unit {0})) → Type 0
  Continues again =
      (sz : ℕ) (w : W)
      → Level forth w
      → Level back w
      → Ended forth (again sz w) × Ended back (again sz w)

  caught-Relayed :
      (again : ℕ → Exec W (Unit {0})) (r : Outcome ℕ) (w : W)
      → Continues again
      → Relayed forth (r, w)
      → Relayed back (r, w)
      → Ended forth (caught again (r, w)) × Ended back (caught again (r, w))
  unfolding caught
  caught-Relayed again (ok sz) w c l b = c sz w l b
  caught-Relayed again (throws e) w c (l, l') (b, b') = elim (Bool-cases (is_connection_closed e)) [
    | inl closed ↦ rw closed (l' closed, b' closed)
    | inr other ↦ rw other ((l, other), (b, other))
  ]
  caught-Relayed again (halts h) w c l b = (l, b)

  answered-Relayed :
      (again : ℕ → Exec W (Unit {0})) (sz : ℕ) (r : Option (List ℤ)) (w : W)
      → Continues again
      → Level forth w
      → Level back w
      → Ended forth (answered x none s1 s2 again sz (r, w))
        × Ended back (answered x none s1 s2 again sz (r, w))
  unfolding answered is_connection_closed
  answered-Relayed again sz none w c l b = elim (Bool-cases (x.errno w == eintr)) [
    | inl interrupted ↦ rw interrupted (c sz w l b)
    | inr failed ↦ rw failed ((Level→Behind forth w l, refl), (Level→Behind back w b, refl))
  ]
  answered-Relayed again sz (some []) w c l b =
      ((Level→Behind forth w l, refl), (Level→Behind back w b, refl))
  answered-Relayed again sz (some (fd ∷ fds)) w c l b =
      let (l', b') = copy_round-Relayed (fd ∷ fds) sz w l b in
      let r = copy_round none s1 s2 (fd ∷ fds) sz w in caught-Relayed again r.0 r.1 c l' b'

  copy_loop-Relayed :
      (fuel : ℕ) (timeout : Timeval) → Continues (copy_loop x none s1 s2 fuel timeout)
  unfolding copy_loop
  copy_loop-Relayed zero timeout sz w l b = (Level→Behind forth w l, Level→Behind back w b)
  copy_loop-Relayed (suc fuel) timeout sz w l b =
      let select = x.select _ (s1.fd ∷ s2.fd ∷ []) _ w in
      answered-Relayed (copy_loop x none s1 s2 fuel timeout) sz select.0 select.1
        (copy_loop-Relayed fuel timeout) (Stays-Level forth w select.1 (ω1.select_stays _ _ _ w) l)
        (Stays-Level back w select.1 (ω2.select_stays _ _ _ w) b)

  -- No callback; ends whose failed reads take nothing, and whose failed writes write a first part
  -- and do not fail with the result 0; and all is copied at the start. However often select() is
  -- called, and whatever fails: where the tunnel returns, all that came from each side has gone to
  -- the other in order; where it throws or does not go on, a first part of it has, and what it
  -- throws is not the exception of a side that has closed.
  pub do_copy_tunneling-Ended :
      (fuel page : ℕ) (timeout : Timeval) (w : W)
      → Level forth w
      → Level back w
      → Ended forth (do_copy_tunneling x none s1 s2 fuel page timeout w)
        × Ended back (do_copy_tunneling x none s1 s2 fuel page timeout w)
  unfolding do_copy_tunneling
  do_copy_tunneling-Ended fuel page timeout w l b = copy_loop-Relayed fuel timeout page w l b

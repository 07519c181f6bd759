-- ===== src/Tunnel/Ends.antt =====
-- A tunnel between ends that run dry comes to an end.
use socketxx.Common.{
  ℕ, zero, suc, ◌+◌, ◌≤◌, ◌<◌, ◌≡◌, ◌==◌, ◌||◌, Bool, true, false, Option, none, some, List, [],
  ◌∷◌, inl, inr, Bool-cases, arith,
}
use socketxx.Common.Int.{ℤ}
use socketxx.Common.Outcome.{Finishes, Outcome, ok, throws, halts, Exec, resume, pure, ◌>>=◌}
use socketxx.BaseIo.{Timeval}
use socketxx.BaseIo.Pipe.{eintr}
use socketxx.Server.{is_set}
use socketxx.Tunnel.{
  Side, Wiring, Callback, is_connection_closed, relay, relay_if, copy_round, caught, answered,
  copy_loop, do_copy_tunneling, intercept, replaced,
}

module _ {W : Type 0} (left : W → ℕ) where
  -- It finishes, and what it returns has used at least `n` of what is left.
  abbrev pub Uses : {A : Type 0} → ℕ → W → Outcome A × W → Type 0
  Uses n w (ok a, w') = left w' + n ≤ left w
  Uses n w (throws e, w') = Unit {0}
  Uses n w (halts h, w') = ⊥

  -- What is left, the bytes that will come from this side among it, is less after each read.
  pub record RunsDry (s : Side W) : Type 0 where
    pub i_uses : (n : ℕ) (w : W) → Uses 1 w (s.i n w)
    pub o_uses : (d : List ℕ) (w : W) → Uses 0 w (s.o d w)

  -- select() gives a descriptor that it watches, the time is over, or it fails; there is one
  -- interrupt less after each.
  abbrev pub Answers : ℤ → ℤ → (W → ℕ) → W → Option (List ℤ) × W → Type 0
  Answers fd1 fd2 errno w (none, w') = (errno w' == eintr) ≡ true → left w' + 1 ≤ left w
  Answers fd1 fd2 errno w (some [], w') = Unit {0}
  Answers fd1 fd2 errno w (some (fd ∷ fds), w') =
      (left w' ≤ left w) × ((is_set fd1 (fd ∷ fds) || is_set fd2 (fd ∷ fds)) ≡ true)

  pub record RunsOut (x : Wiring W) (fd1 fd2 : ℤ) : Type 0 where
    pub select_answers :
        (n : ℤ) (fds : List ℤ) (tm : Option Timeval) (w : W)
        → Answers fd1 fd2 x.errno w (x.select n fds tm w)

  -- A callback that returns or throws, and leaves the sides alone.
  abbrev pub Harmless : Callback W → Type 0
  Harmless none = Unit {0}
  Harmless (some f) = (dir : Bool) (bs : List ℕ) (sz : ℕ) (w : W) → Uses 0 w (f dir bs sz w)

  Uses-later :
      {A : Type 0} (m n : ℕ) (w w' : W) (r : Outcome A) (u : W)
      → left w' + m ≤ left w
      → Uses n w' (r, u)
      → Uses (m + n) w (r, u)
  Uses-later m n w w' (ok a) u h k = omega (arith, h, k)
  Uses-later m n w w' (throws e) u h k = tt
  Uses-later m n w w' (halts e) u h k = k

  Uses-resume :
      {A B : Type 0} (m n : ℕ) (w : W) (r : Outcome A) (w' : W) (g : A → Exec W B)
      → Uses m w (r, w')
      → ((a : A) (u : W) → Uses n u (g a u))
      → Uses (m + n) w (resume r g w')
  Uses-resume m n w (ok a) w' g h k = Uses-later m n w w' (g a w').0 (g a w').1 h (k a w')
  Uses-resume m n w (throws e) w' g h k = tt
  Uses-resume m n w (halts e) w' g h k = h

  Uses-bind :
      {A B : Type 0} (m n : ℕ) (e : Exec W A) (g : A → Exec W B)
      → ((w : W) → Uses m w (e w))
      → ((a : A) (u : W) → Uses n u (g a u))
      → (w : W) → Uses (m + n) w ((e >>= g) w)
  Uses-bind m n e g h k w = Uses-resume m n w (e w).0 (e w).1 g (h w) k

  Uses-pure : {A : Type 0} (a : A) (w : W) → Uses 0 w (pure a w)
  Uses-pure a w = omega arith

  intercept-Uses :
      (f : Callback W) (dir : Bool) (sz : ℕ) (bs : List ℕ)
      → Harmless f
      → (w : W) → Uses 0 w (intercept f dir sz bs w)
  unfolding intercept
  intercept-Uses none dir sz bs h w = omega arith
  intercept-Uses (some f) dir sz bs h w =
      Uses-bind 0 0 (f dir bs sz) _ (h dir bs sz) (λ r. Uses-pure (replaced sz r)) w

  relay-Uses :
      (f : Callback W) (dir : Bool) (source target : Side W) (sz : ℕ)
      → Harmless f
      → RunsDry source
      → RunsDry target
      → (w : W) → Uses 1 w (relay f dir source target sz w)
  unfolding relay
  relay-Uses f dir source target sz h p q = Uses-bind 1 0 (source.i sz) _ (p.i_uses sz) (λ bs.
      Uses-bind 0 0 (intercept f dir sz bs) _ (intercept-Uses f dir sz bs h)
        (λ out. Uses-bind 0 0 (target.o out.0) _ (q.o_uses out.0) (λ _. Uses-pure out.1)))

abbrev one_if : Bool → ℕ
one_if true = 1
one_if false = 0

module _ {W : Type 0} (left : W → ℕ) (x : Wiring W) (f : Callback W) (s1 s2 : Side W)
    (h : Harmless left f) (p : RunsDry left s1) (q : RunsDry left s2)
    (ω : RunsOut left x s1.fd s2.fd) where
  relay_if-Uses :
      (ready dir : Bool) (source target : Side W) (sz : ℕ)
      → RunsDry left source
      → RunsDry left target
      → (w : W) → Uses left (one_if ready) w (relay_if f ready dir source target sz w)
  unfolding relay_if
  relay_if-Uses true dir source target sz a b w = relay-Uses left f dir source target sz h a b w
  relay_if-Uses false dir source target sz a b w = Uses-pure left sz w

  copy_round-Uses :
      (ready : List ℤ) (sz : ℕ) (w : W)
      → Uses left
          (one_if (is_set s1.fd ready) + one_if (is_set s2.fd ready))
          w
          (copy_round f s1 s2 ready sz w)
  unfolding copy_round
  copy_round-Uses ready sz w =
      Uses-bind left (one_if (is_set s1.fd ready)) (one_if (is_set s2.fd ready)) _ _
        (relay_if-Uses (is_set s1.fd ready) true s1 s2 sz p q)
        (λ sz'. relay_if-Uses (is_set s2.fd ready) false s2 s1 sz' q p) w

  some_ready : (a b : Bool) → (a || b) ≡ true → 1 ≤ one_if a + one_if b
  some_ready a b e = ground arith

  caught-Finishes :
      (n fuel : ℕ) (again : ℕ → Exec W (Unit {0})) (r : Outcome ℕ) (w w' : W)
      → left w ≤ fuel
      → 1 ≤ n
      → ((sz : ℕ) (u : W) → left u < fuel → Finishes (again sz u))
      → Uses left n w (r, w')
      → Finishes (caught again (r, w'))
  unfolding caught
  caught-Finishes n fuel again (ok sz) w w' b one c u = c sz w' (omega (arith, b, one, u))
  caught-Finishes n fuel again (throws e) w w' b one c u =
      elim (Bool-cases (is_connection_closed e)) [ inl y ↦ rw y tt | inr y ↦ rw y tt ]
  caught-Finishes n fuel again (halts e) w w' b one c u = u

  answered-Finishes :
      (fuel sz : ℕ) (again : ℕ → Exec W (Unit {0})) (r : Option (List ℤ)) (w w' : W)
      → left w ≤ fuel
      → ((sz : ℕ) (u : W) → left u < fuel → Finishes (again sz u))
      → Answers left s1.fd s2.fd x.errno w (r, w')
      → Finishes (answered x f s1 s2 again sz (r, w'))
  unfolding answered
  answered-Finishes fuel sz again none w w' b c a = elim (Bool-cases (x.errno w' == eintr)) [
    | inl y ↦ rw y (c sz w' (omega (arith, a y, b)))
    | inr y ↦ rw y tt
  ]
  answered-Finishes fuel sz again (some []) w w' b c a = tt
  answered-Finishes fuel sz again (some (fd ∷ fds)) w w' b c (le, set) =
      let r = copy_round f s1 s2 (fd ∷ fds) sz w' in
      caught-Finishes _ fuel again r.0 w' r.1 (omega (arith, le, b)) (some_ready _ _ set) c
        (copy_round-Uses (fd ∷ fds) sz w')

  copy_loop-Finishes :
      (fuel : ℕ) (timeout : Timeval) (sz : ℕ) (w : W)
      → left w < fuel
      → Finishes (copy_loop x f s1 s2 fuel timeout sz w)
  unfolding copy_loop
  copy_loop-Finishes zero timeout sz w b = absurd (omega (arith, b))
  copy_loop-Finishes (suc fuel) timeout sz w b =
      let r = x.select _ (s1.fd ∷ s2.fd ∷ []) _ w in
      answered-Finishes fuel sz (copy_loop x f s1 s2 fuel timeout) r.0 w r.1 (omega (arith, b))
        (copy_loop-Finishes fuel timeout) (ω.select_answers _ _ _ w)

  -- Where each read that succeeds, and each interrupt of select(), uses up some of what is left,
  -- what else is called uses up none back and does not hang, and select() names a side that is
  -- ready: the tunnel returns or throws, after no more calls of select() than that and one.
  pub do_copy_tunneling-Finishes :
      (fuel page : ℕ) (timeout : Timeval) (w : W)
      → left w < fuel
      → Finishes (do_copy_tunneling x f s1 s2 fuel page timeout w)
  unfolding do_copy_tunneling
  do_copy_tunneling-Finishes fuel page timeout w b = copy_loop-Finishes fuel timeout page w b

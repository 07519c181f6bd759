-- ===== src/Tunnel/Flow.antt =====
-- The bytes that pass through one direction of a tunnel (socket++/io/tunnel.cpp).
use socketxx.Common.{
  ℕ, ◌≡◌, ◌∙◌, sym, ap, true, false, Option, List, [], ◌++◌, append-nil, append_assoc,
}
use socketxx.Common.Int.{ℤ}
use socketxx.Common.Outcome.{Outcome, ok, throws, halts, resume, pure}
use socketxx.BaseIo.{Timeval}
use socketxx.Tunnel.{Side, Wiring, is_connection_closed}

-- One direction: what has come out of its source, and what has gone into its target.
pub record Flow (W : Type 0) : Type 0 where
  pub came : W → List ℕ
  pub went : W → List ℕ

module _ {W : Type 0} (flow : Flow W) where
  abbrev pub Level : W → Type 0
  Level w = flow.came w ≡ flow.went w

  -- What has gone is the first part of what has come.
  abbrev pub Behind : W → Type 0
  Behind w = (rest : List ℕ) × (flow.came w ≡ flow.went w ++ rest)

  abbrev pub Stays : W → W → Type 0
  Stays w w' = (flow.came w' ≡ flow.came w) × (flow.went w' ≡ flow.went w)

  -- A read that fails takes nothing.
  abbrev pub Took : W → Outcome (List ℕ) × W → Type 0
  Took w (ok bs, w') = (flow.came w' ≡ flow.came w ++ bs) × (flow.went w' ≡ flow.went w)
  Took w (throws e, w') = Stays w w'
  Took w (halts h, w') = Stays w w'

  -- A write that fails has written a first part, and does not fail with the result 0.
  abbrev pub Put : List ℕ → W → Outcome (Unit {0}) × W → Type 0
  Put d w (ok _, w') = (flow.went w' ≡ flow.went w ++ d) × (flow.came w' ≡ flow.came w)
  Put d w (throws e, w') =
      (is_connection_closed e ≡ false)
      × ((done left : List ℕ) × (d ≡ done ++ left)
          × (flow.went w' ≡ flow.went w ++ done)
          × (flow.came w' ≡ flow.came w))
  Put d w (halts h, w') =
      (done left : List ℕ) × (d ≡ done ++ left)
      × (flow.went w' ≡ flow.went w ++ done)
      × (flow.came w' ≡ flow.came w)

  -- All is copied where the tunnel ends normally, and a first part in any case.
  abbrev pub Relayed {ℓ} : {A : Type ℓ} → Outcome A × W → Type 0
  Relayed (ok a, w) = Level w
  Relayed (throws e, w) = Behind w × (is_connection_closed e ≡ true → Level w)
  Relayed (halts h, w) = Behind w

  -- All is copied where the tunnel returns; what it throws is not that a side has closed.
  abbrev pub Ended {ℓ} : {A : Type ℓ} → Outcome A × W → Type 0
  Ended (ok a, w) = Level w
  Ended (throws e, w) = Behind w × (is_connection_closed e ≡ false)
  Ended (halts h, w) = Behind w

-- The ends of a direction, and that the other direction goes on its own way.
pub record Carries {W : Type 0} (source target : Side W) (here there : Flow W) : Type 0 where
  pub i_takes : (n : ℕ) (w : W) → Took here w (source.i n w) × Stays there w (source.i n w).1
  pub o_puts : (d : List ℕ) (w : W) → Put here d w (target.o d w) × Stays there w (target.o d w).1

pub record Waits {W : Type 0} (x : Wiring W) (flow : Flow W) : Type 0 where
  pub select_stays :
      (n : ℤ) (fds : List ℤ) (tm : Option Timeval) (w : W) → Stays flow w (x.select n fds tm w).1

module _ {W : Type 0} (flow : Flow W) where
  pub Level→Behind : (w : W) → Level flow w → Behind flow w
  Level→Behind w l = ([], l ∙ sym (append-nil (flow.went w)))

  pub Level→Relayed : {A : Type 0} (r : Outcome A) (w : W) → Level flow w → Relayed flow (r, w)
  Level→Relayed (ok a) w l = l
  Level→Relayed (throws e) w l = (Level→Behind w l, λ _. l)
  Level→Relayed (halts h) w l = Level→Behind w l

  pub Stays-Level : (w w' : W) → Stays flow w w' → Level flow w → Level flow w'
  Stays-Level w w' (c, g) l = c ∙ l ∙ sym g

  pub Stays-trans : (w w' u : W) → Stays flow w w' → Stays flow w' u → Stays flow w u
  Stays-trans w w' u (c, g) (c', g') = (c' ∙ c, g' ∙ g)

  behind :
      (w w' : W) (d done left : List ℕ)
      → flow.came w ≡ flow.went w ++ d
      → d ≡ done ++ left
      → flow.went w' ≡ flow.went w ++ done
      → flow.came w' ≡ flow.came w
      → flow.came w' ≡ flow.went w' ++ left
  behind w w' d done left b split g c =
      c
      ∙ b
      ∙ ap (λ q. flow.went w ++ q) split
      ∙ sym (append_assoc (flow.went w) done left)
      ∙ ap (λ q. q ++ left) (sym g)

  -- A write of what was read before it.
  pub Put-Relayed :
      {A : Type 0} (a : A) (d : List ℕ) (w : W) (r : Outcome (Unit {0})) (w' : W)
      → flow.came w ≡ flow.went w ++ d
      → Put flow d w (r, w')
      → Relayed flow (resume r (λ _. pure a) w')
  Put-Relayed a d w (ok _) w' b (g, c) = c ∙ b ∙ sym g
  Put-Relayed a d w (throws e) w' b (open_still, (done, left, split, g, c)) =
      ((left, behind w w' d done left b split g c), λ closed. absurd (cc (closed, open_still)))
  Put-Relayed a d w (halts h) w' b (done, left, split, g, c) =
      (left, behind w w' d done left b split g c)

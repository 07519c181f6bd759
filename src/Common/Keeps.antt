-- ===== src/Common/Keeps.antt =====
-- Operations that leave a part of the state alone, however they end.
use socketxx.Common.Tests.{if◌then◌else◌}
use mathlib.Core.Path.{◌≡◌, refl, ◌∙◌}
use mathlib.Core.Bool.{Bool, true, false}
use socketxx.Common.Outcome.{Outcome, ok, throws, halts, Exec, ◌>>=◌, resume, pure}

module _ {S P : Type 0} (part : S → P) where
  pub record Keeps {A : Type 0} (m : Exec S A) : Type 0 where
    pub at : (s : S) → part (m s).1 ≡ part s

  pub Keeps-resume :
      {A B : Type 0} (f : A → Exec S B)
      → ((a : A) → Keeps (f a))
      → (r : Outcome A) (s : S) → part (resume r f s).1 ≡ part s
  Keeps-resume f h (ok a) s = (h a).at s
  Keeps-resume f h (throws e) s = refl
  Keeps-resume f h (halts e) s = refl

  pub Keeps-bind :
      {A B : Type 0} {m : Exec S A} (f : A → Exec S B)
      → Keeps m
      → ((a : A) → Keeps (f a))
      → Keeps (m >>= f)
  Keeps-bind {m = m} f h k = record { at = λ s. Keeps-resume f k (m s).0 (m s).1 ∙ h.at s }

  pub Keeps-pure : {A : Type 0} (a : A) → Keeps (pure a)
  Keeps-pure a = record { at = λ s. refl }

  pub Keeps-if :
      {A : Type 0} {m n : Exec S A} (b : Bool) → Keeps m → Keeps n → Keeps (if b then m else n)
  Keeps-if true h k = h
  Keeps-if false h k = k

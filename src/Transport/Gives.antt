-- ===== src/Transport/Gives.antt =====
-- Writers whose value matters.
use socketxx.Common.{ℕ, ◌≡◌, refl, sym, ap, ◌∙◌, List, [], ◌++◌, append_assoc, append-nil}
use mathlib.Core.Path.{subst}
use socketxx.Common.Outcome.{Outcome, Exec, ok, pure, ◌>>=◌, ◌>>◌, resume}
use socketxx.Transport.{Transport, IsStream, Writes}
use socketxx.Transport.Sends.{Sends, Quiet, Sends-Writes}

module _ {t : Transport} (σ : IsStream t) where
  -- `m` returns a value with the property `Q`, and has written exactly `bs`.
  pub record Gives {A : Type 0} (m : Exec t.State A) (bs : List ℕ) (Q : A → Type 0) : Type 0 where
    pub at :
        (s : t.State)
        → σ.IsUp s
        → (a : A) × (s' : t.State) × (m s ≡ (ok a, s'))
          × Q a
          × (σ.sent s' ≡ σ.sent s ++ bs)
          × (σ.pending s' ≡ σ.pending s)
          × σ.IsUp s'

module _ {t : Transport} {σ : IsStream t} where
  pub Gives-pure : {A : Type 0} {Q : A → Type 0} (a : A) → Q a → Gives σ (pure a) [] Q
  Gives-pure a q = record { at = λ s up. (a, s, refl, q, sym (append-nil _), refl, up) }

  pub Gives-Sends :
      {A : Type 0} {m : Exec t.State A} {bs : List ℕ} → Sends σ m bs → Gives σ m bs (λ _. Unit {0})
  Gives-Sends h = record {
    at = λ s up. let (a, s', e, f, p, u) = h.at s up in (a, s', e, tt, f, p, u);
  }

  pub Gives-Quiet :
      {A B : Type 0} {m : Exec t.State A} (f : A → Exec t.State B) {ys : List ℕ} {a : A}
      {Q : B → Type 0}
      → Quiet σ m a
      → Gives σ (f a) ys Q
      → Gives σ (m >>= f) ys Q
  Gives-Quiet {A} f {ys} hm hf = record {
    at = λ s up.
        let (s1, e1, f1, p1, u1) = hm.at s up in
        let (b, s2, e2, q, f2, p2, u2) = hf.at s1 u1 in
        (
          b,
          s2,
          ap (λ (r : Outcome A × t.State). resume r.0 f r.1) e1 ∙ e2,
          q,
          f2 ∙ ap (λ l. l ++ ys) f1,
          p2 ∙ p1,
          u2,
        );
  }

  pub Gives-bind :
      {A B : Type 0} {m : Exec t.State A} (f : A → Exec t.State B) {xs ys : List ℕ} {P : A → Type 0}
      {Q : B → Type 0}
      → Gives σ m xs P
      → ((a : A) → P a → Gives σ (f a) ys Q)
      → Gives σ (m >>= f) (xs ++ ys) Q
  Gives-bind {A} f {xs} {ys} hm hf = record {
    at = λ s up.
        let (a, s1, e1, q1, f1, p1, u1) = hm.at s up in
        let (b, s2, e2, q2, f2, p2, u2) = (hf a q1).at s1 u1 in
        (
          b,
          s2,
          ap (λ (r : Outcome A × t.State). resume r.0 f r.1) e1 ∙ e2,
          q2,
          f2 ∙ ap (λ l. l ++ ys) f1 ∙ append_assoc (σ.sent s) xs ys,
          p2 ∙ p1,
          u2,
        );
  }

  pub Gives-then-Quiet :
      {A B : Type 0} {m : Exec t.State A} {n : Exec t.State B} {ys : List ℕ} {a : A}
      {Q : B → Type 0}
      → Quiet σ m a
      → Gives σ n ys Q
      → Gives σ (m >> n) ys Q
  Gives-then-Quiet {A} {B} {m} {n} hm hn = Gives-Quiet (λ _. n) hm hn

  pub Gives-then :
      {A : Type 0} {m : Exec t.State (Unit {0})} {n : Exec t.State A} {xs ys : List ℕ}
      {Q : A → Type 0}
      → Writes σ m xs
      → Gives σ n ys Q
      → Gives σ (m >> n) (xs ++ ys) Q
  Gives-then {A} {m} {n} hm hn = Gives-bind (λ _. n) (Gives-Sends (Sends-Writes hm)) (λ _ _. hn)

  pub Gives-eq :
      {A : Type 0} {m : Exec t.State A} {xs ys : List ℕ} {Q : A → Type 0}
      → xs ≡ ys
      → Gives σ m xs Q
      → Gives σ m ys Q
  Gives-eq {A} {m} {Q} p h = subst (λ l. Gives σ m l Q) p h

  pub Writes-Gives :
      {m : Exec t.State (Unit {0})} {bs : List ℕ} {Q : Unit {0} → Type 0}
      → Gives σ m bs Q
      → Writes σ m bs
  Writes-Gives h = record {
    at = λ s up. let (a, s', e, q, f, p, u) = h.at s up in (s', e, f, p, u);
  }

-- ===== src/Transport/Sends.antt =====
-- Writers that return a value, and steps that leave the link alone.
use mathlib.Core.Path.{subst}
use socketxx.Common.{ℕ, ◌≡◌, refl, sym, ap, ◌∙◌, List, [], ◌++◌, append_assoc, append-nil}
use socketxx.Common.Outcome.{Outcome, Exec, ok, pure, ◌>>=◌, resume}
use socketxx.Transport.{Transport, IsStream, Writes}

module _ {t : Transport} (σ : IsStream t) where
  -- `m` returns, and has written exactly `bs`.
  pub record Sends {A : Type 0} (m : Exec t.State A) (bs : List ℕ) : Type 0 where
    pub at :
        (s : t.State)
        → σ.IsUp s
        → (a : A) × (s' : t.State) × (m s ≡ (ok a, s'))
          × (σ.sent s' ≡ σ.sent s ++ bs)
          × (σ.pending s' ≡ σ.pending s)
          × σ.IsUp s'

  -- `m` returns `a`, and the link is as it was.
  pub record Quiet {A : Type 0} (m : Exec t.State A) (a : A) : Type 0 where
    pub at :
        (s : t.State)
        → σ.IsUp s
        → (s' : t.State) × (m s ≡ (ok a, s'))
          × (σ.sent s' ≡ σ.sent s)
          × (σ.pending s' ≡ σ.pending s)
          × σ.IsUp s'

module _ {t : Transport} {σ : IsStream t} where
  pub Sends-Writes : {m : Exec t.State (Unit {0})} {bs : List ℕ} → Writes σ m bs → Sends σ m bs
  Sends-Writes h = record { at = λ s up. let (s', e, f, p, u) = h.at s up in (tt, s', e, f, p, u) }

  pub Writes-Sends : {m : Exec t.State (Unit {0})} {bs : List ℕ} → Sends σ m bs → Writes σ m bs
  Writes-Sends h = record { at = λ s up. let (a, s', e, f, p, u) = h.at s up in (s', e, f, p, u) }

  pub Sends-pure : {A : Type 0} (a : A) → Sends σ (pure a) []
  Sends-pure a = record { at = λ s up. (a, s, refl, sym (append-nil _), refl, up) }

  pub Sends-Quiet :
      {A B : Type 0} {m : Exec t.State A} (f : A → Exec t.State B) {ys : List ℕ} {a : A}
      → Quiet σ m a
      → Sends σ (f a) ys
      → Sends σ (m >>= f) ys
  Sends-Quiet {A} f {ys} hm hf = record {
    at = λ s up.
        let (s1, e1, f1, p1, u1) = hm.at s up in
        let (b, s2, e2, f2, p2, u2) = hf.at s1 u1 in
        (
          b,
          s2,
          ap (λ (r : Outcome A × t.State). resume r.0 f r.1) e1 ∙ e2,
          f2 ∙ ap (λ l. l ++ ys) f1,
          p2 ∙ p1,
          u2,
        );
  }

  pub Sends-bind :
      {A B : Type 0} {m : Exec t.State A} (f : A → Exec t.State B) {xs ys : List ℕ}
      → Sends σ m xs
      → ((a : A) → Sends σ (f a) ys)
      → Sends σ (m >>= f) (xs ++ ys)
  Sends-bind {A} f {xs} {ys} hm hf = record {
    at = λ s up.
        let (a, s1, e1, f1, p1, u1) = hm.at s up in
        let (b, s2, e2, f2, p2, u2) = (hf a).at s1 u1 in
        (
          b,
          s2,
          ap (λ (r : Outcome A × t.State). resume r.0 f r.1) e1 ∙ e2,
          f2 ∙ ap (λ l. l ++ ys) f1 ∙ append_assoc (σ.sent s) xs ys,
          p2 ∙ p1,
          u2,
        );
  }

  pub Sends-eq :
      {A : Type 0} {m : Exec t.State A} {xs ys : List ℕ} → xs ≡ ys → Sends σ m xs → Sends σ m ys
  Sends-eq {A} {m} p h = subst (λ l. Sends σ m l) p h

  pub Quiet-Sends : {A : Type 0} {m : Exec t.State A} {a : A} → Quiet σ m a → Sends σ m []
  Quiet-Sends {A} {m} {a} h = record {
    at = λ s up.
        let (s', e, f, p, u) = h.at s up in (a, s', e, f ∙ sym (append-nil (σ.sent s)), p, u);
  }

-- ===== src/Transport/Fails.antt =====
-- Readers on a connection that ends before the bytes that they need are there.
use socketxx.Common.{
  ℕ, ◌<◌, ◌≡◌, sym, ap, ◌∙◌, Bool, true, false, List, [], ◌∷◌, ◌++◌, length, length-append,
  append-nil, arith, split_prefix, ltb, inl, inr, Bool-cases, if◌then◌else◌,
}
use mathlib.Core.Path.{subst}
use socketxx.Common.Outcome.{Outcome, Exception, Exec, throws, pure, ◌>>=◌, resume}
use socketxx.Transport.{Transport, IsStream, Reads}

module _ {t : Transport} (σ : IsStream t) where
  -- No more bytes come than are pending: a read of more than these throws.
  pub record EndsShort : Type 0 where
    pub i_fixsize_short :
        (n : ℕ) (s : t.State)
        → length (σ.pending s) < n
        → (e : Exception) × (s' : t.State) × (t.i_fixsize n s ≡ (throws e, s'))

  -- Where just a proper prefix of `bs` is left, `m` throws.
  pub record Fails {A : Type 0} (m : Exec t.State A) (bs : List ℕ) : Type 0 where
    pub at :
        (s : t.State) (b : ℕ) (missing : List ℕ)
        → bs ≡ σ.pending s ++ b ∷ missing
        → (e : Exception) × (s' : t.State) × (m s ≡ (throws e, s'))

module _ {t : Transport} {σ : IsStream t} where
  pub Fails-nothing : {A : Type 0} {m : Exec t.State A} → Fails σ m []
  Fails-nothing = record {
    at = λ s b missing h.
        absurd (omega (arith, ap length h, length-append (σ.pending s) (b ∷ missing)));
  }

  pub Fails-fixed :
      (ε : EndsShort σ) (bs : List ℕ) (n : ℕ) → length bs ≡ n → Fails σ (t.i_fixsize n) bs
  Fails-fixed ε bs n len = record {
    at = λ s b missing h.
        ε.i_fixsize_short n s
          (omega (arith, len, ap length h, length-append (σ.pending s) (b ∷ missing)));
  }

  -- Either the first reader falls short, or it takes its bytes and the second one does.
  split-Fails :
      {A B : Type 0} {m : Exec t.State A} (f : A → Exec t.State B) {xs ys : List ℕ} {a : A}
      → Reads σ m xs a
      → Fails σ m xs
      → Fails σ (f a) ys
      → (s : t.State) (b : ℕ) (missing : List ℕ) → xs ++ ys ≡ σ.pending s ++ b ∷ missing
      → (e : Exception) × (s' : t.State) × ((m >>= f) s ≡ (throws e, s'))
  split-Fails {A} {B} {m} f {xs} {ys} {a} hr hm hf s b missing h =
      let p = σ.pending s in
      elim (Bool-cases (ltb (length p) (length xs))) [
        | inl short ↦
            let (r, ex, er) = split_prefix p xs (b ∷ missing) ys (ground arith) h in
            elim r
                as (λ r.
                  xs ≡ p ++ r → (e : Exception) × (s' : t.State) × ((m >>= f) s ≡ (throws e, s'))) [
                    | [] ↦ λ ex. absurd (ground (arith, ap length ex, length-append p []))
                    | c ∷ r' ↦ λ ex.
                        let (e, s', run) = hm.at s c r' ex in
                        (e, s', ap (λ (o : Outcome A × t.State). resume o.0 f o.1) run)
                  ]
              ex
        | inr enough ↦
            let (p', ep, ey) = split_prefix xs p ys (b ∷ missing) (ground arith) (sym h) in
            let (s1, run, left, _) = hr.at s p' ep in
            let (e, s', run') = hf.at s1 b missing (ey ∙ ap (λ l. l ++ b ∷ missing) (sym left)) in
            (e, s', ap (λ (o : Outcome A × t.State). resume o.0 f o.1) run ∙ run')
      ]

  pub Fails-bind :
      {A B : Type 0} {m : Exec t.State A} (f : A → Exec t.State B) {xs ys : List ℕ} {a : A}
      → Reads σ m xs a
      → Fails σ m xs
      → Fails σ (f a) ys
      → Fails σ (m >>= f) (xs ++ ys)
  Fails-bind f hr hm hf = record { at = split-Fails f hr hm hf }

  pub Fails-eq :
      {A : Type 0} {m : Exec t.State A} {xs ys : List ℕ} → xs ≡ ys → Fails σ m xs → Fails σ m ys
  Fails-eq {A} {m} p h = subst (λ l. Fails σ m l) p h

  pub Fails-map :
      {A B : Type 0} {m : Exec t.State A} (g : A → B) {xs : List ℕ} {a : A}
      → Reads σ m xs a
      → Fails σ m xs
      → Fails σ (m >>= λ x. pure (g x)) xs
  Fails-map g {xs} hr hm =
      Fails-eq (append-nil xs) (Fails-bind (λ x. pure (g x)) hr hm Fails-nothing)

  pub Fails-else-branch :
      {A : Type 0} (m : Exec t.State A) {n : Exec t.State A} {xs : List ℕ} (b : Bool)
      → b ≡ false
      → Fails σ n xs
      → Fails σ (if b then m else n) xs
  Fails-else-branch m true e h = cc
  Fails-else-branch m false e h = h

-- ===== src/Transport.antt =====
-- What an I/O protocol asks of the BaseIO class under it (socket++/base_io.hpp): `_o`, which writes
-- a buffer whole, and `_i_fixsize`, which returns only with the whole buffer filled. `IsStream` is
-- the contract that a connected stream keeps.
pub mod Sends
pub mod Gives
pub mod Fails
use mathlib.Core.Path.{subst, subst₂}
use mathlib.Core.List.{append_assoc, append-nil}
use socketxx.Common.{
  Bool, true, false, if◌then◌else◌, ℕ, ◌≡◌, refl, sym, ap, ◌∙◌, List, [], ◌++◌, length,
}
use socketxx.Common.Outcome.{Outcome, Exec, ok, pure, ◌>>=◌, ◌>>◌, resume}

pub record Transport : Type 1 where
  pub State : Type 0
  pub o : List ℕ → Exec State (Unit {0})
  pub i_fixsize : ℕ → Exec State (List ℕ)

-- `sent` is all that was written so far, `pending` what the peer wrote and nobody read yet.
-- While the link is up a write is whole, and a read of bytes that are there takes just those.
pub record IsStream (t : Transport) : Type 1 where
  pub IsUp : t.State → Type 0
  pub sent : t.State → List ℕ
  pub pending : t.State → List ℕ
  pub o_sends :
      (bs : List ℕ) (s : t.State)
      → IsUp s
      → (s' : t.State) × (t.o bs s ≡ (ok tt, s'))
        × (sent s' ≡ sent s ++ bs)
        × (pending s' ≡ pending s)
        × IsUp s'
  pub i_fixsize_takes :
      (bs rest : List ℕ) (s : t.State)
      → pending s ≡ bs ++ rest
      → (s' : t.State) × (t.i_fixsize (length bs) s ≡ (ok bs, s'))
        × (pending s' ≡ rest)
        × (sent s' ≡ sent s)

module _ {t : Transport} (σ : IsStream t) where
  -- `m` returns, and has written exactly `bs`.
  pub record Writes (m : Exec t.State (Unit {0})) (bs : List ℕ) : Type 0 where
    pub at :
        (s : t.State)
        → σ.IsUp s
        → (s' : t.State) × (m s ≡ (ok tt, s'))
          × (σ.sent s' ≡ σ.sent s ++ bs)
          × (σ.pending s' ≡ σ.pending s)
          × σ.IsUp s'

  -- Where `bs` is the next input, `m` takes exactly `bs` and returns `a`.
  pub record Reads {A : Type 0} (m : Exec t.State A) (bs : List ℕ) (a : A) : Type 0 where
    pub at :
        (s : t.State) (rest : List ℕ)
        → σ.pending s ≡ bs ++ rest
        → (s' : t.State) × (m s ≡ (ok a, s')) × (σ.pending s' ≡ rest) × (σ.sent s' ≡ σ.sent s)

module _ {t : Transport} {σ : IsStream t} where
  pub Writes-o : (bs : List ℕ) → Writes σ (t.o bs) bs
  Writes-o bs = record { at = λ s up. σ.o_sends bs s up }

  pub Writes-nothing : Writes σ (pure tt) []
  Writes-nothing = record { at = λ s up. (s, refl, sym (append-nil _), refl, up) }

  pub Writes-then :
      {m n : Exec t.State (Unit {0})} {xs ys : List ℕ}
      → Writes σ m xs
      → Writes σ n ys
      → Writes σ (m >> n) (xs ++ ys)
  Writes-then {m} {n} {xs} {ys} wm wn = record {
    at = λ s up.
        let (s1, e1, f1, p1, u1) = wm.at s up in
        let (s2, e2, f2, p2, u2) = wn.at s1 u1 in
        (
          s2,
          ap (λ (r : Outcome (Unit {0}) × t.State). resume r.0 (λ _. n) r.1) e1 ∙ e2,
          f2 ∙ ap (λ l. l ++ ys) f1 ∙ append_assoc (σ.sent s) xs ys,
          p2 ∙ p1,
          u2,
        );
  }

  pub Reads-i_fixsize : (bs : List ℕ) → Reads σ (t.i_fixsize (length bs)) bs bs
  Reads-i_fixsize bs = record { at = λ s rest e. σ.i_fixsize_takes bs rest s e }

  pub Reads-pure : {A : Type 0} (a : A) → Reads σ (pure a) [] a
  Reads-pure a = record { at = λ s rest e. (s, refl, e, refl) }

  pub Reads-bind :
      {A B : Type 0} {m : Exec t.State A} (f : A → Exec t.State B) {xs ys : List ℕ} {a : A} {b : B}
      → Reads σ m xs a
      → Reads σ (f a) ys b
      → Reads σ (m >>= f) (xs ++ ys) b
  Reads-bind {A} {B} {m} f {xs} {ys} {a} {b} rm rf = record {
    at = λ s rest e.
        let (s1, e1, p1, f1) = rm.at s (ys ++ rest) (e ∙ append_assoc xs ys rest) in
        let (s2, e2, p2, f2) = rf.at s1 rest p1 in
        (s2, ap (λ (r : Outcome A × t.State). resume r.0 f r.1) e1 ∙ e2, p2, f2 ∙ f1);
  }

  pub Reads-fixed : (bs : List ℕ) (n : ℕ) → length bs ≡ n → Reads σ (t.i_fixsize n) bs bs
  Reads-fixed bs n e = subst (λ k. Reads σ (t.i_fixsize k) bs bs) e (Reads-i_fixsize bs)

  pub Reads-eq :
      {A : Type 0} {m : Exec t.State A} {xs ys : List ℕ} {a b : A}
      → xs ≡ ys
      → a ≡ b
      → Reads σ m xs a
      → Reads σ m ys b
  Reads-eq {A} {m} p q h = subst₂ (λ l c. Reads σ m l c) p q h

  -- A last step that only computes.
  pub Reads-map :
      {A B : Type 0} {m : Exec t.State A} (g : A → B) {xs : List ℕ} {a : A}
      → Reads σ m xs a
      → Reads σ (m >>= λ x. pure (g x)) xs (g a)
  Reads-map g {xs} {a} h =
      Reads-eq (append-nil xs) refl (Reads-bind (λ x. pure (g x)) h (Reads-pure (g a)))

  pub Writes-eq :
      {m : Exec t.State (Unit {0})} {xs ys : List ℕ} → xs ≡ ys → Writes σ m xs → Writes σ m ys
  Writes-eq {m} p h = subst (λ l. Writes σ m l) p h

  pub Writes-if :
      {m n : Exec t.State (Unit {0})} {xs ys : List ℕ} (b : Bool)
      → (b ≡ true → Writes σ m xs)
      → (b ≡ false → Writes σ n ys)
      → Writes σ (if b then m else n) (if b then xs else ys)
  Writes-if true hm hn = hm refl
  Writes-if false hm hn = hn refl

  pub Reads-else-branch :
      {A : Type 0} (m : Exec t.State A) {n : Exec t.State A} {xs : List ℕ} {a : A} (b : Bool)
      → b ≡ false
      → Reads σ n xs a
      → Reads σ (if b then m else n) xs a
  Reads-else-branch m true e h = cc
  Reads-else-branch m false e h = h

-- A value crosses from one end to the other: some bytes are what the writer puts on the wire for
-- it, and what the reader takes off the wire to return it.
module _ {w r : Transport} (ω : IsStream w) (ρ : IsStream r) where
  pub record Crosses {A : Type 0} (m : Exec w.State (Unit {0})) (n : Exec r.State A) (a : A)
      : Type 0 where
    pub bytes : List ℕ
    pub written : Writes ω m bytes
    pub read : Reads ρ n bytes a

-- ===== src/Server/Pool/Highest.antt =====
-- The highest descriptor of a set, as clients_fill_fdset and the pools make it up
-- (socket++/handler/socket_server.hpp).
use mathlib.Core.Path.{subst}
use socketxx.Common.{
  sym, ap, ◌∙◌, ◌⊎◌, ◌||◌, zero, suc, ◌≡◌, refl, Bool, true, false, List, [], ◌∷◌, ◌++◌, arith,
  Bool-cases, inl, inr, if◌then◌else◌,
}
use socketxx.Common.Int.{ℤ, pos, negsuc, ltb_ℤ, eqb, succ}
use socketxx.BaseIo.Socket.Timeout.{eqb_sound}
use socketxx.Server.{ServerOs, is_set, highest}

-- `b` is at least `a`.
abbrev pub AtLeast : ℤ → ℤ → Type 0
AtLeast b a = ltb_ℤ b a ≡ false

pub AtLeast-refl : (a : ℤ) → AtLeast a a
AtLeast-refl (pos a) = ground arith
AtLeast-refl (negsuc a) = ground arith

AtLeast-trans : (c b a : ℤ) → AtLeast b a → AtLeast c b → AtLeast c a
AtLeast-trans (pos c) (pos b) (pos a) h k = ground arith
AtLeast-trans (pos c) (pos b) (negsuc a) h k = refl
AtLeast-trans (pos c) (negsuc b) (pos a) h k = ground arith
AtLeast-trans (pos c) (negsuc b) (negsuc a) h k = refl
AtLeast-trans (negsuc c) (pos b) (pos a) h k = ground arith
AtLeast-trans (negsuc c) (pos b) (negsuc a) h k = ground arith
AtLeast-trans (negsuc c) (negsuc b) (pos a) h k = ground arith
AtLeast-trans (negsuc c) (negsuc b) (negsuc a) h k = ground arith

AtLeast-of_lt : (a b : ℤ) → ltb_ℤ a b ≡ true → AtLeast b a
AtLeast-of_lt (pos a) (pos b) h = ground arith
AtLeast-of_lt (pos a) (negsuc b) h = ground arith
AtLeast-of_lt (negsuc a) (pos b) h = refl
AtLeast-of_lt (negsuc a) (negsuc b) h = ground arith

-- The descriptors of a set that are lower than a number.
abbrev pub below : ℤ → List ℤ → List ℤ
below n [] = []
below n (x ∷ xs) = let rest = below n xs in if ltb_ℤ x n then x ∷ rest else rest

eqb_refl : (a : ℤ) → eqb a a ≡ true
eqb_refl (pos a) = ground arith
eqb_refl (negsuc a) = ground arith

below_succ : (n x : ℤ) → AtLeast n x → ltb_ℤ x (succ n) ≡ true
below_succ (pos n) (pos x) h = ground arith
below_succ (pos n) (negsuc x) h = refl
below_succ (negsuc zero) (pos x) h = ground arith
below_succ (negsuc zero) (negsuc x) h = refl
below_succ (negsuc (suc n)) (pos x) h = ground arith
below_succ (negsuc (suc n)) (negsuc x) h = ground arith

or_assoc : (a b c : Bool) → ((a || b) || c) ≡ (a || (b || c))
or_assoc true b c = refl
or_assoc false b c = refl

or_right : (a b : Bool) → b ≡ true → (a || b) ≡ true
or_right true b h = refl
or_right false b h = h

module _ (os : ServerOs) where
  highest-top : (top : ℤ) (xs : List ℤ) → AtLeast (highest os top xs) top
  unfolding highest
  highest-top top [] = AtLeast-refl top
  highest-top top (x ∷ xs) = elim (Bool-cases (ltb_ℤ top x)) [
    | inl lt ↦
        AtLeast-trans (highest os (if ltb_ℤ top x then x else top) xs) x top
          (AtLeast-of_lt top x lt) (rw lt (highest-top x xs))
    | inr ge ↦ rw ge (highest-top top xs)
  ]

  larger : ℤ → ℤ → ℤ
  larger top x = if ltb_ℤ top x then x else top

  larger-right : (top x : ℤ) → AtLeast (larger top x) x
  unfolding larger
  larger-right top x = elim (Bool-cases (ltb_ℤ top x)) [
    | inl lt ↦ rw lt (AtLeast-refl x)
    | inr ge ↦ rw ge ge
  ]

  highest-mem : (top fd : ℤ) (xs : List ℤ) → is_set fd xs ≡ true → AtLeast (highest os top xs) fd
  unfolding highest is_set larger
  highest-mem top fd [] h = ground arith
  highest-mem top fd (x ∷ xs) h = elim (Bool-cases (eqb fd x)) [
    | inl e ↦
        AtLeast-trans (highest os (larger top x) xs) (larger top x) fd
          (subst (AtLeast (larger top x)) (sym (eqb_sound fd x e)) (larger-right top x))
          (highest-top (larger top x) xs)
    | inr e ↦ highest-mem (larger top x) fd xs (ground arith)
  ]

  is_set-append :
      (fd : ℤ) (xs ys : List ℤ)
      → is_set fd (xs ++ ys) ≡ true
      → (is_set fd xs ≡ true) ⊎ (is_set fd ys ≡ true)
  unfolding is_set
  is_set-append fd [] ys h = inr h
  is_set-append fd (x ∷ xs) ys h = ground (arith, is_set-append fd xs ys)

  is_set-last :
      (x fd : ℤ) (ys : List ℤ) → is_set fd (x ∷ ys) ≡ true → (fd ≡ x) ⊎ (is_set fd ys ≡ true)
  unfolding is_set
  is_set-last x fd ys h = elim (Bool-cases (eqb fd x)) [
    | inl e ↦ inl (eqb_sound fd x e)
    | inr e ↦ inr (ground arith)
  ]

  -- The retained clients, and the server's own descriptor.
  pub with_server :
      (newcli : Bool) (own fd : ℤ) (clients : List ℤ)
      → is_set fd (if newcli then own ∷ clients else clients) ≡ true
      → AtLeast
          (if newcli
            then highest os (highest os (pos 0) clients) (own ∷ [])
            else highest os (pos 0) clients)
          fd
  unfolding highest larger
  with_server false own fd clients h = highest-mem (pos 0) fd clients h
  with_server true own fd clients h = elim (is_set-last own fd clients h) [
    | inl e ↦
        subst (AtLeast (highest os (highest os (pos 0) clients) (own ∷ []))) (sym e)
          (larger-right (highest os (pos 0) clients) own)
    | inr m ↦
        AtLeast-trans (highest os (highest os (pos 0) clients) (own ∷ []))
          (highest os (pos 0) clients) fd (highest-mem (pos 0) fd clients m)
          (highest-top (highest os (pos 0) clients) (own ∷ []))
  ]

  pub with_monitored :
      (monfds : Bool) (top fd : ℤ) (set fds : List ℤ)
      → (is_set fd set ≡ true → AtLeast top fd)
      → is_set fd (if monfds then fds ++ set else set) ≡ true
      → AtLeast (if monfds then highest os top fds else top) fd
  with_monitored false top fd set fds c h = c h
  with_monitored true top fd set fds c h = elim (is_set-append fd fds set h) [
    | inl m ↦ highest-mem top fd fds m
    | inr m ↦ AtLeast-trans (highest os top fds) top fd (c m) (highest-top top fds)
  ]

  pub is_set-append_eq :
      (fd : ℤ) (xs ys : List ℤ) → is_set fd (xs ++ ys) ≡ (is_set fd xs || is_set fd ys)
  unfolding is_set
  is_set-append_eq fd [] ys = refl
  is_set-append_eq fd (x ∷ xs) ys =
      ap (λ b. eqb fd x || b) (is_set-append_eq fd xs ys)
      ∙ sym (or_assoc (eqb fd x) (is_set fd xs) (is_set fd ys))

  -- Where `top` is at least each descriptor of a set, a number above `top` covers the set.
  pub below-all :
      (top n : ℤ) (set : List ℤ)
      → AtLeast n top
      → ((fd : ℤ) → is_set fd set ≡ true → AtLeast top fd)
      → below (succ n) set ≡ set
  unfolding is_set
  below-all top n [] g h = refl
  below-all top n (x ∷ xs) g h =
      let first : is_set x (x ∷ xs) ≡ true = rw (eqb_refl x) refl in
      rw (below_succ n x (AtLeast-trans n top x (h x first) g))
        (ap (λ l. x ∷ l) (below-all top n xs g (λ fd m. h fd (or_right (eqb fd x) _ m))))

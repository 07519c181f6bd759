-- ===== src/SimpleSocket/Named/Attempts.antt =====
-- The attempts to create a temporary file.
use socketxx.Common.{
  ℕ, zero, suc, ◌+◌, ◌-◌, ◌%◌, ◌≤◌, ◌<◌, ◌≡◌, refl, ◌==◌, Bool, true, false, Option, none, some,
  List, ◌∷◌, ◌++◌, ltb, if◌then◌else◌, inl, inr, Bool-cases, arith,
}
use socketxx.Common.Int.{ℤ, pos, ltb_ℤ}
use socketxx.Common.Outcome.{Outcome, ok, throws, halts, Exec, throw, error}
use socketxx.SimpleSocket.Named.{
  Files, create_temp_file, temp_loop, attempt, temp_opened, patched, eexist,
}
use socketxx.UnixSocket.{c_str}

-- How many attempts there are at most.
abbrev tries : ℕ → ℕ
tries i = if ltb i 65535 then 65535 - i else 65536

module _ {S : Type 0} (x : Files S) (file_name : List ℕ) where
  -- The descriptor is of a file that the last call made, under the name returned; or an exception
  -- is thrown.
  abbrev pub Made : Outcome (ℤ × List ℕ) × S → Type 0
  Made (ok (fd, name), s) =
      (suffix : List ℕ) × (before : S) × (name ≡ file_name ++ 45 ∷ suffix)
      × (x.open_new name before ≡ (some fd, s))
  Made (throws e, s) = Unit {0}
  Made (halts h, s) = ⊥

  temp_opened-Made :
      (again : Exec S (ℤ × List ℕ)) (suffix : List ℕ) (before : S) (r : Option ℤ) (s : S)
      → ((s : S) → Made (again s))
      → x.open_new (file_name ++ 45 ∷ suffix) before ≡ (r, s)
      → Made (temp_opened x again (file_name ++ 45 ∷ suffix) (r, s))
  unfolding temp_opened
  temp_opened-Made again suffix before (some fd) s k e = (suffix, before, refl, e)
  temp_opened-Made again suffix before none s k e = elim (Bool-cases (x.errno s == eexist)) [
    | inl taken ↦ rw taken (k s)
    | inr failed ↦ rw failed tt
  ]

  attempt-Made :
      (again : Exec S (ℤ × List ℕ)) (rand : ℤ) (s : S)
      → ((s : S) → Made (again s))
      → Made (attempt x again file_name (rand, s))
  unfolding attempt
  attempt-Made again rand s k = elim (Bool-cases (ltb_ℤ rand (pos 1))) [
    | inl skipped ↦ rw skipped (k s)
    | inr done ↦
        let suffix = c_str (patched x.isalnum 6 (x.l64a rand s)) in
        let r = x.open_new (file_name ++ 45 ∷ suffix) s in
        rw done (temp_opened-Made again suffix s r.0 r.1 k refl)
  ]

  again-Made :
      (more : Bool) (next : Exec S (ℤ × List ℕ)) (s : S)
      → (more ≡ true → Made (next s))
      → Made (
          (if more then next else throw (error "failed to create temp file : too many attempts")) s)
  again-Made true next s k = k refl
  again-Made false next s k = tt

  temp_loop-Made :
      (fuel i : ℕ) → i < 65536 → tries i ≤ fuel → (s : S) → Made (temp_loop x fuel i file_name s)
  unfolding temp_loop
  temp_loop-Made zero i b h s = absurd (ground (arith, b, h))
  temp_loop-Made (suc fuel) i b h s =
      let r = x.product s in
      let next = temp_loop x fuel ((i + 1) % 65536) file_name in
      let step : ltb ((i + 1) % 65536) 65535 ≡ true → tries ((i + 1) % 65536) ≤ fuel =
        λ e. ground (arith, b, h, e) in
      attempt-Made _ r.0 r.1 (λ s'.
        again-Made (ltb ((i + 1) % 65536) 65535) next s'
          (λ e. temp_loop-Made fuel ((i + 1) % 65536) (omega arith) (step e) s'))

  -- Whatever the counter holds at first, 65536 attempts are enough: the call returns or throws,
  -- and what it returns is a descriptor that the last call has opened for a new file, with the
  -- name of it, which is the one asked for, a dash and a suffix.
  pub create_temp_file-Made :
      (garbage : ℕ)
      → garbage < 65536
      → (s : S) → Made (create_temp_file x 65536 garbage file_name s)
  unfolding create_temp_file
  create_temp_file-Made garbage b s = temp_loop-Made 65536 garbage b (ground (arith, b)) s

-- ===== src/SimpleSocket/RoundTrip.antt =====
-- What the write methods put on the wire, and that the read methods take it back. The host that
-- reads is little-endian: what a big-endian one does is in `Endianness`.
use mathlib.Core.List.{reverse-reverse, reverse-cons}
use socketxx.Common.{
  ℕ, ◌≤◌, ◌<◌, ◌^◌, ◌%◌, ◌≡◌, refl, ap, ◌∙◌, sym, inl, inr, Bool, true, false, Option, none, some,
  List, [], ◌∷◌, ◌++◌, length, length-append, reverse, arith, ltb, ◌==◌, if◌then◌else◌, Bool-cases,
  suc-ne-zero,
}
use socketxx.Common.Outcome.{pure}
use socketxx.Transport.{
  Transport, IsStream, Writes, Reads, Writes-o, Writes-nothing, Writes-then, Writes-eq, Writes-if,
  Reads-fixed, Reads-eq, Reads-map, Reads-bind, Reads-pure, Crosses, Reads-else-branch,
}
use socketxx.SimpleSocket.Bytes.{
  le_bytes, le_value, le_value-le_bytes, length-le_bytes, to_memory, of_memory, swap_bytes,
  swap_bytes-reverse,
}
use socketxx.SimpleSocket.{
  first_byte, o_char, i_char, o_bool, i_bool, o_int, i_int, o_float, i_float, o_str, i_str, str_len,
  o_bin, i_bin,
}

length-reverse : (xs : List ℕ) → length (reverse xs) ≡ length xs
length-reverse [] = refl
length-reverse (x ∷ xs) =
    omega
      (arith, ap length (reverse-cons x xs), length-append (reverse xs) (x ∷ []), length-reverse xs)

-- In network order whatever the host.
wire_order : (w n : ℕ) → swap_bytes (reverse (le_bytes w n)) w ≡ le_bytes w n
wire_order w n =
    let len : length (reverse (le_bytes w n)) ≡ w =
      length-reverse (le_bytes w n) ∙ length-le_bytes w n in
    ap (swap_bytes (reverse (le_bytes w n))) (sym len)
    ∙ swap_bytes-reverse (reverse (le_bytes w n))
    ∙ reverse-reverse (le_bytes w n)

abbrev pub str_bytes : List ℕ → List ℕ
str_bytes str =
    (if ltb 254 (length str) then 255 ∷ le_bytes 8 (length str) else length str ∷ []) ++ str

-- An empty buffer comes back as NULL.
abbrev pub or_null : List ℕ → Option (List ℕ)
or_null [] = none
or_null (b ∷ bs) = some (b ∷ bs)

abbrev pub bin_bytes : List ℕ → List ℕ
bin_bytes p = le_bytes 4 (length p) ++ p

module _ {t : Transport} (σ : IsStream t) (big : Bool) where
  pub Writes-o_char : (c : ℕ) → Writes σ (o_char t big c) (c ∷ [])
  unfolding o_char
  Writes-o_char c = Writes-o (c ∷ [])

  pub Writes-o_bool : (b : Bool) → Writes σ (o_bool t big b) ((if b then 1 else 0) ∷ [])
  unfolding o_bool
  Writes-o_bool b = Writes-o _

  pub Writes-o_int : (w n : ℕ) → Writes σ (o_int t big w n) (le_bytes w n)
  unfolding o_int to_memory
  Writes-o_int w n = elim big as (λ b. Writes σ (o_int t b w n) (le_bytes w n)) [
    | true ↦ Writes-eq (wire_order w n) (Writes-o (swap_bytes (reverse (le_bytes w n)) w))
    | false ↦ Writes-o (le_bytes w n)
  ]

  -- Nothing is written for an empty buffer.
  Writes-nonempty : (bs : List ℕ) → Writes σ (if length bs == 0 then pure tt else t.o bs) bs
  Writes-nonempty [] = Writes-nothing
  Writes-nonempty (b ∷ bs) = rw (suc-ne-zero (length bs)) (Writes-o (b ∷ bs))

  pub Writes-o_str : (str : List ℕ) → Writes σ (o_str t big str) (str_bytes str)
  unfolding o_str
  Writes-o_str str =
      Writes-then
        (Writes-if (ltb 254 (length str))
          (λ _. Writes-then (Writes-o (255 ∷ [])) (Writes-o_int 8 (length str)))
          (λ e. Writes-eq (ap (λ n. n ∷ []) (short e)) (Writes-o _)))
        (Writes-nonempty str)
    where
      short : ltb 254 (length str) ≡ false → length str % 256 ≡ length str
      short e = ground arith

  pub Writes-o_bin :
      (p : List ℕ) → length p < 2 ^ 32 → Writes σ (o_bin t big (some p)) (bin_bytes p)
  unfolding o_bin
  Writes-o_bin p h =
      Writes-then
        (Writes-eq (ap (le_bytes 4) (let e : length p % 2 ^ 32 ≡ length p = omega arith in e))
          (Writes-o_int 4 (length p % 2 ^ 32)))
        (Writes-nonempty p)

  pub Writes-o_bin_null : Writes σ (o_bin t big none) (bin_bytes [])
  unfolding o_bin
  Writes-o_bin_null = Writes-then (Writes-o_int 4 0) Writes-nothing

module _ {t : Transport} (σ : IsStream t) where
  pub Reads-i_char : (c : ℕ) → Reads σ (i_char t false) (c ∷ []) c
  unfolding i_char
  Reads-i_char c = Reads-map first_byte (Reads-fixed (c ∷ []) 1 refl)

  pub Reads-i_bool : (b : Bool) → Reads σ (i_bool t false) ((if b then 1 else 0) ∷ []) b
  unfolding i_bool
  Reads-i_bool true = Reads-bind _ (Reads-fixed (1 ∷ []) 1 refl) (Reads-pure true)
  Reads-i_bool false = Reads-bind _ (Reads-fixed (0 ∷ []) 1 refl) (Reads-pure false)

  pub Reads-i_int : (w n : ℕ) → n < 256 ^ w → Reads σ (i_int t false w) (le_bytes w n) n
  unfolding i_int of_memory
  Reads-i_int w n h =
      Reads-eq refl (le_value-le_bytes w n h)
        (Reads-map le_value (Reads-fixed (le_bytes w n) w (length-le_bytes w n)))

  Reads-nonempty :
      (bs : List ℕ) → Reads σ (if length bs == 0 then pure [] else t.i_fixsize (length bs)) bs bs
  Reads-nonempty [] = Reads-pure []
  Reads-nonempty (b ∷ bs) =
      Reads-else-branch _ _ (suc-ne-zero (length bs)) (Reads-fixed (b ∷ bs) (length (b ∷ bs)) refl)

  pub Reads-str_len_short : (n : ℕ) → n ≤ 254 → Reads σ (str_len t false n) [] n
  unfolding str_len
  Reads-str_len_short n h = let e : (n == 255) ≡ false = ground arith in rw e (Reads-pure n)

  pub Reads-i_str :
      (str : List ℕ) → length str < 2 ^ 64 → Reads σ (i_str t false) (str_bytes str) str
  unfolding i_str
  Reads-i_str str h = elim (Bool-cases (ltb 254 (length str))) [
    | inl long ↦
        Reads-eq
          (ap (λ b. (if b then 255 ∷ le_bytes 8 (length str) else length str ∷ []) ++ str)
            (sym long))
          refl
          (Reads-bind _ (Reads-fixed (255 ∷ []) 1 refl)
            (Reads-bind _ (Reads-i_int 8 (length str) h) (Reads-nonempty str)))
    | inr short ↦
        Reads-eq
          (ap (λ b. (if b then 255 ∷ le_bytes 8 (length str) else length str ∷ []) ++ str)
            (sym short))
          refl
          (Reads-bind _ (Reads-fixed (length str ∷ []) 1 refl)
            (Reads-bind _ (Reads-str_len_short (length str) (ground arith)) (Reads-nonempty str)))
  ]

  pub Reads-i_bin :
      (p : List ℕ) → length p < 2 ^ 32 → Reads σ (i_bin t false) (bin_bytes p) (or_null p)
  unfolding i_bin
  Reads-i_bin [] h = Reads-bind _ (Reads-i_int 4 0 (omega arith)) (Reads-pure none)
  Reads-i_bin (b ∷ bs) h = Reads-bind _ (Reads-i_int 4 (length (b ∷ bs)) h) (
      Reads-else-branch _ _ (suc-ne-zero (length bs))
        (Reads-map some (Reads-fixed (b ∷ bs) (length (b ∷ bs)) refl)))

module _ {w r : Transport} (ω : IsStream w) (ρ : IsStream r) (big : Bool) where
  -- Whatever the writer's byte order, an integer that fits in `k` bytes arrives at a
  -- little-endian reader.
  pub o_int-i_int : (k n : ℕ) → n < 256 ^ k → Crosses ω ρ (o_int w big k n) (i_int r false k) n
  o_int-i_int k n h = record {
    bytes = le_bytes k n;
    written = Writes-o_int ω big k n;
    read = Reads-i_int ρ k n h;
  }

  -- A double is the 64-bit pattern of it.
  pub o_float-i_float : (f : ℕ) → f < 2 ^ 64 → Crosses ω ρ (o_float w big f) (i_float r false) f
  unfolding o_float i_float
  o_float-i_float f h = o_int-i_int 8 f h

  -- From a writer of either byte order to a little-endian reader, over streams that lose nothing: a
  -- string of fewer than 2^64 bytes, the empty one and those that need the long header included,
  -- arrives unchanged, and the reader takes no byte beyond it.
  pub o_str-i_str :
      (str : List ℕ) → length str < 2 ^ 64 → Crosses ω ρ (o_str w big str) (i_str r false) str
  o_str-i_str str h = record {
    bytes = str_bytes str;
    written = Writes-o_str ω big str;
    read = Reads-i_str ρ str h;
  }

  -- Binary data of fewer than 2^32 bytes arrives unchanged; an empty buffer arrives as NULL.
  o_bin-i_bin :
      (p : List ℕ)
      → length p < 2 ^ 32
      → Crosses ω ρ (o_bin w big (some p)) (i_bin r false) (or_null p)
  o_bin-i_bin p h = record {
    bytes = bin_bytes p;
    written = Writes-o_bin ω big p h;
    read = Reads-i_bin ρ p h;
  }

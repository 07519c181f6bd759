-- ===== src/SimpleSocket/Var/Reading.antt =====
-- `i_var` takes back what `o_var` wrote, on a host that evaluates the key of a table's entry first.
use Prim.Native.Nat.{max}
use mathlib.Core.List.{append_assoc}
use socketxx.Common.{
  ℕ, zero, suc, ◌≤◌, ◌<◌, ◌^◌, ◌≡◌, refl, sym, Bool, true, false, some, length, arith,
}
use socketxx.Common.Int.{signed_char-small}
use socketxx.Transport.{
  Transport, IsStream, Reads, Reads-bind, Reads-pure, Reads-map, Reads-eq, Crosses,
}
use socketxx.SimpleSocket.{i_float}
use socketxx.SimpleSocket.RoundTrip.{
  Reads-i_char, Reads-i_bool, Reads-i_int, Reads-i_str, str_bytes,
}
use socketxx.SimpleSocket.Var.{
  Polyvar, Items, Fields, void, str, float, int, char, bool, vector, table, nil, cons, end, field,
  Kind, kind, is_void, TypeCodes, size_items, size_fields, o_var, kind_of, i_items, i_entry,
  i_fields, i_alternative, i_var,
}
use socketxx.SimpleSocket.Var.Ascending.{
  IsAscending, Precedes, Precedes-append, Precedes-end, append_fields, append_fields-end,
  append_fields_assoc, insert_last,
}
use socketxx.SimpleSocket.Var.Writing.{var_bytes, items_bytes, fields_bytes, payload, Writes-o_var}

-- How deep vectors and tables are nested.
abbrev mutual
  pub depth : Polyvar → ℕ
  depth void = 0
  depth (str s) = 0
  depth (float f) = 0
  depth (int i) = 0
  depth (char c) = 0
  depth (bool b) = 0
  depth (vector v) = suc (depth_items v)
  depth (table m) = suc (depth_fields m)

  pub depth_items : Items → ℕ
  depth_items nil = 0
  depth_items (cons v vs) = max (depth v) (depth_items vs)

  pub depth_fields : Fields → ℕ
  depth_fields end = 0
  depth_fields (field k v m) = max (depth v) (depth_fields m)

-- The numbers fit their types, and the entries of a table are in key order, each key once.
abbrev mutual
  pub IsValid : Polyvar → Type 0
  IsValid void = Unit {0}
  IsValid (str s) = length s < 2 ^ 64
  IsValid (float f) = f < 2 ^ 64
  IsValid (int i) = i < 2 ^ 64
  IsValid (char c) = Unit {0}
  IsValid (bool b) = Unit {0}
  IsValid (vector v) = (size_items v < 2 ^ 64) × IsValidItems v
  IsValid (table m) = (size_fields m < 2 ^ 64) × IsAscending m × IsValidFields m

  pub IsValidItems : Items → Type 0
  IsValidItems nil = Unit {0}
  IsValidItems (cons v vs) = IsValid v × IsValidItems vs

  pub IsValidFields : Fields → Type 0
  IsValidFields end = Unit {0}
  IsValidFields (field k v m) = (length k < 2 ^ 64) × IsValid v × IsValidFields m

module _ (t : Transport) (codes : TypeCodes) where
  pub kind_of-code : (k : Kind) → kind_of t false codes (codes.code k) ≡ some k
  unfolding kind_of
  kind_of-code is_void =
      rw (signed_char-small (codes.code is_void) (codes.code_lt is_void))
        (grind (arith, codes.code_injective))
  kind_of-code k =
      rw (signed_char-small (codes.code k) (codes.code_lt k)) (grind (arith, codes.code_injective))

module _ {t : Transport} (σ : IsStream t) (codes : TypeCodes) where
  -- A polyvar is its type byte and its payload.
  pub Reads-tagged :
      (v : Polyvar) (fuel : ℕ)
      → Reads σ
          (i_alternative t false codes true (i_var t false codes true fuel) (some (kind v)))
          (payload codes v)
          v
      → Reads σ (i_var t false codes true (suc fuel)) (var_bytes codes v) v
  unfolding i_var
  Reads-tagged v fuel h =
      Reads-bind _ (Reads-i_char σ (codes.code (kind v))) (rw (kind_of-code t codes (kind v)) h)

  mutual
    unfolding i_alternative i_float i_var i_items i_entry i_fields

    pub Reads-payload :
        (v : Polyvar) (fuel : ℕ)
        → depth v ≤ fuel
        → IsValid v
        → Reads σ
            (i_alternative t false codes true (i_var t false codes true fuel) (some (kind v)))
            (payload codes v)
            v
    Reads-payload void fuel d h = Reads-pure void
    Reads-payload (str s) fuel d h = Reads-map str (Reads-i_str σ s h)
    Reads-payload (float f) fuel d h = Reads-map float (Reads-i_int σ 8 f h)
    Reads-payload (int i) fuel d h = Reads-map int (Reads-i_int σ 8 i h)
    Reads-payload (char c) fuel d h = Reads-map char (Reads-i_char σ c)
    Reads-payload (bool b) fuel d h = Reads-map bool (Reads-i_bool σ b)
    Reads-payload (vector v) zero d h = absurd (omega arith)
    Reads-payload (vector v) (suc fuel) d h =
        Reads-bind _ (Reads-i_int σ 8 (size_items v) h.0)
          (Reads-map vector (Reads-items v fuel (omega arith) h.1))
    Reads-payload (table m) zero d h = absurd (omega arith)
    Reads-payload (table m) (suc fuel) d h =
        Reads-bind _ (Reads-i_int σ 8 (size_fields m) h.0)
          (Reads-map table (Reads-fields m end fuel (omega arith) h.1 h.2 (Precedes-end m)))

    pub Reads-items :
        (vs : Items) (fuel : ℕ)
        → depth_items vs ≤ fuel
        → IsValidItems vs
        → Reads σ
            (i_items t false codes (i_var t false codes true (suc fuel)) (size_items vs))
            (items_bytes codes vs)
            vs
    Reads-items nil fuel d h = Reads-pure nil
    Reads-items (cons v vs) fuel d h =
        Reads-bind _ (Reads-tagged v fuel (Reads-payload v fuel (omega arith) h.0))
          (Reads-map (cons v) (Reads-items vs fuel (omega arith) h.1))

    pub Reads-fields :
        (n m : Fields) (fuel : ℕ)
        → depth_fields n ≤ fuel
        → IsAscending n
        → IsValidFields n
        → Precedes m n
        → Reads σ
            (i_fields t false codes true (i_var t false codes true (suc fuel)) (size_fields n) m)
            (fields_bytes codes n)
            (append_fields m n)
    Reads-fields end m fuel d a h p = Reads-eq refl (sym (append_fields-end m)) (Reads-pure m)
    Reads-fields (field k v n) m fuel d a h p =
        Reads-eq (append_assoc (str_bytes k) (var_bytes codes v) (fields_bytes codes n)) refl (
          Reads-bind _
            (Reads-bind _ (Reads-i_str σ k h.0) (
              Reads-map (λ w. (k, w))
                (Reads-tagged v fuel (Reads-payload v fuel (omega arith) h.1))))
            (rw (insert_last k v m p.0) (
              Reads-eq refl (append_fields_assoc m (field k v end) n) (
                Reads-fields n (append_fields m (field k v end)) fuel (omega arith) a.1 h.2
                  (Precedes-append m n k v p.1 a.0)))))

module _ {w r : Transport} (ω : IsStream w) (ρ : IsStream r) (big : Bool) (codes : TypeCodes) where
  -- From a writer of either byte order to a little-endian reader, over streams that lose nothing: a
  -- valid polyvar, which is one whose sizes and numbers fit in 64 bits and whose tables have their
  -- keys in order, arrives unchanged, however deep it is, where the reader evaluates the key of a
  -- table's entry before its value and the fuel is above the depth.
  pub o_var-i_var :
      (v : Polyvar) (fuel : ℕ)
      → depth v < fuel
      → IsValid v
      → Crosses ω ρ (o_var w big codes v) (i_var r false codes true fuel) v
  o_var-i_var v zero d h = absurd (omega arith)
  o_var-i_var v (suc fuel) d h = record {
    bytes = var_bytes codes v;
    written = Writes-o_var ω big codes v;
    read = Reads-tagged ρ codes v fuel (Reads-payload ρ codes v fuel (omega arith) h);
  }

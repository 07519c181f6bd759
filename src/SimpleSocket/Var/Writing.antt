-- ===== src/SimpleSocket/Var/Writing.antt =====
-- The bytes of a polyvar, by recursion on it, and that `o_var` writes just those.
use socketxx.Common.{ℕ, ◌≡◌, ◌%◌, ap, Bool, List, [], ◌∷◌, ◌++◌, if◌then◌else◌, arith}
use socketxx.Transport.{Transport, IsStream, Writes, Writes-nothing, Writes-then, Writes-eq}
use socketxx.SimpleSocket.{o_float}
use socketxx.SimpleSocket.Bytes.{le_bytes}
use socketxx.SimpleSocket.RoundTrip.{
  str_bytes, Writes-o_char, Writes-o_bool, Writes-o_int, Writes-o_str,
}
use socketxx.SimpleSocket.Var.{
  Polyvar, Items, Fields, void, str, float, int, char, bool, vector, table, nil, cons, end, field,
  Kind, kind, TypeCodes, size_items, size_fields, o_type, o_var, o_items, o_fields,
}

module _ (codes : TypeCodes) where
  abbrev mutual
    pub payload : Polyvar → List ℕ
    payload void = []
    payload (str s) = str_bytes s
    payload (float f) = le_bytes 8 f
    payload (int i) = le_bytes 8 i
    payload (char c) = c ∷ []
    payload (bool b) = (if b then 1 else 0) ∷ []
    payload (vector v) = le_bytes 8 (size_items v) ++ items_bytes v
    payload (table m) = le_bytes 8 (size_fields m) ++ fields_bytes m

    pub items_bytes : Items → List ℕ
    items_bytes nil = []
    items_bytes (cons v vs) = (codes.code (kind v) ∷ payload v) ++ items_bytes vs

    pub fields_bytes : Fields → List ℕ
    fields_bytes end = []
    fields_bytes (field k v m) =
        str_bytes k ++ ((codes.code (kind v) ∷ payload v) ++ fields_bytes m)

  abbrev pub var_bytes : Polyvar → List ℕ
  var_bytes v = codes.code (kind v) ∷ payload v

module _ {t : Transport} (σ : IsStream t) (big : Bool) (codes : TypeCodes) where
  Writes-o_type : (k : Kind) → Writes σ (o_type t big codes k) (codes.code k ∷ [])
  unfolding o_type
  Writes-o_type k =
      Writes-eq
        (ap (λ n. n ∷ [])
          (let h = codes.code_lt k in let e : codes.code k % 256 ≡ codes.code k = omega arith in e))
        (Writes-o_char σ big (codes.code k % 256))

  mutual
    unfolding o_var o_float

    pub Writes-o_var : (v : Polyvar) → Writes σ (o_var t big codes v) (var_bytes codes v)
    Writes-o_var void = Writes-then (Writes-o_type _) Writes-nothing
    Writes-o_var (str s) = Writes-then (Writes-o_type _) (Writes-o_str σ big s)
    Writes-o_var (float f) = Writes-then (Writes-o_type _) (Writes-o_int σ big 8 f)
    Writes-o_var (int i) = Writes-then (Writes-o_type _) (Writes-o_int σ big 8 i)
    Writes-o_var (char c) = Writes-then (Writes-o_type _) (Writes-o_char σ big c)
    Writes-o_var (bool b) = Writes-then (Writes-o_type _) (Writes-o_bool σ big b)
    Writes-o_var (vector v) =
        Writes-then (Writes-o_type _)
          (Writes-then (Writes-o_int σ big 8 (size_items v)) (Writes-o_items v))
    Writes-o_var (table m) =
        Writes-then (Writes-o_type _)
          (Writes-then (Writes-o_int σ big 8 (size_fields m)) (Writes-o_fields m))

    Writes-o_items : (vs : Items) → Writes σ (o_items t big codes vs) (items_bytes codes vs)
    Writes-o_items nil = Writes-nothing
    Writes-o_items (cons v vs) = Writes-then (Writes-o_var v) (Writes-o_items vs)

    Writes-o_fields : (m : Fields) → Writes σ (o_fields t big codes m) (fields_bytes codes m)
    Writes-o_fields end = Writes-nothing
    Writes-o_fields (field k v m) =
        Writes-then (Writes-o_str σ big k) (Writes-then (Writes-o_var v) (Writes-o_fields m))

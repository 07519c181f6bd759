-- ===== src/SimpleSocket/Var/Truncated.antt =====
-- Reading a dynamic value (`i_var`, socket++/io/simple_socket.hpp) from a connection that ends too
-- early.
use mathlib.Core.List.{append_assoc}
use socketxx.Common.{ℕ, zero, suc, ◌≤◌, ◌<◌, ◌≡◌, true, false, some, List, ◌∷◌, ◌++◌, arith}
use socketxx.Common.Int.{ℤ}
use socketxx.Common.Outcome.{Exception, throws}
use socketxx.BaseIo.{Os}
use socketxx.BaseIo.Socket.Stream.{
  IsConnected, EndsConnection, socket_transport, socket_stream, socket_ends,
}
use socketxx.Transport.{Transport, IsStream, Reads-bind, Reads-map}
use socketxx.Transport.Fails.{EndsShort, Fails, Fails-nothing, Fails-bind, Fails-map, Fails-eq}
use socketxx.SimpleSocket.{i_float}
use socketxx.SimpleSocket.RoundTrip.{
  Reads-i_char, Reads-i_bool, Reads-i_int, Reads-i_str, str_bytes,
}
use socketxx.SimpleSocket.Truncated.{Fails-i_char, Fails-i_bool, Fails-i_int, Fails-i_str}
use socketxx.SimpleSocket.Var.{
  Polyvar, Items, Fields, void, str, float, int, char, bool, vector, table, nil, cons, end, field,
  kind, TypeCodes, size_items, size_fields, i_items, i_entry, i_fields, i_alternative, i_var,
}
use socketxx.SimpleSocket.Var.Ascending.{
  IsAscending, Precedes, Precedes-append, Precedes-end, append_fields, insert_last,
}
use socketxx.SimpleSocket.Var.Writing.{var_bytes, items_bytes, fields_bytes, payload}
use socketxx.SimpleSocket.Var.Reading.{
  depth, depth_items, depth_fields, IsValid, IsValidItems, IsValidFields, kind_of-code,
  Reads-tagged, Reads-payload, Reads-items, Reads-fields,
}

module _ {t : Transport} (σ : IsStream t) (ε : EndsShort σ) (codes : TypeCodes) where
  Fails-tagged :
      (v : Polyvar) (fuel : ℕ)
      → Fails σ
          (i_alternative t false codes true (i_var t false codes true fuel) (some (kind v)))
          (payload codes v)
      → Fails σ (i_var t false codes true (suc fuel)) (var_bytes codes v)
  unfolding i_var
  Fails-tagged v fuel h =
      Fails-bind _ (Reads-i_char σ (codes.code (kind v))) (Fails-i_char σ ε (codes.code (kind v)))
        (rw (kind_of-code t codes (kind v)) h)

  mutual
    unfolding i_alternative i_float i_items i_entry i_fields

    Fails-payload :
        (v : Polyvar) (fuel : ℕ)
        → depth v ≤ fuel
        → IsValid v
        → Fails σ
            (i_alternative t false codes true (i_var t false codes true fuel) (some (kind v)))
            (payload codes v)
    Fails-payload void fuel d h = Fails-nothing
    Fails-payload (str s) fuel d h = Fails-map str (Reads-i_str σ s h) (Fails-i_str σ ε s h)
    Fails-payload (float f) fuel d h = Fails-map float (Reads-i_int σ 8 f h) (Fails-i_int σ ε 8 f)
    Fails-payload (int i) fuel d h = Fails-map int (Reads-i_int σ 8 i h) (Fails-i_int σ ε 8 i)
    Fails-payload (char c) fuel d h = Fails-map char (Reads-i_char σ c) (Fails-i_char σ ε c)
    Fails-payload (bool b) fuel d h = Fails-map bool (Reads-i_bool σ b) (Fails-i_bool σ ε b)
    Fails-payload (vector v) zero d h = absurd (omega arith)
    Fails-payload (vector v) (suc fuel) d h =
        Fails-bind _ (Reads-i_int σ 8 (size_items v) h.0) (Fails-i_int σ ε 8 (size_items v)) (
          Fails-map vector (Reads-items σ codes v fuel (omega arith) h.1)
            (Fails-items v fuel (omega arith) h.1))
    Fails-payload (table m) zero d h = absurd (omega arith)
    Fails-payload (table m) (suc fuel) d h =
        Fails-bind _ (Reads-i_int σ 8 (size_fields m) h.0) (Fails-i_int σ ε 8 (size_fields m)) (
          Fails-map table (Reads-fields σ codes m end fuel (omega arith) h.1 h.2 (Precedes-end m))
            (Fails-fields m end fuel (omega arith) h.1 h.2 (Precedes-end m)))

    Fails-items :
        (vs : Items) (fuel : ℕ)
        → depth_items vs ≤ fuel
        → IsValidItems vs
        → Fails σ
            (i_items t false codes (i_var t false codes true (suc fuel)) (size_items vs))
            (items_bytes codes vs)
    Fails-items nil fuel d h = Fails-nothing
    Fails-items (cons v vs) fuel d h =
        Fails-bind _ (Reads-tagged σ codes v fuel (Reads-payload σ codes v fuel (omega arith) h.0))
          (Fails-tagged v fuel (Fails-payload v fuel (omega arith) h.0))
          (Fails-map (cons v) (Reads-items σ codes vs fuel (omega arith) h.1)
            (Fails-items vs fuel (omega arith) h.1))

    Fails-fields :
        (n m : Fields) (fuel : ℕ)
        → depth_fields n ≤ fuel
        → IsAscending n
        → IsValidFields n
        → Precedes m n
        → Fails σ
            (i_fields t false codes true (i_var t false codes true (suc fuel)) (size_fields n) m)
            (fields_bytes codes n)
    Fails-fields end m fuel d a h p = Fails-nothing
    Fails-fields (field k v n) m fuel d a h p =
        let read = Reads-tagged σ codes v fuel (Reads-payload σ codes v fuel (omega arith) h.1) in
        let key = Reads-i_str σ k h.0 in
        Fails-eq (append_assoc (str_bytes k) (var_bytes codes v) (fields_bytes codes n)) (
          Fails-bind _ (Reads-bind _ key (Reads-map (λ w. (k, w)) read))
            (Fails-bind _ key (Fails-i_str σ ε k h.0) (
              Fails-map (λ w. (k, w)) read
                (Fails-tagged v fuel (Fails-payload v fuel (omega arith) h.1))))
            (rw (insert_last k v m p.0) (
              Fails-fields n (append_fields m (field k v end)) fuel (omega arith) a.1 h.2
                (Precedes-append m n k v p.1 a.0))))

-- Where a connection between sockets has brought just a proper part of the bytes of a valid
-- polyvar, from the first on, and ends: the little-endian reader throws, wherever the cut is; it
-- evaluates the key of a table's entry before its value, and its fuel is above the depth.
pub i_var-truncated :
    (os : Os) (fd : ℤ) (κ : IsConnected os fd) (ε : EndsConnection os fd κ) (codes : TypeCodes)
    (v : Polyvar) (fuel : ℕ) (b : ℕ) (missing : List ℕ) (s : os.World)
    → depth v < fuel
    → IsValid v
    → var_bytes codes v ≡ κ.pending s ++ b ∷ missing
    → (e : Exception) × (s' : os.World) × (i_var (socket_transport os fd) false codes true fuel s
        ≡ (throws e, s'))
unfolding socket_stream
i_var-truncated os fd κ ε codes v zero b missing s d h cut = absurd (omega arith)
i_var-truncated os fd κ ε codes v (suc fuel) b missing s d h cut =
    let σ = socket_stream os fd κ in
    let δ = socket_ends os fd κ ε in
    (Fails-tagged σ δ codes v fuel (Fails-payload σ δ codes v fuel (omega arith) h)).at s b missing
      cut

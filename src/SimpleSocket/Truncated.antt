-- ===== src/SimpleSocket/Truncated.antt =====
-- Reading the scalar methods' bytes (socket++/io/simple_socket.hpp) from a connection that ends too
-- early. The host that reads is little-endian.
use socketxx.Common.{
  ℕ, ◌<◌, ◌^◌, ◌==◌, ◌≡◌, refl, sym, ap, Bool, false, List, [], ◌∷◌, ◌++◌, length, ltb,
  if◌then◌else◌, inl, inr, Bool-cases, arith, suc-ne-zero, map,
}
use socketxx.Common.Int.{ℤ}
use socketxx.Common.Outcome.{Exception, throws, pure}
use socketxx.BaseIo.{Os}
use socketxx.BaseIo.Socket.Stream.{
  IsConnected, EndsConnection, socket_transport, socket_stream, socket_ends,
}
use socketxx.Transport.{Transport, IsStream, Writes, Reads-fixed}
use socketxx.Transport.Fails.{
  EndsShort, Fails, Fails-nothing, Fails-fixed, Fails-bind, Fails-map, Fails-eq, Fails-else-branch,
}
use socketxx.SimpleSocket.{first_byte, i_char, i_bool, i_int, i_str}
use socketxx.SimpleSocket.Bytes.{le_bytes, le_value, length-le_bytes, of_memory}
use socketxx.SimpleSocket.RoundTrip.{
  Reads-i_char, Reads-i_bool, Reads-i_str, Reads-i_int, Reads-str_len_short, str_bytes,
}
use socketxx.SimpleSocket.Operators.{
  Value, char, bool, string, int, operand, put_all, get, get_all, IsValid, AreValid, value_bytes,
  chain_bytes, Reads-get, Reads-get_all, Writes-put_all,
}

module _ {t : Transport} (σ : IsStream t) (ε : EndsShort σ) where
  pub Fails-i_char : (c : ℕ) → Fails σ (i_char t false) (c ∷ [])
  unfolding i_char
  Fails-i_char c =
      Fails-map first_byte (Reads-fixed (c ∷ []) 1 refl) (Fails-fixed ε (c ∷ []) 1 refl)

  pub Fails-i_bool : (b : Bool) → Fails σ (i_bool t false) ((if b then 1 else 0) ∷ [])
  unfolding i_bool
  Fails-i_bool b =
      let bs = (if b then 1 else 0) ∷ [] in
      Fails-bind _ (Reads-fixed bs 1 refl) (Fails-fixed ε bs 1 refl) Fails-nothing

  pub Fails-i_int : (w n : ℕ) → Fails σ (i_int t false w) (le_bytes w n)
  unfolding i_int of_memory
  Fails-i_int w n =
      Fails-map le_value (Reads-fixed (le_bytes w n) w (length-le_bytes w n))
        (Fails-fixed ε (le_bytes w n) w (length-le_bytes w n))

  Fails-nonempty :
      (bs : List ℕ) → Fails σ (if length bs == 0 then pure [] else t.i_fixsize (length bs)) bs
  Fails-nonempty [] = Fails-nothing
  Fails-nonempty (b ∷ bs) =
      Fails-else-branch _ _ (suc-ne-zero (length bs))
        (Fails-fixed ε (b ∷ bs) (length (b ∷ bs)) refl)

  pub Fails-i_str : (str : List ℕ) → length str < 2 ^ 64 → Fails σ (i_str t false) (str_bytes str)
  unfolding i_str
  Fails-i_str str h = elim (Bool-cases (ltb 254 (length str))) [
    | inl long ↦
        Fails-eq
          (ap (λ b. (if b then 255 ∷ le_bytes 8 (length str) else length str ∷ []) ++ str)
            (sym long))
          (Fails-bind _ (Reads-fixed (255 ∷ []) 1 refl) (Fails-fixed ε (255 ∷ []) 1 refl) (
            Fails-bind _ (Reads-i_int σ 8 (length str) h) (Fails-i_int 8 (length str))
              (Fails-nonempty str)))
    | inr short ↦
        Fails-eq
          (ap (λ b. (if b then 255 ∷ le_bytes 8 (length str) else length str ∷ []) ++ str)
            (sym short))
          (Fails-bind _ (Reads-fixed (length str ∷ []) 1 refl)
            (Fails-fixed ε (length str ∷ []) 1 refl)
            (Fails-bind _ (Reads-str_len_short σ (length str) (ground arith)) Fails-nothing
              (Fails-nonempty str)))
  ]

  Fails-get : (v : Value) → IsValid v → Fails σ (get t false (operand v)) (value_bytes v)
  unfolding get value_bytes
  Fails-get (char c) h = Fails-map char (Reads-i_char σ c) (Fails-i_char c)
  Fails-get (bool b) h = Fails-map bool (Reads-i_bool σ b) (Fails-i_bool b)
  Fails-get (string s) h = Fails-map string (Reads-i_str σ s h) (Fails-i_str s h)
  Fails-get (int w n) h = Fails-map (int w) (Reads-i_int σ w n h) (Fails-i_int w n)

  Fails-get_all :
      (vs : List Value) → AreValid vs → Fails σ (get_all t false (map operand vs)) (chain_bytes vs)
  unfolding get_all chain_bytes
  Fails-get_all [] h = Fails-nothing
  Fails-get_all (v ∷ vs) (h, hs) =
      Fails-bind _ (Reads-get σ v h) (Fails-get v h)
        (Fails-map (λ us. v ∷ us) (Reads-get_all σ vs hs) (Fails-get_all vs hs))

-- Where a connection between sockets has brought just a proper part of the bytes of a chain of
-- values, from the first on, and ends: the little-endian reader of these types throws, wherever
-- the cut is. A writer on a connected socket, of either byte order, writes all of these bytes.
pub get_all-truncated :
    (os₁ os₂ : Os) (fd₁ fd₂ : ℤ) (κ₁ : IsConnected os₁ fd₁) (κ₂ : IsConnected os₂ fd₂)
    (ε : EndsConnection os₂ fd₂ κ₂) (big : Bool) (values : List Value) (b : ℕ) (missing : List ℕ)
    (s : os₂.World)
    → AreValid values
    → chain_bytes values ≡ κ₂.pending s ++ b ∷ missing
    → Writes
        (socket_stream os₁ fd₁ κ₁)
        (put_all (socket_transport os₁ fd₁) big values)
        (chain_bytes values)
      × ((e : Exception) × (s' : os₂.World) × (get_all
              (socket_transport os₂ fd₂)
              false
              (map operand values)
              s
            ≡ (throws e, s')))
unfolding socket_stream
get_all-truncated os₁ os₂ fd₁ fd₂ κ₁ κ₂ ε big values b missing s h cut = (
  Writes-put_all (socket_stream os₁ fd₁ κ₁) big values,
  (Fails-get_all (socket_stream os₂ fd₂ κ₂) (socket_ends os₂ fd₂ κ₂ ε) values h).at s b missing cut,
)

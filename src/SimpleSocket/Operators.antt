-- ===== src/SimpleSocket/Operators.antt =====
-- The stream operators of the simple socket (socket++/io/simple_socket.hpp): << and >> for each type
-- that they are overloaded for, and chains of them.
use socketxx.Common.{ℕ, ◌^◌, ◌<◌, Bool, false, List, [], ◌∷◌, ◌++◌, length, if◌then◌else◌, map}
use socketxx.Common.Int.{ℤ}
use socketxx.Common.Outcome.{Exec, pure, ◌>>=◌, ◌>>◌}
use socketxx.BaseIo.{Os}
use socketxx.BaseIo.Socket.Stream.{IsConnected, socket_transport, socket_stream}
use socketxx.Transport.{
  Transport, IsStream, Writes, Writes-nothing, Writes-then, Reads, Reads-bind, Reads-map,
  Reads-pure, Crosses,
}
use socketxx.SimpleSocket.{o_char, o_bool, o_str, o_int, i_char, i_bool, i_str, i_int}
use socketxx.SimpleSocket.Bytes.{le_bytes}
use socketxx.SimpleSocket.RoundTrip.{
  Writes-o_char, Writes-o_bool, Writes-o_str, Writes-o_int, Reads-i_char, Reads-i_bool, Reads-i_str,
  Reads-i_int, str_bytes,
}

-- The type of the operand, which picks the overload; for an integer, its size.
pub data Operand : Type 0 where
  of_char : Operand
  of_bool : Operand
  of_string : Operand
  of_int : ℕ → Operand

-- A value with its type
pub data Value : Type 0 where
  char : ℕ → Value
  bool : Bool → Value
  string : List ℕ → Value
  int : ℕ → ℕ → Value

abbrev pub operand : Value → Operand
operand (char c) = of_char
operand (bool b) = of_bool
operand (string s) = of_string
operand (int w n) = of_int w

module _ (t : Transport) (big : Bool) where
  -- operator<<
  unfoldable pub put : Value → Exec t.State (Unit {0})
  put (char byte) = o_char t big byte
  put (bool b) = o_bool t big b
  put (string str) = o_str t big str
  put (int w integer) = o_int t big w integer

  -- operator>>
  unfoldable pub get : Operand → Exec t.State Value
  get of_char = i_char t big >>= λ byte. pure (char byte)
  get of_bool = i_bool t big >>= λ b. pure (bool b)
  get of_string = i_str t big >>= λ str. pure (string str)
  get (of_int w) = i_int t big w >>= λ integer. pure (int w integer)

  -- socket << a << b << ..., and socket >> a >> b >> ...
  unfoldable pub put_all : List Value → Exec t.State (Unit {0})
  put_all [] = pure tt
  put_all (v ∷ vs) = do put v; put_all vs

  unfoldable pub get_all : List Operand → Exec t.State (List Value)
  get_all [] = pure []
  get_all (k ∷ ks) = do v ← get k; vs ← get_all ks; pure (v ∷ vs)

-- The value is one of its type, and a string can be sent.
abbrev pub IsValid : Value → Type 0
IsValid (char c) = Unit {0}
IsValid (bool b) = Unit {0}
IsValid (string s) = length s < 2 ^ 64
IsValid (int w n) = n < 256 ^ w

abbrev pub AreValid : List Value → Type 0
AreValid [] = Unit {0}
AreValid (v ∷ vs) = IsValid v × AreValid vs

unfoldable pub value_bytes : Value → List ℕ
value_bytes (char c) = c ∷ []
value_bytes (bool b) = (if b then 1 else 0) ∷ []
value_bytes (string s) = str_bytes s
value_bytes (int w n) = le_bytes w n

unfoldable pub chain_bytes : List Value → List ℕ
chain_bytes [] = []
chain_bytes (v ∷ vs) = value_bytes v ++ chain_bytes vs

module _ {t : Transport} (σ : IsStream t) (big : Bool) where
  Writes-put : (v : Value) → Writes σ (put t big v) (value_bytes v)
  unfolding put value_bytes
  Writes-put (char c) = Writes-o_char σ big c
  Writes-put (bool b) = Writes-o_bool σ big b
  Writes-put (string s) = Writes-o_str σ big s
  Writes-put (int w n) = Writes-o_int σ big w n

  pub Writes-put_all : (vs : List Value) → Writes σ (put_all t big vs) (chain_bytes vs)
  unfolding put_all chain_bytes
  Writes-put_all [] = Writes-nothing
  Writes-put_all (v ∷ vs) = Writes-then (Writes-put v) (Writes-put_all vs)

module _ {t : Transport} (σ : IsStream t) where
  pub Reads-get : (v : Value) → IsValid v → Reads σ (get t false (operand v)) (value_bytes v) v
  unfolding get value_bytes
  Reads-get (char c) h = Reads-map char (Reads-i_char σ c)
  Reads-get (bool b) h = Reads-map bool (Reads-i_bool σ b)
  Reads-get (string s) h = Reads-map string (Reads-i_str σ s h)
  Reads-get (int w n) h = Reads-map (int w) (Reads-i_int σ w n h)

  pub Reads-get_all :
      (vs : List Value)
      → AreValid vs
      → Reads σ (get_all t false (map operand vs)) (chain_bytes vs) vs
  unfolding get_all chain_bytes
  Reads-get_all [] h = Reads-pure []
  Reads-get_all (v ∷ vs) (h, hs) =
      Reads-bind _ (Reads-get v h) (Reads-map (λ us. v ∷ us) (Reads-get_all vs hs))

-- Between two connected sockets, on any two systems whose calls keep the contract of a connected
-- stream socket, and from a host of either byte order to a little-endian one: a chain of << with
-- characters, Booleans, strings of fewer than 2^64 bytes and integers that fit in their sizes, in
-- any order, and the chain of >> with the same types get the same values across, and the reader
-- takes no byte beyond them.
pub put_all-get_all :
    (os₁ os₂ : Os) (fd₁ fd₂ : ℤ) (κ₁ : IsConnected os₁ fd₁) (κ₂ : IsConnected os₂ fd₂) (big : Bool)
    (values : List Value)
    → AreValid values
    → Crosses
        (socket_stream os₁ fd₁ κ₁)
        (socket_stream os₂ fd₂ κ₂)
        (put_all (socket_transport os₁ fd₁) big values)
        (get_all (socket_transport os₂ fd₂) false (map operand values))
        values
put_all-get_all os₁ os₂ fd₁ fd₂ κ₁ κ₂ big values h = record {
  bytes = chain_bytes values;
  written = Writes-put_all (socket_stream os₁ fd₁ κ₁) big values;
  read = Reads-get_all (socket_stream os₂ fd₂ κ₂) values h;
}

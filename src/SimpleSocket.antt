-- ===== src/SimpleSocket.antt =====
-- The simple socket (socket++/io/simple_socket.hpp): scalars, strings and binary data over a
-- transport. `big` says that the host is big-endian. Memory that cannot be allocated is not
-- modelled, and a `bool` is stored as 1 or 0.
pub mod Bytes
pub mod RoundTrip
pub mod Endianness
pub mod OverSockets
pub mod Keeping
pub mod Var
pub mod File
pub mod Transfer
pub mod Named
pub mod Operators
pub mod Truncated
use socketxx.Common.{
  ℕ, ◌+◌, ◌*◌, ◌%◌, ◌^◌, Bool, true, false, not, Option, none, some, List, [], ◌∷◌, length, ltb,
  ◌==◌, if◌then◌else◌,
}
use socketxx.Common.Outcome.{Exec, pure, halt, undefined, ◌>>=◌, ◌>>◌}
use socketxx.Transport.{Transport}
use Bytes.{to_memory, of_memory, swap_bytes}

-- XIF_SOCKETXX_ENDIANNESS_SAME, with the shipped priority: little endian.
abbrev pub endianness_same : Bool → Bool
endianness_same big = not big

-- `read(&c, 1)` leaves one byte.
abbrev pub first_byte : List ℕ → ℕ
first_byte [] = 0
first_byte (b ∷ bs) = b

module _ (t : Transport) (big : Bool) where
  unfoldable pub o_char : ℕ → Exec t.State (Unit {0})
  o_char byte = t.o (byte ∷ [])

  unfoldable pub i_char : Exec t.State ℕ
  i_char = do c ← t.i_fixsize 1; pure (first_byte c)

  unfoldable pub o_bool : Bool → Exec t.State (Unit {0})
  o_bool b = t.o ((if b then 1 else 0) ∷ [])

  -- Any byte but 0 and 1 is no value of type `bool`.
  unfoldable pub i_bool : Exec t.State Bool
  i_bool = do
    b ← t.i_fixsize 1
    if first_byte b == 0
        then pure false
        else if first_byte b == 1
        then pure true
        else halt undefined

  -- `w` is sizeof(int_t); the number is its bit pattern.
  unfoldable pub o_int : ℕ → ℕ → Exec t.State (Unit {0})
  o_int w num =
      if endianness_same big
      then t.o (to_memory big w num)
      else t.o (swap_bytes (to_memory big w num) w)

  unfoldable pub i_int : ℕ → Exec t.State ℕ
  i_int w = do n ← t.i_fixsize w; pure (of_memory big n)

  -- A double is sent as the 64-bit pattern that represents it.
  unfoldable pub o_float : ℕ → Exec t.State (Unit {0})
  o_float bits = o_int 8 bits

  unfoldable pub i_float : Exec t.State ℕ
  i_float = i_int 8

  unfoldable pub o_buf : List ℕ → Exec t.State (Unit {0})
  o_buf buf = t.o buf

  unfoldable pub i_buf : ℕ → Exec t.State (List ℕ)
  i_buf len = t.i_fixsize len

  unfoldable pub o_str : List ℕ → Exec t.State (Unit {0})
  o_str str =
      let str_len64 = length str in
      let str_len8 = str_len64 % 256 in
      do
        (if ltb 254 str_len64 then (do t.o (255 ∷ []); o_int 8 str_len64) else t.o (str_len8 ∷ []))
        (if str_len64 == 0 then pure tt else t.o str)

  pub str_len : ℕ → Exec t.State ℕ
  str_len str_len8 = if str_len8 == 255 then i_int 8 else pure str_len8

  unfoldable pub i_str : Exec t.State (List ℕ)
  unfolding str_len
  i_str = do
    len8 ← t.i_fixsize 1
    str_len64 ← str_len (first_byte len8)
    (if str_len64 == 0 then pure [] else t.i_fixsize str_len64)

  -- `none` is NULL. The length goes out as a uint32_t.
  unfoldable pub o_bin : Option (List ℕ) → Exec t.State (Unit {0})
  o_bin none = do o_int 4 0; pure tt
  o_bin (some p) =
      let len = length p in do o_int 4 (len % 2 ^ 32); (if len == 0 then pure tt else t.o p)

  unfoldable pub i_bin : Exec t.State (Option (List ℕ))
  i_bin = do
    len ← i_int 4
    (if len == 0 then pure none else (do p ← t.i_fixsize len; pure (some p)))

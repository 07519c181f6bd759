-- ===== src/SimpleSocket/Endianness.antt =====
-- What a big-endian host reads: `i_int` of socket++/io/simple_socket.hpp leaves the bytes as they
-- came, in the writer's network order, which is little-endian.
use socketxx.Common.{ℕ, ◌≡◌, refl, Bool, true, reverse}
use socketxx.Transport.{Transport, IsStream, Reads-fixed, Reads-map, Crosses}
use socketxx.SimpleSocket.Bytes.{le_bytes, le_value, length-le_bytes, of_memory}
use socketxx.SimpleSocket.{o_int, i_int}
use socketxx.SimpleSocket.RoundTrip.{Writes-o_int}

module _ {w r : Transport} (ω : IsStream w) (ρ : IsStream r) (big : Bool) where
  -- A big-endian reader gets an integer of `k` bytes with its bytes in the reverse order, whatever
  -- the byte order of the writer, its own included.
  pub o_int-i_int_swapped :
      (k n : ℕ) → Crosses ω ρ (o_int w big k n) (i_int r true k) (le_value (reverse (le_bytes k n)))
  unfolding i_int of_memory
  o_int-i_int_swapped k n = record {
    bytes = le_bytes k n;
    written = Writes-o_int ω big k n;
    read = Reads-map _ (Reads-fixed (le_bytes k n) k (length-le_bytes k n));
  }

-- The number 1 sent as a uint16_t is read as 256.
swapped_one : le_value (reverse (le_bytes 2 1)) ≡ 256
swapped_one = refl

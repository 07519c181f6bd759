-- ===== src/SimpleSocket/Transfer.antt =====
-- Sending and receiving files: `write_from_file` and `same_hash` (socket++/io/simple_socket.cpp),
-- `o_file` and `i_file` on a descriptor (socket++/io/simple_socket.hpp), in a build without SSL
-- where no hash is computed, except for `same_hash`.
pub mod Windows
pub mod RoundTrip
pub mod Hashed
use socketxx.Common.{
  ℕ, zero, suc, ◌+◌, ◌*◌, ◌/◌, ◌%◌, ◌==◌, not, Bool, true, false, Option, none, some, List, [], ◌∷◌,
  length, if◌then◌else◌,
}
use socketxx.Common.Int.{ℤ}
use socketxx.Common.Outcome.{
  Exec, Outcome, ok, throws, pure, throw, error, other_error, ◌>>=◌, ◌>>◌,
}
use socketxx.Transport.{Transport}
use socketxx.BaseIo.{Os}
use socketxx.SimpleSocket.{o_int, i_int, o_bin, i_bin}
use socketxx.SimpleSocket.File.{Receiver, read_to_file}

-- mmap() of a part of a file, by its offset and its length; munmap(); and the callback `info_f`,
-- which is NULL or is told what is done of the whole.
pub record FileMap (S : Type 0) : Type 0 where
  pub errno : S → ℕ
  pub mmap : ℤ → ℕ → ℕ → S → Option (List ℕ) × S
  pub munmap : S → S
  pub info_f : Option (ℕ → ℕ → S → S)

module _ {S : Type 0} (f : FileMap S) (writef : List ℕ → Exec S (Unit {0})) (file_r : ℤ)
    (sz : ℕ) where
  mapped : Option (List ℕ) × S → Outcome (List ℕ) × S
  mapped (none, s) = (throws (other_error "file send : mmap() failed" (f.errno s)), s)
  mapped (some mapchunk, s) = (ok mapchunk, s)

  pub map_chunk : ℕ → ℕ → Exec S (List ℕ)
  unfolding mapped
  map_chunk off_f chunksz s = mapped (f.mmap file_r off_f chunksz s)

  pub unmap : Exec S (Unit {0})
  unmap s = (ok tt, f.munmap s)

  -- if (info_f) { bytes_done += chunksz; info_f(bytes_done, sz); }
  pub progress : Option (ℕ → ℕ → S → S) → ℕ → ℕ → Exec S ℕ
  progress none bytes_done chunksz s = (ok bytes_done, s)
  progress (some g) bytes_done chunksz s =
      (ok (bytes_done + chunksz), g (bytes_done + chunksz) sz s)

  -- The body of the loop, on one chunk.
  send_chunk : ℕ → ℕ → ℕ → Exec S ℕ
  unfolding map_chunk unmap progress
  send_chunk off_f bytes_done chunksz = map_chunk off_f chunksz >>= λ mapchunk.
      writef mapchunk >> unmap >> progress f.info_f bytes_done chunksz

  -- `chunk_rest` whole chunks are left, and then what is less than a chunk, if anything.
  send_loop : ℕ → ℕ → ℕ → ℕ → Exec S (Unit {0})
  unfolding send_chunk
  send_loop zero chunksz off_f bytes_done =
      if sz % chunksz == 0 then pure tt else send_chunk off_f bytes_done (sz % chunksz) >> pure tt
  send_loop (suc chunk_rest) chunksz off_f bytes_done =
      send_chunk off_f bytes_done chunksz >>= send_loop chunk_rest chunksz (off_f + chunksz)

  -- write_from_file
  unfoldable pub write_from_file : ℕ → Exec S (Unit {0})
  unfolding send_loop
  write_from_file page =
      let chunksz = page * 16 in if sz == 0 then pure tt else send_loop (sz / chunksz) chunksz 0 0

-- The loop of same_hash, over the 16 bytes of a digest.
equal_bytes : List ℕ → List ℕ → Bool
equal_bytes [] s_hash = true
equal_bytes (h ∷ hash) [] = false
equal_bytes (h ∷ hash) (s ∷ s_hash) =
    let rest = equal_bytes hash s_hash in if h == s then rest else false

-- same_hash, in a build with SSL or without it; `none` is NULL.
unfoldable pub same_hash {ℓ} :
    {S : Type ℓ} → Bool → Option (List ℕ) → Option (List ℕ) → S → Outcome Bool × S
unfolding equal_bytes
same_hash false hash s_hash s = (ok true, s)
same_hash true none s_hash s = (ok true, s)
same_hash true (some hash) none s = (ok true, s)
same_hash true (some hash) (some s_hash) s =
    if not (length s_hash == 16)
    then (throws (error "file transfer : bad MD5 hash length"), s)
    else (ok (equal_bytes hash s_hash), s)

-- o_file on a descriptor: the size, the content, and the hash, which is NULL.
unfoldable pub o_file :
    (t : Transport) → Bool → FileMap t.State → ℤ → ℕ → ℕ → Exec t.State (Unit {0})
o_file t big f file_r sz page = do
  o_int t big 8 sz
  write_from_file f t.o file_r sz page
  o_bin t big none

module _ (os : Os) (o : List ℕ → Exec os.World (Unit {0}))
    (i_fixsize : ℕ → Exec os.World (List ℕ)) where
  -- The socket, on the system that also has the file.
  abbrev pub on_os : Transport
  on_os = record { State = os.World; o = o; i_fixsize = i_fixsize }

  -- i_file on a descriptor; there is no hash of what was received.
  unfoldable pub i_file : Bool → Receiver os → ℤ → ℕ → Exec os.World ℕ
  i_file big rcv file_w page = do
    sz ← i_int on_os big 8
    read_to_file os file_w rcv sz page
    s_hash ← i_bin on_os big
    same ← same_hash false none s_hash
    if same then pure sz else throw (error "File transfer : MD5 checksums don't mach !")

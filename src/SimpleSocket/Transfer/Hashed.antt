-- ===== src/SimpleSocket/Transfer/Hashed.antt =====
-- Sending and receiving files in a build with SSL, where both sides compute the MD5 digest of the
-- content: `write_from_file` (socket++/io/simple_socket.cpp), `o_file` and `i_file`
-- (socket++/io/simple_socket.hpp).
pub mod Windows
pub mod RoundTrip
use socketxx.Common.{
  ℕ, zero, suc, ◌+◌, ◌*◌, ◌/◌, ◌%◌, ◌==◌, Bool, true, Option, none, some, List, if◌then◌else◌,
}
use socketxx.Common.Int.{ℤ}
use socketxx.Common.Outcome.{Exec, pure, throw, error, ◌>>=◌, ◌>>◌}
use socketxx.Transport.{Transport}
use socketxx.BaseIo.{Os}
use socketxx.SimpleSocket.{o_int, i_int, o_bin, i_bin}
use socketxx.SimpleSocket.File.{Receiver}
use socketxx.SimpleSocket.File.Hashed.{Md5, hash_update, hash_final, read_to_file_hashed}
use socketxx.SimpleSocket.Transfer.{FileMap, map_chunk, unmap, progress, same_hash, on_os}

module _ (m : Md5) {S : Type 0} (f : FileMap S) (writef : List ℕ → Exec S (Unit {0})) (file_r : ℤ)
    (sz : ℕ) where
  -- The body of the loop, on one chunk: it returns the hash's context and `bytes_done`.
  send_chunk_hashed : ℕ → ℕ → ℕ → m.Context → Exec S (m.Context × ℕ)
  unfolding map_chunk unmap progress hash_update
  send_chunk_hashed off_f bytes_done chunksz hashctx =
      map_chunk f writef file_r sz off_f chunksz >>= λ mapchunk.
      writef mapchunk
      >> (hash_update m hashctx mapchunk (error "file send : MD5_Update() failed") >>= λ hashctx'.
          unmap f writef file_r sz
          >> (progress f writef file_r sz f.info_f bytes_done chunksz >>= λ done.
              pure (hashctx', done)))

  send_loop_hashed : ℕ → ℕ → ℕ → ℕ → m.Context → Exec S m.Context
  unfolding send_chunk_hashed
  send_loop_hashed zero chunksz off_f bytes_done hashctx =
      if sz % chunksz == 0
      then pure hashctx
      else send_chunk_hashed off_f bytes_done (sz % chunksz) hashctx >>= λ r. pure r.0
  send_loop_hashed (suc chunk_rest) chunksz off_f bytes_done hashctx =
      send_chunk_hashed off_f bytes_done chunksz hashctx >>= λ r.
      send_loop_hashed chunk_rest chunksz (off_f + chunksz) r.1 r.0

  ended_hash : m.Context → Exec S (Option (List ℕ))
  unfolding hash_final
  ended_hash hashctx =
      hash_final m hashctx (error "file transfer : MD5_Final() failed") >>= λ hash. pure (some hash)

  -- write_from_file: the digest, or NULL for an empty file
  unfoldable pub write_from_file_hashed : ℕ → Exec S (Option (List ℕ))
  unfolding send_loop_hashed ended_hash
  write_from_file_hashed page =
      let chunksz = page * 16 in
      if sz == 0
      then pure none
      else send_loop_hashed (sz / chunksz) chunksz 0 0 m.init >>= ended_hash

-- o_file on a descriptor: the size, the content, and the hash.
unfoldable pub o_file_hashed :
    (m : Md5) (t : Transport) → Bool → FileMap t.State → ℤ → ℕ → ℕ → Exec t.State (Unit {0})
unfolding write_from_file_hashed
o_file_hashed m t big f file_r sz page = do
  o_int t big 8 sz
  hash ← write_from_file_hashed m f t.o file_r sz page
  o_bin t big hash

module _ (m : Md5) (os : Os) (o : List ℕ → Exec os.World (Unit {0}))
    (i_fixsize : ℕ → Exec os.World (List ℕ)) where
  -- What i_file does with the two hashes.
  checked : ℕ → Option (List ℕ) → Option (List ℕ) → Exec os.World ℕ
  unfolding same_hash
  checked sz hash s_hash = do
    same ← same_hash true hash s_hash
    if same then pure sz else throw (error "File transfer : MD5 checksums don't mach !")

  -- i_file on a descriptor.
  unfoldable pub i_file_hashed : Bool → Receiver os → ℤ → ℕ → Exec os.World ℕ
  unfolding read_to_file_hashed checked
  i_file_hashed big rcv file_w page = do
    sz ← i_int (on_os os o i_fixsize) big 8
    hash ← read_to_file_hashed m os file_w rcv sz page
    s_hash ← i_bin (on_os os o i_fixsize) big
    checked sz hash s_hash

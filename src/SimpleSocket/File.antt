-- ===== src/SimpleSocket/File.antt =====
-- `read_to_file` (socket++/io/simple_socket.cpp), which stores what a socket receives in a file,
-- in a build without SSL, where no hash is computed.
pub mod ShortWrite
pub mod Copy
pub mod Keeping
pub mod Hashed
use socketxx.Common.{
  ℕ, zero, suc, ◌-◌, ◌*◌, ◌==◌, true, false, Option, none, some, List, length, drop, ltb,
  if◌then◌else◌,
}
use socketxx.Common.Int.{ℤ}
use socketxx.Common.Outcome.{
  Exec, Outcome, ok, throws, halts, pure, other_error, no_fuel, undefined, ◌>>=◌, ◌>>◌,
}
use socketxx.BaseIo.{Os}

-- The socket's `_i`, lseek() to the start of the file, and the callback `info_f`, which does
-- nothing if it is NULL.
pub record Receiver (os : Os) : Type 0 where
  pub readf : ℕ → Exec os.World (List ℕ)
  pub rewind : os.World → os.World
  pub info_f : ℕ → ℕ → os.World → os.World

module _ (os : Os) (file_w : ℤ) where
  write_failed : os.World → Outcome (Unit {0}) × os.World
  write_failed s = (throws (other_error "read_to_file : failed to write to file" (os.errno s)), s)

  -- if (rs < 1) goto _err;
  retried : (ℕ → Exec os.World (Unit {0})) → Option ℕ × os.World → Outcome (Unit {0}) × os.World
  unfolding write_failed
  retried next (none, s) = write_failed s
  retried next (some zero, s) = write_failed s
  retried next (some (suc r), s) = next (suc r) s

  -- The inner loop, with the `file_rest` bytes that `b` points to. A count that wraps around makes
  -- write() read past the end of the buffer.
  write_rest : ℕ → ℕ → List ℕ → ℕ → Exec os.World (Unit {0})
  unfolding retried
  write_rest zero file_rest b rs s = (halts no_fuel, s)
  write_rest (suc fuel) file_rest b rs s =
      let next = write_rest fuel (file_rest - rs) (drop rs b) in
      if file_rest == 0
      then (ok tt, s)
      else if ltb file_rest rs
      then (halts undefined, s)
      else retried next (os.write file_w (drop rs b) s)

  first_write : List ℕ → Option ℕ × os.World → Outcome (Unit {0}) × os.World
  unfolding write_failed write_rest
  first_write chunk (none, s) = write_failed s
  first_write chunk (some zero, s) = write_failed s
  first_write chunk (some (suc r), s) =
      if suc r == length chunk
      then (ok tt, s)
      else write_rest (suc (length chunk)) (length chunk - suc r) (drop (suc r) chunk) (suc r) s

  -- What is done with the bytes of one read. Each round of the inner loop takes a byte at least.
  unfoldable pub write_chunk : List ℕ → Exec os.World (Unit {0})
  unfolding first_write
  write_chunk chunk s = first_write chunk (os.write file_w chunk s)

  module _ (rcv : Receiver os) (sz : ℕ) where
    pub note_progress : ℕ → Exec os.World (Unit {0})
    note_progress bytes_rest s = (ok tt, rcv.info_f (sz - bytes_rest) sz s)

    pub receive : ℕ → Exec os.World (List ℕ)
    receive chunksz s = rcv.readf chunksz (os.set_errno 0 s)

    -- while (bytes_rest != 0): each round takes a byte at least.
    copy : ℕ → ℕ → ℕ → Exec os.World (Unit {0})
    unfolding note_progress receive
    copy zero chunksz bytes_rest s = (halts no_fuel, s)
    copy (suc fuel) chunksz bytes_rest s = elim (bytes_rest == 0) [
      | true ↦ (ok tt, s)
      | false ↦
          let chunksz' = if ltb bytes_rest chunksz then bytes_rest else chunksz in
          (receive chunksz' >>= λ chunk.
          let rest = bytes_rest - length chunk in
          note_progress rest >> write_chunk chunk >> copy fuel chunksz' rest)
            s
    ]

    unfoldable pub read_to_file : ℕ → Exec os.World (Unit {0})
    unfolding copy
    read_to_file page s =
        if sz == 0 then (ok tt, s) else copy (suc sz) (page * 16) sz (rcv.rewind s)

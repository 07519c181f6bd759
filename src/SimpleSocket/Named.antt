-- ===== src/SimpleSocket/Named.antt =====
-- Files by their path, and descriptors that are sent: `open_file_read`, `create_temp_file` and
-- `dup_fd` (socket++/io/simple_socket.cpp), and the methods that use them
-- (socket++/io/simple_socket.hpp). In the texts of exceptions the path is left out.
pub mod Attempts
pub mod Leaks
pub mod Hashed
pub mod Descriptors
use Prim.Native.Nat.{bit_and}
use socketxx.Common.{
  ℕ, zero, suc, ◌+◌, ◌*◌, ◌%◌, ◌-◌, ◌^◌, ◌==◌, not, ◌&&◌, ◌||◌, Bool, true, false, Option, none,
  some, List, [], ◌∷◌, ◌++◌, length, ltb, if◌then◌else◌,
}
use socketxx.Common.Int.{ℤ, pos, negsuc, ltb_ℤ}
use socketxx.Common.Outcome.{
  Exec, Outcome, ok, throws, halts, pure, throw, halt, error, other_error, no_fuel, ◌>>=◌, ◌>>◌,
}
use socketxx.Transport.{Transport}
use socketxx.BaseIo.{Os}
use socketxx.BaseIo.Lifetime.{Handle, construct, set_preserved}
use socketxx.SimpleSocket.{o_int, i_int, i_bin}
use socketxx.SimpleSocket.File.{Receiver, read_to_file}
use socketxx.SimpleSocket.Transfer.{FileMap, o_file, on_os, same_hash}
use socketxx.UnixSocket.{c_str}

-- The system's calls on files. `stat` gives st_mode and st_size. `open_new` is open() with
-- O_CREAT|O_EXCL|O_WRONLY|O_NOFOLLOW; `open_read` with O_RDONLY. `product` is
-- rand() * clock() as a long, `l64a` the static buffer that l64a() leaves. `get_fd_flags` is
-- fcntl(F_GETFD).
pub record Files (S : Type 0) : Type 0 where
  pub errno : S → ℕ
  pub stat : List ℕ → S → Option (ℕ × ℕ) × S
  pub open_read : List ℕ → S → Option ℤ × S
  pub open_new : List ℕ → S → Option ℤ × S
  pub close : ℤ → S → S
  pub unlink : List ℕ → S → S
  pub dup : ℤ → S → Option ℤ × S
  pub get_fd_flags : ℤ → S → Option ℕ × S
  pub product : S → ℤ × S
  pub l64a : ℤ → S → List ℕ
  pub isalnum : ℕ → Bool

abbrev pub eexist : ℕ
eexist = 17

abbrev pub ebadf : ℕ
ebadf = 9

-- The loop over the characters of `randstr`.
abbrev pub patched : (ℕ → Bool) → ℕ → List ℕ → List ℕ
patched isalnum zero cs = cs
patched isalnum (suc n) [] = []
patched isalnum (suc n) (c ∷ cs) = (if isalnum c then c else 43) ∷ patched isalnum n cs

module _ {S : Type 0} (x : Files S) where
  read_opened : ℕ → Option ℤ × S → Outcome (ℤ × ℕ) × S
  read_opened sz (none, s) = (throws (other_error "file send : open() failed" (x.errno s)), s)
  read_opened sz (some filefd, s) = (ok (filefd, sz), s)

  file_found : List ℕ → Option (ℕ × ℕ) × S → Outcome (ℤ × ℕ) × S
  unfolding read_opened
  file_found path (none, s) = (throws (other_error "file send : stat() failed" (x.errno s)), s)
  file_found path (some (st_mode, st_size), s) =
      if not (bit_and st_mode 0o170000 == 0o100000)
      then (throws (error "file send : not a regular file"), s)
      else read_opened (st_size % 2 ^ 64) (x.open_read path s)

  -- open_file_read: the descriptor and the size
  unfoldable open_file_read : List ℕ → Exec S (ℤ × ℕ)
  unfolding file_found
  open_file_read path s = file_found path (x.stat path s)

  temp_opened : Exec S (ℤ × List ℕ) → List ℕ → Option ℤ × S → Outcome (ℤ × List ℕ) × S
  temp_opened again tempfile_name (some filefd, s) = (ok (filefd, tempfile_name), s)
  temp_opened again tempfile_name (none, s) =
      if x.errno s == eexist
      then again s
      else (throws (other_error "failed to create temp file" (x.errno s)), s)

  -- The body of the loop; `again` is its condition and what follows.
  attempt : Exec S (ℤ × List ℕ) → List ℕ → ℤ × S → Outcome (ℤ × List ℕ) × S
  unfolding temp_opened
  attempt again file_name (rand, s) =
      let tempfile_name = file_name ++ 45 ∷ c_str (patched x.isalnum 6 (x.l64a rand s)) in
      if ltb_ℤ rand (pos 1)
      then again s
      else temp_opened again tempfile_name (x.open_new tempfile_name s)

  -- `i` is a uint16_t.
  temp_loop : ℕ → ℕ → List ℕ → Exec S (ℤ × List ℕ)
  unfolding attempt
  temp_loop zero i file_name s = (halts no_fuel, s)
  temp_loop (suc fuel) i file_name s =
      let next = temp_loop fuel ((i + 1) % 65536) file_name in
      let again =
        if ltb ((i + 1) % 65536) 65535
        then next
        else throw (error "failed to create temp file : too many attempts") in
      attempt again file_name (x.product s)

  -- create_temp_file: the descriptor and the new name. `garbage` is what `i` holds at first.
  unfoldable pub create_temp_file : ℕ → ℕ → List ℕ → Exec S (ℤ × List ℕ)
  unfolding temp_loop
  create_temp_file fuel garbage file_name = temp_loop fuel garbage file_name

  duplicated : Option ℤ × S → Outcome ℤ × S
  duplicated (none, s) =
      (throws (other_error "can't duplicate file descriptor for sending" (x.errno s)), s)
  duplicated (some fd, s) = (ok fd, s)

  -- dup_fd
  unfoldable pub dup_fd : ℤ → Exec S ℤ
  unfolding duplicated
  dup_fd orig_fd s = duplicated (x.dup orig_fd s)

  fd_checked : Option ℕ × S → Outcome (Unit {0}) × S
  fd_checked (some flags, s) = (ok tt, s)
  fd_checked (none, s) =
      if x.errno s == ebadf
      then (throws (other_error "Invalid file descriptor" (x.errno s)), s)
      else (ok tt, s)

  -- base_fd::check_fd
  unfoldable pub check_fd : ℤ → Exec S (Unit {0})
  unfolding fd_checked
  check_fd fd s =
      if ltb_ℤ fd (pos 0)
      then (throws (other_error "Invalid file descriptor" (x.errno s)), s)
      else fd_checked (x.get_fd_flags fd s)

  -- try { ... } catch (...) { cleanup; throw; }
  abbrev pub guarded : {A : Type 0} → Outcome A × S → (S → S) → Outcome A × S
  guarded (ok a, s) cleanup = (ok a, s)
  guarded (throws e, s) cleanup = (throws e, cleanup s)
  guarded (halts h, s) cleanup = (halts h, s)

  -- ::close(fd)
  close_fd : ℤ → Exec S (Unit {0})
  close_fd fd s = (ok tt, x.close fd s)

-- An int as 32 bits, and back.
abbrev pub of_int : ℤ → ℕ
of_int (pos n) = n % 2 ^ 32
of_int (negsuc n) = 2 ^ 32 - (n % 2 ^ 32 + 1)

abbrev pub to_int : ℕ → ℤ
to_int n = if ltb n (2 ^ 31) then pos n else negsuc (2 ^ 32 - (n + 1))

module _ (t : Transport) (big : Bool) (x : Files t.State) where
  -- o_file on a path; the callback is not passed on.
  unfoldable o_file_path : FileMap t.State → List ℕ → ℕ → Exec t.State (Unit {0})
  unfolding close_fd
  o_file_path f path page = open_file_read x path >>= λ opened.
      (λ s.
        guarded x (o_file t big (record f { info_f = none }) opened.0 opened.1 page s)
          (x.close opened.0))
      >> close_fd x opened.0

  -- o_sock: the object, and what is sent
  unfoldable pub o_sock : Handle → Handle × Exec t.State (Unit {0})
  o_sock sock = (
    set_preserved sock,
    dup_fd x (set_preserved sock).fd >>= λ new_fd. o_int t big 4 (of_int new_fd),
  )

  -- i_sock
  unfoldable pub i_sock : Exec t.State Handle
  i_sock = do n ← i_int t big 4; check_fd x (to_int n); pure (construct true (to_int n))

module _ (os : Os) (o : List ℕ → Exec os.World (Unit {0})) (i_fixsize : ℕ → Exec os.World (List ℕ))
    (big : Bool) (rcv : Receiver os) (x : Files os.World) where
  -- What follows the size, into a file that is open.
  i_content : ℤ → ℕ → ℕ → Exec os.World (Unit {0})
  i_content file_w sz page = do
    read_to_file os file_w rcv sz page
    s_hash ← i_bin (on_os os o i_fixsize) big
    same ← same_hash false none s_hash
    if same then pure tt else throw (error "File transfer : MD5 checksums don't mach !")

  -- i_file into a temporary file, with what is received after the size. Before the file is made
  -- `tempfd` is invalid, and nothing is cleaned up.
  unfoldable pub into_temp_file :
      (ℤ → ℕ → ℕ → Exec os.World (Unit {0})) → ℕ → ℕ → List ℕ → ℕ → Exec os.World (List ℕ)
  unfolding close_fd
  into_temp_file content fuel garbage file_name page = i_int (on_os os o i_fixsize) big 8 >>= λ sz.
      create_temp_file x fuel garbage file_name >>= λ temp.
      (λ s. guarded x (content temp.0 sz page s) (λ s. x.unlink temp.1 (x.close temp.0 s)))
      >> close_fd x temp.0
      >> pure temp.1

  unfoldable pub i_file_temp : ℕ → ℕ → List ℕ → ℕ → Exec os.World (List ℕ)
  unfolding i_content into_temp_file
  i_file_temp fuel garbage file_name page = into_temp_file i_content fuel garbage file_name page

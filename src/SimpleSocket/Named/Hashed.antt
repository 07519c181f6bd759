-- ===== src/SimpleSocket/Named/Hashed.antt =====
-- Files given by a path and temporary files (socket++/io/simple_socket.hpp), in a build with SSL.
use socketxx.Common.{
  ℕ, ◌==◌, refl, Bool, true, false, Option, none, some, List, length, if◌then◌else◌, inl, inr,
  Bool-cases,
}
use socketxx.Common.Int.{ℤ}
use socketxx.Common.Keeps.{Keeps, Keeps-bind, Keeps-if}
use socketxx.Common.Outcome.{Exec, pure, throw, error, ◌>>=◌, ◌>>◌}
use socketxx.Transport.{Transport}
use socketxx.BaseIo.{Os}
use socketxx.SimpleSocket.{i_bin}
use socketxx.SimpleSocket.Keeping.{i_bin-Keeps}
use socketxx.SimpleSocket.File.{Receiver}
use socketxx.SimpleSocket.File.Hashed.Keeping.{read_to_file_hashed-Keeps}
use socketxx.SimpleSocket.File.Hashed.{Md5, read_to_file_hashed}
use socketxx.SimpleSocket.Transfer.{FileMap, on_os, same_hash}
use socketxx.SimpleSocket.Transfer.Hashed.{o_file_hashed}
use socketxx.SimpleSocket.Named.{
  Files, open_file_read, guarded, close_fd, into_temp_file, i_file_temp,
}
use socketxx.SimpleSocket.Named.Leaks.{HoldsFiles, Left, into_temp_file-Left, i_file_temp-Left}

-- o_file on a path; the callback is not passed on.
unfoldable o_file_path_hashed :
    (m : Md5) (t : Transport)
    → Bool
    → Files t.State
    → FileMap t.State
    → List ℕ
    → ℕ
    → Exec t.State (Unit {0})
unfolding close_fd
o_file_path_hashed m t big x f path page = open_file_read x path >>= λ opened.
    (λ s.
      guarded x (o_file_hashed m t big (record f { info_f = none }) opened.0 opened.1 page s)
        (x.close opened.0))
    >> close_fd x opened.0

module _ (m : Md5) (os : Os) (o : List ℕ → Exec os.World (Unit {0}))
    (i_fixsize : ℕ → Exec os.World (List ℕ)) (big : Bool) (rcv : Receiver os)
    (x : Files os.World) where
  i_content_hashed : ℤ → ℕ → ℕ → Exec os.World (Unit {0})
  unfolding same_hash
  i_content_hashed file_w sz page = do
    hash ← read_to_file_hashed m os file_w rcv sz page
    s_hash ← i_bin (on_os os o i_fixsize) big
    same ← same_hash true hash s_hash
    if same then pure tt else throw (error "File transfer : MD5 checksums don't mach !")

  -- i_file into a temporary file
  unfoldable pub i_file_temp_hashed : ℕ → ℕ → List ℕ → ℕ → Exec os.World (List ℕ)
  unfolding i_content_hashed into_temp_file
  i_file_temp_hashed fuel garbage file_name page =
      into_temp_file os o i_fixsize big rcv x i_content_hashed fuel garbage file_name page

same_hash-Keeps :
    {S P : Type 0} (part : S → P) (ssl : Bool) (hash s_hash : Option (List ℕ))
    → Keeps part (same_hash {S = S} ssl hash s_hash)
unfolding same_hash
same_hash-Keeps part false hash s_hash = record { at = λ s. refl }
same_hash-Keeps part true none s_hash = record { at = λ s. refl }
same_hash-Keeps part true (some hash) none = record { at = λ s. refl }
same_hash-Keeps part true (some hash) (some s_hash) = record {
  at = λ s. elim (Bool-cases (length s_hash == 16)) [ inl l ↦ rw l refl | inr l ↦ rw l refl ];
}

module _ (m : Md5) {os : Os} {i_fixsize : ℕ → Exec os.World (List ℕ)} {rcv : Receiver os}
    {x : Files os.World} (κ : HoldsFiles os i_fixsize rcv x) (o : List ℕ → Exec os.World (Unit {0}))
    (big : Bool) (page : ℕ) where
  i_content_hashed-Keeps :
      (file_w : ℤ) (sz : ℕ)
      → Keeps κ.held (i_content_hashed m os o i_fixsize big rcv x file_w sz page)
  unfolding i_content_hashed
  i_content_hashed-Keeps file_w sz =
      Keeps-bind κ.held _ (read_to_file_hashed-Keeps m (κ.storing_keeps file_w) sz page) (λ hash.
        Keeps-bind κ.held _ (i_bin-Keeps (on_os os o i_fixsize) κ.held κ.reading_keeps big)
          (λ s_hash.
            Keeps-bind κ.held _ (same_hash-Keeps κ.held true hash s_hash) (λ same.
              Keeps-if κ.held same (record { at = λ w. refl }) (record { at = λ w. refl }))))

  -- Receiving into a temporary file, in a build without SSL and in one with it, whatever fails on
  -- the way, a checksum that differs included, where closing the last descriptor that was opened
  -- and unlinking the last file that was made undo just that: where it returns, the file whose name
  -- it returns is new and no other, and where it throws none is; and the open descriptors are the
  -- same as before.
  pub i_file_temps-Left :
      (fuel garbage : ℕ) (name : List ℕ) (w : os.World)
      → Left κ (κ.held w) (i_file_temp os o i_fixsize big rcv x fuel garbage name page w)
        × Left κ (κ.held w) (i_file_temp_hashed m os o i_fixsize big rcv x fuel garbage name page w)
  unfolding i_file_temp_hashed
  i_file_temps-Left fuel garbage name w = (
    i_file_temp-Left κ o big page fuel garbage name w,
    into_temp_file-Left κ o big page (i_content_hashed m os o i_fixsize big rcv x)
        i_content_hashed-Keeps fuel garbage name w,
  )

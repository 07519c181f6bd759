-- ===== src/BaseIo/Fd.antt =====
-- class base_fd (socket++/base_io.hpp, socket++/base_io.cpp): plain descriptors.
use Prim.Native.Nat.{bit_and}
use socketxx.Common.{ℕ, ◌==◌, not, Bool, Option, none, some, List, [], ◌∷◌, length, if◌then◌else◌}
use socketxx.Common.Int.{ℤ, pos, minus_one, eqb}
use socketxx.Common.Outcome.{Exec, Outcome, ok, throws, other_error, reading, writing}
use socketxx.BaseIo.{Os, Timeval, timeout_noblock, throw_io, ret_count}
use socketxx.BaseIo.Filling.{fill}

module _ (os : Os) (fd : ℤ) where
  wrote : ℕ → Option ℕ × os.World → Outcome (Unit {0}) × os.World
  wrote len (r, s) =
      if not (eqb (ret_count r) (pos len)) then throw_io os (ret_count r) writing s else (ok tt, s)

  -- base_fd::_o
  unfoldable pub o : List ℕ → Exec os.World (Unit {0})
  unfolding wrote
  o d s = wrote (length d) (os.write fd d s)

  got : Option (List ℕ) × os.World → Outcome (List ℕ) × os.World
  got (none, s) = throw_io os minus_one reading s
  got (some [], s) = throw_io os (pos 0) reading s
  got (some (b ∷ bs), s) = (ok (b ∷ bs), s)

  -- base_fd::_i
  unfoldable pub i : ℕ → Exec os.World (List ℕ)
  unfolding got
  i maxlen s = got (os.read fd maxlen s)

  -- base_fd::_i_fixsize
  unfoldable pub i_fixsize : ℕ → Exec os.World (List ℕ)
  i_fixsize len = fill os (os.read fd) 1 len

  mode_of : Option ℕ × os.World → Outcome ℕ × os.World
  mode_of (none, s) =
      (throws (other_error "Error querying file descriptor type with fstat()" (os.errno s)), s)
  mode_of (some st_mode, s) = (ok (bit_and st_mode 0o170000), s)

  -- base_fd::fd_type
  unfoldable pub fd_type : Exec os.World ℕ
  unfolding mode_of
  fd_type s = mode_of (os.fstat_mode fd s)

  avail : (Option ℕ × Timeval) × os.World → Outcome Bool × os.World
  avail ((none, tm), s) = throw_io os minus_one reading s
  avail ((some r, tm), s) = (ok (r == 1), s)

  -- base_fd::i_avail: select() counts the descriptors that it leaves in the set, and there is one.
  unfoldable i_avail : Exec os.World Bool
  unfolding avail
  i_avail s = avail (os.select_read fd timeout_noblock s)

-- ===== src/BaseIo/Socket.antt =====
-- class base_socket (socket++/base_io.hpp, socket++/base_io.cpp): stream sockets.
pub mod Stream
pub mod Timeout
use socketxx.Common.{
  ℕ, zero, suc, ◌-◌, ◌==◌, not, Bool, true, false, Option, none, some, List, [], ◌∷◌, length, ltb,
  if◌then◌else◌,
}
use Prim.Native.Nat.{bit_or}
use socketxx.Common.Int.{ℤ, pos, minus_one, ltb_ℤ}
use socketxx.Common.Outcome.{
  Exec, Outcome, ok, throws, throw, pure, error, other_error, reading, writing, ◌>>=◌,
}
use socketxx.BaseIo.{
  Os, Timeval, timeval_eq, timeout_inf, timeout_noblock, throw_io, ret_count, ret_bytes,
}
use socketxx.BaseIo.Fd
use socketxx.BaseIo.Filling.{fill}

-- The values of <sys/socket.h> and <sys/stat.h> on Linux.
abbrev pub msg_nosignal : ℕ
msg_nosignal = 0x4000

abbrev pub msg_waitall : ℕ
msg_waitall = 0x100

abbrev pub s_ifsock : ℕ
s_ifsock = 0o140000

module _ (os : Os) (fd : ℤ) where
  sent : ℕ → Option ℕ × os.World → Outcome (Unit {0}) × os.World
  sent len (r, s) =
      if ltb_ℤ (ret_count r) (pos len) then throw_io os (ret_count r) writing s else (ok tt, s)

  -- base_socket::_o and _o_flags
  unfoldable pub o : List ℕ → Exec os.World (Unit {0})
  unfolding sent
  o d s = sent (length d) (os.send fd d msg_nosignal s)

  unfoldable pub o_flags : List ℕ → ℕ → Exec os.World (Unit {0})
  unfolding sent
  o_flags d flags s = sent (length d) (os.send fd d (bit_or flags msg_nosignal) s)

  -- What recv() stored is all of it, or the call was short of `least`.
  received : ℕ → Option (List ℕ) × os.World → Outcome (List ℕ) × os.World
  received least (none, s) = throw_io os minus_one reading s
  received least (some bs, s) =
      if ltb (length bs) least then throw_io os (pos (length bs)) reading s else (ok bs, s)

  -- base_socket::_i
  unfoldable pub i : ℕ → Exec os.World (List ℕ)
  unfolding received
  i maxlen s = received 1 (os.recv fd maxlen msg_nosignal s)

  -- base_socket::_i_fixsize where MSG_WAITALL is defined, and where it is not
  unfoldable pub i_fixsize : ℕ → Exec os.World (List ℕ)
  unfolding received
  i_fixsize len s = received len (os.recv fd len (bit_or msg_nosignal msg_waitall) s)

  unfoldable pub i_fixsize_fallback : ℕ → Exec os.World (List ℕ)
  i_fixsize_fallback len = fill os (λ n. os.recv fd n msg_nosignal) 0 len

  -- base_socket::check_socket
  unfoldable pub check_socket : Exec os.World (Unit {0})
  check_socket = do
    fdmode ← Fd.fd_type os fd
    if not (fdmode == s_ifsock)
        then throw (error "base_socket : underlying fd is not a socket")
        else pure tt

  set_done : Option ℕ × os.World → Outcome (Unit {0}) × os.World
  set_done (none, s) = (throws (other_error "setsockopt() error" (os.errno s)), s)
  set_done (some r, s) = (ok tt, s)

  get_done : Option Timeval × os.World → Outcome Timeval × os.World
  get_done (none, s) = (throws (other_error "getsockopt() error" (os.errno s)), s)
  get_done (some tm, s) = (ok (if timeval_eq tm timeout_noblock then timeout_inf else tm), s)

  -- base_socket::set_read_timeout and get_read_timeout
  unfoldable pub set_read_timeout : Timeval → Exec os.World (Unit {0})
  unfolding set_done
  set_read_timeout timeout s =
      if timeval_eq timeout timeout_noblock
      then (throws (error "set_read_timeout : non blocking IO ops not supported"), s)
      else set_done (
          os.set_rcvtimeo fd (if timeval_eq timeout timeout_inf then timeout_noblock else timeout)
            s)

  unfoldable pub get_read_timeout : Exec os.World Timeval
  unfolding get_done
  get_read_timeout s = get_done (os.get_rcvtimeo fd s)

  option_set : Bool × os.World → Outcome (Unit {0}) × os.World
  option_set (true, s) = (ok tt, s)
  option_set (false, s) = (throws (other_error "setsockopt() error" (os.errno s)), s)

  -- base_socket::_setopt_sock_bool; `setsockopt` is given the flag and the value, and says whether
  -- it succeeds.
  unfoldable setopt_sock_bool :
      (ℤ → ℕ → ℕ → os.World → Bool × os.World) → ℕ → Bool → Exec os.World (Unit {0})
  unfolding option_set
  setopt_sock_bool setsockopt flag b s = option_set (setsockopt fd flag (if b then 1 else 0) s)

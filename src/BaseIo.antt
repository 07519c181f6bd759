-- ===== src/BaseIo.antt =====
-- The system calls that the BaseIO classes make on a descriptor (socket++/base_io.cpp), as a
-- parameter, and what the classes share: the result of a call as a ssize_t, and `io_error`.
pub mod Fd
pub mod Pipe
pub mod Socket
pub mod Lifetime
pub mod Sharing
pub mod Construction
pub mod Filling
pub mod Overrun
use socketxx.Common.{ℕ, Bool, ◌&&◌, not, Option, none, some, List, length}
use socketxx.Common.Int.{ℤ, pos, negsuc, minus_one, eqb}
use socketxx.Common.Outcome.{Outcome, Direction, io_error, throws}

-- struct timeval
pub record Timeval : Type 0 where
  pub sec : ℤ
  pub usec : ℤ

abbrev pub timeval_eq : Timeval → Timeval → Bool
timeval_eq first second = eqb first.sec second.sec && eqb first.usec second.usec

abbrev pub timeout_inf : Timeval
timeout_inf = record { sec = minus_one; usec = pos 0 }

abbrev pub timeout_noblock : Timeval
timeout_noblock = record { sec = pos 0; usec = pos 0 }

-- The operating system. `none` is the return value -1, with the cause in `errno`. A read returns
-- the bytes that it stored, a write how many it took. `select_read` waits for one descriptor and
-- gives back the time that is left, as on Linux.
pub record Os : Type 1 where
  pub World : Type 0
  pub errno : World → ℕ
  pub set_errno : ℕ → World → World
  pub read : ℤ → ℕ → World → Option (List ℕ) × World
  pub write : ℤ → List ℕ → World → Option ℕ × World
  pub send : ℤ → List ℕ → ℕ → World → Option ℕ × World
  pub recv : ℤ → ℕ → ℕ → World → Option (List ℕ) × World
  pub select_read : ℤ → Timeval → World → (Option ℕ × Timeval) × World
  pub set_rcvtimeo : ℤ → Timeval → World → Option ℕ × World
  pub get_rcvtimeo : ℤ → World → Option Timeval × World
  pub fstat_mode : ℤ → World → Option ℕ × World

-- The result as a ssize_t.
abbrev pub ret_count : Option ℕ → ℤ
ret_count none = minus_one
ret_count (some n) = pos n

abbrev pub ret_bytes : Option (List ℕ) → ℤ
ret_bytes none = minus_one
ret_bytes (some bs) = pos (length bs)

-- `throw socketxx::io_error(r, t)`: the constructor copies `errno`.
abbrev pub throw_io {ℓ} : {A : Type ℓ} (os : Os) → ℤ → Direction → os.World → Outcome A × os.World
throw_io os r t s = (throws (io_error r t (os.errno s)), s)

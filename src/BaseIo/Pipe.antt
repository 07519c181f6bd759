-- ===== src/BaseIo/Pipe.antt =====
-- class base_pipe (socket++/base_io.hpp, socket++/base_io.cpp): one end of a pipe.
pub mod Ends
pub mod Exact
pub mod TimesOut
use Prim.Native.Nat.{◌%◌, ◌/◌, ◌*◌}
use socketxx.Common.{
  ℕ, zero, suc, ◌-◌, ◌==◌, not, ◌||◌, Bool, true, false, Option, none, some, List, [], ◌∷◌, ◌++◌,
  length, ltb, if◌then◌else◌,
}
use socketxx.Common.Int.{ℤ, pos, minus_one}
use socketxx.Common.Outcome.{
  Exception, io_error, io_ssl_error, Exec, Outcome, ok, throws, halts, throw, halt, pure, error,
  other_error, logic_error, no_fuel, undefined, reading, ◌>>=◌, ◌>>◌,
}
use socketxx.BaseIo.{Os, Timeval, timeval_eq, timeout_inf, throw_io}
use socketxx.BaseIo.Fd

-- enum rw_t
pub data Rw : Type 0 where
  read_end write_end : Rw

abbrev pub is_read_end : Rw → Bool
is_read_end read_end = true
is_read_end write_end = false

-- The values of <errno.h> on Linux.
abbrev pub eintr : ℕ
eintr = 4

abbrev pub etimedout : ℕ
etimedout = 110

abbrev pub eagain : ℕ
eagain = 11

-- io_error::is_timeout_error, which io_ssl_error inherits; no other exception has it.
unfoldable pub is_timeout_error : Exception → Bool
is_timeout_error (io_error ret t std_errno) = (std_errno == etimedout) || (std_errno == eagain)
is_timeout_error (io_ssl_error t k ret std_errno) =
    (std_errno == etimedout) || (std_errno == eagain)
is_timeout_error _ = false

-- S_ISFIFO(mode), and `mode & S_IRUSR` with its value 0400.
abbrev pub is_fifo : ℕ → Bool
is_fifo mode = mode / 4096 % 16 == 1

abbrev pub and_irusr : ℕ → ℕ
and_irusr mode = mode / 256 % 2 * 256

-- A `bool` compared with an `int` is 1 or 0.
abbrev pub as_int : Bool → ℕ
as_int true = 1
as_int false = 0

-- _base_pipe::_check_pipe, on the mode that fstat() gives.
unfoldable pub check_mode {ℓ} : {S : Type ℓ} → Rw → ℕ → Exec S (Unit {ℓ})
check_mode rw fd_mode =
    if not (is_fifo fd_mode)
    then throw (error "File descriptor is not a pipe")
    else if not (and_irusr fd_mode == as_int (is_read_end rw))
    then throw (error "Pipe end mode incompatible with specified rw_t")
    else pure tt

module _ (os : Os) (fd : ℤ) where
  check_stat : Rw → Option ℕ × os.World → Outcome (Unit {0}) × os.World
  unfolding check_mode
  check_stat rw (none, s) =
      (throws (other_error "Error querying file descriptor type with fstat()" (os.errno s)), s)
  check_stat rw (some st_mode, s) = check_mode rw st_mode s

  unfoldable pub check_pipe : Rw → Exec os.World (Unit {0})
  unfolding check_stat
  check_pipe rw s = check_stat rw (os.fstat_mode fd s)

  -- After select(): again on EINTR, an io_error on any other failure and on a timeout.
  selected :
      (Timeval → Exec os.World Timeval)
      → (Option ℕ × Timeval) × os.World
      → Outcome Timeval × os.World
  selected again ((none, tm), s) =
      if os.errno s == eintr then again tm s else throw_io os minus_one reading s
  selected again ((some zero, tm), s) = throw_io os minus_one reading (os.set_errno etimedout s)
  selected again ((some (suc n), tm), s) = (ok tm, s)

  -- _base_pipe::_pipe_select_wait; `fuel` bounds how often a signal interrupts it. The time that
  -- is left goes back to the caller through the pointer.
  unfoldable pub pipe_select_wait : ℕ → Timeval → Exec os.World Timeval
  unfolding selected
  pipe_select_wait zero tm s = (halts no_fuel, s)
  pipe_select_wait (suc fuel) tm s = selected (pipe_select_wait fuel) (os.select_read fd tm s)

  wait_ready : ℕ → Timeval → Exec os.World Timeval
  unfolding pipe_select_wait
  wait_ready fuel tm = if not (timeval_eq tm timeout_inf) then pipe_select_wait fuel tm else pure tm

  -- _base_pipe::_i_pipe
  unfoldable pub i_pipe : ℕ → ℕ → Timeval → Exec os.World (List ℕ)
  unfolding wait_ready
  i_pipe signals maxlen tm = do wait_ready signals tm; Fd.i os fd maxlen

  -- One round of the loop below: what the read stored, and on with the rest.
  pub ifix_step :
      (ℕ → List ℕ → Exec os.World (List ℕ))
      → ℕ
      → List ℕ
      → Option (List ℕ) × os.World
      → Outcome (List ℕ) × os.World
  ifix_step next len filled (none, s) = throw_io os minus_one reading s
  ifix_step next len filled (some bs, s) =
      if length bs == 0
      then throw_io os (pos 0) reading s
      else if ltb len (length bs)
      then (halts undefined, s)
      else next (len - length bs) (filled ++ bs) s

  -- _base_pipe::_ifix_pipe: each round takes at least one byte, so `len` rounds are enough.
  unfoldable pub ifix_loop : ℕ → ℕ → Timeval → ℕ → List ℕ → Exec os.World (List ℕ)
  unfolding ifix_step wait_ready
  ifix_loop signals zero tm len filled s = (halts no_fuel, s)
  ifix_loop signals (suc fuel) tm len filled s = elim (len == 0) [
    | true ↦ (ok filled, s)
    | false ↦
        (wait_ready signals tm >>= λ tm' s'.
        ifix_step (ifix_loop signals fuel tm') len filled (os.read fd len s'))
          s
  ]

  unfoldable pub ifix_pipe : ℕ → ℕ → Timeval → Exec os.World (List ℕ)
  unfolding ifix_loop
  ifix_pipe signals len tm = ifix_loop signals (suc len) tm len []

  -- base_pipe<rw>::_o, _i and _i_fixsize
  unfoldable pub o : Rw → List ℕ → Exec os.World (Unit {0})
  o read_end d = throw (logic_error "pipe end not writable")
  o write_end d = Fd.o os fd d

  unfoldable pub i : Rw → ℕ → ℕ → Timeval → Exec os.World (List ℕ)
  unfolding i_pipe
  i read_end signals maxlen timeout = i_pipe signals maxlen timeout
  i write_end signals maxlen timeout = throw (logic_error "pipe end not readable")

  unfoldable pub i_fixsize : Rw → ℕ → ℕ → Timeval → Exec os.World (List ℕ)
  unfolding ifix_pipe
  i_fixsize read_end signals len timeout = ifix_pipe signals len timeout
  i_fixsize write_end signals len timeout = throw (logic_error "pipe end not readable")

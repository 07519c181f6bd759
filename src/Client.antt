-- ===== src/Client.antt =====
-- The client side of a connection (socket++/handler/socket_client.hpp and .cpp), with the flag
-- operations of base_fd::fcntl_fl (socket++/base_io.cpp) that it makes.
pub mod Flags
pub mod Outcomes
use Prim.Native.Nat.{◌%◌, ◌/◌}
use socketxx.Common.{
  ℕ, zero, suc, ◌+◌, ◌-◌, ◌==◌, Bool, true, false, Option, none, some, if◌then◌else◌,
}
use Prim.Native.String.{String}
use socketxx.Common.Int.{ℤ}
use socketxx.Common.Outcome.{
  Exec, Outcome, ok, throws, halts, pure, other_error, client_connect_error, no_fuel, ◌>>=◌, ◌>>◌,
}
use socketxx.BaseIo.{Timeval, timeval_eq, timeout_inf}
use socketxx.BaseIo.Pipe.{eintr, etimedout}

-- The calls that a client makes on its descriptor. `get_flags` and `set_flags` are fcntl();
-- `select_write` gives back the time that is left, as on Linux; `get_so_error` is the option
-- SO_ERROR, which is never negative.
pub record ClientOs : Type 1 where
  pub World : Type 0
  pub errno : World → ℕ
  pub set_errno : ℕ → World → World
  pub connect : ℤ → World → Bool × World
  pub select_write : ℤ → Timeval → World → (Option ℕ × Timeval) × World
  pub get_so_error : ℤ → World → Option ℕ × World
  pub get_flags : ℤ → World → Option ℕ × World
  pub set_flags : ℤ → ℕ → World → Bool × World

-- The values of <errno.h> and <fcntl.h> on Linux.
abbrev pub einprogress : ℕ
einprogress = 115

abbrev pub o_nonblock : ℕ
o_nonblock = 2048

-- `flags | O_NONBLOCK` and `flags & ~O_NONBLOCK`.
abbrev pub with_nonblock : ℕ → ℕ
with_nonblock f = if f / o_nonblock % 2 == 1 then f else f + o_nonblock

abbrev pub without_nonblock : ℕ → ℕ
without_nonblock f = if f / o_nonblock % 2 == 1 then f - o_nonblock else f

module _ (os : ClientOs) (fd : ℤ) where
  fail {ℓ} : {A : Type ℓ} → String → os.World → Outcome A × os.World
  fail what s = (throws (client_connect_error what (os.errno s)), s)

  got_flags : Option ℕ × os.World → Outcome ℕ × os.World
  got_flags (none, s) = (
    throws (other_error "Error getting file descriptor's flags with fcntl(F_GETFL)" (os.errno s)),
    s,
  )
  got_flags (some f, s) = (ok f, s)

  flags_set : Bool × os.World → Outcome (Unit {0}) × os.World
  flags_set (false, s) = (
    throws (other_error "Error setting file descriptor's flags with fcntl(F_SETFL)" (os.errno s)),
    s,
  )
  flags_set (true, s) = (ok tt, s)

  -- flags::operator|= and operator&=: get, change, set
  change_flags : (ℕ → ℕ) → Exec os.World (Unit {0})
  unfolding got_flags flags_set
  change_flags f =
      (λ s. got_flags (os.get_flags fd s)) >>= λ n s. flags_set (os.set_flags fd (f n) s)

  so_error : Option ℕ × os.World → Outcome (Unit {0}) × os.World
  unfolding fail
  so_error (none, s) = (throws (other_error "getsockopt() error" (os.errno s)), s)
  so_error (some zero, s) = (ok tt, s)
  so_error (some (suc r), s) = fail "Error while connecting to host" (os.set_errno (suc r) s)

  -- After select(): again on EINTR.
  answered :
      (Timeval → Exec os.World (Unit {0}))
      → (Option ℕ × Timeval) × os.World
      → Outcome (Unit {0}) × os.World
  unfolding fail so_error
  answered again ((none, tm), s) =
      if os.errno s == eintr then again tm s else fail "Error while connecting to host" s
  answered again ((some zero, tm), s) = fail "Can't connect to host" (os.set_errno etimedout s)
  answered again ((some (suc n), tm), s) = so_error (os.get_so_error fd s)

  -- The label `redo`; `fuel` bounds how often a signal interrupts it.
  redo : ℕ → Timeval → Exec os.World (Unit {0})
  unfolding answered
  redo zero tm s = (halts no_fuel, s)
  redo (suc fuel) tm s = answered (redo fuel) (os.select_write fd tm s)

  in_progress : ℕ → Timeval → Bool → Exec os.World (Unit {0})
  unfolding fail redo
  in_progress fuel timeout true s = (ok tt, s)
  in_progress fuel timeout false s =
      if os.errno s == einprogress
      then redo fuel timeout s
      else fail "Failed to connect client to host" s

  call_connect : Exec os.World Bool
  call_connect s = (ok (os.connect fd s).0, (os.connect fd s).1)

  -- _socket_client::connect_timeout
  unfoldable pub connect_timeout : ℕ → Timeval → Exec os.World (Unit {0})
  unfolding change_flags call_connect in_progress
  connect_timeout fuel timeout = do
    change_flags with_nonblock
    r ← call_connect
    change_flags without_nonblock
    in_progress fuel timeout r

  connected : Bool × os.World → Outcome (Unit {0}) × os.World
  unfolding fail
  connected (true, s) = (ok tt, s)
  connected (false, s) = fail "Failed to connect client to host" s

  -- _socket_client::connect
  unfoldable pub connect : Exec os.World (Unit {0})
  unfolding connected
  connect s = connected (os.connect fd s)

  -- The constructor of socket_client, on the socket that its base class made.
  unfoldable pub socket_client : ℕ → Timeval → Exec os.World (Unit {0})
  unfolding connect connect_timeout
  socket_client fuel max_wait =
      if timeval_eq max_wait timeout_inf then connect else connect_timeout fuel max_wait

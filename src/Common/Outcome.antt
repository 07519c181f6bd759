-- ===== src/Common/Outcome.antt =====
-- What a C++ operation can do: return a value, throw an exception, or not go on at all. The state
-- comes back in each case, since what was written before a throw stays written.
use Prim.Native.Nat.{ℕ}
use mathlib.Core.List.{List}
use mathlib.Core.Option.{Option}
use Prim.Native.String.{String}
use socketxx.Common.Int.{ℤ}

-- The exception classes of the library, with the values that they carry.
pub data Direction : Type 0 where
  reading writing : Direction

pub data LaunchError : Type 0 where
  bind_err listen_err : LaunchError

pub data PoolError : Type 0 where
  select_err accept_err : PoolError

pub data SslPhase : Type 0 where
  ssl_start ssl_stop : SslPhase

pub data Exception : Type 0 where
  -- io_error: `ret`, `err_type`, `std_errno`
  io_error : ℤ → Direction → ℕ → Exception
  -- other_error: `_what`, `std_errno`
  other_error : String → ℕ → Exception
  -- socketxx::error with a message
  error : String → Exception
  -- std::logic_error, thrown on misuse
  logic_error : String → Exception
  timeout_event : Exception
  stop_event : ℤ → Exception
  server_launch_error : LaunchError → ℕ → Exception
  server_pool_error : PoolError → ℕ → Exception
  client_connect_error : String → ℕ → Exception
  bad_addr_error : String → Exception
  dns_resolve_error : List ℕ → ℕ → Exception
  -- ssl_error: `t`, `ssl_sock` or NULL, `ssl_r`, `std_errno`
  ssl_error : SslPhase → Option ℕ → ℤ → ℕ → Exception
  -- io_ssl_error, which is an io_error as well: `err_type`, `ssl_sock`, `ret`, `std_errno`
  io_ssl_error : Direction → ℕ → ℤ → ℕ → Exception

-- Undefined behaviour, a thread that waits for itself, and a loop that has not ended in the
-- rounds given.
pub data Halt : Type 0 where
  undefined deadlock no_fuel : Halt

pub data Outcome {ℓ} (A : Type ℓ) : Type ℓ where
  ok : A → Outcome A
  throws : Exception → Outcome A
  halts : Halt → Outcome A

abbrev pub Exec {ℓ} : Type ℓ → Type ℓ → Type ℓ
Exec S A = S → Outcome A × S

-- An operation that returns or throws.
abbrev pub Finishes : {W A : Type 0} → Outcome A × W → Type 0
Finishes (ok a, w) = Unit {0}
Finishes (throws e, w) = Unit {0}
Finishes (halts h, w) = ⊥

module _ {ℓ} {S A : Type ℓ} where
  abbrev pub pure : A → Exec S A
  pure a s = (ok a, s)

  abbrev pub throw : Exception → Exec S A
  throw e s = (throws e, s)

  abbrev pub halt : Halt → Exec S A
  halt h s = (halts h, s)

  abbrev pub gets : (S → A) → Exec S A
  gets f s = (ok (f s), s)

module _ {ℓ} {S A B : Type ℓ} where
  abbrev pub resume : Outcome A → (A → Exec S B) → Exec S B
  resume (ok a) f s = f a s
  resume (throws e) f s = (throws e, s)
  resume (halts h) f s = (halts h, s)

  infixl 10 ◌>>=◌ ◌>>◌
  abbrev pub ◌>>=◌ : Exec S A → (A → Exec S B) → Exec S B
  ◌>>=◌ m f s = resume (m s).0 f (m s).1

  abbrev pub ◌>>◌ : Exec S A → Exec S B → Exec S B
  ◌>>◌ m n = m >>= λ _. n

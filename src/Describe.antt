-- ===== src/Describe.antt =====
-- The texts of the exceptions that carry an errno (socket++/base_io.cpp, socket++/base_inet.cpp,
-- socket++/handler/socket_server.cpp, socket++/handler/socket_client.hpp).
use Prim.Native.String.{String}
use Prim.Native.String
use socketxx.Common.{ℕ, List, if◌then◌else◌}
use socketxx.Common.Int.{ℤ, pos, ltb_ℤ, eqb}
use socketxx.Common.Outcome.{
  Direction, reading, writing, LaunchError, bind_err, listen_err, PoolError, select_err, accept_err,
}

-- One text after the other, in a stream or a string.
infixr 30 ◌⊹◌
abbrev pub ◌⊹◌ : String → String → String
s ⊹ t = String.◌++◌ s t

-- strerror(), and a number and the bytes of a string in a stream
pub record Texts : Type 0 where
  pub strerror : ℕ → String
  pub decimal : ℕ → String
  pub chars : List ℕ → String

abbrev pub doing : Direction → String
doing writing = "writing"
doing reading = "reading"

abbrev pub incomplete : Direction → String
incomplete writing = "write"
incomplete reading = "read"

module _ (x : Texts) where
  -- classic_error::errno_str
  unfoldable errno_str : ℕ → String
  errno_str std_errno = " : #" ⊹ x.decimal std_errno ⊹ " " ⊹ x.strerror std_errno

  -- io_error::descr
  unfoldable io_descr : ℤ → Direction → ℕ → String
  unfolding errno_str
  io_descr ret err_type std_errno =
      if ltb_ℤ (pos 0) ret
      then "Incomplete " ⊹ incomplete err_type
      else "I/O error while "
        ⊹ doing err_type
        ⊹ " data"
        ⊹ (if eqb ret (pos 0) then " : the connection is probably closed" else errno_str std_errno)

  -- other_error::descr, and client_connect_error::descr
  unfoldable other_descr : String → ℕ → String
  unfolding errno_str
  other_descr what std_errno = what ⊹ errno_str std_errno

  -- dns_resolve_error::descr
  unfoldable dns_descr : List ℕ → ℕ → String
  unfolding errno_str
  dns_descr failed_hostname std_errno =
      "Failed to resolve hostname '" ⊹ x.chars failed_hostname ⊹ "'" ⊹ errno_str std_errno

launch_cause : LaunchError → String
launch_cause bind_err = "Port/address binding"
launch_cause listen_err = "Listening"

-- server_launch_error::descr
unfoldable launch_descr : LaunchError → String
unfolding launch_cause
launch_descr type = "socket server : " ⊹ launch_cause type ⊹ " failed"

pool_cause : PoolError → String
pool_cause select_err = "select() error"
pool_cause accept_err = "accept() error"

-- server_pool_error::descr
unfoldable pool_descr : PoolError → String
unfolding pool_cause
pool_descr type = "socket server pooling : " ⊹ pool_cause type

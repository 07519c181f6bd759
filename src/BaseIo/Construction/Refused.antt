-- ===== src/BaseIo/Construction/Refused.antt =====
-- What the constructors do with descriptors of every type.
use Prim.Native.Nat.{bit_and}
use socketxx.Common.{ℕ, ◌≡◌, ◌==◌, Bool, some, List, [], ◌∷◌, if◌then◌else◌}
use socketxx.Common.Int.{ℤ}
use socketxx.Common.Outcome.{Outcome, ok, throws, error}
use socketxx.BaseIo.{Os}
use socketxx.BaseIo.Fd
use socketxx.BaseIo.Lifetime.{Call, close}
use socketxx.BaseIo.Pipe.{Rw, is_fifo, and_irusr, as_int, is_read_end}
use socketxx.BaseIo.Socket.{s_ifsock}

abbrev is_socket : ℕ → Bool
is_socket mode = bit_and mode 0o170000 == s_ifsock

-- The calls of an object that is destroyed if its constructor throws.
abbrev refused : Bool → ℤ → Outcome (Unit {0}) → List Call
refused autoclose fd (throws e) = if autoclose then close fd ∷ [] else []
refused autoclose fd _ = []

module _ (os : Os) (fd : ℤ) (mode : ℕ) (w w' : os.World)
    (stat : os.fstat_mode fd w ≡ (some mode, w')) where
  -- What the constructors of base_socket and base_pipe make of the mode.
  abbrev as_socket : Outcome (Unit {0})
  as_socket =
      if is_socket mode then ok tt else throws (error "base_socket : underlying fd is not a socket")

  abbrev as_pipe : Rw → Outcome (Unit {0})
  as_pipe rw' =
      if is_fifo mode
      then (if and_irusr mode == as_int (is_read_end rw')
          then ok tt
          else throws (error "Pipe end mode incompatible with specified rw_t"))
      else throws (error "File descriptor is not a pipe")

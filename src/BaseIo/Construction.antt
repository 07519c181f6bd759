-- ===== src/BaseIo/Construction.antt =====
-- The constructors of base_socket and base_pipe (socket++/base_io.hpp, socket++/base_io.cpp): on a
-- new socket, on a descriptor that exists, and from a base_fd. If the body throws, the base class,
-- which is complete by then, is destroyed.
pub mod Refused
use socketxx.Common.{Bool, true, false, Option, none, some}
use socketxx.Common.Int.{ℤ}
use socketxx.Common.Outcome.{Outcome, ok, throws, halts, other_error}
use socketxx.BaseIo.{Os}
use socketxx.BaseIo.Pipe.{Rw, check_pipe}
use socketxx.BaseIo.Socket.{check_socket}
use socketxx.BaseIo.Lifetime.{Handle, construct, destroy_fd}

-- socket(), with the address family
pub record Opener (os : Os) : Type 0 where
  pub socket : ℤ → os.World → Option ℤ × os.World

module _ (os : Os) where
  -- How a constructor ends, the object it leaves and the world.
  abbrev pub Built : Type 0
  Built = Outcome (Unit {0}) × (Handle × os.World)

  checked : (Handle → Handle) → Handle → Outcome (Unit {0}) × os.World → Built
  checked undo h (ok tt, w) = (ok tt, (h, w))
  checked undo h (throws e, w) = (throws e, (undo h, w))
  checked undo h (halts e, w) = (halts e, (h, w))

  -- base_socket(socket_t handle, bool autoclose_handle)
  unfoldable pub socket_of_handle : ℤ → Bool → os.World → Built
  unfolding checked
  socket_of_handle handle autoclose_handle w =
      checked (destroy_fd true) (construct autoclose_handle handle) (check_socket os handle w)

  -- base_socket(const base_fd& base): there is another object on the descriptor.
  unfoldable pub socket_of_base : Handle → os.World → Built
  unfolding checked
  socket_of_base base w = checked (destroy_fd false) base (check_socket os base.fd w)

  -- base_pipe(fd_t handle, bool autoclose_handle)
  unfoldable pub pipe_of_handle : Rw → ℤ → Bool → os.World → Built
  unfolding checked
  pipe_of_handle rw handle autoclose_handle w =
      checked (destroy_fd true) (construct autoclose_handle handle) (check_pipe os handle rw w)

  -- base_pipe(const base_fd& base)
  unfoldable pub pipe_of_base : Rw → Handle → os.World → Built
  unfolding checked
  pipe_of_base rw base w = checked (destroy_fd false) base (check_pipe os base.fd rw w)

  created : Option ℤ × os.World → Outcome ℤ × os.World
  created (none, w) = (throws (other_error "Failed to create socket" (os.errno w)), w)
  created (some fd, w) = (ok fd, w)

  -- create_socket
  unfoldable create_socket : Opener os → ℤ → os.World → Outcome ℤ × os.World
  unfolding created
  create_socket x af w = created (x.socket af w)

  opened : Outcome ℤ × os.World → Outcome Handle × os.World
  opened (ok fd, w) = (ok (construct true fd), w)
  opened (throws e, w) = (throws e, w)
  opened (halts e, w) = (halts e, w)

  -- base_socket(sa_family_t af)
  unfoldable new_socket : Opener os → ℤ → os.World → Outcome Handle × os.World
  unfolding create_socket opened
  new_socket x af w = opened (create_socket x af w)

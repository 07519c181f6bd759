-- ===== src/BaseIo/Lifetime.antt =====
-- Who closes a descriptor: `fd_close`, `set_preserved` and the destructors of base_fd and
-- base_socket (socket++/base_io.hpp, socket++/base_io.cpp). The reference count belongs to a
-- third-party header: `last` says what REFCXX_DESTRUCT and REFCXX_WILL_DESTRUCT find, that the
-- object is the last one on its descriptor.
use socketxx.Common.{◌≡◌, ◌&&◌, not, Bool, true, false, List, [], ◌∷◌, ◌++◌, arith, if◌then◌else◌}
use socketxx.Common.Int.{ℤ, minus_one, eqb}

pub data Call : Type 0 where
  shutdown_rdwr close : ℤ → Call

-- The members, the shared `_shrd_data` included, and the calls made so far.
pub record Handle : Type 0 where
  pub fd : ℤ
  pub autoclose : Bool
  pub preserve_fd : Bool
  pub shd_alive : Bool
  pub calls : List Call

abbrev pub invalid_handle : ℤ
invalid_handle = minus_one

-- base_fd(bool autoclose_handle, fd_t handle)
unfoldable pub construct : Bool → ℤ → Handle
construct autoclose_handle handle = record {
  fd = handle;
  autoclose = autoclose_handle;
  preserve_fd = false;
  shd_alive = true;
  calls = [];
}

unfoldable pub set_preserved : Handle → Handle
set_preserved h = record h { preserve_fd = true }

abbrev is_open : Handle → Bool
is_open h = h.autoclose && not (eqb h.fd invalid_handle)

-- base_fd::fd_close
unfoldable pub fd_close : Handle → Handle
fd_close h =
    if is_open h then record h { fd = invalid_handle; calls = h.calls ++ close h.fd ∷ [] } else h

-- base_socket::fd_close
unfoldable pub socket_close : Handle → Handle
socket_close h =
    if is_open h
    then record h {
      fd = invalid_handle;
      calls =
          (h.calls ++ (if not h.preserve_fd then shutdown_rdwr h.fd ∷ [] else []))
          ++ close h.fd ∷ [];
    }
    else h

-- ~base_fd
unfoldable pub destroy_fd : Bool → Handle → Handle
unfolding fd_close
destroy_fd last h = if last then record (fd_close h) { shd_alive = false } else h

-- ~base_socket, which runs ~base_fd after its body
unfoldable pub destroy_socket : Bool → Handle → Handle
unfolding socket_close destroy_fd
destroy_socket last h = destroy_fd last (if last then socket_close h else h)

-- The calls that end a socket on `fd`.
abbrev pub farewell : Bool → ℤ → List Call
farewell preserved fd = if preserved then close fd ∷ [] else shutdown_rdwr fd ∷ close fd ∷ []

-- Destroying the last object on an open socket that is closed automatically closes it once, with
-- a shutdown before that unless it was preserved; destroying any other object makes no call.
pub destroy_socket-calls :
    (last : Bool) (h : Handle)
    → h.autoclose ≡ true
    → eqb h.fd invalid_handle ≡ false
    → h.calls ≡ []
    → (destroy_socket last h).calls ≡ (if last then farewell h.preserve_fd h.fd else [])
unfolding destroy_socket
destroy_socket-calls last h a v c = ground arith

-- A socket that was closed already, or whose descriptor the user manages, is not touched.
pub destroy_socket-silent :
    (last : Bool) (h : Handle) → is_open h ≡ false → (destroy_socket last h).calls ≡ h.calls
unfolding destroy_socket
destroy_socket-silent last h c = ground arith

-- After a close the destructor closes nothing more.
pub destroy_socket-socket_close :
    (h : Handle) → (destroy_socket true (socket_close h)).calls ≡ (socket_close h).calls
unfolding destroy_socket
destroy_socket-socket_close h = ground arith

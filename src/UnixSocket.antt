-- ===== src/UnixSocket.antt =====
-- class base_unixsock (socket++/base_unixsock.hpp, socket++/base_unixsock.cpp): addresses that are
-- paths, and the socket file that a server leaves behind.
pub mod Addresses
pub mod SocketFile
use socketxx.Common.{
  ℕ, zero, suc, ◌+◌, ◌-◌, ◌==◌, Bool, true, false, Option, none, some, List, [], ◌∷◌, ◌++◌, length,
  take, drop, leb, if◌then◌else◌,
}
use socketxx.Common.Outcome.{Exec, Outcome, ok, throws, halts, error, other_error, logic_error}
use socketxx.Common.Int.{ℤ}
use socketxx.BaseIo.Lifetime.{Handle, construct, socket_close, destroy_socket}
use socketxx.Server.{ServerOs, Server, listening_start, listening_stop}

-- sizeof(sun_path), offsetof(sockaddr_un, sun_path) and sizeof(sockaddr_un) on Linux.
abbrev pub sun_path_size : ℕ
sun_path_size = 108

abbrev pub sun_path_offset : ℕ
sun_path_offset = 2

abbrev pub sockaddr_un_size : ℕ
sockaddr_un_size = 110

-- The characters before the terminating zero, and how many they are.
abbrev pub c_str : List ℕ → List ℕ
c_str [] = []
c_str (zero ∷ cs) = []
c_str (suc c ∷ cs) = suc c ∷ c_str cs

abbrev pub strlen : List ℕ → ℕ
strlen cs = length (c_str cs)

-- struct addr_info
pub record AddrInfo : Type 0 where
  pub sun_path : List ℕ
  pub addrlen : ℕ

-- _build_unixsock_addr: `path` has no zero, and `memory` is what the local variable held before.
unfoldable pub build_unixsock_addr : List ℕ → List ℕ → Outcome (List ℕ)
build_unixsock_addr memory path =
    let path_len = length path in
    if leb (sun_path_size - 1) path_len
    then throws (error "Path is too long for UNIX socket !")
    else ok (path ++ 0 ∷ drop (path_len + 1) memory)

with_length : Outcome (List ℕ) → Outcome AddrInfo
with_length (ok addr) = ok (record { sun_path = addr; addrlen = sun_path_offset + strlen addr })
with_length (throws e) = throws e
with_length (halts h) = halts h

-- addr_info::addr_info (const char*)
unfoldable pub addr_info : List ℕ → List ℕ → Outcome AddrInfo
unfolding build_unixsock_addr with_length
addr_info memory path = with_length (build_unixsock_addr memory path)

unfoldable pub get_path : AddrInfo → List ℕ
get_path a = take (sun_path_size - (sockaddr_un_size - a.addrlen)) a.sun_path

-- A socket_server<base_unixsock>, with the files that were unlinked so far.
pub record UnixServer (W : Type 0) : Type 0 where
  pub server : Server W
  pub autodel_path : Option (List ℕ)
  pub unlinked : List (List ℕ)

module _ {W : Type 0} where
  -- autodel_sock_file, the `use` of an address by a server
  unfoldable pub autodel_sock_file : AddrInfo → UnixServer W → UnixServer W
  autodel_sock_file addr s = record s { autodel_path = some (c_str addr.sun_path) }

  close_handle : UnixServer W → UnixServer W
  close_handle s = record s { server = record s.server { handle = socket_close s.server.handle } }

  unlink_path : List ℕ → UnixServer W → UnixServer W
  unlink_path path s = record s { autodel_path = none; unlinked = s.unlinked ++ path ∷ [] }

  delete_file : Option (List ℕ) → UnixServer W → UnixServer W
  unfolding close_handle unlink_path
  delete_file none s = s
  delete_file (some path) s = unlink_path path (close_handle s)

  -- del_sock_file, the `unuse` of an address by a server
  unfoldable pub del_sock_file : UnixServer W → UnixServer W
  unfolding delete_file
  del_sock_file s = delete_file s.autodel_path s

  unlink_left : Option (List ℕ) → UnixServer W → UnixServer W
  unfolding unlink_path
  unlink_left none s = s
  unlink_left (some path) s = unlink_path path s

  run_base : Bool → UnixServer W → UnixServer W
  run_base last s = record s {
    server = record s.server { handle = destroy_socket last s.server.handle };
  }

  -- ~base_unixsock, which runs ~base_socket after its body
  unfoldable pub destroy_unixsock : Bool → UnixServer W → UnixServer W
  unfolding close_handle unlink_left run_base
  destroy_unixsock last s =
      run_base last (if last then unlink_left s.autodel_path (close_handle s) else s)

module _ (os : ServerOs) (addr : AddrInfo) where
  on_server :
      {A : Type 0}
      → Outcome A × Server os.World
      → UnixServer os.World
      → Outcome A × UnixServer os.World
  on_server (r, srv) s = (r, record s { server = srv })

  -- listening_start and listening_stop of such a server
  unfoldable pub unix_listening_start : ℕ → Bool → Exec (UnixServer os.World) (Unit {0})
  unfolding on_server
  unix_listening_start listen_max reuse s =
      if s.server.listening
      then (throws (logic_error "socket server : Bad listening state"), s)
      else on_server (listening_start os listen_max reuse s.server) (autodel_sock_file addr s)

  unfoldable pub unix_listening_stop : Exec (UnixServer os.World) (Unit {0})
  unfolding on_server
  unix_listening_stop s =
      if s.server.listening
      then on_server (listening_stop os (del_sock_file s).server) (del_sock_file s)
      else (throws (logic_error "socket server : Bad listening state"), s)

pair_made : {W : Type 0} → (W → ℕ) → Option (ℤ × ℤ) × W → Outcome (Handle × Handle) × W
pair_made errno (none, w) = (throws (other_error "Failed to create socket pair" (errno w)), w)
pair_made errno (some (a, b), w) = (ok (construct true a, construct true b), w)

-- create_socket_pair: `socketpair` gives the two descriptors.
unfoldable create_socket_pair :
    {W : Type 0} → (W → ℕ) → (W → Option (ℤ × ℤ) × W) → Exec W (Handle × Handle)
unfolding pair_made
create_socket_pair errno socketpair w = pair_made errno (socketpair w)

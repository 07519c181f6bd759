-- ===== src/UnixSocket/SocketFile.antt =====
-- Which files a server unlinks.
use socketxx.Common.{ℕ, ◌≡◌, Bool, true, false, [], ◌∷◌, arith, if◌then◌else◌}
use socketxx.Server.{ServerOs}
use socketxx.UnixSocket.{
  AddrInfo, UnixServer, unix_listening_start, unix_listening_stop, destroy_unixsock, c_str,
  autodel_sock_file, del_sock_file,
}

module _ (os : ServerOs) (addr : AddrInfo) where
  -- A server that has unlinked nothing, starts to listen, stops or does not, and is destroyed
  -- unlinks the file of its address, once; also if it could not start.
  pub destroy_unixsock-unlinks :
      (listen_max : ℕ) (reuse stop : Bool) (s : UnixServer os.World)
      → s.server.listening ≡ false
      → s.unlinked ≡ []
      → (let started = (unix_listening_start os addr listen_max reuse s).1 in
          (destroy_unixsock true
            (if stop then (unix_listening_stop os addr started).1 else started)).unlinked)
        ≡ c_str addr.sun_path ∷ []
  unfolding unix_listening_start unix_listening_stop destroy_unixsock autodel_sock_file
      del_sock_file
  destroy_unixsock-unlinks listen_max reuse stop s l u = ground arith

-- ===== src/Tests/Transfers.antt =====
-- Clients, addresses, socket files and file transfers.
use socketxx.Common.{
  ◌%◌, ◌/◌, ℕ, some, ◌+◌, ◌-◌, ◌*◌, ◌==◌, zero, suc, Option, ◌<◌, ◌≡◌, refl, true, false, none,
  List, [], ◌∷◌, arith,
}
use socketxx.Common.Int.{ℤ, pos}
use socketxx.Common.Outcome.{ok}
use socketxx.BaseIo.{Timeval, timeout_inf}
use socketxx.BaseIo.Lifetime.{construct}
use socketxx.Client.{socket_client}
use socketxx.Client.Flags.{socket_client-flags}
use socketxx.InetSocket.{Resolver, colon}
use socketxx.InetSocket.AddrInfo.{
  NetOrder, SockaddrIn, addr_info_from_str, get_ip_addr, get_port, addr_info_from_str-get_port,
}
use socketxx.Common.{some, ◌+◌, ◌-◌, ◌*◌, ◌==◌, zero, suc, Option}
use socketxx.SimpleSocket.Bytes.{byte_at}
use socketxx.UnixSocket.{
  AddrInfo, UnixServer, c_str, unix_listening_start, unix_listening_stop, destroy_unixsock,
}
use socketxx.UnixSocket.SocketFile.{destroy_unixsock-unlinks}
use socketxx.SimpleSocket.File.{write_chunk}
use socketxx.SimpleSocket.File.ShortWrite.{write_chunk-loses}
use socketxx.Tests.Fixtures.{server_os}
use socketxx.Tests.Systems.{client_os, client_os_KeepsFlags, slow_file, slow_file_GrowsFile}

abbrev two_seconds : Timeval
two_seconds = record { sec = pos 2; usec = pos 0 }

socket_client-flags_example : (socket_client client_os (pos 4) 3 two_seconds 2).1 ≡ 2
unfolding client_os_KeepsFlags
socket_client-flags_example =
    socket_client-flags (client_os_KeepsFlags (pos 4)) 3 two_seconds 2 refl

-- "/s"
abbrev path : List ℕ
path = 47 ∷ 115 ∷ []

abbrev address : AddrInfo
address = record { sun_path = 47 ∷ 115 ∷ 0 ∷ []; addrlen = 4 }

abbrev unix_server : UnixServer (Unit {0})
unix_server = record {
  server = record {
    handle = construct true (pos 3);
    listening = false;
    locked = false;
    retained_clients = [];
    pool_timeout = timeout_inf;
    world = tt;
  };
  autodel_path = none;
  unlinked = [];
}

destroy_unixsock-unlinks_example :
    (destroy_unixsock true
      (unix_listening_stop server_os address
        (unix_listening_start server_os address 5 false unix_server).1).1).unlinked
    ≡ c_str (47 ∷ 115 ∷ 0 ∷ []) ∷ []
destroy_unixsock-unlinks_example =
    destroy_unixsock-unlinks server_os address 5 false true unix_server refl refl

write_chunk-loses_example : (write_chunk slow_file (pos 6) (1 ∷ 2 ∷ 3 ∷ 4 ∷ 5 ∷ []) 10).1 < 15
unfolding slow_file_GrowsFile
write_chunk-loses_example =
    write_chunk-loses (slow_file_GrowsFile (pos 6)) (1 ∷ 2 ∷ 3 ∷ 4 ∷ 5 ∷ []) 10 (omega arith)
      (omega arith)

-- A host with one byte is an address, and a port has one digit or two.
abbrev dotted : List ℕ → Option ℕ
dotted [] = none
dotted (c ∷ cs) = some c

abbrev number : List ℕ → ℤ
number (a ∷ b ∷ cs) = pos ((a - 48) * 10 + (b - 48))
number _ = pos 0

abbrev resolver : Resolver
resolver = record {
  World = Unit {0};
  errno = λ w. 0;
  atoi = number;
  isalnum = λ c. true;
  inet_pton = dotted;
  gethostbyname = λ name w. (none, w);
}

-- "80"
eighty_no_colon : (m : ℕ) → (byte_at (56 ∷ 48 ∷ []) m == colon) ≡ false
eighty_no_colon zero = refl
eighty_no_colon (suc zero) = refl
eighty_no_colon (suc (suc m)) = refl

swapped_twice :
    (p : ℕ)
    → p < 65536
    → (p % 256 * 256 + p / 256) % 256 * 256 + (p % 256 * 256 + p / 256) / 256 ≡ p
swapped_twice p h = omega arith

-- A little-endian host.
abbrev swapping : NetOrder
swapping = record {
  htons = λ p. p % 256 * 256 + p / 256;
  ntohs = λ p. p % 256 * 256 + p / 256;
  ntohs-htons = λ p h. swapped_twice p h;
}

addr_info_from_str-get_port_example :
    (a : SockaddrIn) × (addr_info_from_str swapping resolver 21 (49 ∷ 58 ∷ 56 ∷ 48 ∷ []) tt
      ≡ (ok a, tt))
    × (get_ip_addr swapping a ≡ 49)
    × (get_port swapping a ≡ 80)
addr_info_from_str-get_port_example =
    addr_info_from_str-get_port swapping resolver 21 80 49 56 49 [] (48 ∷ []) tt eighty_no_colon
      refl refl (omega arith) refl

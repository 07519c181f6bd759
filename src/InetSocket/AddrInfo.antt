-- ===== src/InetSocket/AddrInfo.antt =====
-- The addr_info of base_netsock (socket++/base_inet.hpp, socket++/base_inet.cpp): a sockaddr_in has
-- its port in network order.
use socketxx.Common.{ℕ, ◌<◌, ◌≡◌, refl, ap, false, some, List, ◌∷◌, ◌++◌, length, true, ◌==◌}
use socketxx.Common.Int.{pos}
use socketxx.Common.Outcome.{Exec, Outcome, ok, pure, ◌>>=◌, resume}
use socketxx.SimpleSocket.Bytes.{byte_at}
use socketxx.InetSocket.{Resolver, InetAddr, build_ipsock_addr_from_str, isdigit, colon}
use socketxx.InetSocket.HostPort.{build_ipsock_addr_from_str-colon}

-- htons() and ntohs() of the host
pub record NetOrder : Type 0 where
  pub htons : ℕ → ℕ
  pub ntohs : ℕ → ℕ
  pub ntohs-htons : (port : ℕ) → port < 65536 → ntohs (htons port) ≡ port

-- struct sockaddr_in, without its family
pub record SockaddrIn : Type 0 where
  pub sin_addr : ℕ
  pub sin_port : ℕ

module _ (n : NetOrder) where
  -- addr.sin_addr = ip; addr.sin_port = htons(port);
  unfoldable stored : InetAddr → SockaddrIn
  stored a = record { sin_addr = a.ip; sin_port = n.htons a.port }

  -- addr_info(default_port, addr_str)
  unfoldable pub addr_info_from_str : (r : Resolver) → ℕ → List ℕ → Exec r.World SockaddrIn
  unfolding stored
  addr_info_from_str r default_port addr_str =
      build_ipsock_addr_from_str r default_port addr_str >>= λ a. pure (stored a)

  -- get_ip_addr and get_port
  unfoldable pub get_ip_addr : SockaddrIn → ℕ
  get_ip_addr a = a.sin_addr

  unfoldable pub get_port : SockaddrIn → ℕ
  get_port a = n.ntohs a.sin_port

  -- A host, a colon and the digits of a port: the address that is made of them, whatever the
  -- default port is, gives back the host's address and that port, where atoi() reads the digits as
  -- a port number in range and the host is an address in dotted form.
  pub addr_info_from_str-get_port :
      (r : Resolver) (default_port port ip d h : ℕ) (hs ds : List ℕ) (w : r.World)
      → ((m : ℕ) → (byte_at (d ∷ ds) m == colon) ≡ false)
      → isdigit (byte_at (d ∷ ds) (length ds)) ≡ true
      → r.atoi (d ∷ ds) ≡ pos port
      → port < 65536
      → r.inet_pton (h ∷ hs) ≡ some ip
      → (a : SockaddrIn) × (addr_info_from_str r default_port ((h ∷ hs) ++ colon ∷ d ∷ ds) w
          ≡ (ok a, w))
        × (get_ip_addr a ≡ ip)
        × (get_port a ≡ port)
  unfolding addr_info_from_str get_ip_addr get_port stored
  addr_info_from_str-get_port r default_port port ip d h hs ds w nc dg at range dotted = (
    stored (record { ip = ip; port = port }),
    ap (λ (o : Outcome InetAddr × r.World). resume o.0 (λ a. pure (stored a)) o.1)
        (build_ipsock_addr_from_str-colon r default_port port ip d h hs ds w nc dg at range dotted),
    refl,
    n.ntohs-htons port range,
  )

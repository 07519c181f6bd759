-- ===== src/InetSocket.antt =====
-- Internet addresses from text (socket++/base_inet.cpp).
pub mod HostPort
pub mod Dotted
pub mod AddrInfo
use socketxx.Common.{
  ℕ, zero, suc, ◌-◌, ◌==◌, ◌&&◌, ◌||◌, not, Bool, true, false, Option, none, some, List, [], ◌∷◌,
  length, take, drop, ltb, leb, if◌then◌else◌,
}
use socketxx.Common.Int.{ℤ, pos, negsuc}
use socketxx.Common.Outcome.{
  Exec, Outcome, ok, throws, halts, pure, throw, halt, undefined, bad_addr_error, dns_resolve_error,
  ◌>>=◌,
}
use socketxx.SimpleSocket.Bytes.{byte_at}

-- The C library: `inet_pton` on an address in dotted form, and the addresses that
-- `gethostbyname` finds.
pub record Resolver : Type 1 where
  pub World : Type 0
  pub errno : World → ℕ
  pub atoi : List ℕ → ℤ
  pub isalnum : ℕ → Bool
  pub inet_pton : List ℕ → Option ℕ
  pub gethostbyname : List ℕ → World → Option (List ℕ) × World

-- struct sockaddr_in; `port` is the number before htons().
pub record InetAddr : Type 0 where
  pub ip : ℕ
  pub port : ℕ

-- '0' to '9'
abbrev pub isdigit : ℕ → Bool
isdigit c = leb 48 c && leb c 57

abbrev pub colon : ℕ
colon = 58

-- The hostname is not empty, and has letters, digits, '-' and '.'.
abbrev pub valid_char : (ℕ → Bool) → ℕ → Bool
valid_char isalnum c = isalnum c || c == 45 || c == 46

unfoldable pub valid_hostname : (ℕ → Bool) → List ℕ → Bool
valid_hostname isalnum [] = true
valid_hostname isalnum (c ∷ cs) =
    let rest = valid_hostname isalnum cs in if valid_char isalnum c then rest else false

-- for (i = size-1; i != 0; i--) if (addr_str[i-1] == ':')
unfoldable pub find_colon : List ℕ → ℕ → Option ℕ
find_colon addr_str zero = none
find_colon addr_str (suc i) =
    let rest = find_colon addr_str i in if byte_at addr_str i == colon then some (suc i) else rest

module _ (r : Resolver) where
  resolved : List ℕ → Option (List ℕ) × r.World → Outcome ℕ × r.World
  resolved hostname (none, w) = (throws (dns_resolve_error hostname (r.errno w)), w)
  resolved hostname (some [], w) = (throws (dns_resolve_error hostname (r.errno w)), w)
  resolved hostname (some (a ∷ as'), w) = (ok a, w)

  -- _resolve_hostname
  unfoldable pub resolve_hostname : List ℕ → Exec r.World ℕ
  unfolding resolved
  resolve_hostname hostname w = resolved hostname (r.gethostbyname hostname w)

  -- From `port_ok` on.
  numeric : ℕ → List ℕ → Option ℕ → Exec r.World InetAddr
  unfolding resolve_hostname
  numeric port addr_str (some ip) = pure (record { ip = ip; port = port })
  numeric port addr_str none =
      if valid_hostname r.isalnum addr_str
      then (do ip ← resolve_hostname addr_str; pure (record { ip = ip; port = port }))
      else throw (bad_addr_error "Bad addr : bad hostname")

  unfoldable pub host_address : ℕ → List ℕ → Exec r.World InetAddr
  unfolding numeric
  host_address port [] = throw (bad_addr_error "Bad addr : empty hostname")
  host_address port (c ∷ cs) = numeric port (c ∷ cs) (r.inet_pton (c ∷ cs))

  with_port : ℤ → List ℕ → Exec r.World InetAddr
  unfolding host_address
  with_port (negsuc n) host = throw (bad_addr_error "Bad addr : port number out of range")
  with_port (pos port) host =
      if ltb 65535 port
      then throw (bad_addr_error "Bad addr : port number out of range")
      else host_address port host

  split_port : ℕ → List ℕ → Option ℕ → Exec r.World InetAddr
  unfolding with_port
  split_port default_port addr_str none = host_address default_port addr_str
  split_port default_port addr_str (some i) =
      with_port (r.atoi (drop i addr_str)) (take (i - 1) addr_str)

  -- _build_ipsock_addr_from_str: the last character of an empty string is out of range.
  unfoldable pub build_ipsock_addr_from_str : ℕ → List ℕ → Exec r.World InetAddr
  unfolding split_port
  build_ipsock_addr_from_str default_port addr_str =
      if length addr_str == 0
      then halt undefined
      else if isdigit (byte_at addr_str (length addr_str - 1))
      then split_port default_port addr_str (find_colon addr_str (length addr_str - 1))
      else host_address default_port addr_str

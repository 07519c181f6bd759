-- ===== src/InetSocket/Dotted.antt =====
-- Addresses in other forms: made from numbers and host names, and written in dotted form
-- (socket++/base_inet.cpp, socket++/base_inet.hpp). `ixtoa` belongs to a third-party header.
use socketxx.Common.{
  ℕ, Option, ◌%◌, ◌/◌, ◌^◌, ◌<◌, ◌≡◌, ◌≢◌, refl, Bool, true, false, none, some, List, [], ◌∷◌, ◌++◌,
  arith,
}
use socketxx.Common.Outcome.{Exec, pure, throw, bad_addr_error, ◌>>=◌}
use socketxx.SimpleSocket.Bytes.{byte_at, to_memory}
use socketxx.InetSocket.{Resolver, InetAddr, resolve_hostname}

-- addr_info(in_addr ip, in_port_t port), with _build_ipsock_addr
unfoldable addr_of_ip : ℕ → ℕ → InetAddr
addr_of_ip ip port = record { ip = ip; port = port }

module _ (r : Resolver) where
  -- addr_info(const char* hostname, in_port_t port)
  unfoldable addr_of_hostname : List ℕ → ℕ → Exec r.World InetAddr
  unfolding addr_of_ip
  addr_of_hostname hostname port = do ip ← resolve_hostname r hostname; pure (addr_of_ip ip port)

  -- addr_info(const char* hostname, std::function<in_port_t()> port_f): the order of the two
  -- arguments is the compiler's.
  unfoldable addr_of_hostname_f : Bool → List ℕ → Exec r.World ℕ → Exec r.World InetAddr
  unfolding addr_of_ip
  addr_of_hostname_f true hostname port_f = do
    ip ← resolve_hostname r hostname
    port ← port_f
    pure (addr_of_ip ip port)
  addr_of_hostname_f false hostname port_f = do
    port ← port_f
    ip ← resolve_hostname r hostname
    pure (addr_of_ip ip port)

  -- IP, which is also the literal _IP
  unfoldable ip_literal : List ℕ → Exec r.World ℕ
  ip_literal ip = elim (r.inet_pton ip) [
    | some addr ↦ pure addr
    | none ↦ throw (bad_addr_error "Bad litteral IPv4 addr")
  ]

-- IPv6, which is also the literal _IPv6; `inet_pton` is the one for AF_INET6.
unfoldable ip6_literal : {W : Type 0} → (List ℕ → Option (List ℕ)) → List ℕ → Exec W (List ℕ)
ip6_literal inet_pton ipv6 = elim (inet_pton ipv6) [
  | some addr ↦ pure addr
  | none ↦ throw (bad_addr_error "Bad litteral IPv6 addr")
]

abbrev pub dot : ℕ
dot = 46

-- addr2str, on the bytes of `s_addr` in memory
unfoldable addr2str : (ℕ → List ℕ) → Bool → ℕ → List ℕ
addr2str ixtoa big addr =
    let b = to_memory big 4 addr in
    ixtoa (byte_at b 0)
    ++ (dot ∷ (ixtoa (byte_at b 1) ++ (dot ∷ (ixtoa (byte_at b 2) ++ (dot ∷ ixtoa (byte_at b 3))))))

-- get_ip_str
unfoldable get_ip_str : (ℕ → List ℕ) → Bool → InetAddr → List ℕ
unfolding addr2str
get_ip_str ixtoa big a = addr2str ixtoa big a.ip

abbrev NoDot : List ℕ → Type 0
NoDot [] = Unit {0}
NoDot (c ∷ cs) = (c ≢ dot) × NoDot cs

-- What is known of `ixtoa`: different bytes have different texts, without a dot.
record IsDecimal (ixtoa : ℕ → List ℕ) : Type 0 where
  pub no_dot : (n : ℕ) → n < 256 → NoDot (ixtoa n)
  pub injective : (m n : ℕ) → m < 256 → n < 256 → ixtoa m ≡ ixtoa n → m ≡ n

-- Texts without a dot are told apart from what follows the first dot.
dot-split :
    (xs ys r q : List ℕ) → NoDot xs → NoDot ys → xs ++ dot ∷ r ≡ ys ++ dot ∷ q → (xs ≡ ys) × (r ≡ q)
dot-split [] [] r q h k e = (refl, cc)
dot-split [] (y ∷ ys) r q h (k, ks) e = absurd (k (cc))
dot-split (x ∷ xs) [] r q (h, hs) k e = absurd (h (cc))
dot-split (x ∷ xs) (y ∷ ys) r q (h, hs) (k, ks) e =
    let (f, g) = dot-split xs ys r q hs ks (cc) in (cc, g)

module _ {ixtoa : ℕ → List ℕ} (δ : IsDecimal ixtoa) where
  quad-injective :
      (a b c d a' b' c' d' : ℕ)
      → a < 256
      → b < 256
      → c < 256
      → d < 256
      → a' < 256
      → b' < 256
      → c' < 256
      → d' < 256
      → ixtoa a ++ (dot ∷ (ixtoa b ++ (dot ∷ (ixtoa c ++ (dot ∷ ixtoa d)))))
        ≡ ixtoa a' ++ (dot ∷ (ixtoa b' ++ (dot ∷ (ixtoa c' ++ (dot ∷ ixtoa d')))))
      → (a ≡ a') × (b ≡ b') × (c ≡ c') × (d ≡ d')
  quad-injective a b c d a' b' c' d' ha hb hc hd ha' hb' hc' hd' e =
      let (e1, r1) = dot-split (ixtoa a) (ixtoa a') _ _ (δ.no_dot a ha) (δ.no_dot a' ha') e in
      let (e2, r2) = dot-split (ixtoa b) (ixtoa b') _ _ (δ.no_dot b hb) (δ.no_dot b' hb') r1 in
      let (e3, r3) = dot-split (ixtoa c) (ixtoa c') _ _ (δ.no_dot c hc) (δ.no_dot c' hc') r2 in
      (
        δ.injective a a' ha ha' e1,
        δ.injective b b' hb hb' e2,
        δ.injective c c' hc hc' e3,
        δ.injective d d' hd hd' r3,
      )

  -- Where `ixtoa` writes different bytes differently and without a dot: two addresses with the
  -- same text are the same, on a host of either byte order.
  addr2str-injective :
      (big : Bool) (m n : ℕ)
      → m < 2 ^ 32
      → n < 2 ^ 32
      → addr2str ixtoa big m ≡ addr2str ixtoa big n
      → m ≡ n
  unfolding addr2str to_memory
  addr2str-injective false m n h k e =
      let (p, q, r, s) =
        quad-injective (m % 256) (m / 256 % 256) (m / 256 / 256 % 256) (m / 256 / 256 / 256 % 256)
          (n % 256) (n / 256 % 256) (n / 256 / 256 % 256) (n / 256 / 256 / 256 % 256) (omega arith)
          (omega arith) (omega arith) (omega arith) (omega arith) (omega arith) (omega arith)
          (omega arith) e in
      omega (arith, p, q, r, s, h, k)
  addr2str-injective true m n h k e =
      let (p, q, r, s) =
        quad-injective (m / 256 / 256 / 256 % 256) (m / 256 / 256 % 256) (m / 256 % 256) (m % 256)
          (n / 256 / 256 / 256 % 256) (n / 256 / 256 % 256) (n / 256 % 256) (n % 256) (omega arith)
          (omega arith) (omega arith) (omega arith) (omega arith) (omega arith) (omega arith)
          (omega arith) e in
      omega (arith, p, q, r, s, h, k)

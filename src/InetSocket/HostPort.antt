-- ===== src/InetSocket/HostPort.antt =====
-- Addresses of the form `host:port`.
use socketxx.Common.{
  ℕ, zero, suc, ◌+◌, ◌-◌, ◌<◌, ◌≡◌, refl, ap, ◌∙◌, ◌==◌, true, false, some, List, [], ◌∷◌, ◌++◌,
  length, take, drop, arith, suc-ne-zero, length-append, take-length-append, if◌then◌else◌, ltb,
}
use socketxx.Common.Int.{pos}
use socketxx.Common.Outcome.{ok}
use socketxx.SimpleSocket.Bytes.{byte_at}
use socketxx.InetSocket.{
  Resolver, build_ipsock_addr_from_str, host_address, find_colon, isdigit, colon, split_port,
  with_port, numeric,
}

byte_at-after : (xs ys : List ℕ) (m : ℕ) → byte_at (xs ++ ys) (length xs + m) ≡ byte_at ys m
byte_at-after [] ys m = ap (byte_at ys) (omega arith)
byte_at-after (x ∷ xs) ys m = ap (byte_at ((x ∷ xs) ++ ys)) e ∙ byte_at-after xs ys m
  where
    e : length (x ∷ xs) + m ≡ suc (length xs + m)
    e = omega arith

drop-after : (xs ys : List ℕ) (m : ℕ) → drop (length xs + m) (xs ++ ys) ≡ drop m ys
drop-after [] ys m = ap (λ n. drop n ys) (omega arith)
drop-after (x ∷ xs) ys m = ap (λ n. drop n ((x ∷ xs) ++ ys)) e ∙ drop-after xs ys m
  where
    e : length (x ∷ xs) + m ≡ suc (length xs + m)
    e = omega arith

module _ (host digits : List ℕ) (no_colon : (m : ℕ) → (byte_at digits m == colon) ≡ false) where
  -- The scan from the end meets the digits first, and then the colon.
  find_colon-host :
      (m : ℕ)
      → find_colon (host ++ colon ∷ digits) (suc (length host + m)) ≡ some (suc (length host))
  unfolding find_colon
  find_colon-host zero =
      ap
        (λ c.
          if c == colon
          then some (suc (length host + 0))
          else find_colon (host ++ colon ∷ digits) (length host + 0))
        (byte_at-after host (colon ∷ digits) 0)
      ∙ ap (λ n. some (suc n)) (omega arith)
  find_colon-host (suc m) =
      let next = suc (length host + m) in
      let there : length host + suc m ≡ next = omega arith in
      let seen : (byte_at (host ++ colon ∷ digits) (length host + suc m) == colon) ≡ false =
        ap (λ c. c == colon) (byte_at-after host (colon ∷ digits) (suc m)) ∙ no_colon m in
      ap
        (λ b.
          if b
          then some (suc (length host + suc m))
          else find_colon (host ++ colon ∷ digits) (length host + suc m))
        seen
      ∙ ap (find_colon (host ++ colon ∷ digits)) there
      ∙ find_colon-host m

module _ (r : Resolver) (default_port : ℕ) (text : List ℕ) (i : ℕ) (w : r.World) where
  build-split_port :
      (length text == 0) ≡ false
      → isdigit (byte_at text (length text - 1)) ≡ true
      → find_colon text (length text - 1) ≡ some i
      → build_ipsock_addr_from_str r default_port text w ≡ split_port r default_port text (some i) w
  unfolding build_ipsock_addr_from_str
  build-split_port e d f = rw e (rw d (rw f refl))

  split_port-host :
      (port ip h : ℕ) (hs : List ℕ)
      → r.atoi (drop i text) ≡ pos port
      → port < 65536
      → take (i - 1) text ≡ h ∷ hs
      → r.inet_pton (h ∷ hs) ≡ some ip
      → split_port r default_port text (some i) w ≡ (ok (record { ip = ip; port = port }), w)
  unfolding split_port with_port host_address numeric
  split_port-host port ip h hs at range host dotted =
      let small : ltb 65535 port ≡ false = ground arith in
      rw at (rw small (rw host (rw dotted refl)))

-- The port is split off and read, and the host is taken in dotted form.
pub build_ipsock_addr_from_str-colon :
    (r : Resolver) (default_port port ip d h : ℕ) (hs ds : List ℕ) (w : r.World)
    → ((m : ℕ) → (byte_at (d ∷ ds) m == colon) ≡ false)
    → isdigit (byte_at (d ∷ ds) (length ds)) ≡ true
    → r.atoi (d ∷ ds) ≡ pos port
    → port < 65536
    → r.inet_pton (h ∷ hs) ≡ some ip
    → build_ipsock_addr_from_str r default_port ((h ∷ hs) ++ colon ∷ d ∷ ds) w
      ≡ (ok (record { ip = ip; port = port }), w)
build_ipsock_addr_from_str-colon r default_port port ip d h hs ds w nc dg at range dotted =
    let host = h ∷ hs in
    let text = host ++ colon ∷ d ∷ ds in
    let last : length text - 1 ≡ length host + suc (length ds) =
      omega (arith, length-append host (colon ∷ d ∷ ds)) in
    let end : length text - 1 ≡ suc (length host + length ds) = omega (arith, last) in
    let digit : isdigit (byte_at text (length text - 1)) ≡ true =
      ap (λ n. isdigit (byte_at text n)) last
      ∙ ap isdigit (byte_at-after host (colon ∷ d ∷ ds) (suc (length ds)))
      ∙ dg in
    let found : find_colon text (length text - 1) ≡ some (suc (length host)) =
      ap (find_colon text) end ∙ find_colon-host host (d ∷ ds) nc (length ds) in
    let one : suc (length host) ≡ length host + 1 = omega arith in
    let ports : drop (suc (length host)) text ≡ d ∷ ds =
      ap (λ n. drop n text) one ∙ drop-after host (colon ∷ d ∷ ds) 1 in
    let back : suc (length host) - 1 ≡ length host = omega arith in
    let hosts : take (suc (length host) - 1) text ≡ host =
      ap (λ n. take n text) back ∙ take-length-append host (colon ∷ d ∷ ds) in
    build-split_port r default_port text (suc (length host)) w
      (suc-ne-zero (length (hs ++ colon ∷ d ∷ ds))) digit found
    ∙ split_port-host r default_port text (suc (length host)) w port ip h hs (ap r.atoi ports ∙ at)
        range hosts dotted

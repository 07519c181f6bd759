-- ===== src/UnixSocket/Addresses.antt =====
-- A path comes back from the address that was built from it.
use socketxx.Common.{
  ℕ, zero, suc, ◌+◌, ◌-◌, ◌<◌, ◌≡◌, ◌∙◌, refl, ap, List, [], ◌∷◌, ◌++◌, length, take, drop, arith,
  take-length-append,
}
use socketxx.Common.Outcome.{ok}
use socketxx.UnixSocket.{
  AddrInfo, addr_info, get_path, c_str, strlen, sun_path_offset, sun_path_size, sockaddr_un_size,
}

c_str-append : (path rest : List ℕ) → strlen path ≡ length path → c_str (path ++ 0 ∷ rest) ≡ path
c_str-append [] rest h = refl
c_str-append (zero ∷ cs) rest h = absurd (omega arith)
c_str-append (suc c ∷ cs) rest h = ap (λ t. suc c ∷ t) (c_str-append cs rest (omega arith))

-- A path without a zero character and shorter than 107 characters gives an address, whatever the
-- memory held before, and `get_path` of that address is the path.
get_path-addr_info :
    (memory path : List ℕ)
    → strlen path ≡ length path
    → length path < 107
    → (a : AddrInfo) × (addr_info memory path ≡ ok a) × (get_path a ≡ path)
unfolding addr_info get_path
get_path-addr_info memory path z h =
    let addr = path ++ 0 ∷ drop (length path + 1) memory in
    let len : strlen addr ≡ length path =
      ap length (c_str-append path (drop (length path + 1) memory) z) in
    let size : sun_path_size - (sockaddr_un_size - (sun_path_offset + strlen addr)) ≡ length path =
      omega (arith, len) in
    (
      record { sun_path = addr; addrlen = sun_path_offset + strlen addr },
      ground arith,
      ap (λ n. take n addr) size ∙ take-length-append path (0 ∷ drop (length path + 1) memory),
    )

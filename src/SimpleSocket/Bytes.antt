-- ===== src/SimpleSocket/Bytes.antt =====
-- Integers as they lie in memory, and `swapBytes` (socket++/io/simple_socket.cpp).
use mathlib.Core.Path.{subst}
use mathlib.Core.List.{reverse-cons, reverse-append, append-nil}
use native.Mathlib.Nat.{pow-suc}
use socketxx.Common.{
  ℕ, zero, suc, ◌+◌, ◌-◌, ◌*◌, ◌/◌, ◌%◌, ◌^◌, ◌<◌, ◌≡◌, refl, ap, ◌∙◌, sym, Bool, List, [], ◌∷◌,
  ◌++◌, length, reverse, arith, if◌then◌else◌, append_assoc, length-append,
}

-- `w` bytes of an unsigned integer, the lowest first.
abbrev pub le_bytes : ℕ → ℕ → List ℕ
le_bytes zero n = []
le_bytes (suc w) n = n % 256 ∷ le_bytes w (n / 256)

abbrev pub le_value : List ℕ → ℕ
le_value [] = 0
le_value (b ∷ bs) = b + 256 * le_value bs

-- The object representation of an integer on this host.
unfoldable pub to_memory : Bool → ℕ → ℕ → List ℕ
to_memory big w n = if big then reverse (le_bytes w n) else le_bytes w n

unfoldable pub of_memory : Bool → List ℕ → ℕ
of_memory big bs = if big then le_value (reverse bs) else le_value bs

pub length-le_bytes : (w n : ℕ) → length (le_bytes w n) ≡ w
length-le_bytes zero n = refl
length-le_bytes (suc w) n = ap suc (length-le_bytes w (n / 256))

pub le_value-le_bytes : (w n : ℕ) → n < 256 ^ w → le_value (le_bytes w n) ≡ n
le_value-le_bytes zero n h = omega arith
le_value-le_bytes (suc w) n h = omega (
  arith,
  le_value-le_bytes w (n / 256)
      (let e : 256 ^ suc w ≡ 256 ^ w * 256 = pow-suc 256 w in omega (arith, e)),
)

-- `data[i]`, and the assignment to it. In `swapBytes` all indices are in range.
abbrev pub byte_at : List ℕ → ℕ → ℕ
byte_at [] i = 0
byte_at (b ∷ bs) zero = b
byte_at (b ∷ bs) (suc i) = byte_at bs i

abbrev pub put_byte : List ℕ → ℕ → ℕ → List ℕ
put_byte [] i v = []
put_byte (b ∷ bs) zero v = v ∷ bs
put_byte (b ∷ bs) (suc i) v = b ∷ put_byte bs i v

swap_round : ℕ → ℕ → List ℕ → List ℕ
swap_round size i bytes =
    let tmp = byte_at bytes i in
    put_byte (put_byte bytes i (byte_at bytes (size - 1 - i))) (size - 1 - i) tmp

-- The rounds from `i` on, `rounds` of them.
swap_loop : ℕ → ℕ → ℕ → List ℕ → List ℕ
swap_loop zero size i bytes = bytes
swap_loop (suc rounds) size i bytes = swap_loop rounds size (i + 1) (swap_round size i bytes)

unfoldable pub swap_bytes : List ℕ → ℕ → List ℕ
unfolding swap_loop swap_round
swap_bytes bytes size = swap_loop (size / 2) size 0 bytes

byte_at-append : (xs ys : List ℕ) (b : ℕ) → byte_at (xs ++ b ∷ ys) (length xs) ≡ b
byte_at-append [] ys b = refl
byte_at-append (x ∷ xs) ys b = byte_at-append xs ys b

put_byte-append : (xs ys : List ℕ) (b v : ℕ) → put_byte (xs ++ b ∷ ys) (length xs) v ≡ xs ++ v ∷ ys
put_byte-append [] ys b v = refl
put_byte-append (x ∷ xs) ys b v = ap (λ t. x ∷ t) (put_byte-append xs ys b v)

-- The same at the far end of `xs ++ a ∷ ms`.
byte_at-far :
    (xs ms ys : List ℕ) (a b : ℕ) → byte_at (xs ++ (a ∷ (ms ++ b ∷ ys))) (length (xs ++ a ∷ ms)) ≡ b
byte_at-far xs ms ys a b =
    ap (λ l. byte_at l (length (xs ++ a ∷ ms))) (sym (append_assoc xs (a ∷ ms) (b ∷ ys)))
    ∙ byte_at-append (xs ++ a ∷ ms) ys b

put_byte-far :
    (xs ms ys : List ℕ) (a b v : ℕ)
    → put_byte (xs ++ (a ∷ (ms ++ b ∷ ys))) (length (xs ++ a ∷ ms)) v ≡ xs ++ (a ∷ (ms ++ v ∷ ys))
put_byte-far xs ms ys a b v =
    ap (λ l. put_byte l (length (xs ++ a ∷ ms)) v) (sym (append_assoc xs (a ∷ ms) (b ∷ ys)))
    ∙ put_byte-append (xs ++ a ∷ ms) ys b v
    ∙ append_assoc xs (a ∷ ms) (v ∷ ys)

-- One round exchanges the two bytes that are `i` away from the ends.
swap_round-ends :
    (xs ms ys : List ℕ) (a b size i : ℕ)
    → i ≡ length xs
    → length ms + 2 + i + i ≡ size
    → swap_round size i (xs ++ (a ∷ (ms ++ b ∷ ys))) ≡ xs ++ (b ∷ (ms ++ a ∷ ys))
unfolding swap_round
swap_round-ends xs ms ys a b size i hi hs =
    let far : size - 1 - i ≡ length (xs ++ a ∷ ms) = omega (arith, length-append xs (a ∷ ms)) in
    let same : length (xs ++ a ∷ ms) ≡ length (xs ++ b ∷ ms) =
      omega (arith, length-append xs (a ∷ ms), length-append xs (b ∷ ms)) in
    rw far (
      rw (byte_at-far xs ms ys a b) (
        rw hi (
          rw (put_byte-append xs (ms ++ b ∷ ys) a b)
            (rw (byte_at-append xs (ms ++ b ∷ ys) a) (rw same (put_byte-far xs ms ys b b a))))))

-- A list is empty, or has a last element.
unsnoc : (x : ℕ) (xs : List ℕ) → (ys : List ℕ) × (y : ℕ) × (x ∷ xs ≡ ys ++ y ∷ [])
unsnoc x [] = ([], x, refl)
unsnoc x (y ∷ xs) = let (ys, z, e) = unsnoc y xs in (x ∷ ys, z, ap (λ t. x ∷ t) e)

reverse-ends :
    (m z : ℕ) (ms ys : List ℕ) → reverse (m ∷ (ms ++ z ∷ [])) ++ ys ≡ z ∷ (reverse ms ++ m ∷ ys)
reverse-ends m z ms ys =
    ap (λ l. l ++ ys) (reverse-cons m (ms ++ z ∷ []))
    ∙ ap (λ l. (l ++ m ∷ []) ++ ys) (reverse-append ms (z ∷ []))
    ∙ ap (λ l. z ∷ l) (append_assoc (reverse ms) (m ∷ []) ys)

-- What lies between the first `i` bytes and the last `i` is reversed by the rounds that are left.
swap_loop-middle :
    (rounds : ℕ) (xs ms ys : List ℕ) (size i : ℕ)
    → i ≡ length xs
    → length ms + i + i ≡ size
    → length ms / 2 ≡ rounds
    → swap_loop rounds size i (xs ++ (ms ++ ys)) ≡ xs ++ (reverse ms ++ ys)
unfolding swap_loop
swap_loop-middle zero xs [] ys size i hi hs hr = refl
swap_loop-middle zero xs (m ∷ []) ys size i hi hs hr = refl
swap_loop-middle zero xs (m ∷ n ∷ ms) ys size i hi hs hr = absurd (omega arith)
swap_loop-middle (suc k) xs [] ys size i hi hs hr = absurd (omega arith)
swap_loop-middle (suc k) xs (m ∷ []) ys size i hi hs hr = absurd (omega arith)
swap_loop-middle (suc k) xs (m ∷ n ∷ ns) ys size i hi hs hr =
    let (ms, z, e) = unsnoc n ns in
    let len : suc (length ns) ≡ length ms + 1 =
      omega (arith, ap length e, length-append ms (z ∷ [])) in
    subst (λ l. swap_loop (suc k) size i (xs ++ ((m ∷ l) ++ ys)) ≡ xs ++ (reverse (m ∷ l) ++ ys))
      (sym e)
      (ap (λ l. swap_loop (suc k) size i (xs ++ (m ∷ l))) (append_assoc ms (z ∷ []) ys)
        ∙ ap (swap_loop k size (i + 1)) (swap_round-ends xs ms ys m z size i hi (omega arith))
        ∙ ap (swap_loop k size (i + 1)) (sym (append_assoc xs (z ∷ []) (ms ++ m ∷ ys)))
        ∙ swap_loop-middle k (xs ++ z ∷ []) ms (m ∷ ys) size (i + 1)
            (omega (arith, length-append xs (z ∷ []))) (omega arith) (omega arith)
        ∙ append_assoc xs (z ∷ []) (reverse ms ++ m ∷ ys)
        ∙ ap (λ l. xs ++ l) (sym (reverse-ends m z ms ys)))

-- `swapBytes` over a whole object reverses its bytes.
pub swap_bytes-reverse : (bs : List ℕ) → swap_bytes bs (length bs) ≡ reverse bs
unfolding swap_bytes
swap_bytes-reverse bs =
    ap (swap_loop (length bs / 2) (length bs) 0) (sym (append-nil bs))
    ∙ swap_loop-middle (length bs / 2) [] bs [] (length bs) 0 refl (omega arith) refl
    ∙ append-nil (reverse bs)

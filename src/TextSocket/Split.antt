-- ===== src/TextSocket/Split.antt =====
-- The first occurrence of the separator, by recursion on the text, and that `find_sep` finds it.
use mathlib.Core.Path.{ap₂}
use socketxx.Common.{
  ℕ, zero, suc, ◌+◌, ◌<◌, ◌≡◌, refl, ap, sym, ◌∙◌, true, false, inl, inr, Option, none, some, List,
  [], ◌∷◌, ◌++◌, length, take, drop, leb, arith, append_assoc, append-nil, drop-length-append,
  take-length-append, length-append, Bool-cases, if◌then◌else◌,
}
use socketxx.TextSocket.{matches, scan, find_sep, sep_size}

abbrev pub prepend : List ℕ → Option (List ℕ × List ℕ) → Option (List ℕ × List ℕ)
prepend pre none = none
prepend pre (some (line, rest)) = some (pre ++ line, rest)

-- The text before the first separator, and the text after it.
unfoldable pub split : List ℕ → List ℕ → Option (List ℕ × List ℕ)
split sep [] = none
split sep (b ∷ bs) =
    let further = prepend (b ∷ []) (split sep bs) in
    if matches sep (b ∷ bs) then some ([], drop (length sep) (b ∷ bs)) else further

abbrev pub cut : List ℕ → List ℕ → Option ℕ → Option (List ℕ × List ℕ)
cut sep buffer none = none
cut sep buffer (some i) = some (take i buffer, drop (i + length sep) buffer)

-- A text shorter than the separator holds none.
matches_short : (sep bs : List ℕ) → length bs < length sep → matches sep bs ≡ false
unfolding matches
matches_short [] bs h = absurd (omega arith)
matches_short (c ∷ sep) [] h = refl
matches_short (c ∷ sep) (b ∷ bs) h = ground (arith, matches_short sep bs)

pub split_short : (sep bs : List ℕ) → length bs < length sep → split sep bs ≡ none
unfolding split
split_short sep [] h = refl
split_short sep (b ∷ bs) h =
    rw (matches_short sep (b ∷ bs) h) (rw (split_short sep bs (omega arith)))

pub split-hit :
    (sep bs : List ℕ) (b : ℕ)
    → matches sep (b ∷ bs) ≡ true
    → split sep (b ∷ bs) ≡ some ([], drop (length sep) (b ∷ bs))
unfolding split
split-hit sep bs b h = rw h

pub split-miss :
    (sep bs : List ℕ) (b : ℕ)
    → matches sep (b ∷ bs) ≡ false
    → split sep (b ∷ bs) ≡ prepend (b ∷ []) (split sep bs)
unfolding split
split-miss sep bs b h = rw h

prepend-nil : (o : Option (List ℕ × List ℕ)) → prepend [] o ≡ o
prepend-nil none = refl
prepend-nil (some (l, r)) = refl

drop-append : (pre suf : List ℕ) (k : ℕ) → drop (length pre + k) (pre ++ suf) ≡ drop k suf
drop-append [] suf k = let e : 0 + k ≡ k = omega arith in ap (λ n. drop n suf) e
drop-append (x ∷ pre) suf k =
    let e : suc (length pre) + k ≡ suc (length pre + k) = omega arith in
    ap (λ n. drop n (x ∷ (pre ++ suf))) e ∙ drop-append pre suf k

prepend-prepend :
    (pre : List ℕ) (b : ℕ) (o : Option (List ℕ × List ℕ))
    → prepend (pre ++ b ∷ []) o ≡ prepend pre (prepend (b ∷ []) o)
prepend-prepend pre b none = refl
prepend-prepend pre b (some (l, r)) = ap (λ t. some (t, r)) (append_assoc pre (b ∷ []) l)

-- One round: the separator is here, or the scan goes on at the next byte.
scan-hit :
    (sep pre suf : List ℕ) (n : ℕ)
    → matches sep suf ≡ true
    → scan sep (pre ++ suf) (suc n) (length pre) ≡ some (length pre)
unfolding scan
scan-hit sep pre suf n h = rw (drop-length-append pre suf) (rw h)

scan-miss :
    (sep pre bs : List ℕ) (b n : ℕ)
    → matches sep (b ∷ bs) ≡ false
    → scan sep (pre ++ b ∷ bs) (suc n) (length pre)
      ≡ scan sep ((pre ++ b ∷ []) ++ bs) n (length (pre ++ b ∷ []))
unfolding scan
scan-miss sep pre bs b n h = rw (drop-length-append pre (b ∷ bs)) (
    rw h (
      ap₂ (λ t i. scan sep t n i) (sym (append_assoc pre (b ∷ []) bs))
        (sym (length-append pre (b ∷ [])))))

cut-hit :
    (sep pre suf : List ℕ)
    → cut sep (pre ++ suf) (some (length pre)) ≡ some (pre ++ [], drop (length sep) suf)
cut-hit sep pre suf =
    ap₂ (λ l r. some (l, r)) (take-length-append pre suf ∙ sym (append-nil pre))
      (drop-append pre suf (length sep))

-- The rounds that are left scan the rest of the buffer.
scan-split :
    (sep pre suf : List ℕ) (n : ℕ)
    → 0 < length sep
    → n + length sep ≡ length suf + 1
    → cut sep (pre ++ suf) (scan sep (pre ++ suf) n (length pre)) ≡ prepend pre (split sep suf)
scan-split sep pre suf zero h e = unfold scan in rw (split_short sep suf (omega arith))
scan-split sep pre [] (suc n) h e = absurd (omega arith)
scan-split sep pre (b ∷ bs) (suc n) h e = elim (Bool-cases (matches sep (b ∷ bs))) [
  | inl hit ↦
      ap (cut sep (pre ++ b ∷ bs)) (scan-hit sep pre (b ∷ bs) n hit)
      ∙ cut-hit sep pre (b ∷ bs)
      ∙ ap (prepend pre) (sym (split-hit sep bs b hit))
  | inr miss ↦
      ap₂ (cut sep) (sym (append_assoc pre (b ∷ []) bs)) (scan-miss sep pre bs b n miss)
      ∙ scan-split sep (pre ++ b ∷ []) bs n h (omega arith)
      ∙ prepend-prepend pre b (split sep bs)
      ∙ ap (prepend pre) (sym (split-miss sep bs b miss))
]

-- The loops of `read_line` find the first separator of the buffer.
pub cut-find_sep :
    (sep buffer : List ℕ)
    → 0 < length sep
    → length sep < 256
    → cut sep buffer (find_sep sep buffer) ≡ split sep buffer
unfolding find_sep
cut-find_sep sep buffer h k = elim (Bool-cases (leb (sep_size sep) (length buffer))) [
  | inl enough ↦
      rw enough (scan-split sep [] buffer _ h (ground arith) ∙ prepend-nil (split sep buffer))
  | inr short ↦ rw short (sym (split_short sep buffer (ground arith)))
]

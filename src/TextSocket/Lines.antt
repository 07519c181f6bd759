-- ===== src/TextSocket/Lines.antt =====
-- `read_line` cuts the stream at its first separator, however the reads cut it.
use mathlib.Core.Path.{ap₂}
use socketxx.Common.{
  ℕ, zero, suc, ◌+◌, ◌≤◌, ◌<◌, ◌≡◌, ◌≢◌, refl, ap, sym, ◌∙◌, inl, inr, Option, none, some, List, [],
  ◌∷◌, ◌++◌, length, ltb, take, drop, arith, append_assoc, append-nil, length-append, Bool-cases,
  Option-cases,
}
use socketxx.Common.Outcome.{Exec, ok}
use socketxx.TextSocket.{matches, find_sep, read_line, sep_size}
use socketxx.TextSocket.Split.{
  split, split_short, split-hit, split-miss, prepend, cut, cut-find_sep,
}

matches-append :
    (sep xs ys : List ℕ) → length sep ≤ length xs → matches sep (xs ++ ys) ≡ matches sep xs
unfolding matches
matches-append [] xs ys h = refl
matches-append (c ∷ sep) [] ys h = absurd (omega arith)
matches-append (c ∷ sep) (x ∷ xs) ys h = rw (matches-append sep xs ys (omega arith))

drop-append_le : (n : ℕ) (xs ys : List ℕ) → n ≤ length xs → drop n (xs ++ ys) ≡ drop n xs ++ ys
drop-append_le zero xs ys h = refl
drop-append_le (suc n) [] ys h = absurd (omega arith)
drop-append_le (suc n) (x ∷ xs) ys h = drop-append_le n xs ys (omega arith)

abbrev after : List ℕ → Option (List ℕ × List ℕ) → Option (List ℕ × List ℕ)
after ys none = none
after ys (some (l, r)) = some (l, r ++ ys)

prepend-after :
    (b : ℕ) (ys : List ℕ) (o : Option (List ℕ × List ℕ))
    → prepend (b ∷ []) (after ys o) ≡ after ys (prepend (b ∷ []) o)
prepend-after b ys none = refl
prepend-after b ys (some (l, r)) = refl

prepend-some : (b : ℕ) (o : Option (List ℕ × List ℕ)) → prepend (b ∷ []) o ≢ none → o ≢ none
prepend-some b none h e = h refl
prepend-some b (some p) h e = cc

pub split_long : (sep xs : List ℕ) → split sep xs ≢ none → length sep ≤ length xs
split_long sep xs h = elim (Bool-cases (ltb (length xs) (length sep))) [
  | inl short ↦ absurd (h (split_short sep xs (ground arith)))
  | inr long ↦ ground arith
]

-- More text behind a text with a separator changes only what follows that.
pub split-append :
    (sep xs ys : List ℕ)
    → length sep ≤ length xs
    → split sep xs ≢ none
    → split sep (xs ++ ys) ≡ after ys (split sep xs)
split-append sep [] ys h n = absurd (n (unfold split in refl))
split-append sep (x ∷ xs) ys h n = elim (Bool-cases (matches sep (x ∷ xs))) [
  | inl hit ↦
      split-hit sep (xs ++ ys) x (matches-append sep (x ∷ xs) ys h ∙ hit)
      ∙ ap (λ t. some ([], t)) (drop-append_le (length sep) (x ∷ xs) ys h)
      ∙ ap (after ys) (sym (split-hit sep xs x hit))
  | inr miss ↦
      let found : split sep xs ≢ none =
        prepend-some x (split sep xs) (λ e. n (split-miss sep xs x miss ∙ e)) in
      split-miss sep (xs ++ ys) x (matches-append sep (x ∷ xs) ys h ∙ miss)
      ∙ ap (prepend (x ∷ [])) (split-append sep xs ys (split_long sep xs found) found)
      ∙ prepend-after x ys (split sep xs)
      ∙ ap (after ys) (sym (split-miss sep xs x miss))
]

pub some-ne-none : (p : List ℕ × List ℕ) → some p ≢ none
some-ne-none p e = cc

some_parts :
    (a b c d : List ℕ)
    → ◌≡◌ {A = Option (List ℕ × List ℕ)} (some (a, b)) (some (c, d))
    → (a ≡ c) × (b ≡ d)
some_parts a b c d e = ground arith

-- What `readf`, asked for a page, returns is at least one of the next bytes, as long as there are any.
pub record IsSource {S : Type 0} (readf : ℕ → Exec S (List ℕ)) (page : ℕ) : Type 0 where
  pub pending : S → List ℕ
  pub readf_takes :
      (s : S)
      → 0 < page
      → pending s ≢ []
      → (bs : List ℕ) × (s' : S) × (readf page s ≡ (ok bs, s'))
        × (pending s ≡ bs ++ pending s')
        × (0 < length bs)

module _ {S : Type 0} (readf : ℕ → Exec S (List ℕ)) (page : ℕ) (sep : List ℕ) where
  read_line-found :
      (fuel i : ℕ) (buffer : List ℕ) (s : S)
      → find_sep sep buffer ≡ some i
      → read_line readf page sep (suc fuel) buffer s
        ≡ (ok (take i buffer, drop (i + sep_size sep) buffer), s)
  unfolding read_line
  read_line-found fuel i buffer s e = rw e

  read_line-again :
      (fuel : ℕ) (buffer bs : List ℕ) (s s' : S)
      → find_sep sep buffer ≡ none
      → readf page s ≡ (ok bs, s')
      → read_line readf page sep (suc fuel) buffer s
        ≡ read_line readf page sep fuel (buffer ++ bs) s'
  unfolding read_line
  read_line-again fuel buffer bs s s' e r = rw e (rw r)

module _ {S : Type 0} (readf : ℕ → Exec S (List ℕ)) (page : ℕ) (sep : List ℕ)
    (κ : IsSource readf page) (paged : 0 < page) (some_sep : 0 < length sep)
    (short_sep : length sep < 256) where
  -- Where the stream, from the buffer on, has a separator of one to 255 characters and the fuel
  -- is above the number of bytes that wait, a line is the text up to the first separator of the
  -- whole stream, whatever is in the buffer and however the rest arrives; what follows the
  -- separator stays, in the buffer or unread.
  pub read_line_first :
      (fuel : ℕ) (buffer line rest : List ℕ) (s : S)
      → length (κ.pending s) < fuel
      → split sep (buffer ++ κ.pending s) ≡ some (line, rest)
      → (left : List ℕ) × (s' : S) × (read_line readf page sep fuel buffer s
          ≡ (ok (line, left), s'))
        × (left ++ κ.pending s' ≡ rest)
  read_line_first zero buffer line rest s h e = absurd (omega arith)
  read_line_first (suc fuel) buffer line rest s h e = elim (Option-cases (find_sep sep buffer)) [
    | inl none_here ↦
        let no_split : split sep buffer ≡ none =
          sym (cut-find_sep sep buffer some_sep short_sep) ∙ ap (cut sep buffer) none_here in
        let waiting : κ.pending s ≢ [] = λ z.
          some-ne-none (line, rest)
            (sym e
              ∙ ap (λ t. split sep (buffer ++ t)) z
              ∙ ap (split sep) (append-nil buffer)
              ∙ no_split) in
        let (bs, s1, r, p, pos) = κ.readf_takes s paged waiting in
        let (left, s', g, q) =
          read_line_first fuel (buffer ++ bs) line rest s1
            (omega (arith, ap length p, length-append bs (κ.pending s1)))
            (ap (split sep) (append_assoc buffer bs (κ.pending s1) ∙ ap (λ t. buffer ++ t) (sym p))
              ∙ e) in
        (left, s', read_line-again readf page sep fuel buffer bs s s1 none_here r ∙ g, q)
    | inr (i, here) ↦
        let at_i : split sep buffer ≡ some (take i buffer, drop (i + length sep) buffer) =
          sym (cut-find_sep sep buffer some_sep short_sep) ∙ ap (cut sep buffer) here in
        let found : split sep buffer ≢ none = λ z. some-ne-none _ (sym at_i ∙ z) in
        let both =
          some_parts (take i buffer) (drop (i + length sep) buffer ++ κ.pending s) line rest (
            sym (ap (after (κ.pending s)) at_i)
            ∙ sym (split-append sep buffer (κ.pending s) (split_long sep buffer found) found)
            ∙ e) in
        let size : sep_size sep ≡ length sep = omega arith in
        (
          drop (i + length sep) buffer,
          s,
          read_line-found readf page sep fuel i buffer s here
              ∙ ap₂ (λ l n. (ok (l, drop (i + n) buffer), s)) both.0 size,
          both.1,
        )
  ]

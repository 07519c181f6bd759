-- ===== src/TextSocket/Object/Dialog.antt =====
-- Lines that one text socket sends and another one reads.
use socketxx.Common.{
  ℕ, ◌<◌, ◌≡◌, refl, ap, sym, ◌∙◌, none, some, List, [], ◌∷◌, ◌++◌, length, arith, append_assoc,
  length-append,
}
use socketxx.Common.Outcome.{Exec, ok}
use socketxx.Transport.{Transport, IsStream, Writes, Writes-nothing, Writes-then}
use socketxx.TextSocket.Split.{split}
use socketxx.TextSocket.Lines.{IsSource, read_line_first, split-append, split_long, some-ne-none}
use socketxx.TextSocket.Output.{Writes-o_line}
use socketxx.TextSocket.Object.{read_more, cut_off, line_of, i_line, i_lines, o_line_sep, o_lines}

-- Each line with the separator behind it.
abbrev pub wire : List ℕ → List (List ℕ) → List ℕ
wire sep [] = []
wire sep (line ∷ lines) = (line ++ sep) ++ wire sep lines

-- The separator is not in the lines, nor across their end: with the separator behind it, a line
-- has no separator further in front.
abbrev pub AreLines : List ℕ → List (List ℕ) → Type 0
AreLines sep [] = Unit {0}
AreLines sep (line ∷ lines) = (split sep (line ++ sep) ≡ some (line, [])) × AreLines sep lines

split-line :
    (sep line rest : List ℕ)
    → split sep (line ++ sep) ≡ some (line, [])
    → split sep ((line ++ sep) ++ rest) ≡ some (line, rest)
split-line sep line rest e =
    let found : ¬ (split sep (line ++ sep) ≡ none) = λ z. some-ne-none _ (sym e ∙ z) in
    split-append sep (line ++ sep) rest (split_long sep (line ++ sep) found) found ∙ rw e refl

module _ {S : Type 0} {readf : ℕ → Exec S (List ℕ)} {page : ℕ} (κ : IsSource readf page) where
  read_more-IsSource : IsSource (read_more readf) page
  unfolding read_more
  read_more-IsSource = record {
    pending = λ p. κ.pending p.1;
    readf_takes = λ p h k.
        let (bs, s', e, q, z) = κ.readf_takes p.1 h k in (bs, (p.0 ++ bs, s'), rw e refl, q, z);
  }

  module _ (sep : List ℕ) (paged : 0 < page) (some_sep : 0 < length sep)
      (short_sep : length sep < 256) where
    i_line-first :
        (fuel : ℕ) (buffer line rest : List ℕ) (s : S)
        → length (κ.pending s) < fuel
        → split sep (buffer ++ κ.pending s) ≡ some (line, rest)
        → (left : List ℕ) × (s' : S) × (i_line readf page (some sep) fuel (buffer, s)
            ≡ (ok line, (left, s')))
          × (left ++ κ.pending s' ≡ rest)
    unfolding i_line line_of cut_off read_more-IsSource
    i_line-first fuel buffer line rest s h e =
        let (left, p, r, q) =
          read_line_first (read_more readf) page sep read_more-IsSource paged some_sep short_sep
            fuel buffer line rest (buffer, s) h e in
        (left, p.1, rw r refl, q)

    pub i_lines-wire :
        (fuel : ℕ) (lines : List (List ℕ)) (buffer rest : List ℕ) (s : S)
        → AreLines sep lines
        → length (buffer ++ κ.pending s) < fuel
        → buffer ++ κ.pending s ≡ wire sep lines ++ rest
        → (left : List ℕ) × (s' : S) × (i_lines readf page
              (some sep)
              fuel
              (length lines)
              (buffer, s)
            ≡ (ok lines, (left, s')))
          × (left ++ κ.pending s' ≡ rest)
    unfolding i_lines
    i_lines-wire fuel [] buffer rest s a h e = (buffer, s, refl, e)
    i_lines-wire fuel (line ∷ lines) buffer rest s (here, further) h e =
        let (b, s1, r, q) =
          i_line-first fuel buffer line (wire sep lines ++ rest) s
            (omega (arith, h, length-append buffer (κ.pending s)))
            (ap (split sep) (e ∙ append_assoc (line ++ sep) (wire sep lines) rest)
              ∙ split-line sep line (wire sep lines ++ rest) here) in
        let shorter : length (b ++ κ.pending s1) < fuel = omega (
          arith,
          h,
          ap length q,
          ap length (e ∙ append_assoc (line ++ sep) (wire sep lines) rest),
          length-append (line ++ sep) (wire sep lines ++ rest),
        ) in
        let (left, s', g, z) = i_lines-wire fuel lines b rest s1 further shorter q in
        (left, s', rw r (rw g refl), z)

module _ {t : Transport} (σ : IsStream t) (sep : List ℕ) where
  Writes-o_lines :
      (lines : List (List ℕ)) → Writes σ (o_lines t.o (some sep) lines) (wire sep lines)
  unfolding o_lines o_line_sep
  Writes-o_lines [] = Writes-nothing
  Writes-o_lines (line ∷ lines) = Writes-then (Writes-o_line σ sep line) (Writes-o_lines lines)

-- A separator of one to 255 characters, which neither occurs in the lines nor across their ends:
-- `o_line` on each of them writes the lines with the separator behind each; where these bytes are
-- the next ones of the reader, in its buffer or unread, its reads return at least one of the bytes
-- that wait, and the fuel is above the number of all of these, as many calls of `i_line` return
-- the same lines, and what follows them is left.
pub o_lines-i_lines :
    {t : Transport} (σ : IsStream t) {S : Type 0} {readf : ℕ → Exec S (List ℕ)} (page : ℕ)
    (κ : IsSource readf page) (sep : List ℕ) (lines : List (List ℕ)) (fuel : ℕ)
    (buffer rest : List ℕ) (s : S)
    → 0 < page
    → 0 < length sep
    → length sep < 256
    → AreLines sep lines
    → length (buffer ++ κ.pending s) < fuel
    → buffer ++ κ.pending s ≡ wire sep lines ++ rest
    → Writes σ (o_lines t.o (some sep) lines) (wire sep lines)
      × ((left : List ℕ) × (s' : S) × (i_lines readf page (some sep) fuel (length lines) (buffer, s)
            ≡ (ok lines, (left, s')))
          × (left ++ κ.pending s' ≡ rest))
o_lines-i_lines σ page κ sep lines fuel buffer rest s paged some_sep short_sep a h e = (
  Writes-o_lines σ sep lines,
  i_lines-wire κ sep paged some_sep short_sep fuel lines buffer rest s a h e,
)

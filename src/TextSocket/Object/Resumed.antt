-- ===== src/TextSocket/Object/Resumed.antt =====
-- A line that a failed read interrupts.
use socketxx.Common.{
  ℕ, zero, suc, ◌+◌, ◌<◌, ◌≡◌, refl, ap, sym, ◌∙◌, inl, inr, none, some, List, ◌++◌, length, take,
  drop, arith, append_assoc, Option-cases,
}
use socketxx.Common.Outcome.{Exec, Outcome, Exception, Halt, ok, throws, halts, resume}
use socketxx.TextSocket.{find_sep, read_line, line_found, sep_size}
use socketxx.TextSocket.Split.{split, cut, cut-find_sep}
use socketxx.TextSocket.Lines.{split-append, split_long, some-ne-none}
use socketxx.TextSocket.Object.{read_more, cut_off, line_of, i_line}

-- A read takes what it returns, and one that fails takes nothing.
pub record Lossless {S : Type 0} (readf : ℕ → Exec S (List ℕ)) : Type 0 where
  pub pending : S → List ℕ
  pub takes :
      (n : ℕ) (s s' : S) (bs : List ℕ) → readf n s ≡ (ok bs, s') → pending s ≡ bs ++ pending s'
  pub throws_keeps :
      (n : ℕ) (s s' : S) {e : Exception} → readf n s ≡ (throws e, s') → pending s' ≡ pending s
  pub halts_keeps :
      (n : ℕ) (s s' : S) {h : Halt} → readf n s ≡ (halts h, s') → pending s' ≡ pending s

-- The scan finds the first separator of all that is to come.
found-split :
    (sep buffer more : List ℕ) (i : ℕ)
    → 0 < length sep
    → length sep < 256
    → find_sep sep buffer ≡ some i
    → split sep (buffer ++ more) ≡ some (take i buffer, drop (i + sep_size sep) buffer ++ more)
found-split sep buffer more i h k here =
    let size : sep_size sep ≡ length sep = omega arith in
    let at_i : split sep buffer ≡ some (take i buffer, drop (i + length sep) buffer) =
      sym (cut-find_sep sep buffer h k) ∙ ap (cut sep buffer) here in
    let found : ¬ (split sep buffer ≡ none) = λ z. some-ne-none _ (sym at_i ∙ z) in
    split-append sep buffer more (split_long sep buffer found) found
    ∙ rw at_i refl
    ∙ ap (λ n. some (take i buffer, drop (i + n) buffer ++ more)) (sym size)

module _ {S : Type 0} {readf : ℕ → Exec S (List ℕ)} (κ : Lossless readf) (page : ℕ) (sep : List ℕ)
    (some_sep : 0 < length sep) (short_sep : length sep < 256) where
  -- With `whole` to come: the line is cut off it at the first separator, or all of it is left.
  abbrev pub Left : List ℕ → Outcome (List ℕ) × (List ℕ × S) → Type 0
  Left whole (ok line, (buffer, s)) = split sep whole ≡ some (line, buffer ++ κ.pending s)
  Left whole (throws e, (buffer, s)) = buffer ++ κ.pending s ≡ whole
  Left whole (halts h, (buffer, s)) = buffer ++ κ.pending s ≡ whole

  -- After one read: its bytes are in the buffer, or it has failed.
  read-Left :
      (again : List ℕ → Exec (List ℕ × S) (List ℕ × List ℕ)) (whole buffer : List ℕ) (s : S)
      (r : Outcome (List ℕ)) (s' : S)
      → readf page s ≡ (r, s')
      → buffer ++ κ.pending s ≡ whole
      → ((b : List ℕ) (u : S)
          → b ++ κ.pending u ≡ whole
          → Left whole (resume (again b (b, u)).0 cut_off (again b (b, u)).1))
      → Left whole (
          let p = read_more readf page (buffer, s) in
          let q = resume p.0 (λ more. again (buffer ++ more)) p.1 in resume q.0 cut_off q.1)
  unfolding read_more
  read-Left again whole buffer s (ok bs) s' e w k = rw e (
      k (buffer ++ bs) s' (
        append_assoc buffer bs (κ.pending s')
        ∙ ap (λ x. buffer ++ x) (sym (κ.takes page s s' bs e))
        ∙ w))
  read-Left again whole buffer s (throws x) s' e w k =
      rw e (ap (λ x. buffer ++ x) (κ.throws_keeps page s s' e) ∙ w)
  read-Left again whole buffer s (halts h) s' e w k =
      rw e (ap (λ x. buffer ++ x) (κ.halts_keeps page s s' e) ∙ w)

  abbrev line_at : ℕ → List ℕ → S → Outcome (List ℕ) × (List ℕ × S)
  line_at fuel buffer s =
      let r = read_line (read_more readf) page sep fuel buffer (buffer, s) in resume r.0 cut_off r.1

  read_line-Left :
      (fuel : ℕ) (whole buffer : List ℕ) (s : S)
      → buffer ++ κ.pending s ≡ whole
      → Left whole (line_at fuel buffer s)
  unfolding read_line line_found cut_off
  read_line-Left zero whole buffer s w = w
  read_line-Left (suc fuel) whole buffer s w = elim (Option-cases (find_sep sep buffer)) [
    | inl none_here ↦ rw none_here (
        read-Left (read_line (read_more readf) page sep fuel) whole buffer s (readf page s).0
          (readf page s).1 refl w (λ b u e. read_line-Left fuel whole b u e))
    | inr (i, here) ↦
        rw here
          (ap (split sep) (sym w) ∙ found-split sep buffer (κ.pending s) i some_sep short_sep here)
  ]

  -- For a separator of one to 255 characters, where a read takes what it returns and one that fails
  -- takes nothing: a line that is returned is the text up to the first separator of all that was to
  -- come, from the buffer on, and leaves what follows the separator; a call that throws, or does
  -- not go on, leaves all of it, so that the line can be read again later.
  pub i_line-Left :
      (fuel : ℕ) (buffer : List ℕ) (s : S)
      → Left (buffer ++ κ.pending s) (i_line readf page (some sep) fuel (buffer, s))
  unfolding i_line line_of
  i_line-Left fuel buffer s = read_line-Left fuel (buffer ++ κ.pending s) buffer s refl

-- ===== src/TextSocket/Output.antt =====
-- What `write_txt` and `o_line` write.
use mathlib.Core.Path.{fun_ext}
use socketxx.Common.{
  suc-ne-zero, ℕ, zero, suc, ◌+◌, ◌≤◌, ◌<◌, ◌≡◌, refl, ap, sym, ◌∙◌, inl, inr, none, some, List, [],
  ◌∷◌, ◌++◌, length, take, drop, arith, append_assoc, ◌==◌, ltb, if◌then◌else◌, Bool-cases,
  Option-cases, length-drop,
}
use socketxx.Common.Outcome.{Exec}
use socketxx.Transport.{
  Transport, IsStream, Writes, Writes-o, Writes-nothing, Writes-then, Writes-eq, Writes-if,
}
use socketxx.TextSocket.{
  newline, next_newline, write_txt, write_loop, round, o_sep, sep_size, o_line,
}

-- Each line of the text that a newline ends, with the separator for the newline. `line` is what
-- was read of the current line; if the text ends in it, it is left out.
unfoldable pub ended_lines : List ℕ → List ℕ → List ℕ → List ℕ
ended_lines sep line [] = []
ended_lines sep line (b ∷ bs) =
    let ended = ended_lines sep [] bs in
    let longer = ended_lines sep (line ++ b ∷ []) bs in
    if b == newline then line ++ (sep ++ ended) else longer

take_size : (sep : List ℕ) → take (length sep) sep ≡ sep
take_size [] = refl
take_size (c ∷ sep) = ap (λ t. c ∷ t) (take_size sep)

-- With a newline `k` bytes ahead the first line is those bytes.
ended_lines-some :
    (sep line txt : List ℕ) (k : ℕ)
    → next_newline txt ≡ some k
    → ended_lines sep line txt
      ≡ line ++ (take k txt ++ (sep ++ ended_lines sep [] (drop (k + 1) txt)))
unfolding ended_lines next_newline
ended_lines-some sep line [] k e = cc
ended_lines-some sep line (b ∷ bs) zero e = elim (Bool-cases (b == newline)) [
  | inl hit ↦ rw hit
  | inr miss ↦ absurd (ground arith)
]
ended_lines-some sep line (b ∷ bs) (suc k) e = elim (Bool-cases (b == newline)) [
  | inl hit ↦ absurd (ground arith)
  | inr miss ↦
      let there : next_newline bs ≡ some k = ground arith in
      let far : suc k + 1 ≡ suc (k + 1) = omega arith in
      rw miss (
        ended_lines-some sep (line ++ b ∷ []) bs k there
        ∙ append_assoc line (b ∷ []) _
        ∙ ap (λ n. line ++ (b ∷ (take k bs ++ (sep ++ ended_lines sep [] (drop n (b ∷ bs))))))
            (sym far))
]

ended_lines-none : (sep line txt : List ℕ) → next_newline txt ≡ none → ended_lines sep line txt ≡ []
unfolding ended_lines next_newline
ended_lines-none sep line [] e = refl
ended_lines-none sep line (b ∷ bs) e = elim (Bool-cases (b == newline)) [
  | inl hit ↦ absurd (ground arith)
  | inr miss ↦ rw miss (ended_lines-none sep (line ++ b ∷ []) bs (ground arith))
]

next_newline-tail : (b : ℕ) (bs : List ℕ) → next_newline (b ∷ bs) ≡ none → next_newline bs ≡ none
unfolding next_newline
next_newline-tail b bs e = ground arith

take_nothing : (k : ℕ) (txt : List ℕ) → (if ltb 0 k then take k txt else []) ≡ take k txt
take_nothing zero txt = refl
take_nothing (suc k) txt = ground arith

module _ {t : Transport} (σ : IsStream t) (sep : List ℕ) (short : length sep < 256) where
  write_loop-round :
      (rounds b : ℕ) (bs : List ℕ)
      → write_loop t.o sep (suc rounds) (b ∷ bs)
        ≡ round t.o sep (write_loop t.o sep rounds) (b ∷ bs) (next_newline (b ∷ bs))
  unfolding write_loop
  write_loop-round rounds b bs = fun_ext λ s. rw (suc-ne-zero (length bs), write_loop)

  Writes-o_sep : Writes σ (o_sep t.o sep) sep
  unfolding o_sep
  Writes-o_sep =
      let size : length sep ≡ sep_size sep = omega arith in
      Writes-eq (ap (λ n. take n sep) (sym size) ∙ take_size sep)
        (Writes-o (take (sep_size sep) sep))

  Writes-line :
      (next : List ℕ → Exec t.State (Unit {0})) (txt : List ℕ) (k : ℕ)
      → next_newline txt ≡ some k
      → Writes σ (next (drop (k + 1) txt)) (ended_lines sep [] (drop (k + 1) txt))
      → Writes σ (round t.o sep next txt (some k)) (ended_lines sep [] txt)
  unfolding round
  Writes-line next txt k ends rest =
      Writes-eq
        (ap (λ l. l ++ (sep ++ ended_lines sep [] (drop (k + 1) txt))) (take_nothing k txt)
          ∙ sym (ended_lines-some sep [] txt k ends))
        (Writes-then (Writes-if (ltb 0 k) (λ _. Writes-o (take k txt)) (λ _. Writes-nothing))
          (Writes-then Writes-o_sep rest))

  Writes-no_line :
      (next : List ℕ → Exec t.State (Unit {0})) (txt : List ℕ) {bs : List ℕ}
      → Writes σ (next (drop 1 txt)) bs
      → Writes σ (round t.o sep next txt none) bs
  unfolding round
  Writes-no_line next txt rest = rest

  Writes-done : (rounds : ℕ) → Writes σ (write_loop t.o sep rounds []) (ended_lines sep [] [])
  unfolding write_loop ended_lines
  Writes-done zero = Writes-nothing
  Writes-done (suc rounds) = Writes-nothing

  Writes-write_loop :
      (rounds : ℕ) (txt : List ℕ)
      → length txt ≤ rounds
      → Writes σ (write_loop t.o sep rounds txt) (ended_lines sep [] txt)
  Writes-write_loop rounds [] h = Writes-done rounds
  Writes-write_loop zero (b ∷ bs) h = absurd (omega arith)
  Writes-write_loop (suc rounds) (b ∷ bs) h = elim (Option-cases (next_newline (b ∷ bs))) [
    | inl no_line ↦ rw (write_loop-round rounds b bs) (
        rw no_line (
          Writes-eq
            (ended_lines-none sep [] bs (next_newline-tail b bs no_line)
              ∙ sym (ended_lines-none sep [] (b ∷ bs) no_line))
            (Writes-no_line (write_loop t.o sep rounds) (b ∷ bs)
              (Writes-write_loop rounds bs (omega arith)))))
    | inr (k, ends) ↦ rw (write_loop-round rounds b bs) (
        rw ends (
          Writes-line (write_loop t.o sep rounds) (b ∷ bs) k ends (
            Writes-write_loop rounds (drop (k + 1) (b ∷ bs))
              (omega (arith, length-drop (k + 1) (b ∷ bs))))))
  ]

  -- With a separator of at most 255 characters, `o_txt` writes each line that a newline ends, with
  -- the separator for the newline, and nothing of a last line that no newline ends.
  pub Writes-write_txt : (txt : List ℕ) → Writes σ (write_txt t.o sep txt) (ended_lines sep [] txt)
  unfolding write_txt
  Writes-write_txt txt = Writes-write_loop (length txt) txt (omega arith)

  -- Text without a newline is not written at all.
  pub write_txt-unended :
      (txt : List ℕ) → next_newline txt ≡ none → Writes σ (write_txt t.o sep txt) []
  write_txt-unended txt h = Writes-eq (ended_lines-none sep [] txt h) (Writes-write_txt txt)

module _ {t : Transport} (σ : IsStream t) (sep : List ℕ) where
  pub Writes-o_line : (line : List ℕ) → Writes σ (o_line t.o sep line) (line ++ sep)
  unfolding o_line
  Writes-o_line line = Writes-then (Writes-o line) (Writes-o sep)

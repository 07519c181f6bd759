-- ===== src/TextSocket.antt =====
-- The text socket (socket++/io/text_buffered.hpp, socket++/io/text_buffered.cpp): lines that end in
-- a separator of the user's choice, read through a buffer. `sep` is the separator without its
-- terminating zero byte; as in set_line_sep it has at least one character, and fewer than 256.
pub mod Split
pub mod Lines
pub mod Output
pub mod Object
pub mod OverSsl
use socketxx.Common.{
  ℕ, zero, suc, ◌+◌, ◌-◌, ◌%◌, ◌==◌, ◌&&◌, true, false, Bool, Option, none, some, List, [], ◌∷◌,
  ◌++◌, length, take, drop, leb, ltb, if◌then◌else◌,
}
use socketxx.Common.Outcome.{Exec, Outcome, ok, halts, no_fuel, pure, ◌>>=◌, ◌>>◌}

-- uint8_t sepsz = strlen(sep)
abbrev pub sep_size : List ℕ → ℕ
sep_size sep = length sep % 256

-- The separator is the next text of the buffer.
unfoldable pub matches : List ℕ → List ℕ → Bool
matches [] buffer = true
matches (c ∷ sep) [] = false
matches (c ∷ sep) (b ∷ buffer) = b == c && matches sep buffer

-- for (i = 0; i < buffer.length() - sepsz + 1; i++): `rounds` of them are left.
unfoldable pub scan : List ℕ → List ℕ → ℕ → ℕ → Option ℕ
scan sep buffer zero i = none
scan sep buffer (suc rounds) i =
    let rest = scan sep buffer rounds (i + 1) in
    if matches sep (drop i buffer) then some i else rest

unfoldable pub find_sep : List ℕ → List ℕ → Option ℕ
unfolding scan
find_sep sep buffer =
    if leb (sep_size sep) (length buffer)
    then scan sep buffer (length buffer - sep_size sep + 1) 0
    else none

module _ {S : Type 0} (readf : ℕ → Exec S (List ℕ)) (page : ℕ) (sep : List ℕ) where
  -- A line is cut off the buffer, or the buffer grows by one read and the scan starts again.
  line_found : (List ℕ → Exec S (List ℕ × List ℕ)) → List ℕ → Option ℕ → Exec S (List ℕ × List ℕ)
  line_found again buffer (some i) = pure (take i buffer, drop (i + sep_size sep) buffer)
  line_found again buffer none = do more ← readf page; again (buffer ++ more)

  -- _text_socket::read_line: the line, and what stays in the buffer. `fuel` bounds the reads.
  unfoldable pub read_line : ℕ → List ℕ → Exec S (List ℕ × List ℕ)
  unfolding line_found
  read_line zero buffer s = (halts no_fuel, s)
  read_line (suc fuel) buffer s = line_found (read_line fuel) buffer (find_sep sep buffer) s

abbrev pub newline : ℕ
newline = 10

-- for (i = pos; i < txt.length(); i++) if (txt[i] == '\n'): how far on the next newline is.
unfoldable pub next_newline : List ℕ → Option ℕ
next_newline [] = none
next_newline (b ∷ bs) =
    if b == newline then some 0 else elim (next_newline bs) [ none ↦ none | some k ↦ some (suc k) ]

module _ {S : Type 0} (writef : List ℕ → Exec S (Unit {0})) (sep : List ℕ) where
  o_sep : Exec S (Unit {0})
  o_sep = writef (take (sep_size sep) sep)

  -- One round of the outer loop, on the text from `pos` on: with a newline `k` bytes ahead the
  -- line and the separator go out and `pos` moves behind it, else `pos` moves on by one.
  round : (List ℕ → Exec S (Unit {0})) → List ℕ → Option ℕ → Exec S (Unit {0})
  unfolding o_sep
  round next txt (some k) = do
    (if ltb 0 k then writef (take k txt) else pure tt)
    o_sep
    next (drop (k + 1) txt)
  round next txt none = next (drop 1 txt)

  -- if (pos < txt.length()), after the loop
  last_line : List ℕ → Exec S (Unit {0})
  unfolding o_sep
  last_line txt = if ltb 0 (length txt) then writef txt >> o_sep else pure tt

  -- `rounds` bounds the outer loop, which moves `pos` on each time.
  write_loop : ℕ → List ℕ → Exec S (Unit {0})
  unfolding round last_line
  write_loop zero txt s = last_line txt s
  write_loop (suc rounds) txt s = elim (length txt == 0) [
    | true ↦ last_line txt s
    | false ↦ round (write_loop rounds) txt (next_newline txt) s
  ]

  -- _text_socket::write_txt
  unfoldable pub write_txt : List ℕ → Exec S (Unit {0})
  unfolding write_loop
  write_txt txt = write_loop (length txt) txt

  -- text_socket::o_str, o_line_ending and o_line
  unfoldable pub o_str : List ℕ → Exec S (Unit {0})
  o_str str = writef str

  unfoldable pub o_line_ending : Exec S (Unit {0})
  o_line_ending = writef sep

  unfoldable pub o_line : List ℕ → Exec S (Unit {0})
  unfolding o_str o_line_ending
  o_line line = do o_str line; o_line_ending

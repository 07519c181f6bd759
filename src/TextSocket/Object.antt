-- ===== src/TextSocket/Object.antt =====
-- The methods of a text_socket (socket++/io/text_buffered.hpp) and its members: the buffer, which
-- its reads fill, and the pointer to the separator, `none` as long as it has no value.
pub mod Resumed
pub mod Dialog
use socketxx.Common.{ℕ, Option, none, some, List, [], ◌∷◌, ◌++◌, zero, suc}
use socketxx.Common.Outcome.{Exec, Outcome, ok, throws, halts, undefined, halt, pure, ◌>>=◌, ◌>>◌}
use socketxx.TextSocket.{read_line, write_txt, o_line, o_line_ending}

-- `line_sep` is left alone by all methods but set_line_sep.
pub record TextSocket : Type 0 where
  pub buffer : List ℕ
  pub line_sep : Option (List ℕ)

-- text_socket(): "\r\n"
unfoldable text_socket : TextSocket
text_socket = record { buffer = []; line_sep = some (13 ∷ 10 ∷ []) }

-- text_socket(const io_base&), and the constructor with a descriptor
unfoldable text_socket_of : TextSocket
text_socket_of = record { buffer = []; line_sep = none }

unfoldable set_line_sep : List ℕ → TextSocket → TextSocket
set_line_sep sep t = record t { line_sep = some sep }

-- Reading and writing through a pointer that has no value is undefined.
unfoldable pub with_sep : {S A : Type 0} → Option (List ℕ) → (List ℕ → Exec S A) → Exec S A
with_sep none m = halt undefined
with_sep (some sep) m = m sep

appended : {S : Type 0} → List ℕ → Outcome (List ℕ) × S → Outcome (List ℕ) × (List ℕ × S)
appended buffer (ok bs, s) = (ok bs, (buffer ++ bs, s))
appended buffer (throws e, s) = (throws e, (buffer, s))
appended buffer (halts h, s) = (halts h, (buffer, s))

-- A read whose bytes go to the buffer of the object, which the line is cut from.
unfoldable pub read_more : {S : Type 0} → (ℕ → Exec S (List ℕ)) → ℕ → Exec (List ℕ × S) (List ℕ)
unfolding appended
read_more readf n (buffer, s) = appended buffer (readf n s)

cut_off : {S : Type 0} → List ℕ × List ℕ → Exec (List ℕ × S) (List ℕ)
cut_off (line, left) (buffer, s) = (ok line, (left, s))

module _ {S : Type 0} (readf : ℕ → Exec S (List ℕ)) (page : ℕ) where
  -- _text_socket::read_line on the buffer of the object
  unfoldable pub line_of : List ℕ → ℕ → Exec (List ℕ × S) (List ℕ)
  unfolding cut_off
  line_of sep fuel (buffer, s) =
      (read_line (read_more readf) page sep fuel buffer >>= cut_off) (buffer, s)

  -- i_line
  unfoldable pub i_line : Option (List ℕ) → ℕ → Exec (List ℕ × S) (List ℕ)
  unfolding with_sep
  i_line line_sep fuel = with_sep line_sep (λ sep. line_of sep fuel)

  -- i_line, `n` times
  unfoldable pub i_lines : Option (List ℕ) → ℕ → ℕ → Exec (List ℕ × S) (List (List ℕ))
  i_lines line_sep fuel zero = pure []
  i_lines line_sep fuel (suc n) = do
    line ← i_line line_sep fuel
    lines ← i_lines line_sep fuel n
    pure (line ∷ lines)

module _ {S : Type 0} (writef : List ℕ → Exec S (Unit {0})) where
  -- o_line and o_txt through the pointer
  unfoldable pub o_line_sep : Option (List ℕ) → List ℕ → Exec S (Unit {0})
  unfolding with_sep
  o_line_sep line_sep line = with_sep line_sep (λ sep. o_line writef sep line)

  unfoldable o_txt : Option (List ℕ) → List ℕ → Exec S (Unit {0})
  unfolding with_sep
  o_txt line_sep txt = with_sep line_sep (λ sep. write_txt writef sep txt)

  -- o_line on each of the lines
  unfoldable pub o_lines : Option (List ℕ) → List (List ℕ) → Exec S (Unit {0})
  o_lines line_sep [] = pure tt
  o_lines line_sep (line ∷ lines) = do o_line_sep line_sep line; o_lines line_sep lines

-- ===== src/TextSocket/OverSsl.antt =====
-- The text socket over base_ssl, in a session, down to SSL_write and SSL_read.
use socketxx.Common.{ℕ, ◌^◌, ◌<◌, ◌≡◌, some, List, [], ◌∷◌, ◌++◌, length, arith}
use socketxx.Common.Outcome.{ok}
use socketxx.Ssl
use socketxx.Ssl.{OpenSsl, SslSocket}
use socketxx.Ssl.Exact.{IsReadable}
use socketxx.Ssl.Stream.{
  IsWritable, Sends, Sends-o, Sends-nothing, Sends-then, waiting_in, ssl_source,
}
use socketxx.TextSocket.{o_line, o_line_ending, o_str}
use socketxx.TextSocket.Object.{i_lines, o_lines, o_line_sep, with_sep}
use socketxx.TextSocket.Object.Dialog.{AreLines, wire, i_lines-wire}

-- The size of each line is a positive `int`.
abbrev pub AreSized : List (List ℕ) → Type 0
AreSized [] = Unit {0}
AreSized (line ∷ lines) = (0 < length line) × (length line < 2 ^ 31) × AreSized lines

module _ (l : OpenSsl) (k : ℕ) (ω : IsWritable l k) (sep : List ℕ) (some_sep : 0 < length sep)
    (short_sep : length sep < 256) where
  Sends-o_lines :
      (lines : List (List ℕ))
      → AreSized lines
      → Sends l k ω (o_lines (Ssl.o l) (some sep) lines) (wire sep lines)
  unfolding o_lines o_line_sep with_sep o_line o_line_ending o_str
  Sends-o_lines [] sized = Sends-nothing l k ω
  Sends-o_lines (line ∷ lines) (some_bytes, small, further) =
      Sends-then l k ω
        (Sends-then l k ω (Sends-o l k ω line some_bytes small)
          (Sends-o l k ω sep some_sep (omega (arith, short_sep))))
        (Sends-o_lines lines further)

-- Two sockets in a session, on any two systems, where SSL_write takes the whole of a buffer whose
-- size is a positive `int`, and SSL_read, asked for a positive `int`, returns at least one of the
-- bytes that wait and no more than that. A page of fewer than 2^31 bytes, lines of one to 2^31 - 1
-- bytes, and a separator of one to 255 characters, which neither occurs in the lines nor across
-- their ends: `o_line` on each of them writes the lines with the separator behind each; where these
-- bytes are the next ones of the reader, in its buffer or its session, and the fuel is above the
-- number of all that wait there, as many calls of `i_line` return the same lines, and what follows
-- them is left.
pub o_lines-i_lines_ssl :
    {l₁ l₂ : OpenSsl} (k : ℕ) (ω : IsWritable l₁ k) (κ : (k : ℕ) → IsReadable l₂ k) (page : ℕ)
    (sep : List ℕ) (lines : List (List ℕ)) (fuel : ℕ) (buffer rest : List ℕ)
    (s : SslSocket l₂.os.World)
    → 0 < page
    → page < 2 ^ 31
    → 0 < length sep
    → length sep < 256
    → AreLines sep lines
    → AreSized lines
    → length (buffer ++ waiting_in κ s.ssl_sock s.world) < fuel
    → buffer ++ waiting_in κ s.ssl_sock s.world ≡ wire sep lines ++ rest
    → Sends l₁ k ω (o_lines (Ssl.o l₁) (some sep) lines) (wire sep lines)
      × ((left : List ℕ) × (s' : SslSocket l₂.os.World) × (i_lines
              (Ssl.i l₂)
              page
              (some sep)
              fuel
              (length lines)
              (buffer, s)
            ≡ (ok lines, (left, s')))
          × (left ++ waiting_in κ s'.ssl_sock s'.world ≡ rest))
unfolding ssl_source
o_lines-i_lines_ssl {l₁} k ω κ page sep lines fuel buffer rest s paged fits some_sep short_sep a z h
      e =
    (
      Sends-o_lines l₁ k ω sep some_sep short_sep lines z,
      i_lines-wire (ssl_source κ page fits) sep paged some_sep short_sep fuel lines buffer rest s a
          h e,
    )

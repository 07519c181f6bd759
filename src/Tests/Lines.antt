-- ===== src/Tests/Lines.antt =====
-- Lines that a source sends byte by byte.
use socketxx.Common.{ℕ, ◌≡◌, refl, some, List, [], ◌∷◌, ◌++◌, arith}
use socketxx.Common.Int.{pos}
use socketxx.Common.Outcome.{Exception, Halt, ok, throws, halts}
use socketxx.BaseIo.Socket.Stream.{socket_transport, socket_stream}
use socketxx.Transport.{IsStream, Writes}
use socketxx.TextSocket.{matches}
use socketxx.TextSocket.Split.{split}
use socketxx.TextSocket.Object.{i_line, i_lines, o_lines}
use socketxx.TextSocket.Object.Resumed.{Lossless, Left, i_line-Left}
use socketxx.TextSocket.Object.Dialog.{AreLines, o_lines-i_lines}
use socketxx.Tests.Fixtures.{linux, linux_connected, byte_source, byte_source_IsSource}

abbrev crlf : List ℕ
crlf = 13 ∷ 10 ∷ []

-- "a" and the empty line
abbrev two_lines : List (List ℕ)
two_lines = (97 ∷ []) ∷ [] ∷ []

two_lines-AreLines : AreLines crlf two_lines
unfolding split matches
two_lines-AreLines = (refl, (refl, tt))

wire_stream : IsStream (socket_transport linux (pos 3))
wire_stream = socket_stream linux (pos 3) (linux_connected (pos 3))

-- The first byte is in the buffer already, and more follows.
o_lines-i_lines_example :
    Writes wire_stream
      (o_lines ((socket_transport linux (pos 3)).o) (some crlf) two_lines)
      (97 ∷ 13 ∷ 10 ∷ 13 ∷ 10 ∷ [])
    × ((left : List ℕ) × (s' : List ℕ) × (i_lines byte_source 4096
            (some crlf)
            9
            2
            (97 ∷ [], 13 ∷ 10 ∷ 13 ∷ 10 ∷ 98 ∷ [])
          ≡ (ok two_lines, (left, s')))
        × (left ++ s' ≡ 98 ∷ []))
unfolding byte_source_IsSource
o_lines-i_lines_example =
    o_lines-i_lines wire_stream 4096 (byte_source_IsSource 4096) crlf two_lines 9 (97 ∷ [])
      (98 ∷ []) (13 ∷ 10 ∷ 13 ∷ 10 ∷ 98 ∷ []) (omega arith) (omega arith) (omega arith)
      two_lines-AreLines (omega arith) refl

byte_source_takes : (n : ℕ) (s s' bs : List ℕ) → byte_source n s ≡ (ok bs, s') → s ≡ bs ++ s'
byte_source_takes n [] s' bs e = cc
byte_source_takes n (b ∷ s) s' bs e = ground arith

byte_source_throws :
    (n : ℕ) (x : Exception) (s s' : List ℕ) → byte_source n s ≡ (throws x, s') → s' ≡ s
byte_source_throws n y [] s' e = cc
byte_source_throws n y (b ∷ s) s' e = cc

byte_source_halts : (n : ℕ) (h : Halt) (s s' : List ℕ) → byte_source n s ≡ (halts h, s') → s' ≡ s
byte_source_halts n y [] s' e = cc
byte_source_halts n y (b ∷ s) s' e = cc

unfoldable lossless : Lossless byte_source
unfolding byte_source_takes byte_source_throws byte_source_halts
lossless = record {
  pending = λ s. s;
  takes = λ n s s' bs e. byte_source_takes n s s' bs e;
  throws_keeps = λ n s s' e. byte_source_throws n _ s s' e;
  halts_keeps = λ n s s' e. byte_source_halts n _ s s' e;
}

-- The source closes before the end of the line.
i_line-Left_example :
    Left lossless 4096 crlf
      (omega arith)
      (omega arith)
      (97 ∷ 13 ∷ [])
      (i_line byte_source 4096 (some crlf) 9 (97 ∷ [], 13 ∷ []))
unfolding lossless
i_line-Left_example =
    i_line-Left lossless 4096 crlf (omega arith) (omega arith) 9 (97 ∷ []) (13 ∷ [])

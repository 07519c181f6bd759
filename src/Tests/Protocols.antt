-- ===== src/Tests/Protocols.antt =====
-- Values that cross a socket, and lines of text.
use socketxx.Common.{ℕ, ◌<◌, ◌≡◌, refl, true, false, [], ◌∷◌, arith}
use socketxx.Common.Int.{pos}
use socketxx.BaseIo.Socket.Stream.{socket_transport, socket_stream}
use socketxx.Transport.{IsStream, Crosses, Writes}
use socketxx.SimpleSocket.{o_int, i_int, o_str, i_str}
use socketxx.SimpleSocket.RoundTrip.{o_str-i_str}
use socketxx.SimpleSocket.Endianness.{o_int-i_int_swapped}
use socketxx.SimpleSocket.Var.{
  Polyvar, Kind, TypeCodes, is_void, is_str, is_float, is_int, is_char, is_bool, is_list, is_map,
  str, int, bool, vector, table, nil, cons, end, field, o_var, i_var,
}
use socketxx.SimpleSocket.Var.Reading.{o_var-i_var}
use socketxx.TextSocket.{write_txt}
use socketxx.TextSocket.Output.{Writes-write_txt, ended_lines}
use socketxx.Tests.Fixtures.{linux, linux_connected}

peer_stream : IsStream (socket_transport linux (pos 3))
peer_stream = socket_stream linux (pos 3) (linux_connected (pos 3))

o_str-i_str_example :
    Crosses peer_stream peer_stream
      (o_str (socket_transport linux (pos 3)) true (104 ∷ 105 ∷ []))
      (i_str (socket_transport linux (pos 3)) false)
      (104 ∷ 105 ∷ [])
o_str-i_str_example = o_str-i_str peer_stream peer_stream true (104 ∷ 105 ∷ []) (omega arith)

o_int-i_int_swapped_example :
    Crosses peer_stream peer_stream
      (o_int (socket_transport linux (pos 3)) true 2 1)
      (i_int (socket_transport linux (pos 3)) true 2)
      256
o_int-i_int_swapped_example = o_int-i_int_swapped peer_stream peer_stream true 2 1

abbrev pub code_of : Kind → ℕ
code_of is_void = 0
code_of is_str = 1
code_of is_float = 2
code_of is_int = 3
code_of is_char = 4
code_of is_bool = 5
code_of is_list = 6
code_of is_map = 7

code_of-lt : (k : Kind) → code_of k < 128
code_of-lt is_void = omega arith
code_of-lt _ = omega arith

code_of-injective : (j k : Kind) → code_of j ≡ code_of k → j ≡ k
code_of-injective is_void k e = ground arith
code_of-injective _ k e = ground arith

unfoldable pub codes : TypeCodes
unfolding code_of-lt code_of-injective
codes = record { code = code_of; code_lt = code_of-lt; code_injective = code_of-injective }

-- A table with a vector in it.
abbrev sample : Polyvar
sample = table (
    field (97 ∷ []) (vector (cons (int 5) (cons (bool true) nil)))
      (field (98 ∷ []) (str (104 ∷ 105 ∷ [])) end))

o_var-i_var_example :
    Crosses peer_stream peer_stream
      (o_var (socket_transport linux (pos 3)) false codes sample)
      (i_var (socket_transport linux (pos 3)) false codes true 3)
      sample
o_var-i_var_example = o_var-i_var peer_stream peer_stream false codes sample 3 (omega arith) (
  omega arith,
  ((refl, tt), (tt, tt)),
  (omega arith, (omega arith, (omega arith, (tt, tt))), (omega arith, omega arith, tt)),
)

-- Of "a\nb" only the first line is written.
Writes-write_txt_example :
    Writes peer_stream
      (write_txt ((socket_transport linux (pos 3)).o) (13 ∷ 10 ∷ []) (97 ∷ 10 ∷ 98 ∷ []))
      (97 ∷ 13 ∷ 10 ∷ [])
unfolding ended_lines
Writes-write_txt_example =
    Writes-write_txt peer_stream (13 ∷ 10 ∷ []) (omega arith) (97 ∷ 10 ∷ 98 ∷ [])

-- ===== src/Tests/Cuts.antt =====
-- Connections that end too early.
use socketxx.Common.{◌≡◌, refl, true, false, [], ◌∷◌, arith}
use socketxx.Common.Int.{pos}
use socketxx.Common.Outcome.{Exception, throws}
use socketxx.BaseIo.Socket.Stream.{socket_transport, socket_stream}
use socketxx.Transport.{Writes}
use socketxx.SimpleSocket.Operators.{
  of_char, of_string, char, string, put_all, get_all, chain_bytes, value_bytes,
}
use socketxx.SimpleSocket.Truncated.{get_all-truncated}
use socketxx.SimpleSocket.Var.{Polyvar, vector, nil, cons, i_var}
use socketxx.SimpleSocket.Var.Truncated.{i_var-truncated}
use socketxx.Tests.Fixtures.{Wire, wire, linux, linux_connected, linux_ends}
use socketxx.Tests.Protocols.{codes}

-- The string needs two bytes and a header, and the third byte does not come.
get_all-truncated_example :
    Writes
      (socket_stream linux (pos 3) (linux_connected (pos 3)))
      (put_all (socket_transport linux (pos 3)) true (char 7 ∷ string (104 ∷ 105 ∷ []) ∷ []))
      (chain_bytes (char 7 ∷ string (104 ∷ 105 ∷ []) ∷ []))
    × ((e : Exception) × (s' : Wire) × (get_all
            (socket_transport linux (pos 4))
            false
            (of_char ∷ of_string ∷ [])
            (wire (7 ∷ 2 ∷ 104 ∷ []))
          ≡ (throws e, s')))
unfolding linux_connected chain_bytes value_bytes
get_all-truncated_example =
    get_all-truncated linux linux (pos 3) (pos 4) (linux_connected (pos 3))
      (linux_connected (pos 4)) (linux_ends (pos 4)) true (char 7 ∷ string (104 ∷ 105 ∷ []) ∷ [])
      105 [] (wire (7 ∷ 2 ∷ 104 ∷ [])) (tt, (omega arith, tt)) refl

-- A vector of a string, of which the last byte does not come.
abbrev cut : Wire
cut = wire (6 ∷ 1 ∷ 0 ∷ 0 ∷ 0 ∷ 0 ∷ 0 ∷ 0 ∷ 0 ∷ 1 ∷ 1 ∷ [])

i_var-truncated_example :
    (e : Exception) × (s' : Wire) × (i_var (socket_transport linux (pos 4)) false codes true 2 cut
      ≡ (throws e, s'))
unfolding linux_connected codes
i_var-truncated_example =
    i_var-truncated linux (pos 4) (linux_connected (pos 4)) (linux_ends (pos 4)) codes
      (vector (cons (Polyvar.str (104 ∷ [])) nil)) 2 104 [] cut (omega arith)
      (omega arith, (omega arith, tt)) refl

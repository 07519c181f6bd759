-- ===== src/Tests/Chains.antt =====
-- Chains of << and of >>.
use socketxx.Common.{true, false, [], ◌∷◌, arith}
use socketxx.Common.Int.{pos}
use socketxx.BaseIo.Socket.Stream.{socket_transport, socket_stream}
use socketxx.Transport.{Crosses}
use socketxx.SimpleSocket.Operators.{
  of_char, of_bool, of_string, of_int, char, bool, string, int, put_all, get_all, put_all-get_all,
}
use socketxx.Tests.Fixtures.{linux, linux_connected}

put_all-get_all_example :
    Crosses
      (socket_stream linux (pos 3) (linux_connected (pos 3)))
      (socket_stream linux (pos 4) (linux_connected (pos 4)))
      (put_all
        (socket_transport linux (pos 3))
        true
        (string (104 ∷ []) ∷ int 4 0xdead_beef ∷ bool true ∷ char 7 ∷ []))
      (get_all
        (socket_transport linux (pos 4))
        false
        (of_string ∷ of_int 4 ∷ of_bool ∷ of_char ∷ []))
      (string (104 ∷ []) ∷ int 4 0xdead_beef ∷ bool true ∷ char 7 ∷ [])
put_all-get_all_example =
    put_all-get_all linux linux (pos 3) (pos 4) (linux_connected (pos 3)) (linux_connected (pos 4))
      true (string (104 ∷ []) ∷ int 4 0xdead_beef ∷ bool true ∷ char 7 ∷ [])
      (omega arith, (omega arith, (tt, (tt, tt))))

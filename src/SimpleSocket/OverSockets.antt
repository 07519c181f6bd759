-- ===== src/SimpleSocket/OverSockets.antt =====
-- The simple socket over base_socket, down to send() and recv().
use socketxx.Common.{ℕ, ◌^◌, ◌<◌, Bool, false, List, length}
use socketxx.Common.Int.{ℤ}
use socketxx.BaseIo.{Os}
use socketxx.BaseIo.Socket.Stream.{IsConnected, socket_transport, socket_stream}
use socketxx.Transport.{Crosses}
use socketxx.SimpleSocket.{o_str, i_str}
use socketxx.SimpleSocket.RoundTrip.{o_str-i_str}

-- Between two connected sockets, on any two systems whose calls keep the contract of a connected
-- stream socket, a string of fewer than 2^64 bytes arrives unchanged at a little-endian reader.
o_str-i_str_sockets :
    (os₁ os₂ : Os) (fd₁ fd₂ : ℤ) (κ₁ : IsConnected os₁ fd₁) (κ₂ : IsConnected os₂ fd₂) (big : Bool)
    (str : List ℕ)
    → length str < 2 ^ 64
    → Crosses
        (socket_stream os₁ fd₁ κ₁)
        (socket_stream os₂ fd₂ κ₂)
        (o_str (socket_transport os₁ fd₁) big str)
        (i_str (socket_transport os₂ fd₂) false)
        str
o_str-i_str_sockets os₁ os₂ fd₁ fd₂ κ₁ κ₂ big str h =
    o_str-i_str (socket_stream os₁ fd₁ κ₁) (socket_stream os₂ fd₂ κ₂) big str h

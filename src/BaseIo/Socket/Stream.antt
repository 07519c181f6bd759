-- ===== src/BaseIo/Socket/Stream.antt =====
-- base_socket as the transport of an I/O protocol.
use Prim.Native.Nat.{bit_or}
use socketxx.Common.{ℕ, ◌≡◌, ◌<◌, refl, true, Option, none, some, List, ◌++◌, length, ltb, arith}
use socketxx.Common.Int.{ℤ, pos, minus_one}
use socketxx.Common.Outcome.{Exception, ok, throws, io_error, reading}
use socketxx.BaseIo.{Os}
use socketxx.BaseIo.Socket
use socketxx.BaseIo.Socket.{msg_nosignal, msg_waitall}
use socketxx.Transport.{Transport, IsStream}
use socketxx.Transport.Fails.{EndsShort}

-- A connected, blocking stream socket: while the connection is up send() takes the whole buffer,
-- and recv() with MSG_WAITALL of bytes that are there returns all of them.
pub record IsConnected (os : Os) (fd : ℤ) : Type 1 where
  pub IsUp : os.World → Type 0
  pub sent : os.World → List ℕ
  pub pending : os.World → List ℕ
  pub send_whole :
      (bs : List ℕ) (s : os.World)
      → IsUp s
      → (s' : os.World) × (os.send fd bs msg_nosignal s ≡ (some (length bs), s'))
        × (sent s' ≡ sent s ++ bs)
        × (pending s' ≡ pending s)
        × IsUp s'
  pub recv_whole :
      (bs rest : List ℕ) (s : os.World)
      → pending s ≡ bs ++ rest
      → (s' : os.World) × (os.recv fd (length bs) (bit_or msg_nosignal msg_waitall) s
          ≡ (some bs, s'))
        × (pending s' ≡ rest)
        × (sent s' ≡ sent s)

abbrev pub socket_transport : Os → ℤ → Transport
socket_transport os fd = record {
  State = os.World;
  o = Socket.o os fd;
  i_fixsize = Socket.i_fixsize os fd;
}

module _ (os : Os) (fd : ℤ) where
  o-whole :
      (bs : List ℕ) (s s' : os.World)
      → os.send fd bs msg_nosignal s ≡ (some (length bs), s')
      → Socket.o os fd bs s ≡ (ok tt, s')
  unfolding Socket.o
  o-whole bs s s' e = rw e (ground arith)

  i_fixsize-whole :
      (bs : List ℕ) (s s' : os.World)
      → os.recv fd (length bs) (bit_or msg_nosignal msg_waitall) s ≡ (some bs, s')
      → Socket.i_fixsize os fd (length bs) s ≡ (ok bs, s')
  unfolding Socket.i_fixsize
  i_fixsize-whole bs s s' e = rw e (ground arith)

-- The socket keeps the contract that the I/O protocols rely on.
unfoldable pub socket_stream :
    (os : Os) (fd : ℤ) → IsConnected os fd → IsStream (socket_transport os fd)
unfolding o-whole i_fixsize-whole
socket_stream os fd κ = record {
  IsUp = κ.IsUp;
  sent = κ.sent;
  pending = κ.pending;
  o_sends = λ bs s up.
      let (s', e, f, p, u) = κ.send_whole bs s up in (s', o-whole os fd bs s s' e, f, p, u);
  i_fixsize_takes = λ bs rest s e.
      let (s', g, p, f) = κ.recv_whole bs rest s e in (s', i_fixsize-whole os fd bs s s' g, p, f);
}

-- recv() brings less than it is asked for, or nothing at all.
abbrev pub IsShort : ℕ → Option (List ℕ) → Type 0
IsShort n none = Unit {0}
IsShort n (some bs) = length bs < n

-- The peer has closed: no more comes than what is pending, and recv() with MSG_WAITALL of more than
-- that is short.
pub record EndsConnection (os : Os) (fd : ℤ) (κ : IsConnected os fd) : Type 0 where
  pub recv_short :
      (n : ℕ) (s : os.World)
      → length (κ.pending s) < n
      → IsShort n (os.recv fd n (bit_or msg_nosignal msg_waitall) s).0

module _ (os : Os) (fd : ℤ) where
  i_fixsize-short :
      (n : ℕ) (r : Option (List ℕ)) (s : os.World)
      → IsShort n r
      → (e : Exception) × (Socket.received os fd n (r, s) ≡ (throws e, s))
  unfolding Socket.received
  i_fixsize-short n none s h = (io_error minus_one reading (os.errno s), refl)
  i_fixsize-short n (some bs) s h =
      let l : ltb (length bs) n ≡ true = ground arith in
      (io_error (pos (length bs)) reading (os.errno s), rw l refl)

pub socket_ends :
    (os : Os) (fd : ℤ) (κ : IsConnected os fd) (ε : EndsConnection os fd κ)
    → EndsShort (socket_stream os fd κ)
unfolding socket_stream Socket.i_fixsize
socket_ends os fd κ ε = record {
  i_fixsize_short = λ n s h.
      let r = os.recv fd n (bit_or msg_nosignal msg_waitall) s in
      let (e, run) = i_fixsize-short os fd n r.0 r.1 (ε.recv_short n s h) in (e, r.1, run);
}

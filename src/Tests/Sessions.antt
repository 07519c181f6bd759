-- ===== src/Tests/Sessions.antt =====
-- Copies of a socket object, and SSL sessions.
use socketxx.Common.{
  ℕ, ◌+◌, ◌-◌, ◌≤◌, ◌<◌, ◌≡◌, ◌≢◌, refl, sym, true, false, none, some, List, [], ◌∷◌, ◌++◌, length,
  take, drop, take-append-drop, inr, arith,
}
use socketxx.Common.Int.{pos}
use socketxx.Common.Outcome.{ok}
use socketxx.BaseIo.{Os}
use socketxx.BaseIo.Lifetime.{close, set_preserved, construct, destroy_socket}
use socketxx.BaseIo.Sharing.{
  Shrd, first_object, copy_object, preserve_object, destroy_object, copies, preserves, destroys,
  here, next, asked, Reach-closes,
}
use socketxx.Ssl.{OpenSsl, SslSocket, start_ssl, stop_ssl, o, i, i_fixsize}
use socketxx.Ssl.Session.{CountsSessions, count}
use socketxx.Ssl.Reach
use socketxx.Ssl.Reach.{connects, stops, writes, Reach-Held}
use socketxx.Ssl.Stream.{IsWritable, Sends, waiting_in}
use socketxx.TextSocket.{matches}
use socketxx.TextSocket.Split.{split}
use socketxx.TextSocket.Object.{i_lines, o_lines}
use socketxx.TextSocket.Object.Dialog.{AreLines}
use socketxx.TextSocket.OverSsl.{o_lines-i_lines_ssl}
use socketxx.Ssl.Exact.{IsReadable, i_fixsize-exact}

abbrev fresh : Shrd
fresh = record { autoclose = true; preserve_fd = false; calls = [] }

-- A socket is copied, the copy is preserved, and both are destroyed.
Reach-closes_example :
    (destroy_object []
      (pos 4)
      []
      (destroy_object []
        (pos 4)
        (pos 4 ∷ [])
        (preserve_object (pos 4 ∷ []) (pos 4) [] fresh).shrd).shrd).shrd.calls
    ≡ close (pos 4) ∷ []
unfolding first_object construct copy_object preserve_object destroy_object set_preserved
    destroy_socket asked
Reach-closes_example = Reach-closes (pos 4) refl (
    next
      (next
        (next (next here (copies [] (pos 4) [] fresh)) (preserves (pos 4 ∷ []) (pos 4) [] fresh))
        (destroys [] (pos 4) (pos 4 ∷ []) _))
      (destroys [] (pos 4) [] _))

-- How many SSL objects there are, the bytes that wait and those written. A handshake succeeds, a read gives one
-- byte, and SSL_shutdown gives 0, as for the side that closes first.
record Secure : Type 0 where
  objects : ℕ
  bytes : List ℕ
  out : List ℕ

abbrev secure_os : Os
secure_os = record {
  World = Secure;
  errno = λ s. 0;
  set_errno = λ e s. s;
  read = λ fd n s. (none, s);
  write = λ fd bs s. (none, s);
  send = λ fd bs flags s. (some (length bs), s);
  recv = λ fd n flags s. (none, s);
  select_read = λ fd tm s. ((none, tm), s);
  set_rcvtimeo = λ fd tm s. (none, s);
  get_rcvtimeo = λ fd s. (none, s);
  fstat_mode = λ fd s. (none, s);
}

abbrev open_ssl : OpenSsl
open_ssl = record {
  os = secure_os;
  ctx_new = λ m w. (some 1, w);
  ssl_new = λ c w. (some 2, record w { objects = w.objects + 1 });
  set_fd = λ k fd w. (true, w);
  handshake = λ m k w. (pos 1, w);
  shutdown = λ k w. (pos 0, w);
  ssl_free = λ k w. record w { objects = w.objects - 1 };
  ctx_free = λ c w. w;
  write = λ k bs n w. (n, record w { out = w.out ++ bs });
  read = λ k n w. (inr (take 1 w.bytes), record w { bytes = drop 1 w.bytes });
  clear = λ w. w;
}

one_freed : (n : ℕ) → 0 < n → (n - 1) + 1 ≡ n
one_freed n h = omega arith

unfoldable open_ssl_CountsSessions : CountsSessions open_ssl
unfolding one_freed
open_ssl_CountsSessions = record {
  live = λ w. w.objects;
  ctx_new_live = λ m w. refl;
  ssl_new_live = λ c w. refl;
  set_fd_live = λ k fd w. refl;
  handshake_live = λ m k w. refl;
  shutdown_live = λ k w. refl;
  ssl_free_live = λ k w h. one_freed w.objects h;
  ctx_free_live = λ c w. refl;
  write_live = λ k bs n w. refl;
  read_live = λ k n w. refl;
  clear_live = λ w. refl;
  send_live = λ fd bs flags w. refl;
  recv_live = λ fd n flags w. refl;
}

some_taken :
    (xs : List ℕ) (n : ℕ) → xs ≢ [] → 0 < n → (0 < length (take 1 xs)) × (length (take 1 xs) ≤ n)
some_taken [] n h k = absurd (h refl)
some_taken (x ∷ xs) n h k = (omega arith, omega arith)

unfoldable open_ssl_IsReadable : (k : ℕ) → IsReadable open_ssl k
unfolding some_taken
open_ssl_IsReadable k = record {
  pending = λ w. w.bytes;
  read_takes = λ n w h e.
      let (some_byte, few) = some_taken w.bytes n e h in
      (
        take 1 w.bytes,
        record w { bytes = drop 1 w.bytes },
        refl,
        sym (take-append-drop 1 w.bytes),
        some_byte,
        few,
      );
  clear_keeps = λ w. refl;
}

abbrev plain : SslSocket Secure
plain = record {
  fd = pos 3;
  ssl_sock = none;
  ssl_ctx = none;
  world = record { objects = 0; bytes = []; out = [] };
}

abbrev secure : SslSocket Secure
secure = record {
  fd = pos 3;
  ssl_sock = some 2;
  ssl_ctx = some 1;
  world = record { objects = 1; bytes = 7 ∷ 8 ∷ []; out = [] };
}

-- A session is started, written to, and stopped in vain.
abbrev used : SslSocket Secure
used = (stop_ssl open_ssl (o open_ssl (5 ∷ []) (start_ssl open_ssl plain).1).1).1

Reach-Held_example : used.world.objects ≡ count used.ssl_sock
unfolding open_ssl_CountsSessions
Reach-Held_example =
    Reach-Held open_ssl_CountsSessions
      (Reach.next (Reach.next (Reach.next Reach.here (connects refl)) (writes (5 ∷ []))) stops) refl
      refl

i_fixsize-exact_example :
    (w : Secure) × (i_fixsize open_ssl 2 secure ≡ (ok (7 ∷ 8 ∷ []), record secure { world = w }))
    × (w.bytes ≡ [])
unfolding open_ssl_IsReadable
i_fixsize-exact_example =
    i_fixsize-exact open_ssl 2 (open_ssl_IsReadable 2) 2 secure (omega arith) (omega arith) refl
      refl

open_ssl_IsWritable : IsWritable open_ssl 2
open_ssl_IsWritable = record {
  IsUp = λ w. Unit {0};
  sent = λ w. w.out;
  write_whole = λ bs w up some_bytes small. (record w { out = w.out ++ bs }, refl, refl, tt);
}

abbrev two_lines : List (List ℕ)
two_lines = (7 ∷ []) ∷ (8 ∷ []) ∷ []

two_lines-AreLines : AreLines (10 ∷ []) two_lines
unfolding split matches
two_lines-AreLines = (refl, (refl, tt))

-- The first line is in the buffer, the second one waits in the session.
abbrev chatting : SslSocket Secure
chatting = record secure { world = record { objects = 1; bytes = 8 ∷ 10 ∷ []; out = [] } }

o_lines-i_lines_ssl_example :
    Sends open_ssl 2 open_ssl_IsWritable
      (o_lines (o open_ssl) (some (10 ∷ [])) two_lines)
      (7 ∷ 10 ∷ 8 ∷ 10 ∷ [])
    × ((left : List ℕ) × (s' : SslSocket Secure) × (i_lines
            (i open_ssl)
            4096
            (some (10 ∷ []))
            9
            2
            (7 ∷ 10 ∷ [], chatting)
          ≡ (ok two_lines, (left, s')))
        × (left ++ waiting_in open_ssl_IsReadable s'.ssl_sock s'.world ≡ []))
unfolding open_ssl_IsReadable
o_lines-i_lines_ssl_example =
    o_lines-i_lines_ssl 2 open_ssl_IsWritable open_ssl_IsReadable 4096 (10 ∷ []) two_lines 9
      (7 ∷ 10 ∷ []) [] chatting (omega arith) (omega arith) (omega arith) (omega arith)
      two_lines-AreLines (omega arith, omega arith, (omega arith, omega arith, tt)) (omega arith)
      refl

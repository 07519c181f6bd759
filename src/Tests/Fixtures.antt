-- ===== src/Tests/Fixtures.antt =====
-- An operating system with one connection, and a server's system where every call on a valid
-- descriptor succeeds.
use socketxx.Common.{
  false, ℕ, ◌≤◌, ◌<◌, ◌≡◌, ◌≢◌, refl, ap, ap, ◌∙◌, true, not, Option, none, some, List, [], ◌∷◌,
  ◌++◌, length, take, drop, arith, leb, if◌then◌else◌, take-length-append, drop-length-append,
  length-append,
}
use socketxx.Common.Int.{ℤ, pos, is_neg}
use socketxx.Common.Outcome.{Exec, ok, throws, error}
use socketxx.BaseIo.{Os, Timeval, timeout_inf}
use socketxx.BaseIo.Pipe.Exact.{IsReadable}
use socketxx.BaseIo.Socket.Stream.{IsConnected, IsShort, EndsConnection}
use socketxx.BaseIo.Socket.Timeout.{StoresTimeout}
use socketxx.TextSocket.Lines.{IsSource}
use socketxx.Server.{ServerOs}
use socketxx.Server.Listening.{RefusesInvalid}

pub record Wire : Type 0 where
  pub pending : List ℕ
  pub sent : List ℕ
  pub rcvtimeo : Timeval

abbrev pub wire : List ℕ → Wire
wire bs = record { pending = bs; sent = []; rcvtimeo = timeout_inf }

abbrev receive : ℕ → Wire → Option (List ℕ) × Wire
receive n s =
    if leb n (length s.pending)
    then (some (take n s.pending), record s { pending = drop n s.pending })
    else (none, s)

abbrev read_byte : List ℕ → Wire → Option (List ℕ) × Wire
read_byte [] s = (some [], s)
read_byte (b ∷ bs) s = (some (b ∷ []), record s { pending = bs })

-- read() gives one byte at a time.
abbrev pub linux : Os
linux = record {
  World = Wire;
  errno = λ s. 0;
  set_errno = λ e s. s;
  read = λ fd n s. read_byte s.pending s;
  write = λ fd bs s. (some (length bs), record s { sent = s.sent ++ bs });
  send = λ fd bs flags s. (some (length bs), record s { sent = s.sent ++ bs });
  recv = λ fd n flags s. receive n s;
  select_read = λ fd tm s. ((some 1, tm), s);
  set_rcvtimeo = λ fd tm s. (some 0, record s { rcvtimeo = tm });
  get_rcvtimeo = λ fd s. (some s.rcvtimeo, s);
  fstat_mode = λ fd s. (some 0o140777, s);
}

receive_whole :
    (bs rest : List ℕ) (s : Wire)
    → s.pending ≡ bs ++ rest
    → receive (length bs) s ≡ (some bs, record s { pending = rest })
receive_whole bs rest s e =
    let fits : leb (length bs) (length s.pending) ≡ true =
      ap (λ l. leb (length bs) (length l)) e ∙ ground (arith, length-append bs rest) in
    rw fits (
      ap (λ l. (some (take (length bs) l), record s { pending = drop (length bs) l })) e
      ∙ ap (λ l. (some l, record s { pending = drop (length bs) (bs ++ rest) }))
          (take-length-append bs rest)
      ∙ ap (λ l. (some bs, record s { pending = l })) (drop-length-append bs rest))

unfoldable pub linux_connected : (fd : ℤ) → IsConnected linux fd
unfolding receive_whole
linux_connected fd = record {
  IsUp = λ s. Unit {0};
  sent = λ s. s.sent;
  pending = λ s. s.pending;
  send_whole = λ bs s up. (record s { sent = s.sent ++ bs }, refl, refl, refl, tt);
  recv_whole = λ bs rest s e. (record s { pending = rest }, receive_whole bs rest s e, refl, refl);
}

receive-IsShort : (n : ℕ) (s : Wire) → length s.pending < n → IsShort n (receive n s).0
receive-IsShort n s h = let e : leb n (length s.pending) ≡ false = ground arith in rw e tt

-- The peer has closed.
pub linux_ends : (fd : ℤ) → EndsConnection linux fd (linux_connected fd)
unfolding linux_connected
linux_ends fd = record { recv_short = λ n s h. receive-IsShort n s h }

read_byte_takes :
    (bs : List ℕ) (n : ℕ) (s : Wire)
    → 0 < n
    → bs ≢ []
    → (got : List ℕ) × (s' : Wire) × (read_byte bs s ≡ (some got, s'))
      × (bs ≡ got ++ s'.pending)
      × (0 < length got)
      × (length got ≤ n)
read_byte_takes [] n s h e = absurd (e refl)
read_byte_takes (b ∷ bs) n s h e =
    (b ∷ [], record s { pending = bs }, refl, refl, omega arith, omega arith)

unfoldable pub linux_readable : (fd : ℤ) → IsReadable linux fd
unfolding read_byte_takes
linux_readable fd = record {
  pending = λ s. s.pending;
  read_takes = λ n s h e. read_byte_takes s.pending n s h e;
}

linux_stores : (fd : ℤ) → StoresTimeout linux fd
linux_stores fd = record { stored = λ tm s. (record s { rcvtimeo = tm }, refl, refl) }

-- A system whose reads are given in advance.
abbrev scripted_read : List (List ℕ) → Option (List ℕ) × List (List ℕ)
scripted_read [] = (none, [])
scripted_read (c ∷ cs) = (some c, cs)

abbrev pub scripted : Os
scripted = record {
  World = List (List ℕ);
  errno = λ s. 0;
  set_errno = λ e s. s;
  read = λ fd n s. scripted_read s;
  write = λ fd bs s. (some (length bs), s);
  send = λ fd bs flags s. (some (length bs), s);
  recv = λ fd n flags s. scripted_read s;
  select_read = λ fd tm s. ((some 1, tm), s);
  set_rcvtimeo = λ fd tm s. (some 0, s);
  get_rcvtimeo = λ fd s. (none, s);
  fstat_mode = λ fd s. (none, s);
}

-- A reader that gets its text byte by byte.
abbrev pub byte_source : ℕ → Exec (List ℕ) (List ℕ)
byte_source n [] = (throws (error "closed"), [])
byte_source n (b ∷ bs) = (ok (b ∷ []), bs)

byte_source_takes :
    (n : ℕ) (s : List ℕ)
    → 0 < n
    → s ≢ []
    → (bs : List ℕ) × (s' : List ℕ) × (byte_source n s ≡ (ok bs, s'))
      × (s ≡ bs ++ s')
      × (0 < length bs)
byte_source_takes n [] h e = absurd (e refl)
byte_source_takes n (b ∷ bs) h e = (b ∷ [], bs, refl, refl, omega arith)

unfoldable pub byte_source_IsSource : (page : ℕ) → IsSource byte_source page
unfolding byte_source_takes
byte_source_IsSource page = record { pending = λ s. s; readf_takes = byte_source_takes page }

-- Calls on a valid descriptor succeed; one client with descriptor 5 waits to be accepted.
abbrev pub server_os : ServerOs
server_os = record {
  World = Unit {0};
  errno = λ w. 9;
  set_reuseaddr = λ fd w. (not (is_neg fd), w);
  bind = λ fd w. (not (is_neg fd), w);
  listen = λ fd n w. (not (is_neg fd), w);
  accept = λ fd w. (some (pos 5), w);
  select = λ n set tm w. (some set, w);
  time_left = λ w. timeout_inf;
}

pub server_os_refuses : RefusesInvalid server_os
server_os_refuses = record { bind_invalid = λ w. refl; reuse_invalid = λ w. refl }

-- ===== src/Tests/Files.antt =====
-- Files and descriptors that cross a socket.
use socketxx.Common.{
  ℕ, ◌≤◌, ◌<◌, ◌≡◌, ◌≢◌, ◌==◌, refl, ap, ◌∙◌, ◌&&◌, Bool, true, false, none, some, List, [], ◌∷◌,
  ◌++◌, length, take, drop, leb, if◌then◌else◌, take-length-append, drop-length-append,
  length-append, arith,
}
use socketxx.Common.Int.{ℤ, pos, eqb}
use socketxx.Common.Outcome.{Exec, Outcome, ok, throws, error}
use socketxx.Common.Keeps.{Keeps}
use socketxx.Transport.{IsStream, Writes}
use socketxx.BaseIo.{Os}
use socketxx.BaseIo.Lifetime.{construct}
use socketxx.SimpleSocket.Bytes.{le_bytes}
use socketxx.SimpleSocket.File.{Receiver}
use socketxx.SimpleSocket.File.Copy.{Transfers}
use socketxx.SimpleSocket.Transfer.{FileMap, o_file, i_file, on_os}
use socketxx.SimpleSocket.Transfer.Windows.{MapsFile}
use socketxx.SimpleSocket.Transfer.RoundTrip.{SharesStream, file_bytes, o_file-i_file}
use socketxx.SimpleSocket.Named.{Files, create_temp_file, o_sock, i_sock}
use socketxx.SimpleSocket.Named.Attempts.{Made, create_temp_file-Made}
use socketxx.SimpleSocket.Named.Descriptors.{IsOpen, o_sock-i_sock}

-- A connection, a file, the descriptors that are open and the names of the files.
pub record Peer : Type 0 where
  pub pending : List ℕ
  pub sent : List ℕ
  pub content : List ℕ
  pub descriptors : List ℤ
  pub files : List (List ℕ)

abbrev pub peer_os : Os
peer_os = record {
  World = Peer;
  errno = λ s. 0;
  set_errno = λ e s. s;
  read = λ fd n s. (none, s);
  write = λ fd bs s. (some (length bs), record s { content = s.content ++ bs });
  send = λ fd bs flags s. (none, s);
  recv = λ fd n flags s. (none, s);
  select_read = λ fd tm s. ((none, tm), s);
  set_rcvtimeo = λ fd tm s. (none, s);
  get_rcvtimeo = λ fd s. (none, s);
  fstat_mode = λ fd s. (none, s);
}

abbrev pub peer_o : List ℕ → Exec Peer (Unit {0})
peer_o bs s = (ok tt, record s { sent = s.sent ++ bs })

abbrev pub peer_i_fixsize : ℕ → Exec Peer (List ℕ)
peer_i_fixsize n s =
    if leb n (length s.pending)
    then (ok (take n s.pending), record s { pending = drop n s.pending })
    else (throws (error "closed"), s)

peer_whole :
    (bs rest : List ℕ) (s : Peer)
    → s.pending ≡ bs ++ rest
    → peer_i_fixsize (length bs) s ≡ (ok bs, record s { pending = rest })
peer_whole bs rest s e =
    let fits : leb (length bs) (length s.pending) ≡ true =
      ap (λ l. leb (length bs) (length l)) e ∙ ground (arith, length-append bs rest) in
    rw fits (
      ap (λ l. (ok (take (length bs) l), record s { pending = drop (length bs) l })) e
      ∙ ap (λ l. (ok l, record s { pending = drop (length bs) (bs ++ rest) }))
          (take-length-append bs rest)
      ∙ ap (λ l. (ok bs, record s { pending = l })) (drop-length-append bs rest))

unfoldable pub peer_stream : IsStream (on_os peer_os peer_o peer_i_fixsize)
unfolding peer_whole
peer_stream = record {
  IsUp = λ s. Unit {0};
  sent = λ s. s.sent;
  pending = λ s. s.pending;
  o_sends = λ bs s up. (record s { sent = s.sent ++ bs }, refl, refl, refl, tt);
  i_fixsize_takes =
      λ bs rest s e. (record s { pending = rest }, peer_whole bs rest s e, refl, refl);
}

abbrev pub peer_byte : List ℕ → Peer → Outcome (List ℕ) × Peer
peer_byte [] s = (throws (error "closed"), s)
peer_byte (b ∷ bs) s = (ok (b ∷ []), record s { pending = bs })

abbrev pub byte_receiver : Receiver peer_os
byte_receiver = record {
  readf = λ n s. peer_byte s.pending s;
  rewind = λ s. record s { content = [] };
  info_f = λ a b s. s;
}

peer_byte_takes :
    (n : ℕ) (bytes : List ℕ) (s : Peer)
    → 0 < n
    → bytes ≢ []
    → (bs : List ℕ) × (s' : Peer) × (peer_byte bytes s ≡ (ok bs, s'))
      × (bytes ≡ bs ++ s'.pending)
      × (0 < length bs)
      × (length bs ≤ n)
      × (s'.content ≡ s.content)
peer_byte_takes n [] s h e = absurd (e refl)
peer_byte_takes n (b ∷ bs) s h e =
    (b ∷ [], record s { pending = bs }, refl, refl, omega arith, omega arith, refl)

unfoldable pub byte_receiver_Transfers : Transfers byte_receiver (pos 6)
unfolding peer_byte_takes
byte_receiver_Transfers = record {
  pending = λ s. s.pending;
  content = λ s. s.content;
  readf_takes = λ n s h e. peer_byte_takes n s.pending s h e;
  write_whole = λ bs s. (record s { content = s.content ++ bs }, refl, refl, refl);
  info_f_keeps = λ a b s. (refl, refl);
  rewind_keeps = λ s. refl;
  rewind_empty = λ s. refl;
}

unfoldable pub peer_i_fixsize_keeps :
    {P : Type 0} (part : Peer → P)
    → ((bs : List ℕ) (s : Peer) → part (record s { pending = bs }) ≡ part s)
    → (n : ℕ) → Keeps part (peer_i_fixsize n)
peer_i_fixsize_keeps part h n = record { at = λ s. ground (arith, h (drop n s.pending) s) }

unfoldable pub peer_SharesStream :
    SharesStream peer_os peer_o peer_i_fixsize peer_stream byte_receiver
      (pos 6)
      byte_receiver_Transfers
unfolding peer_stream byte_receiver_Transfers peer_i_fixsize_keeps
peer_SharesStream = record {
  one_stream = λ s. refl;
  file_kept = λ n. peer_i_fixsize_keeps (λ s. s.content) (λ bs s. refl) n;
}

-- A file on the writer's side.
abbrev pub stored : FileMap Peer
stored = record {
  errno = λ s. 0;
  mmap = λ fd off_f len s. (some (take len (drop off_f (1 ∷ 2 ∷ 3 ∷ []))), s);
  munmap = λ s. s;
  info_f = none;
}

unfoldable pub stored_MapsFile : MapsFile peer_stream stored (pos 5) (1 ∷ 2 ∷ 3 ∷ [])
unfolding peer_stream
stored_MapsFile = record {
  window = λ off_f len s h up. (s, refl, refl, refl, up);
  unmapped = λ s up. (refl, refl, up);
  noted = λ g e a b s up. cc;
}

abbrev pub peer : List ℕ → Peer
peer bs = record { pending = bs; sent = []; content = 8 ∷ []; descriptors = pos 4 ∷ []; files = [] }

o_file-i_file_example :
    Writes peer_stream
      (o_file (on_os peer_os peer_o peer_i_fixsize) true stored (pos 5) 3 4096)
      (file_bytes (1 ∷ 2 ∷ 3 ∷ []))
    × ((s' : Peer) × (i_file peer_os peer_o peer_i_fixsize false byte_receiver
            (pos 6)
            1
            (peer (file_bytes (1 ∷ 2 ∷ 3 ∷ []) ++ 9 ∷ []))
          ≡ (ok 3, s'))
        × (s'.content ≡ 1 ∷ 2 ∷ 3 ∷ [])
        × (s'.pending ≡ 9 ∷ []))
unfolding peer_stream byte_receiver_Transfers
o_file-i_file_example =
    o_file-i_file peer_stream true 1 (2 ∷ 3 ∷ []) stored_MapsFile peer_os peer_o peer_i_fixsize
      peer_stream byte_receiver (pos 6) byte_receiver_Transfers peer_SharesStream 4096 1 (9 ∷ [])
      (peer (file_bytes (1 ∷ 2 ∷ 3 ∷ []) ++ 9 ∷ [])) (omega arith) (omega arith) (omega arith) refl

-- A file system in which every call succeeds.
abbrev pub closed : ℤ → List ℤ → List ℤ
closed fd [] = []
closed fd (x ∷ xs) = let rest = closed fd xs in if eqb fd x then xs else x ∷ rest

abbrev pub same_name : List ℕ → List ℕ → Bool
same_name [] [] = true
same_name (a ∷ xs) (b ∷ ys) = (a == b) && same_name xs ys
same_name _ _ = false

abbrev pub unlinked : List ℕ → List (List ℕ) → List (List ℕ)
unlinked name [] = []
unlinked name (x ∷ xs) = let rest = unlinked name xs in if same_name name x then xs else x ∷ rest

abbrev pub peer_files : Files Peer
peer_files = record {
  errno = λ s. 0;
  stat = λ path s. (some (0o100644, 3), s);
  open_read = λ path s. (some (pos 5), record s { descriptors = pos 5 ∷ s.descriptors });
  open_new = λ path s.
      (some (pos 6), record s { descriptors = pos 6 ∷ s.descriptors; files = path ∷ s.files });
  close = λ fd s. record s { descriptors = closed fd s.descriptors };
  unlink = λ path s. record s { files = unlinked path s.files };
  dup = λ fd s. (some (pos 7), record s { descriptors = pos 7 ∷ s.descriptors });
  get_fd_flags = λ fd s. (some 0, s);
  product = λ s. (pos 5, s);
  l64a = λ n s. 55 ∷ 46 ∷ 0 ∷ 0 ∷ 0 ∷ 0 ∷ 0 ∷ [];
  isalnum = λ c. c == 55;
}

create_temp_file-Made_example :
    Made peer_files (102 ∷ []) (create_temp_file peer_files 65536 65535 (102 ∷ []) (peer []))
create_temp_file-Made_example =
    create_temp_file-Made peer_files (102 ∷ []) 65535 (omega arith) (peer [])

unfoldable peer_IsOpen : IsOpen peer_stream peer_files (pos 7)
unfolding peer_stream
peer_IsOpen = record { open_there = λ s. (0, s, refl, refl) }

abbrev after_dup : Peer
after_dup = record (peer []) { descriptors = pos 7 ∷ pos 4 ∷ [] }

o_sock-i_sock_example :
    ((o_sock
        (on_os peer_os peer_o peer_i_fixsize)
        false
        peer_files
        (construct true (pos 4))).0.preserve_fd
      ≡ true)
    × ((s' : Peer) × ((o_sock
              (on_os peer_os peer_o peer_i_fixsize)
              false
              peer_files
              (construct true (pos 4))).1
            (peer [])
          ≡ (ok tt, s'))
        × (s'.sent ≡ le_bytes 4 7))
    × ((u' : Peer) × (i_sock
            (on_os peer_os peer_o peer_i_fixsize)
            false
            peer_files
            (peer (le_bytes 4 7 ++ 9 ∷ []))
          ≡ (ok (construct true (pos 7)), u'))
        × (u'.pending ≡ 9 ∷ []))
unfolding peer_stream construct
o_sock-i_sock_example =
    o_sock-i_sock peer_stream peer_stream false peer_files peer_files (construct true (pos 4)) 7
      (peer []) after_dup (9 ∷ []) (peer (le_bytes 4 7 ++ 9 ∷ [])) peer_IsOpen refl tt (omega arith)
      refl

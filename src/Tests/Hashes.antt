-- ===== src/Tests/Hashes.antt =====
-- Files between builds with and without SSL.
use socketxx.Common.{
  ℕ, ◌+◌, ◌≡◌, ◌≢◌, refl, ap, true, false, some, List, [], ◌∷◌, ◌++◌, length, length-append, arith,
}
use socketxx.Common.Int.{pos}
use socketxx.Common.Outcome.{ok, throws, error}
use socketxx.Transport.{Writes}
use socketxx.SimpleSocket.File.Hashed.{Md5, Digests}
use socketxx.SimpleSocket.Transfer.{on_os, i_file}
use socketxx.SimpleSocket.Transfer.RoundTrip.{hashed_bytes}
use socketxx.SimpleSocket.Transfer.Hashed.{o_file_hashed, i_file_hashed}
use socketxx.SimpleSocket.Transfer.Hashed.RoundTrip.{i_file_hashed-verdict, o_file_hashed-i_file}
use socketxx.SimpleSocket.Named.{i_file_temp}
use socketxx.SimpleSocket.Named.Leaks.{Left}
use socketxx.SimpleSocket.Named.Hashed.{i_file_temp_hashed, i_file_temps-Left}
use socketxx.Tests.Held.{peer_HoldsFiles}
use socketxx.Tests.Files.{
  Peer, peer, peer_os, peer_o, peer_i_fixsize, peer_stream, byte_receiver, byte_receiver_Transfers,
  peer_SharesStream, stored, stored_MapsFile, peer_files,
}

-- The number of the bytes stands for their digest.
abbrev counted : ℕ → List ℕ
counted n = n ∷ 0 ∷ 0 ∷ 0 ∷ 0 ∷ 0 ∷ 0 ∷ 0 ∷ 0 ∷ 0 ∷ 0 ∷ 0 ∷ 0 ∷ 0 ∷ 0 ∷ 0 ∷ []

abbrev counting : Md5
counting = record {
  Context = ℕ;
  init = 0;
  update = λ n bs. some (n + length bs);
  final = λ n. some (counted n);
}

unfoldable counting_Digests : Digests counting
counting_Digests = record {
  context = λ bs. length bs;
  digest = λ bs. counted (length bs);
  begun = refl;
  updated = λ xs ys. rw (length-append xs ys) refl;
  ended = λ xs. refl;
  digest_length = λ xs. refl;
}

other_hash : counted 4 ≢ counted 3
other_hash e = omega (arith, ap first e)
  where
    first : List ℕ → ℕ
    first [] = 0
    first (x ∷ xs) = x

i_file_hashed-verdict_example :
    (s' : Peer) × (i_file_hashed counting peer_os peer_o peer_i_fixsize false byte_receiver
        (pos 6)
        1
        (peer (hashed_bytes (1 ∷ 2 ∷ 3 ∷ []) (counted 4) ++ 9 ∷ []))
      ≡ (throws (error "File transfer : MD5 checksums don't mach !"), s'))
    × (s'.content ≡ 1 ∷ 2 ∷ 3 ∷ [])
    × (s'.pending ≡ 9 ∷ [])
unfolding peer_stream byte_receiver_Transfers counting_Digests
i_file_hashed-verdict_example =
    i_file_hashed-verdict counting counting_Digests peer_os peer_o peer_i_fixsize peer_stream
      byte_receiver (pos 6) byte_receiver_Transfers peer_SharesStream 1 1 (2 ∷ 3 ∷ []) (counted 4)
      (9 ∷ []) (no other_hash) (peer (hashed_bytes (1 ∷ 2 ∷ 3 ∷ []) (counted 4) ++ 9 ∷ []))
      (omega arith) (omega arith) (omega arith) refl

abbrev hashed_peer : Peer
hashed_peer = peer (hashed_bytes (1 ∷ 2 ∷ 3 ∷ []) (counted 3) ++ 9 ∷ [])

o_file_hashed-i_file_example :
    Writes peer_stream
      (o_file_hashed counting (on_os peer_os peer_o peer_i_fixsize) true stored (pos 5) 3 4096)
      (hashed_bytes (1 ∷ 2 ∷ 3 ∷ []) (counted 3))
    × ((s' : Peer) × (i_file_hashed counting peer_os peer_o peer_i_fixsize false byte_receiver
            (pos 6)
            1
            hashed_peer
          ≡ (ok 3, s'))
        × (s'.content ≡ 1 ∷ 2 ∷ 3 ∷ [])
        × (s'.pending ≡ 9 ∷ []))
    × ((s' : Peer) × (i_file peer_os peer_o peer_i_fixsize false byte_receiver (pos 6) 1 hashed_peer
          ≡ (ok 3, s'))
        × (s'.content ≡ 1 ∷ 2 ∷ 3 ∷ [])
        × (s'.pending ≡ 9 ∷ []))
unfolding peer_stream byte_receiver_Transfers counting_Digests
o_file_hashed-i_file_example =
    o_file_hashed-i_file counting counting_Digests peer_os peer_o peer_i_fixsize peer_stream
      byte_receiver (pos 6) byte_receiver_Transfers peer_SharesStream peer_stream true 1
      (2 ∷ 3 ∷ []) stored_MapsFile 4096 1 (9 ∷ []) hashed_peer (omega arith) (omega arith) refl

-- The peer announces three bytes, sends them, and then a hash that differs.
abbrev bad_hash : Peer
bad_hash = peer (hashed_bytes (1 ∷ 2 ∷ 3 ∷ []) (counted 4))

i_file_temps-Left_example :
    Left peer_HoldsFiles
      (pos 4 ∷ [], [])
      (i_file_temp peer_os peer_o peer_i_fixsize false byte_receiver peer_files 65536 7
        (102 ∷ [])
        4096
        bad_hash)
    × Left peer_HoldsFiles
        (pos 4 ∷ [], [])
        (i_file_temp_hashed counting peer_os peer_o peer_i_fixsize false byte_receiver peer_files
          65536 7
          (102 ∷ [])
          4096
          bad_hash)
unfolding peer_HoldsFiles
i_file_temps-Left_example =
    i_file_temps-Left counting peer_HoldsFiles peer_o false 4096 65536 7 (102 ∷ []) bad_hash

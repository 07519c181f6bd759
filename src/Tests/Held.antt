-- ===== src/Tests/Held.antt =====
-- What the calls of the test system do to its descriptors and its files.
use socketxx.Common.{ℕ, ◌≡◌, refl, ap, ◌∙◌, true, Option, some, List, [], ◌∷◌, arith}
use socketxx.Common.Int.{ℤ, pos, negsuc, eqb}
use socketxx.SimpleSocket.Named.Leaks.{HoldsFiles}
use socketxx.Tests.Files.{
  Peer, peer_os, peer_i_fixsize, peer_i_fixsize_keeps, peer_byte, byte_receiver, peer_files, closed,
  same_name, unlinked,
}

abbrev held : Peer → List ℤ × List (List ℕ)
held s = (s.descriptors, s.files)

peer_byte_held : (bytes : List ℕ) (s : Peer) → held (peer_byte bytes s).1 ≡ held s
peer_byte_held [] s = refl
peer_byte_held (b ∷ bs) s = refl

made_held :
    (name : List ℕ) (fd : ℤ) (s s' : Peer)
    → ◌≡◌ {A = Option ℤ × Peer}
        (some (pos 6), record s { descriptors = pos 6 ∷ s.descriptors; files = name ∷ s.files })
        (some fd, s')
    → held s' ≡ (fd ∷ s.descriptors, name ∷ s.files)
made_held name fd s s' e = cc

same_name_refl : (name : List ℕ) → same_name name name ≡ true
same_name_refl [] = refl
same_name_refl (a ∷ xs) = ground (arith, same_name_refl xs)

eqb_self : (fd : ℤ) → eqb fd fd ≡ true
eqb_self (pos n) = ground arith
eqb_self (negsuc n) = ground arith

closed_last :
    (fd : ℤ) (fds : List ℤ) (names : List (List ℕ)) (s : Peer)
    → held s ≡ (fd ∷ fds, names)
    → held (record s { descriptors = closed fd s.descriptors }) ≡ (fds, names)
closed_last fd fds names s e =
    ap (λ (h : List ℤ × List (List ℕ)). (closed fd h.0, h.1)) e ∙ rw (eqb_self fd) refl

unlinked_last :
    (name : List ℕ) (fds : List ℤ) (names : List (List ℕ)) (s : Peer)
    → held s ≡ (fds, name ∷ names)
    → held (record s { files = unlinked name s.files }) ≡ (fds, names)
unlinked_last name fds names s e =
    ap (λ (h : List ℤ × List (List ℕ)). (h.0, unlinked name h.1)) e ∙ rw (same_name_refl name) refl

unfoldable pub peer_HoldsFiles : HoldsFiles peer_os peer_i_fixsize byte_receiver peer_files
unfolding peer_i_fixsize_keeps peer_byte_held made_held closed_last unlinked_last eqb_self
    same_name_refl
peer_HoldsFiles = record {
  held = held;
  reading_keeps = λ n. peer_i_fixsize_keeps held (λ bs s. refl) n;
  storing_keeps = λ file_w. record {
    readf_keeps = λ n. record { at = λ s. peer_byte_held s.pending s };
    rewind_keeps = λ s. refl;
    info_f_keeps = λ a b s. refl;
    set_errno_keeps = λ e s. refl;
    write_keeps = λ bs s. refl;
  };
  product_keeps = λ s. refl;
  open_new_some = λ name fd s s' e. made_held name fd s s' e;
  open_new_none = λ name s s' e. cc;
  close_last = closed_last;
  unlink_last = unlinked_last;
}

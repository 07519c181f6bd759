-- ===== src/SimpleSocket/File/Copy.antt =====
-- What a transfer stores where every write() takes what it is given.
use socketxx.Common.{
  ℕ, zero, suc, ◌-◌, ◌*◌, ◌≤◌, ◌<◌, ◌≡◌, ◌≢◌, refl, ap, sym, ◌∙◌, some, List, [], ◌∷◌, ◌++◌, length,
  arith, length-append, append_assoc, append-nil, split_prefix, ltb, if◌then◌else◌, ◌==◌,
  suc-ne-zero, true,
}
use socketxx.Common.Int.{ℤ}
use socketxx.Common.Outcome.{Outcome, ok, Exec, resume, ◌>>=◌, ◌>>◌}
use socketxx.BaseIo.{Os}
use socketxx.SimpleSocket.File.{
  Receiver, read_to_file, copy, write_chunk, first_write, receive, note_progress,
}

-- The socket has bytes to read and the file takes all that is written; `content` is the part of
-- the file before its offset. What the one does leaves the other alone.
pub record Transfers {os : Os} (rcv : Receiver os) (fd : ℤ) : Type 0 where
  pub pending : os.World → List ℕ
  pub content : os.World → List ℕ
  pub readf_takes :
      (n : ℕ) (s : os.World)
      → 0 < n
      → pending s ≢ []
      → (bs : List ℕ) × (s' : os.World) × (rcv.readf n (os.set_errno 0 s) ≡ (ok bs, s'))
        × (pending s ≡ bs ++ pending s')
        × (0 < length bs)
        × (length bs ≤ n)
        × (content s' ≡ content s)
  pub write_whole :
      (bs : List ℕ) (s : os.World)
      → (s' : os.World) × (os.write fd bs s ≡ (some (length bs), s'))
        × (content s' ≡ content s ++ bs)
        × (pending s' ≡ pending s)
  pub info_f_keeps :
      (a b : ℕ) (s : os.World)
      → (pending (rcv.info_f a b s) ≡ pending s) × (content (rcv.info_f a b s) ≡ content s)
  pub rewind_keeps : (s : os.World) → pending (rcv.rewind s) ≡ pending s
  pub rewind_empty : (s : os.World) → content (rcv.rewind s) ≡ []

==_refl : (n : ℕ) → (n == n) ≡ true
==_refl n = ground arith

module _ (os : Os) (fd : ℤ) where
  pub write_chunk-whole :
      (bs : List ℕ) (s s' : os.World)
      → 0 < length bs
      → os.write fd bs s ≡ (some (length bs), s')
      → write_chunk os fd bs s ≡ (ok tt, s')
  unfolding write_chunk first_write
  write_chunk-whole [] s s' h e = absurd (omega arith)
  write_chunk-whole (b ∷ bs) s s' h e = rw e (rw (==_refl (length (b ∷ bs))) refl)

  module _ (rcv : Receiver os) (sz : ℕ) where
    open_round :
        (fuel chunksz n : ℕ) (s : os.World)
        → copy os fd rcv sz (suc fuel) chunksz (suc n) s ≡ (
            let c = if ltb (suc n) chunksz then suc n else chunksz in
            (receive os fd rcv sz c >>= λ bs.
            let rest = suc n - length bs in
            note_progress os fd rcv sz rest
            >> write_chunk os fd bs
            >> copy os fd rcv sz fuel c rest)
              s)
    unfolding copy
    open_round fuel chunksz n s = rw (suc-ne-zero n, copy)

    -- A round with a read and a write that are whole.
    copy-round :
        (fuel chunksz n : ℕ) (bs : List ℕ) (s s1 s2 : os.World)
        → rcv.readf (if ltb (suc n) chunksz then suc n else chunksz) (os.set_errno 0 s)
          ≡ (ok bs, s1)
        → 0 < length bs
        → os.write fd bs (rcv.info_f (sz - (suc n - length bs)) sz s1) ≡ (some (length bs), s2)
        → copy os fd rcv sz (suc fuel) chunksz (suc n) s
          ≡ copy os fd rcv sz fuel
              (if ltb (suc n) chunksz then suc n else chunksz)
              (suc n - length bs)
              s2
    unfolding receive note_progress
    copy-round fuel chunksz n bs s s1 s2 r pos w =
        let c = if ltb (suc n) chunksz then suc n else chunksz in
        let after : List ℕ → Exec os.World (Unit {0}) = λ bs.
          let rest = suc n - length bs in
          note_progress os fd rcv sz rest
          >> write_chunk os fd bs
          >> copy os fd rcv sz fuel c rest in
        open_round fuel chunksz n s
        ∙ ap (λ (o : Outcome (List ℕ) × os.World). resume o.0 after o.1) r
        ∙ ap
            (λ (o : Outcome (Unit {0}) × os.World).
              resume o.0 (λ _. copy os fd rcv sz fuel c (suc n - length bs)) o.1)
            (write_chunk-whole bs (rcv.info_f (sz - (suc n - length bs)) sz s1) s2 pos w)

module _ (os : Os) (fd : ℤ) (rcv : Receiver os) (τ : Transfers rcv fd) (sz : ℕ) where
  copy-stores :
      (fuel chunksz : ℕ) (bs rest : List ℕ) (s : os.World)
      → length bs < fuel
      → 0 < chunksz
      → τ.pending s ≡ bs ++ rest
      → (s' : os.World) × (copy os fd rcv sz fuel chunksz (length bs) s ≡ (ok tt, s'))
        × (τ.content s' ≡ τ.content s ++ bs)
        × (τ.pending s' ≡ rest)
  copy-stores zero chunksz bs rest s h c e = absurd (omega arith)
  copy-stores (suc fuel) chunksz [] rest s h c e =
      (s, unfold copy in refl, sym (append-nil (τ.content s)), e)
  copy-stores (suc fuel) chunksz (x ∷ xs) rest s h c e =
      let n = length xs in
      let c' = if ltb (suc n) chunksz then suc n else chunksz in
      let small : (0 < c') × (c' ≤ suc n) = ground arith in
      let (got, s1, er, ep, pos, le, same) = τ.readf_takes c' s small.0 (λ q. cc) in
      let t = rcv.info_f (sz - (suc n - length got)) sz s1 in
      let (ip, ic) = τ.info_f_keeps (sz - (suc n - length got)) sz s1 in
      let (s2, ew, wc, wp) = τ.write_whole got t in
      let (ys, ex, ey) =
        split_prefix got (x ∷ xs) (τ.pending s1) rest (omega (arith, le, small.1)) (sym e ∙ ep) in
      let left : suc n - length got ≡ length ys =
        omega (arith, ap length ex, length-append got ys) in
      let (s3, g, gc, gp) =
        copy-stores fuel c' ys rest s2 (omega (arith, h, ap length ex, length-append got ys, pos))
          small.0 (wp ∙ ip ∙ ey) in
      (
        s3,
        copy-round os fd rcv sz fuel chunksz n got s s1 s2 er pos ew
            ∙ ap (λ k. copy os fd rcv sz fuel c' k s2) left
            ∙ g,
        gc
            ∙ ap (λ l. l ++ ys) (wc ∙ ap (λ l. l ++ got) (ic ∙ same))
            ∙ append_assoc (τ.content s) got ys
            ∙ ap (λ l. τ.content s ++ l) (sym ex),
        gp,
      )

-- Where the file takes all that is written, a transfer of a file that is not empty returns with
-- just the bytes of that file stored from the start of the destination up to its offset, and
-- leaves what follows them on the socket, however the reads cut the stream.
pub read_to_file-copies :
    (os : Os) (fd : ℤ) (rcv : Receiver os) (τ : Transfers rcv fd) (page : ℕ) (x : ℕ)
    (xs rest : List ℕ) (s : os.World)
    → 0 < page
    → τ.pending s ≡ (x ∷ xs) ++ rest
    → (s' : os.World) × (read_to_file os fd rcv (length (x ∷ xs)) page s ≡ (ok tt, s'))
      × (τ.content s' ≡ x ∷ xs)
      × (τ.pending s' ≡ rest)
unfolding read_to_file
read_to_file-copies os fd rcv τ page x xs rest s paged e =
    let (s', g, c, p) =
      copy-stores os fd rcv τ (length (x ∷ xs)) (suc (length (x ∷ xs))) (page * 16) (x ∷ xs) rest
        (rcv.rewind s) (omega arith) (omega arith) (τ.rewind_keeps s ∙ e) in
    (s', rw (suc-ne-zero (length xs)) g, c ∙ ap (λ l. l ++ x ∷ xs) (τ.rewind_empty s), p)

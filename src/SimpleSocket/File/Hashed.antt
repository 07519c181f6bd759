-- ===== src/SimpleSocket/File/Hashed.antt =====
-- `read_to_file` (socket++/io/simple_socket.cpp) in a build with SSL, where the MD5 digest of what is
-- received is computed on the way. MD5 belongs to OpenSSL.
pub mod Keeping
use socketxx.Common.{
  ℕ, zero, suc, ◌-◌, ◌*◌, ◌≤◌, ◌<◌, ◌≡◌, refl, ap, sym, ◌∙◌, ◌==◌, true, false, Option, none, some,
  List, [], ◌∷◌, ◌++◌, length, ltb, if◌then◌else◌, arith, length-append, append_assoc, append-nil,
  split_prefix, suc-ne-zero,
}
use socketxx.Common.Int.{ℤ}
use socketxx.Common.Outcome.{Exec, Exception, ok, throws, halts, error, pure, no_fuel, ◌>>=◌, ◌>>◌}
use socketxx.BaseIo.{Os}
use socketxx.SimpleSocket.File.{Receiver, receive, note_progress, write_chunk}
use socketxx.SimpleSocket.File.Copy.{Transfers, write_chunk-whole}

-- MD5_Init, MD5_Update and MD5_Final; `none` is a result other than 1.
pub record Md5 : Type 1 where
  pub Context : Type 0
  pub init : Context
  pub update : Context → List ℕ → Option Context
  pub final : Context → Option (List ℕ)

-- What a context is after some bytes, and their digest, of MD5_DIGEST_LENGTH bytes.
pub record Digests (m : Md5) : Type 0 where
  pub context : List ℕ → m.Context
  pub digest : List ℕ → List ℕ
  pub begun : m.init ≡ context []
  pub updated : (xs ys : List ℕ) → m.update (context xs) ys ≡ some (context (xs ++ ys))
  pub ended : (xs : List ℕ) → m.final (context xs) ≡ some (digest xs)
  pub digest_length : (xs : List ℕ) → length (digest xs) ≡ 16

module _ (m : Md5) {S : Type 0} where
  hash_made : {A : Type 0} → Option A → Exception → Exec S A
  hash_made none e s = (throws e, s)
  hash_made (some a) e s = (ok a, s)

  -- r = MD5_Update(&hashctx, chunk); if (r != 1) throw e;
  unfoldable pub hash_update : m.Context → List ℕ → Exception → Exec S m.Context
  unfolding hash_made
  hash_update hashctx chunk e = hash_made (m.update hashctx chunk) e

  unfoldable pub hash_final : m.Context → Exception → Exec S (List ℕ)
  unfolding hash_made
  hash_final hashctx e = hash_made (m.final hashctx) e

module _ (m : Md5) (δ : Digests m) {S : Type 0} where
  pub hash_update-context :
      (done bs : List ℕ) (e : Exception) (s : S)
      → hash_update m (δ.context done) bs e s ≡ (ok (δ.context (done ++ bs)), s)
  unfolding hash_update hash_made
  hash_update-context done bs e s = rw (δ.updated done bs) refl

  pub hash_final-digest :
      (done : List ℕ) (e : Exception) (s : S)
      → hash_final m (δ.context done) e s ≡ (ok (δ.digest done), s)
  unfolding hash_final hash_made
  hash_final-digest done e s = rw (δ.ended done) refl

module _ (m : Md5) (os : Os) (file_w : ℤ) (rcv : Receiver os) (sz : ℕ) where
  copy_hashed : ℕ → m.Context → ℕ → ℕ → Exec os.World m.Context
  unfolding note_progress receive hash_update
  copy_hashed zero hashctx chunksz bytes_rest s = (halts no_fuel, s)
  copy_hashed (suc fuel) hashctx chunksz bytes_rest s = elim (bytes_rest == 0) [
    | true ↦ (ok hashctx, s)
    | false ↦
        let chunksz' = if ltb bytes_rest chunksz then bytes_rest else chunksz in
        (receive os file_w rcv sz chunksz' >>= λ chunk.
        let rest = bytes_rest - length chunk in
        hash_update m hashctx chunk (error "file transfer : MD5_Update() failed") >>= λ hashctx'.
        note_progress os file_w rcv sz rest
        >> write_chunk os file_w chunk
        >> copy_hashed fuel hashctx' chunksz' rest)
          s
  ]

  finished : m.Context → Exec os.World (Option (List ℕ))
  unfolding hash_final
  finished hashctx = hash_final m hashctx (error "file transfer : MD5_Final() failed ") >>= λ hash.
      pure (some hash)

  -- The digest, or NULL for an empty file
  unfoldable pub read_to_file_hashed : ℕ → Exec os.World (Option (List ℕ))
  unfolding copy_hashed finished
  read_to_file_hashed page s =
      if sz == 0
      then (ok none, s)
      else (copy_hashed (suc sz) m.init (page * 16) sz >>= finished) (rcv.rewind s)

module _ (m : Md5) (δ : Digests m) (os : Os) (fd : ℤ) (rcv : Receiver os) (sz : ℕ) where
  -- A round with a read and a write that are whole.
  copy_hashed-round :
      (fuel chunksz n : ℕ) (done bs : List ℕ) (s s1 s2 : os.World)
      → rcv.readf (if ltb (suc n) chunksz then suc n else chunksz) (os.set_errno 0 s) ≡ (ok bs, s1)
      → 0 < length bs
      → os.write fd bs (rcv.info_f (sz - (suc n - length bs)) sz s1) ≡ (some (length bs), s2)
      → copy_hashed m os fd rcv sz (suc fuel) (δ.context done) chunksz (suc n) s
        ≡ copy_hashed m os fd rcv sz fuel
            (δ.context (done ++ bs))
            (if ltb (suc n) chunksz then suc n else chunksz)
            (suc n - length bs)
            s2
  unfolding copy_hashed receive note_progress hash_update hash_made
  copy_hashed-round fuel chunksz n done bs s s1 s2 r pos w =
      rw (suc-ne-zero n, copy_hashed)
        (rw r (rw (δ.updated done bs) (rw (write_chunk-whole os fd bs _ s2 pos w) refl)))

module _ (m : Md5) (δ : Digests m) (os : Os) (fd : ℤ) (rcv : Receiver os) (τ : Transfers rcv fd)
    (sz : ℕ) where
  copy_hashed-stores :
      (fuel chunksz : ℕ) (done bs rest : List ℕ) (s : os.World)
      → length bs < fuel
      → 0 < chunksz
      → τ.pending s ≡ bs ++ rest
      → (s' : os.World) × (copy_hashed m os fd rcv sz fuel (δ.context done) chunksz (length bs) s
          ≡ (ok (δ.context (done ++ bs)), s'))
        × (τ.content s' ≡ τ.content s ++ bs)
        × (τ.pending s' ≡ rest)
  copy_hashed-stores zero chunksz done bs rest s h c e = absurd (omega arith)
  copy_hashed-stores (suc fuel) chunksz done [] rest s h c e = (
    s,
    unfold copy_hashed in ap (λ l. (ok (δ.context l), s)) (sym (append-nil done)),
    sym (append-nil (τ.content s)),
    e,
  )
  copy_hashed-stores (suc fuel) chunksz done (x ∷ xs) rest s h c e =
      let n = length xs in
      let c' = if ltb (suc n) chunksz then suc n else chunksz in
      let small : (0 < c') × (c' ≤ suc n) = ground arith in
      let (got, s1, er, ep, pos, le, same) = τ.readf_takes c' s small.0 (λ q. cc) in
      let t = rcv.info_f (sz - (suc n - length got)) sz s1 in
      let (ip, ic) = τ.info_f_keeps (sz - (suc n - length got)) sz s1 in
      let (s2, ew, wc, wp) = τ.write_whole got t in
      let (ys, ex, ey) =
        split_prefix got (x ∷ xs) (τ.pending s1) rest (omega (arith, le, small.1)) (sym e ∙ ep) in
      let left : suc n - length got ≡ length ys =
        omega (arith, ap length ex, length-append got ys) in
      let (s3, g, gc, gp) =
        copy_hashed-stores fuel c' (done ++ got) ys rest s2
          (omega (arith, h, ap length ex, length-append got ys, pos)) small.0 (wp ∙ ip ∙ ey) in
      (
        s3,
        copy_hashed-round m δ os fd rcv sz fuel chunksz n done got s s1 s2 er pos ew
            ∙ ap (λ k. copy_hashed m os fd rcv sz fuel (δ.context (done ++ got)) c' k s2) left
            ∙ g
            ∙ ap (λ l. (ok (δ.context l), s3))
                (append_assoc done got ys ∙ ap (λ l. done ++ l) (sym ex)),
        gc
            ∙ ap (λ l. l ++ ys) (wc ∙ ap (λ l. l ++ got) (ic ∙ same))
            ∙ append_assoc (τ.content s) got ys
            ∙ ap (λ l. τ.content s ++ l) (sym ex),
        gp,
      )

-- With MD5 as documented: what is stored is as without it, and the digest is that of these bytes.
pub read_to_file_hashed-copies :
    (m : Md5) (δ : Digests m) (os : Os) (fd : ℤ) (rcv : Receiver os) (τ : Transfers rcv fd)
    (page : ℕ) (x : ℕ) (xs rest : List ℕ) (s : os.World)
    → 0 < page
    → τ.pending s ≡ (x ∷ xs) ++ rest
    → (s' : os.World) × (read_to_file_hashed m os fd rcv (length (x ∷ xs)) page s
        ≡ (ok (some (δ.digest (x ∷ xs))), s'))
      × (τ.content s' ≡ x ∷ xs)
      × (τ.pending s' ≡ rest)
unfolding read_to_file_hashed finished hash_final hash_made
read_to_file_hashed-copies m δ os fd rcv τ page x xs rest s paged e =
    let sz = length (x ∷ xs) in
    let (s', g, c, p) =
      copy_hashed-stores m δ os fd rcv τ sz (suc sz) (page * 16) [] (x ∷ xs) rest (rcv.rewind s)
        (omega arith) (omega arith) (τ.rewind_keeps s ∙ e) in
    (
      s',
      rw (suc-ne-zero (length xs)) (rw δ.begun (rw g (rw (δ.ended (x ∷ xs)) refl))),
      c ∙ ap (λ l. l ++ x ∷ xs) (τ.rewind_empty s),
      p,
    )

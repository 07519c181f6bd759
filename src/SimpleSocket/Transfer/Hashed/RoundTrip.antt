-- ===== src/SimpleSocket/Transfer/Hashed/RoundTrip.antt =====
-- Files between builds with and without SSL.
use socketxx.Common.{
  ℕ, ◌<◌, ◌^◌, ◌≡◌, refl, ap, sym, ◌∙◌, ◌==◌, Bool, true, false, Option, some, List, [], ◌∷◌, ◌++◌,
  length, arith, inl, inr, Bool-cases, if◌then◌else◌,
}
use socketxx.Common.Int.{ℤ}
use socketxx.Common.Outcome.{Outcome, Exec, ok, throws, error}
use socketxx.Transport.{Transport, IsStream, Writes}
use socketxx.Transport.Gives.{Gives-then, Gives-Sends, Gives-bind, Writes-Gives}
use socketxx.Transport.Sends.{Sends-Writes}
use socketxx.BaseIo.{Os}
use socketxx.SimpleSocket.{i_int, i_bin}
use socketxx.SimpleSocket.Keeping.{i_bin-Keeps}
use socketxx.SimpleSocket.RoundTrip.{
  Writes-o_int, Writes-o_bin, Reads-i_int, Reads-i_bin, bin_bytes, or_null,
}
use socketxx.SimpleSocket.File.{Receiver}
use socketxx.SimpleSocket.File.Copy.{Transfers}
use socketxx.SimpleSocket.File.Hashed.{
  Md5, Digests, read_to_file_hashed, read_to_file_hashed-copies,
}
use socketxx.SimpleSocket.Transfer.{FileMap, on_os, i_file, same_hash, equal_bytes}
use socketxx.SimpleSocket.Transfer.Windows.{MapsFile}
use socketxx.SimpleSocket.Transfer.RoundTrip.{
  SharesStream, hashed_bytes, hashed_bytes-append, i_file-stores,
}
use socketxx.SimpleSocket.Transfer.Hashed.{o_file_hashed, i_file_hashed, checked}
use socketxx.SimpleSocket.Transfer.Hashed.Windows.{write_from_file_hashed-Gives}

module _ (m : Md5) (δ : Digests m) {t : Transport} (σ : IsStream t) (big : Bool)
    {f : FileMap t.State} {file_r : ℤ} {x : ℕ} {xs : List ℕ}
    (μ : MapsFile σ f file_r (x ∷ xs)) where
  Writes-o_file_hashed :
      (page : ℕ)
      → Writes σ
          (o_file_hashed m t big f file_r (length (x ∷ xs)) page)
          (hashed_bytes (x ∷ xs) (δ.digest (x ∷ xs)))
  unfolding o_file_hashed
  Writes-o_file_hashed page =
      let content = x ∷ xs in
      let digest = δ.digest content in
      Writes-Gives {Q = λ _. Unit {0}} (
        Gives-then (Writes-o_int σ big 8 (length content)) (
          Gives-bind _ (write_from_file_hashed-Gives m δ μ page) (λ h e. rw e (
            Gives-Sends (
              Sends-Writes (Writes-o_bin σ big digest (omega (arith, δ.digest_length content))))))))

equal_bytes-eq : (xs ys : List ℕ) → length xs ≡ length ys → equal_bytes xs ys ≡ true → xs ≡ ys
unfolding equal_bytes
equal_bytes-eq [] [] h e = refl
equal_bytes-eq [] (y ∷ ys) h e = absurd (omega (arith, h))
equal_bytes-eq (x ∷ xs) [] h e = absurd (omega (arith, h))
equal_bytes-eq (x ∷ xs) (y ∷ ys) h e = elim (Bool-cases (x == y)) [
  | inl q ↦
      let same : xs ≡ ys = equal_bytes-eq xs ys (omega (arith, h)) (ground arith) in
      let first : x ≡ y = ground arith in cc
  | inr q ↦ absurd (ground arith)
]

equal_bytes_refl : (xs : List ℕ) → equal_bytes xs xs ≡ true
unfolding equal_bytes
equal_bytes_refl [] = refl
equal_bytes_refl (x ∷ xs) = let rest = equal_bytes_refl xs in ground arith

-- What `i_file` should return or throw for a size and a hash from the peer, which is empty where
-- there is none, and equal to the digest of what was received or not.
abbrev pub verdict : ℕ → List ℕ → {P : Type 0} → Dec P → Outcome ℕ
verdict sz [] same = ok sz
verdict sz (h ∷ hash) (yes same) = ok sz
verdict sz (h ∷ hash) (no other) =
    if length (h ∷ hash) == 16
    then throws (error "File transfer : MD5 checksums don't mach !")
    else throws (error "file transfer : bad MD5 hash length")

verdict-same :
    (sz : ℕ) (hash other : List ℕ) (same : hash ≡ other) → verdict sz hash (yes same) ≡ ok sz
verdict-same sz [] other same = refl
verdict-same sz (h ∷ hash) other same = refl

module _ (m : Md5) (os : Os) (o : List ℕ → Exec os.World (Unit {0}))
    (i_fixsize : ℕ → Exec os.World (List ℕ)) where
  checked-verdict :
      (sz : ℕ) (digest hash : List ℕ) (same : Dec (hash ≡ digest)) (s : os.World)
      → length digest ≡ 16
      → checked m os o i_fixsize sz (some digest) (or_null hash) s ≡ (verdict sz hash same, s)
  unfolding checked same_hash
  checked-verdict sz digest [] same s len = refl
  checked-verdict sz digest (h ∷ hash) (yes same) s len =
      let e : equal_bytes digest (h ∷ hash) ≡ true =
        ap (equal_bytes digest) same ∙ equal_bytes_refl digest in
      let l : (length (h ∷ hash) == 16) ≡ true = rw (ap length same ∙ len) refl in rw l (rw e refl)
  checked-verdict sz digest (h ∷ hash) (no other) s len =
      elim (Bool-cases (length (h ∷ hash) == 16)) [
        | inl l ↦
            let e : equal_bytes digest (h ∷ hash) ≡ false =
              elim (Bool-cases (equal_bytes digest (h ∷ hash))) [
                | inl q ↦ absurd (other (sym (equal_bytes-eq digest (h ∷ hash) (ground arith) q)))
                | inr q ↦ q
              ] in
            rw l (rw e refl)
        | inr l ↦ rw l refl
      ]

module _ (m : Md5) (δ : Digests m) (os : Os) (o : List ℕ → Exec os.World (Unit {0}))
    (i_fixsize : ℕ → Exec os.World (List ℕ)) (ρ : IsStream (on_os os o i_fixsize))
    (rcv : Receiver os) (file_w : ℤ) (τ : Transfers rcv file_w)
    (ζ : SharesStream os o i_fixsize ρ rcv file_w τ) where
  i_file_hashed-run :
      (page sz : ℕ) (hash h : Option (List ℕ)) (s s1 s2 s3 : os.World)
      → i_int (on_os os o i_fixsize) false 8 s ≡ (ok sz, s1)
      → read_to_file_hashed m os file_w rcv sz page s1 ≡ (ok hash, s2)
      → i_bin (on_os os o i_fixsize) false s2 ≡ (ok h, s3)
      → i_file_hashed m os o i_fixsize false rcv file_w page s
        ≡ checked m os o i_fixsize sz hash h s3
  unfolding i_file_hashed
  i_file_hashed-run page sz hash h s s1 s2 s3 e1 e2 e3 = rw e1 (rw e2 (rw e3 refl))

  -- With MD5 as documented, a little-endian reader with SSL and a page size above 0, each of whose
  -- write() calls to the file takes all that it is given, and whose stream goes on with the size and
  -- the content of a file that is not empty and smaller than 2^64 bytes, and then a hash of any
  -- length that fits in 32 bits: `i_file` stores just the content and takes no byte beyond the hash,
  -- and it returns the size where the hash is absent or is the digest of the content, throws that
  -- the length is bad where the hash has another length than 16, and else that the checksums differ.
  pub i_file_hashed-verdict :
      (page x : ℕ) (xs hash rest : List ℕ) (same : Dec (hash ≡ δ.digest (x ∷ xs))) (s : os.World)
      → 0 < page
      → length (x ∷ xs) < 2 ^ 64
      → length hash < 2 ^ 32
      → ρ.pending s ≡ hashed_bytes (x ∷ xs) hash ++ rest
      → (s' : os.World) × (i_file_hashed m os o i_fixsize false rcv file_w page s
          ≡ (verdict (length (x ∷ xs)) hash same, s'))
        × (τ.content s' ≡ x ∷ xs)
        × (ρ.pending s' ≡ rest)
  i_file_hashed-verdict page x xs hash rest same s paged short small e =
      let t = on_os os o i_fixsize in
      let content = x ∷ xs in
      let (s1, e1, p1, _) =
        (Reads-i_int ρ 8 (length content) short).at s (content ++ (bin_bytes hash ++ rest))
          (e ∙ hashed_bytes-append content hash rest) in
      let (s2, e2, c2, p2) =
        read_to_file_hashed-copies m δ os file_w rcv τ page x xs (bin_bytes hash ++ rest) s1 paged
          (ζ.one_stream s1 ∙ p1) in
      let (s3, e3, p3, _) = (Reads-i_bin ρ hash small).at s2 rest (sym (ζ.one_stream s2) ∙ p2) in
      (
        s3,
        i_file_hashed-run page (length content) (some (δ.digest content)) (or_null hash) s s1 s2 s3
              e1 e2 e3
            ∙ checked-verdict m os o i_fixsize (length content) (δ.digest content) hash same s3
                (δ.digest_length content),
        ap (λ (r : Outcome (Option (List ℕ)) × os.World). τ.content r.1) (sym e3)
            ∙ (i_bin-Keeps t τ.content ζ.file_kept false).at s2
            ∙ c2,
        p3,
      )

  -- With MD5 as documented, between a writer of either byte order with SSL and a little-endian
  -- reader, a file that is not empty and smaller than 2^64 bytes: `o_file` writes its size, its
  -- content and the digest of the content; where these are the next bytes of the reader's stream,
  -- and each write() to its file takes all that it is given, `i_file` in a build with SSL, and also
  -- in one without, returns the size with just the content stored, and takes no byte beyond. The
  -- page sizes of the hosts, that of the reader above 0, do not matter.
  pub o_file_hashed-i_file :
      {t : Transport} (σ : IsStream t) (big : Bool) {f : FileMap t.State} {file_r : ℤ} (x : ℕ)
      (xs : List ℕ) (μ : MapsFile σ f file_r (x ∷ xs)) (page page' : ℕ) (rest : List ℕ)
      (s : os.World)
      → 0 < page'
      → length (x ∷ xs) < 2 ^ 64
      → ρ.pending s ≡ hashed_bytes (x ∷ xs) (δ.digest (x ∷ xs)) ++ rest
      → Writes σ
          (o_file_hashed m t big f file_r (length (x ∷ xs)) page)
          (hashed_bytes (x ∷ xs) (δ.digest (x ∷ xs)))
        × ((s' : os.World) × (i_file_hashed m os o i_fixsize false rcv file_w page' s
              ≡ (ok (length (x ∷ xs)), s'))
            × (τ.content s' ≡ x ∷ xs)
            × (ρ.pending s' ≡ rest))
        × ((s' : os.World) × (i_file os o i_fixsize false rcv file_w page' s
              ≡ (ok (length (x ∷ xs)), s'))
            × (τ.content s' ≡ x ∷ xs)
            × (ρ.pending s' ≡ rest))
  o_file_hashed-i_file σ big x xs μ page page' rest s paged short e =
      let digest = δ.digest (x ∷ xs) in
      let small : length digest < 2 ^ 32 = omega (arith, δ.digest_length (x ∷ xs)) in
      let (s', run, c, p) =
        i_file_hashed-verdict page' x xs digest rest (yes refl) s paged short small e in
      (
        Writes-o_file_hashed m δ σ big μ page,
        (s', run ∙ ap (λ r. (r, s')) (verdict-same (length (x ∷ xs)) digest digest refl), c, p),
        i_file-stores os o i_fixsize ρ rcv file_w τ ζ page' x xs digest rest s paged short small e,
      )

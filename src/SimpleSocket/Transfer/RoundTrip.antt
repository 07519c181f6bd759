-- ===== src/SimpleSocket/Transfer/RoundTrip.antt =====
-- A file that `o_file` sends is stored by `i_file`.
use socketxx.Common.{
  ℕ, ◌<◌, ◌^◌, ◌≡◌, refl, ap, sym, ◌∙◌, Bool, false, Option, List, [], ◌∷◌, ◌++◌, length, arith,
  append_assoc,
}
use socketxx.Common.Int.{ℤ}
use socketxx.Common.Outcome.{Outcome, Exec, ok}
use socketxx.Common.Keeps.{Keeps}
use socketxx.Transport.{Transport, IsStream, Writes, Writes-then}
use socketxx.BaseIo.{Os}
use socketxx.SimpleSocket.{i_int, i_bin}
use socketxx.SimpleSocket.Keeping.{i_bin-Keeps}
use socketxx.SimpleSocket.Bytes.{le_bytes}
use socketxx.SimpleSocket.RoundTrip.{
  Writes-o_int, Writes-o_bin_null, Reads-i_int, Reads-i_bin, bin_bytes, or_null,
}
use socketxx.SimpleSocket.File.{Receiver, read_to_file}
use socketxx.SimpleSocket.File.Copy.{Transfers, read_to_file-copies}
use socketxx.SimpleSocket.Transfer.{FileMap, o_file, i_file, on_os, same_hash}
use socketxx.SimpleSocket.Transfer.Windows.{MapsFile, Writes-write_from_file}

-- What goes over the wire for a content, with a hash that is empty where there is none.
abbrev pub hashed_bytes : List ℕ → List ℕ → List ℕ
hashed_bytes content hash = le_bytes 8 (length content) ++ (content ++ bin_bytes hash)

-- What `o_file` puts on the wire for a content.
abbrev pub file_bytes : List ℕ → List ℕ
file_bytes content = hashed_bytes content []

pub hashed_bytes-append :
    (content hash rest : List ℕ)
    → hashed_bytes content hash ++ rest
      ≡ le_bytes 8 (length content) ++ (content ++ (bin_bytes hash ++ rest))
hashed_bytes-append content hash rest =
    append_assoc (le_bytes 8 (length content)) (content ++ bin_bytes hash) rest
    ∙ ap (λ l. le_bytes 8 (length content) ++ l) (append_assoc content (bin_bytes hash) rest)

module _ {t : Transport} (σ : IsStream t) (big : Bool) {f : FileMap t.State} {file_r : ℤ}
    {content : List ℕ} (μ : MapsFile σ f file_r content) where
  Writes-o_file :
      (page : ℕ) → Writes σ (o_file t big f file_r (length content) page) (file_bytes content)
  unfolding o_file
  Writes-o_file page =
      Writes-then (Writes-o_int σ big 8 (length content))
        (Writes-then (Writes-write_from_file μ page) (Writes-o_bin_null σ big))

module _ (os : Os) (o : List ℕ → Exec os.World (Unit {0})) (i_fixsize : ℕ → Exec os.World (List ℕ))
    (ρ : IsStream (on_os os o i_fixsize)) (rcv : Receiver os) (file_w : ℤ)
    (τ : Transfers rcv file_w) where
  -- The file is received over this socket, and reading from the socket does not change it.
  pub record SharesStream : Type 0 where
    pub one_stream : (s : os.World) → τ.pending s ≡ ρ.pending s
    pub file_kept : (n : ℕ) → Keeps τ.content (i_fixsize n)

  module _ (ζ : SharesStream) where
    i_file-run :
        (page sz : ℕ) (h : Option (List ℕ)) (s s1 s2 s3 : os.World)
        → i_int (on_os os o i_fixsize) false 8 s ≡ (ok sz, s1)
        → read_to_file os file_w rcv sz page s1 ≡ (ok tt, s2)
        → i_bin (on_os os o i_fixsize) false s2 ≡ (ok h, s3)
        → i_file os o i_fixsize false rcv file_w page s ≡ (ok sz, s3)
    unfolding i_file same_hash
    i_file-run page sz h s s1 s2 s3 e1 e2 e3 = rw e1 (rw e2 (rw e3 refl))

    -- Any hash is taken off the stream, and ignored.
    pub i_file-stores :
        (page x : ℕ) (xs hash rest : List ℕ) (s : os.World)
        → 0 < page
        → length (x ∷ xs) < 2 ^ 64
        → length hash < 2 ^ 32
        → ρ.pending s ≡ hashed_bytes (x ∷ xs) hash ++ rest
        → (s' : os.World) × (i_file os o i_fixsize false rcv file_w page s
            ≡ (ok (length (x ∷ xs)), s'))
          × (τ.content s' ≡ x ∷ xs)
          × (ρ.pending s' ≡ rest)
    i_file-stores page x xs hash rest s paged short small e =
        let t = on_os os o i_fixsize in
        let content = x ∷ xs in
        let split = e ∙ hashed_bytes-append content hash rest in
        let (s1, e1, p1, _) =
          (Reads-i_int ρ 8 (length content) short).at s (content ++ (bin_bytes hash ++ rest))
            split in
        let (s2, e2, c2, p2) =
          read_to_file-copies os file_w rcv τ page x xs (bin_bytes hash ++ rest) s1 paged
            (ζ.one_stream s1 ∙ p1) in
        let (s3, e3, p3, _) = (Reads-i_bin ρ hash small).at s2 rest (sym (ζ.one_stream s2) ∙ p2) in
        (
          s3,
          i_file-run page (length content) (or_null hash) s s1 s2 s3 e1 e2 e3,
          ap (λ (r : Outcome (Option (List ℕ)) × os.World). τ.content r.1) (sym e3)
              ∙ (i_bin-Keeps (on_os os o i_fixsize) τ.content ζ.file_kept false).at s2
              ∙ c2,
          p3,
        )

-- Between a writer of either byte order and a little-endian reader, a file that is not empty and
-- smaller than 2^64 bytes: `o_file` writes its size, its content and an absent hash; where these
-- are the next bytes of the reader's stream, and its file takes all that is written, `i_file`
-- returns the size with just the content stored up to the file's offset, and takes no byte
-- beyond. The page sizes of the two hosts, and the parts in which the reads arrive, do not matter.
pub o_file-i_file :
    {t : Transport} (σ : IsStream t) (big : Bool) {f : FileMap t.State} {file_r : ℤ} (x : ℕ)
    (xs : List ℕ) (μ : MapsFile σ f file_r (x ∷ xs)) (os : Os)
    (o : List ℕ → Exec os.World (Unit {0})) (i_fixsize : ℕ → Exec os.World (List ℕ))
    (ρ : IsStream (on_os os o i_fixsize)) (rcv : Receiver os) (file_w : ℤ)
    (τ : Transfers rcv file_w) (ζ : SharesStream os o i_fixsize ρ rcv file_w τ) (page page' : ℕ)
    (rest : List ℕ) (s : os.World)
    → 0 < page
    → 0 < page'
    → length (x ∷ xs) < 2 ^ 64
    → ρ.pending s ≡ file_bytes (x ∷ xs) ++ rest
    → Writes σ (o_file t big f file_r (length (x ∷ xs)) page) (file_bytes (x ∷ xs))
      × ((s' : os.World) × (i_file os o i_fixsize false rcv file_w page' s
            ≡ (ok (length (x ∷ xs)), s'))
          × (τ.content s' ≡ x ∷ xs)
          × (ρ.pending s' ≡ rest))
o_file-i_file σ big x xs μ os o i_fixsize ρ rcv file_w τ ζ page page' rest s p p' short e = (
  Writes-o_file σ big μ page,
  i_file-stores os o i_fixsize ρ rcv file_w τ ζ page' x xs [] rest s p' short (omega arith) e,
)

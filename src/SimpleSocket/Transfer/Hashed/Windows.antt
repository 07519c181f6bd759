-- ===== src/SimpleSocket/Transfer/Hashed/Windows.antt =====
-- The digest that `write_from_file` computes is that of the whole content, however the windows cut
-- it.
use native.Mathlib.Nat.{suc-mul, div-add-mod'}
use socketxx.Common.{
  ℕ, zero, suc, ◌+◌, ◌*◌, ◌/◌, ◌%◌, ◌≤◌, ◌≡◌, refl, ap, sym, ◌∙◌, ◌==◌, some, List, [], ◌∷◌, ◌++◌,
  length, take, drop, take_all, drop_all, drop-drop, take-append-drop, length-drop, append-nil,
  append_assoc, arith, inl, inr, Bool-cases, suc-ne-zero,
}
use socketxx.Common.Int.{ℤ}
use socketxx.Common.Outcome.{Exception}
use socketxx.Transport.{Transport, IsStream, Writes-o}
use socketxx.Transport.Sends.{Quiet}
use socketxx.Transport.Gives.{
  Gives, Gives-pure, Gives-then, Gives-then-Quiet, Gives-Sends, Gives-Quiet, Gives-bind, Gives-eq,
}
use socketxx.SimpleSocket.File.Hashed.{
  Md5, Digests, hash_update, hash_final, hash_update-context, hash_final-digest,
}
use socketxx.SimpleSocket.Transfer.{FileMap}
use socketxx.SimpleSocket.Transfer.Windows.{MapsFile, progress-Sends, unmap-Quiet, map_chunk-Quiet}
use socketxx.SimpleSocket.Transfer.Hashed.{
  write_from_file_hashed, send_loop_hashed, send_chunk_hashed, ended_hash,
}

module _ (m : Md5) (δ : Digests m) {t : Transport} {σ : IsStream t} where
  hash_update-Quiet :
      (done bs : List ℕ) (e : Exception)
      → Quiet σ (hash_update m (δ.context done) bs e) (δ.context (done ++ bs))
  hash_update-Quiet done bs e = record {
    at = λ s up. (s, hash_update-context m δ done bs e s, refl, refl, up);
  }

  hash_final-Quiet :
      (done : List ℕ) (e : Exception) → Quiet σ (hash_final m (δ.context done) e) (δ.digest done)
  hash_final-Quiet done e = record {
    at = λ s up. (s, hash_final-digest m δ done e s, refl, refl, up);
  }

  module _ {f : FileMap t.State} {file_r : ℤ} {content : List ℕ} (μ : MapsFile σ f file_r content)
      (sz : ℕ) where
    send_chunk_hashed-Gives :
        (off_f bytes_done len : ℕ) (done : List ℕ)
        → off_f + len ≤ length content
        → Gives σ
            (send_chunk_hashed m f t.o file_r sz off_f bytes_done len (δ.context done))
            (take len (drop off_f content))
            (λ r. r.0 ≡ δ.context (done ++ take len (drop off_f content)))
    unfolding send_chunk_hashed
    send_chunk_hashed-Gives off_f bytes_done len done h =
        let chunk = take len (drop off_f content) in
        Gives-Quiet _ (map_chunk-Quiet μ sz off_f len h) (
          Gives-eq (append-nil chunk) (
            Gives-then (Writes-o chunk) (
              Gives-Quiet _ (hash_update-Quiet done chunk _) (
                Gives-then-Quiet (unmap-Quiet μ sz) (
                  Gives-bind _ (Gives-Sends (progress-Sends μ sz f.info_f refl bytes_done len))
                    (λ d _. Gives-pure (δ.context (done ++ chunk), d) refl))))))

    send_loop_hashed-Gives :
        (chunk_rest chunksz off_f bytes_done : ℕ) (done : List ℕ) (c : m.Context)
        → c ≡ δ.context done
        → off_f + chunk_rest * chunksz + sz % chunksz ≡ length content
        → Gives σ
            (send_loop_hashed m f t.o file_r sz chunk_rest chunksz off_f bytes_done c)
            (drop off_f content)
            (λ c'. c' ≡ δ.context (done ++ drop off_f content))
    unfolding send_loop_hashed
    send_loop_hashed-Gives zero chunksz off_f bytes_done done c ec h =
        elim (Bool-cases (sz % chunksz == 0)) [
          | inl whole ↦
              let none_left : drop off_f content ≡ [] = drop_all off_f content (ground arith) in
              rw whole (rw none_left (rw (append-nil done) (Gives-pure c ec)))
          | inr part ↦
              let last : take (sz % chunksz) (drop off_f content) ≡ drop off_f content =
                take_all (sz % chunksz) (drop off_f content)
                  (omega (arith, length-drop off_f content)) in
              let e = append-nil (take (sz % chunksz) (drop off_f content)) ∙ last in
              rw part (
                rw ec (
                  Gives-eq e (
                    Gives-bind _
                      (send_chunk_hashed-Gives off_f bytes_done (sz % chunksz) done (omega arith))
                      (λ r q. Gives-pure r.0 (q ∙ ap (λ l. δ.context (done ++ l)) last)))))
        ]
    send_loop_hashed-Gives (suc r) chunksz off_f bytes_done done c ec h =
        let more : suc r * chunksz ≡ r * chunksz + chunksz = suc-mul r chunksz in
        let first = take chunksz (drop off_f content) in
        let parts : first ++ drop (off_f + chunksz) content ≡ drop off_f content =
          ap (λ l. first ++ l) (sym (drop-drop off_f chunksz content))
          ∙ take-append-drop chunksz (drop off_f content) in
        rw ec (
          Gives-eq parts (
            Gives-bind _
              (send_chunk_hashed-Gives off_f bytes_done chunksz done (omega (arith, more)))
              (λ d q. rw (ap (λ l. done ++ l) (sym parts) ∙ sym (append_assoc done first _)) (
                send_loop_hashed-Gives r chunksz (off_f + chunksz) d.1 (done ++ first) d.0 q
                  (omega (arith, more))))))

module _ (m : Md5) (δ : Digests m) {t : Transport} {σ : IsStream t} {f : FileMap t.State}
    {file_r : ℤ} {x : ℕ} {xs : List ℕ} (μ : MapsFile σ f file_r (x ∷ xs)) where
  pub write_from_file_hashed-Gives :
      (page : ℕ)
      → Gives σ
          (write_from_file_hashed m f t.o file_r (length (x ∷ xs)) page)
          (x ∷ xs)
          (λ h. h ≡ some (δ.digest (x ∷ xs)))
  unfolding write_from_file_hashed ended_hash
  write_from_file_hashed-Gives page =
      let sz = length (x ∷ xs) in
      rw (suc-ne-zero (length xs)) (
        Gives-eq (append-nil (x ∷ xs)) (
          Gives-bind _
            (send_loop_hashed-Gives m δ μ sz (sz / (page * 16)) (page * 16) 0 0 [] m.init δ.begun
              (omega (arith, div-add-mod' sz (page * 16))))
            (λ c q. rw q (
              Gives-Quiet _ (hash_final-Quiet m δ (x ∷ xs) _)
                (Gives-pure (some (δ.digest (x ∷ xs))) refl)))))

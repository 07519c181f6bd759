-- ===== src/SimpleSocket/File/Hashed/Keeping.antt =====
-- What storing received bytes with their digest leaves alone.
use socketxx.Common.{ℕ, zero, suc, ◌-◌, ◌*◌, ◌==◌, ◌∙◌, refl, Option, none, some, List, length}
use socketxx.Common.Int.{ℤ}
use socketxx.Common.Keeps.{Keeps, Keeps-bind, Keeps-pure}
use socketxx.Common.Outcome.{Exception}
use socketxx.BaseIo.{Os}
use socketxx.SimpleSocket.File.{Receiver}
use socketxx.SimpleSocket.File.Keeping.{
  KeepsFile, if_part, elim_part, receive-Keeps, note_progress-Keeps, write_chunk-Keeps,
}
use socketxx.SimpleSocket.File.Hashed.{
  Md5, hash_made, hash_update, hash_final, copy_hashed, finished, read_to_file_hashed,
}

module _ (m : Md5) {os : Os} {file_w : ℤ} {rcv : Receiver os} {P : Type 0} {part : os.World → P}
    (κ : KeepsFile os file_w rcv part) where
  hash_made-Keeps :
      {A : Type 0} (o : Option A) (e : Exception) → Keeps part (hash_made m {S = os.World} o e)
  unfolding hash_made
  hash_made-Keeps none e = record { at = λ w. refl }
  hash_made-Keeps (some a) e = record { at = λ w. refl }

  hash_update-Keeps :
      (c : m.Context) (bs : List ℕ) (e : Exception)
      → Keeps part (hash_update m {S = os.World} c bs e)
  unfolding hash_update
  hash_update-Keeps c bs e = hash_made-Keeps (m.update c bs) e

  copy_hashed-Keeps :
      (sz fuel : ℕ) (c : m.Context) (chunksz bytes_rest : ℕ)
      → Keeps part (copy_hashed m os file_w rcv sz fuel c chunksz bytes_rest)
  unfolding copy_hashed
  copy_hashed-Keeps sz zero c chunksz bytes_rest = record { at = λ w. refl }
  copy_hashed-Keeps sz (suc fuel) c chunksz bytes_rest = record {
    at = λ w. elim_part κ (bytes_rest == 0) _ _ refl (
        (Keeps-bind part _ (receive-Keeps κ sz _) (λ chunk.
            Keeps-bind part _ (hash_update-Keeps c chunk _) (λ c'.
              Keeps-bind part _
                (Keeps-bind part _ (note_progress-Keeps κ sz (bytes_rest - length chunk))
                  (λ _. write_chunk-Keeps κ chunk))
                (λ _. copy_hashed-Keeps sz fuel c' _ (bytes_rest - length chunk))))).at
          w);
  }

  finished-Keeps : (sz : ℕ) (c : m.Context) → Keeps part (finished m os file_w rcv sz c)
  unfolding finished hash_final
  finished-Keeps sz c =
      Keeps-bind part _ (hash_made-Keeps (m.final c) _) (λ hash. Keeps-pure part (some hash))

  pub read_to_file_hashed-Keeps :
      (sz page : ℕ) → Keeps part (read_to_file_hashed m os file_w rcv sz page)
  unfolding read_to_file_hashed
  read_to_file_hashed-Keeps sz page = record {
    at = λ w. if_part κ (sz == 0) _ _ refl (
        (Keeps-bind part _ (copy_hashed-Keeps sz (suc sz) m.init (page * 16) sz)
            (finished-Keeps sz)).at
          (rcv.rewind w)
        ∙ κ.rewind_keeps w);
  }

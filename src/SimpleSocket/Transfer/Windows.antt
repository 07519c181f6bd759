-- ===== src/SimpleSocket/Transfer/Windows.antt =====
-- The windows that `write_from_file` maps cover the file once, in order.
use native.Mathlib.Nat.{suc-mul, div-add-mod'}
use socketxx.Common.{
  ℕ, zero, suc, ◌+◌, ◌*◌, ◌/◌, ◌%◌, ◌≤◌, ◌≡◌, refl, ap, sym, ◌∙◌, ◌==◌, Option, none, some, List,
  [], ◌++◌, length, take, drop, take_all, drop_all, drop-drop, take-append-drop, length-drop,
  append-nil, arith, inl, inr, Bool-cases,
}
use socketxx.Common.Int.{ℤ}
use socketxx.Transport.{Transport, IsStream, Writes, Writes-o, Writes-eq, Writes-nothing}
use socketxx.Transport.Sends.{
  Sends, Quiet, Sends-Writes, Writes-Sends, Sends-pure, Sends-Quiet, Sends-bind, Sends-eq,
  Quiet-Sends,
}
use socketxx.SimpleSocket.Transfer.{
  FileMap, write_from_file, send_loop, send_chunk, map_chunk, unmap, progress, mapped,
}

-- A file with a content: the memory that mmap() gives is the part asked for. No call disturbs the
-- link.
pub record MapsFile {t : Transport} (σ : IsStream t) (f : FileMap t.State) (file_r : ℤ)
    (content : List ℕ) : Type 0 where
  pub window :
      (off_f len : ℕ) (s : t.State)
      → off_f + len ≤ length content
      → σ.IsUp s
      → (s' : t.State) × (f.mmap file_r off_f len s ≡ (some (take len (drop off_f content)), s'))
        × (σ.sent s' ≡ σ.sent s)
        × (σ.pending s' ≡ σ.pending s)
        × σ.IsUp s'
  pub unmapped :
      (s : t.State)
      → σ.IsUp s
      → (σ.sent (f.munmap s) ≡ σ.sent s)
        × (σ.pending (f.munmap s) ≡ σ.pending s)
        × σ.IsUp (f.munmap s)
  pub noted :
      (g : ℕ → ℕ → t.State → t.State)
      → f.info_f ≡ some g
      → (a b : ℕ) (s : t.State) → σ.IsUp s
      → (σ.sent (g a b s) ≡ σ.sent s) × (σ.pending (g a b s) ≡ σ.pending s) × σ.IsUp (g a b s)

module _ {t : Transport} {σ : IsStream t} {f : FileMap t.State} {file_r : ℤ} {content : List ℕ}
    (μ : MapsFile σ f file_r content) (sz : ℕ) where
  pub progress-Sends :
      (o : Option (ℕ → ℕ → t.State → t.State))
      → f.info_f ≡ o
      → (done chunksz : ℕ) → Sends σ (progress f t.o file_r sz o done chunksz) []
  unfolding progress
  progress-Sends none e done chunksz = Sends-pure done
  progress-Sends (some g) e done chunksz = record {
    at = λ s up.
        let (f1, p1, u1) = μ.noted g e (done + chunksz) sz s up in
        (done + chunksz, g (done + chunksz) sz s, refl, f1 ∙ sym (append-nil _), p1, u1);
  }

  pub unmap-Quiet : Quiet σ (unmap f t.o file_r sz) tt
  unfolding unmap
  unmap-Quiet = record {
    at = λ s up. let (f1, p1, u1) = μ.unmapped s up in (f.munmap s, refl, f1, p1, u1);
  }

  pub map_chunk-Quiet :
      (off_f len : ℕ)
      → off_f + len ≤ length content
      → Quiet σ (map_chunk f t.o file_r sz off_f len) (take len (drop off_f content))
  unfolding map_chunk mapped
  map_chunk-Quiet off_f len h = record {
    at = λ s up. let (s', e, f1, p1, u1) = μ.window off_f len s h up in (s', rw e refl, f1, p1, u1);
  }

  send_chunk-Sends :
      (off_f done len : ℕ)
      → off_f + len ≤ length content
      → Sends σ (send_chunk f t.o file_r sz off_f done len) (take len (drop off_f content))
  unfolding send_chunk
  send_chunk-Sends off_f done len h =
      let chunk = take len (drop off_f content) in
      Sends-Quiet _ (map_chunk-Quiet off_f len h) (
        Sends-eq (append-nil (chunk ++ []) ∙ append-nil chunk) (
          Sends-bind _ (Sends-bind _ (Sends-Writes (Writes-o chunk)) (λ _. Quiet-Sends unmap-Quiet))
            (λ _. progress-Sends f.info_f refl done len)))

  -- From an offset on, `chunk_rest` whole chunks and the remainder are the rest of the file.
  send_loop-Sends :
      (chunk_rest chunksz off_f done : ℕ)
      → off_f + chunk_rest * chunksz + sz % chunksz ≡ length content
      → Sends σ (send_loop f t.o file_r sz chunk_rest chunksz off_f done) (drop off_f content)
  unfolding send_loop
  send_loop-Sends zero chunksz off_f done h = elim (Bool-cases (sz % chunksz == 0)) [
    | inl whole ↦ rw whole (Sends-eq (sym (drop_all off_f content (ground arith))) (Sends-pure tt))
    | inr part ↦
        let last : take (sz % chunksz) (drop off_f content) ≡ drop off_f content =
          take_all (sz % chunksz) (drop off_f content) (omega (arith, length-drop off_f content)) in
        rw part (
          Sends-eq (append-nil (take (sz % chunksz) (drop off_f content)) ∙ last) (
            Sends-bind _ (send_chunk-Sends off_f done (sz % chunksz) (omega arith))
              (λ _. Sends-pure tt)))
  ]
  send_loop-Sends (suc r) chunksz off_f done h =
      let more : suc r * chunksz ≡ r * chunksz + chunksz = suc-mul r chunksz in
      Sends-eq
        (ap (λ l. take chunksz (drop off_f content) ++ l) (sym (drop-drop off_f chunksz content))
          ∙ take-append-drop chunksz (drop off_f content))
        (Sends-bind _ (send_chunk-Sends off_f done chunksz (omega (arith, more)))
          (λ d. send_loop-Sends r chunksz (off_f + chunksz) d (omega (arith, more))))

module _ {t : Transport} {σ : IsStream t} {f : FileMap t.State} {file_r : ℤ} {content : List ℕ}
    (μ : MapsFile σ f file_r content) where
  -- `write_from_file` with the size of the file writes its content, whatever the page size.
  pub Writes-write_from_file :
      (page : ℕ) → Writes σ (write_from_file f t.o file_r (length content) page) content
  unfolding write_from_file
  Writes-write_from_file page = elim (Bool-cases (length content == 0)) [
    | inl empty ↦ rw empty (Writes-eq (sym (drop_all 0 content (ground arith))) Writes-nothing)
    | inr some_bytes ↦ rw some_bytes (
        Writes-Sends (
          send_loop-Sends μ (length content) (length content / (page * 16)) (page * 16) 0 0
            (omega (arith, div-add-mod' (length content) (page * 16)))))
  ]

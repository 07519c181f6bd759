-- ===== src/SimpleSocket/File/Keeping.antt =====
-- What storing received bytes in a file leaves alone.
use socketxx.Common.{
  ℕ, zero, suc, ◌-◌, ◌*◌, ◌==◌, ◌≡◌, ◌∙◌, refl, Bool, true, false, Option, none, some, List, length,
  drop, ltb, if◌then◌else◌,
}
use socketxx.Common.Int.{ℤ}
use socketxx.Common.Keeps.{Keeps, Keeps-bind}
use socketxx.Common.Outcome.{Outcome, Exec}
use socketxx.BaseIo.{Os}
use socketxx.SimpleSocket.File.{
  Receiver, read_to_file, copy, receive, note_progress, write_chunk, first_write, write_rest,
  retried, write_failed,
}

-- The calls that `read_to_file` makes.
pub record KeepsFile (os : Os) (file_w : ℤ) (rcv : Receiver os) {P : Type 0} (part : os.World → P)
    : Type 0 where
  pub readf_keeps : (n : ℕ) → Keeps part (rcv.readf n)
  pub rewind_keeps : (w : os.World) → part (rcv.rewind w) ≡ part w
  pub info_f_keeps : (a b : ℕ) (w : os.World) → part (rcv.info_f a b w) ≡ part w
  pub set_errno_keeps : (e : ℕ) (w : os.World) → part (os.set_errno e w) ≡ part w
  pub write_keeps : (bs : List ℕ) (w : os.World) → part (os.write file_w bs w).1 ≡ part w

module _ {os : Os} {file_w : ℤ} {rcv : Receiver os} {P : Type 0} {part : os.World → P}
    (κ : KeepsFile os file_w rcv part) where
  pub if_part :
      {A : Type 0} {x : P} (b : Bool) (p q : Outcome A × os.World)
      → part p.1 ≡ x
      → part q.1 ≡ x
      → part (if b then p else q).1 ≡ x
  if_part true p q h k = h
  if_part false p q h k = k

  pub elim_part :
      {A : Type 0} {x : P} (b : Bool) (p q : Outcome A × os.World)
      → part p.1 ≡ x
      → part q.1 ≡ x
      → part (elim b as (λ _. Outcome A × os.World) [ true ↦ p | false ↦ q ]).1 ≡ x
  elim_part true p q h k = h
  elim_part false p q h k = k

  retried-Keeps :
      (next : ℕ → Exec os.World (Unit {0})) (r : Option ℕ) (w : os.World)
      → ((n : ℕ) → Keeps part (next n))
      → part (retried os file_w next (r, w)).1 ≡ part w
  unfolding retried write_failed
  retried-Keeps next none w k = refl
  retried-Keeps next (some zero) w k = refl
  retried-Keeps next (some (suc r)) w k = (k (suc r)).at w

  write_rest-Keeps :
      (fuel file_rest : ℕ) (b : List ℕ) (rs : ℕ)
      → Keeps part (write_rest os file_w fuel file_rest b rs)
  unfolding write_rest
  write_rest-Keeps zero file_rest b rs = record { at = λ w. refl }
  write_rest-Keeps (suc fuel) file_rest b rs = record {
    at = λ w.
        let r = os.write file_w (drop rs b) w in
        let on =
          retried-Keeps _ r.0 r.1 (write_rest-Keeps fuel (file_rest - rs) (drop rs b))
          ∙ κ.write_keeps (drop rs b) w in
        if_part (file_rest == 0) _ _ refl (if_part (ltb file_rest rs) _ _ refl on);
  }

  first_write-Keeps :
      (chunk : List ℕ) (r : Option ℕ) (w : os.World)
      → part (first_write os file_w chunk (r, w)).1 ≡ part w
  unfolding first_write write_failed
  first_write-Keeps chunk none w = refl
  first_write-Keeps chunk (some zero) w = refl
  first_write-Keeps chunk (some (suc r)) w = if_part (suc r == length chunk) _ _ refl (
      (write_rest-Keeps (suc (length chunk)) (length chunk - suc r) (drop (suc r) chunk) (suc r)).at
        w)

  pub write_chunk-Keeps : (chunk : List ℕ) → Keeps part (write_chunk os file_w chunk)
  unfolding write_chunk
  write_chunk-Keeps chunk = record {
    at = λ w.
        let r = os.write file_w chunk w in first_write-Keeps chunk r.0 r.1 ∙ κ.write_keeps chunk w;
  }

  pub receive-Keeps : (sz n : ℕ) → Keeps part (receive os file_w rcv sz n)
  unfolding receive
  receive-Keeps sz n = record {
    at = λ w. (κ.readf_keeps n).at (os.set_errno 0 w) ∙ κ.set_errno_keeps 0 w;
  }

  pub note_progress-Keeps : (sz n : ℕ) → Keeps part (note_progress os file_w rcv sz n)
  unfolding note_progress
  note_progress-Keeps sz n = record { at = λ w. κ.info_f_keeps (sz - n) sz w }

  copy-Keeps :
      (sz fuel chunksz bytes_rest : ℕ) → Keeps part (copy os file_w rcv sz fuel chunksz bytes_rest)
  unfolding copy
  copy-Keeps sz zero chunksz bytes_rest = record { at = λ w. refl }
  copy-Keeps sz (suc fuel) chunksz bytes_rest = record {
    at = λ w. elim_part (bytes_rest == 0) _ _ refl (
        (Keeps-bind part _ (receive-Keeps sz _) (λ chunk.
            Keeps-bind part _
              (Keeps-bind part _ (note_progress-Keeps sz (bytes_rest - length chunk))
                (λ _. write_chunk-Keeps chunk))
              (λ _. copy-Keeps sz fuel _ (bytes_rest - length chunk)))).at
          w);
  }

  pub read_to_file-Keeps : (sz page : ℕ) → Keeps part (read_to_file os file_w rcv sz page)
  unfolding read_to_file
  read_to_file-Keeps sz page = record {
    at = λ w.
        if_part (sz == 0) _ _ refl
          ((copy-Keeps sz (suc sz) (page * 16) sz).at (rcv.rewind w) ∙ κ.rewind_keeps w);
  }

-- ===== src/SimpleSocket/File/ShortWrite.antt =====
-- What becomes of a chunk that the first write() does not take whole.
use socketxx.Common.{
  ℕ, zero, suc, ◌+◌, ◌-◌, ◌≤◌, ◌<◌, ◌≡◌, Option, none, some, List, length, drop, arith, length-drop,
  ◌==◌, false, ltb, Bool-cases, inl, inr,
}
use socketxx.Common.Int.{ℤ}
use socketxx.Common.Outcome.{Exec}
use socketxx.BaseIo.{Os}
use socketxx.SimpleSocket.File.{write_chunk, write_rest, retried, write_failed, first_write}

abbrev pub taken : Option ℕ → ℕ
taken none = 0
taken (some n) = n

-- The size of the file grows by just what a write() says that it took, which is at most what it
-- was given.
pub record GrowsFile (os : Os) (fd : ℤ) : Type 0 where
  pub size : os.World → ℕ
  pub write_grows :
      (bs : List ℕ) (s : os.World)
      → (taken (os.write fd bs s).0 ≤ length bs)
        × (size (os.write fd bs s).1 ≡ size s + taken (os.write fd bs s).0)

module _ {os : Os} {fd : ℤ} (γ : GrowsFile os fd) where
  retried-size :
      (next : ℕ → Exec os.World (Unit {0})) (left old : ℕ)
      → ((r : ℕ) (s : os.World) → γ.size (next r s).1 ≤ γ.size s + (left - r))
      → (o : Option ℕ) (s : os.World) → taken o ≤ left
      → γ.size s ≡ old + taken o
      → γ.size (retried os fd next (o, s)).1 ≤ old + left
  unfolding retried write_failed
  retried-size next left old ih none s h e = omega (arith, e)
  retried-size next left old ih (some zero) s h e = omega (arith, e)
  retried-size next left old ih (some (suc r)) s h e = omega (arith, e, ih (suc r) s)

  -- The inner loop leaves out as many bytes as the write before it took.
  write_rest-size :
      (fuel file_rest : ℕ) (b : List ℕ) (rs : ℕ) (s : os.World)
      → length b ≡ file_rest
      → γ.size (write_rest os fd fuel file_rest b rs s).1 ≤ γ.size s + (file_rest - rs)
  unfolding write_rest
  write_rest-size zero file_rest b rs s h = omega arith
  write_rest-size (suc fuel) file_rest b rs s h =
      let left : length (drop rs b) ≡ file_rest - rs = omega (arith, length-drop rs b) in
      let (few, grown) = γ.write_grows (drop rs b) s in
      let step =
        retried-size (write_rest os fd fuel (file_rest - rs) (drop rs b)) (file_rest - rs)
          (γ.size s) (λ r t. write_rest-size fuel (file_rest - rs) (drop rs b) r t left)
          (os.write fd (drop rs b) s).0 (os.write fd (drop rs b) s).1 (omega (arith, few, left))
          grown in
      elim (Bool-cases (file_rest == 0)) [
        | inl z ↦ rw z (omega arith)
        | inr n ↦ elim (Bool-cases (ltb file_rest rs)) [
          | inl w ↦ rw n (rw w (omega arith))
          | inr k ↦ rw n (rw k step)
        ]
      ]

  first_write-size :
      (chunk : List ℕ) (o : Option ℕ) (s : os.World)
      → 0 < taken o
      → taken o < length chunk
      → γ.size (first_write os fd chunk (o, s)).1 ≤ γ.size s + (length chunk - taken o - taken o)
  unfolding first_write
  first_write-size chunk none s p q = absurd (omega (arith, p))
  first_write-size chunk (some zero) s p q = absurd (omega (arith, p))
  first_write-size chunk (some (suc r)) s p q =
      let other : (suc r == length chunk) ≡ false = ground arith in
      rw other (
        write_rest-size (suc (length chunk)) (length chunk - suc r) (drop (suc r) chunk) (suc r) s
          (length-drop (suc r) chunk))

  -- Where the first write() takes a part of a chunk, the file grows by fewer bytes than the chunk
  -- has, whatever the writes that follow take.
  pub write_chunk-loses :
      (chunk : List ℕ) (s : os.World)
      → 0 < taken (os.write fd chunk s).0
      → taken (os.write fd chunk s).0 < length chunk
      → γ.size (write_chunk os fd chunk s).1 < γ.size s + length chunk
  unfolding write_chunk
  write_chunk-loses chunk s p q =
      let w = os.write fd chunk s in
      let rest = first_write-size chunk w.0 w.1 p q in
      omega (arith, rest, (γ.write_grows chunk s).1)

-- ===== src/SimpleSocket/Keeping.antt =====
-- What reading an integer or a block of data leaves alone.
use socketxx.Common.{ℕ, ◌==◌, Bool}
use socketxx.Common.Keeps.{Keeps, Keeps-bind, Keeps-pure, Keeps-if}
use socketxx.Transport.{Transport}
use socketxx.SimpleSocket.{i_int, i_bin}

module _ (t : Transport) {P : Type 0} (part : t.State → P)
    (k : (n : ℕ) → Keeps part (t.i_fixsize n)) where
  pub i_int-Keeps : (big : Bool) (w : ℕ) → Keeps part (i_int t big w)
  unfolding i_int
  i_int-Keeps big w = Keeps-bind part _ (k w) (λ n. Keeps-pure part _)

  pub i_bin-Keeps : (big : Bool) → Keeps part (i_bin t big)
  unfolding i_bin
  i_bin-Keeps big = Keeps-bind part _ (i_int-Keeps big 4) (λ len.
      Keeps-if part (len == 0) (Keeps-pure part _)
        (Keeps-bind part _ (k len) (λ p. Keeps-pure part _)))

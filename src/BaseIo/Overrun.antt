-- ===== src/BaseIo/Overrun.antt =====
-- After a short read `base_fd::_i_fixsize` asks for the whole length again.
use socketxx.Common.{ℕ, zero, suc, ◌+◌, ◌-◌, ◌<◌, ◌≡◌, Option, some, List, ◌++◌, length, arith}
use socketxx.Common.Int.{ℤ}
use socketxx.Common.Outcome.{ok, halts, undefined}
use socketxx.BaseIo.{Os}
use socketxx.BaseIo.Filling.{fill, fill_rest, fill_step}
use socketxx.BaseIo.Fd

fill_rest-done :
    (os : Os) (get : ℕ → os.World → Option (List ℕ) × os.World) (least len fuel rest : ℕ)
    (filled : List ℕ) (s : os.World)
    → 0 < fuel
    → rest ≡ 0
    → fill_rest os get least len fuel rest filled s ≡ (ok filled, s)
unfolding fill_rest
fill_rest-done os get least len zero rest filled s h e = absurd (omega arith)
fill_rest-done os get least len (suc fuel) rest filled s h e = ground arith

module _ (os : Os) (get : ℕ → os.World → Option (List ℕ) × os.World) (least len : ℕ)
    (s s1 s2 : os.World) (b1 b2 : List ℕ) (first : get len s ≡ (some b1, s1))
    (second : get len s1 ≡ (some b2, s2)) (short : length b1 < len)
    (some_read : 0 < length b1) where
  pub fill-overrun :
      least < length b2
      → len < length b1 + length b2
      → (fill os get least len s).0 ≡ halts undefined
  unfolding fill fill_step
  fill-overrun more beyond = rw first (ground arith)

  pub fill-two :
      least < length b2 → length b1 + length b2 ≡ len → (fill os get least len s).0 ≡ ok (b1 ++ b2)
  unfolding fill fill_step
  fill-two more whole = rw first (
      ground
        (arith, fill_rest-done os get least len len (len - length b1 - length b2) (b1 ++ b2) s2))

module _ (os : Os) (fd : ℤ) (len : ℕ) (s s1 s2 : os.World) (b1 b2 : List ℕ) where
  -- Where a first read falls short, and the second brings more than was missing, the bytes run
  -- over the end of the caller's buffer.
  pub i_fixsize_overruns :
      os.read fd len s ≡ (some b1, s1)
      → os.read fd len s1 ≡ (some b2, s2)
      → 0 < length b1
      → length b1 < len
      → 1 < length b2
      → len < length b1 + length b2
      → (Fd.i_fixsize os fd len s).0 ≡ halts undefined
  unfolding Fd.i_fixsize
  i_fixsize_overruns first second pos short more beyond =
      fill-overrun os (os.read fd) 1 len s s1 s2 b1 b2 first second short pos more beyond

  -- A second read that brings just what was missing completes the buffer.
  pub i_fixsize_two_reads :
      os.read fd len s ≡ (some b1, s1)
      → os.read fd len s1 ≡ (some b2, s2)
      → 0 < length b1
      → 1 < length b2
      → length b1 + length b2 ≡ len
      → (Fd.i_fixsize os fd len s).0 ≡ ok (b1 ++ b2)
  unfolding Fd.i_fixsize
  i_fixsize_two_reads first second pos more whole =
      fill-two os (os.read fd) 1 len s s1 s2 b1 b2 first second (omega arith) pos more whole

-- ===== src/BaseIo/Filling.antt =====
-- The loop by which several `_i_fixsize` go on after a short read: they ask for the whole length
-- again, not for the rest (socket++/base_io.cpp, socket++/base_ssl.cpp).
use socketxx.Common.{
  ℕ, zero, suc, ◌-◌, true, false, Option, none, some, List, ◌++◌, length, ltb, leb, ◌==◌,
  if◌then◌else◌,
}
use socketxx.Common.Int.{pos, minus_one}
use socketxx.Common.Outcome.{Exec, Outcome, ok, halts, undefined, no_fuel, reading}
use socketxx.BaseIo.{Os, throw_io}

module _ (os : Os) (least : ℕ) where
  -- if (r <= least) throw; data += r; rest -= r;
  -- Bytes stored past the end of the caller's buffer are undefined behaviour.
  unfoldable pub fill_step :
      (ℕ → List ℕ → Exec os.World (List ℕ))
      → ℕ
      → List ℕ
      → Option (List ℕ) × os.World
      → Outcome (List ℕ) × os.World
  fill_step next rest filled (none, s) = throw_io os minus_one reading s
  fill_step next rest filled (some bs, s) =
      if leb (length bs) least
      then throw_io os (pos (length bs)) reading s
      else if ltb rest (length bs)
      then (halts undefined, s)
      else next (rest - length bs) (filled ++ bs) s

module _ (os : Os) (get : ℕ → os.World → Option (List ℕ) × os.World) (least len : ℕ) where
  -- while (rest != 0) { r = get(data, len); … }
  unfoldable pub fill_rest : ℕ → ℕ → List ℕ → Exec os.World (List ℕ)
  fill_rest zero rest filled s = (halts no_fuel, s)
  fill_rest (suc fuel) rest filled s = elim (rest == 0) [
    | true ↦ (ok filled, s)
    | false ↦ fill_step os least (fill_rest fuel) rest filled (get len s)
  ]

  -- The first read, and the loop if it was short.
  unfoldable pub fill_first : Option (List ℕ) × os.World → Outcome (List ℕ) × os.World
  unfolding fill_rest
  fill_first (none, s) = throw_io os minus_one reading s
  fill_first (some bs, s) =
      if length bs == 0
      then throw_io os (pos 0) reading s
      else if ltb (length bs) len
      then fill_rest (suc len) (len - length bs) bs s
      else (ok bs, s)

  unfoldable pub fill : Exec os.World (List ℕ)
  unfolding fill_first
  fill s = fill_first (get len s)

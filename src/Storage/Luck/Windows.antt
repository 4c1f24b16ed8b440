-- ===== src/Storage/Luck/Windows.antt =====
-- The windows of `CollectLuckStats` in storage/redis.go, next to sums over the first blocks.
use btcpool.Common.{
  ℕ, zero, suc, ◌+◌, ◌^◌, ◌<◌, ◌≤◌, ◌≡◌, refl, ap, ◌∙◌, sym, true, false, Option, none, some, List,
  [], ◌∷◌, length, take, arith, All, if◌then◌else◌,
}
use Prim.Native.Nat.{min}
use btcpool.Common.Int.{pos, ◌-ℤ◌, ltb_ℤ, wrap64, wrap64_fits, -ℤ_parts, ◌+ℤ◌}
use btcpool.Common.Bytes.{Bytes, beq}
use btcpool.Common.Float.{Float64}
use btcpool.Storage.Keys.{BlockData}
use btcpool.Storage.Luck.{Luck, no_luck, count_block, luck_loop, average, calc_luck}

-- `m[k]`
unfoldable pub find_row {ℓ} : {A : Type ℓ} → Bytes → List (Bytes × A) → Option A
find_row k [] = none
find_row k ((j, a) ∷ m) = if beq j k then some a else find_row k m

abbrev pub IsAscending : List ℕ → Type 0
IsAscending [] = Unit
IsAscending (k ∷ ks) = All (λ j. k ≤ j) ks × IsAscending ks

no_wrap : (k : ℕ) → k < 2 ^ 63 → wrap64 (pos k -ℤ pos 1) ≡ pos k -ℤ pos 1
unfolding ◌-ℤ◌ ◌+ℤ◌
no_wrap zero h = wrap64_fits (pos 0 -ℤ pos 1) (omega arith, omega arith)
no_wrap (suc k) h = wrap64_fits (pos (suc k) -ℤ pos 1) (ground arith)

stops : (k i : ℕ) → k < 2 ^ 63 → k ≤ i → ltb_ℤ (wrap64 (pos k -ℤ pos 1)) (pos i) ≡ true
stops k i h l = rw (no_wrap k h) (let parts = -ℤ_parts (pos k) (pos 1) in ground arith)

goes_on : (k i : ℕ) → k < 2 ^ 63 → i < k → ltb_ℤ (wrap64 (pos k -ℤ pos 1)) (pos i) ≡ false
goes_on k i h l = rw (no_wrap k h) (let parts = -ℤ_parts (pos k) (pos 1) in ground arith)

module _ (f : Float64) where
  -- The counts over some blocks.
  unfoldable pub count_blocks : List BlockData → Luck f.Float → Luck f.Float
  count_blocks [] l = l
  count_blocks (block ∷ blocks) l = count_blocks blocks (count_block f block l)

  -- The averages over the first blocks.
  abbrev pub first_blocks : List BlockData → ℕ → Luck f.Float
  first_blocks blocks n = average f (count_blocks (take n blocks) (no_luck f))

  luck_loop-take :
      (k n i : ℕ) (blocks : List BlockData) (l : Luck f.Float)
      → i + n ≡ k
      → k < 2 ^ 63
      → luck_loop f (pos k) i blocks l ≡ count_blocks (take n blocks) l
  unfolding luck_loop count_blocks
  luck_loop-take k zero i [] l e h = refl
  luck_loop-take k (suc n) i [] l e h = refl
  luck_loop-take k zero i (block ∷ blocks) l e h = rw (stops k i h (omega arith)) refl
  luck_loop-take k (suc n) i (block ∷ blocks) l e h =
      rw (goes_on k i h (omega arith))
        (luck_loop-take k n (suc i) blocks (count_block f block l) (omega arith) h)

  total-count_blocks :
      (blocks : List BlockData) (l : Luck f.Float)
      → (count_blocks blocks l).total ≡ l.total + length blocks
  unfolding count_blocks count_block
  total-count_blocks [] l = omega arith
  total-count_blocks (block ∷ blocks) l =
      omega (arith, total-count_blocks blocks (count_block f block l))

  length-take : (n : ℕ) (blocks : List BlockData) → length (take n blocks) ≡ min n (length blocks)
  length-take zero blocks = omega arith
  length-take (suc n) [] = omega arith
  length-take (suc n) (block ∷ blocks) = omega (arith, length-take n blocks)

  take_some :
      (n i : ℕ) (blocks : List BlockData)
      → i ≡ min n (length blocks)
      → take i blocks ≡ take n blocks
  take_some zero zero blocks e = refl
  take_some zero (suc i) blocks e = absurd (omega arith)
  take_some (suc n) zero [] e = refl
  take_some (suc n) (suc i) [] e = refl
  take_some (suc n) zero (block ∷ blocks) e = absurd (omega arith)
  take_some (suc n) (suc i) (block ∷ blocks) e =
      ap (λ bs. block ∷ bs) (take_some n i blocks (omega arith))

  take-min : (n : ℕ) (blocks : List BlockData) → take (min n (length blocks)) blocks ≡ take n blocks
  take-min n blocks = take_some n _ blocks refl

  average-total : (l : Luck f.Float) → (average f l).total ≡ l.total
  unfolding average
  average-total l = ground arith

  -- A window's averages are those over its first blocks, and their number is its key.
  pub calc_luck-first_blocks :
      (k : ℕ) (blocks : List BlockData)
      → k < 2 ^ 63
      → calc_luck f blocks (pos k) ≡ first_blocks blocks (min k (length blocks))
  unfolding calc_luck
  calc_luck-first_blocks k blocks h = ap (average f) (
      luck_loop-take k k 0 blocks (no_luck f) (omega arith) h
      ∙ ap (λ bs. count_blocks bs (no_luck f)) (sym (take-min k blocks)))

  pub total-first_blocks :
      (n : ℕ) (blocks : List BlockData) → (first_blocks blocks n).total ≡ min n (length blocks)
  total-first_blocks n blocks =
      average-total (count_blocks (take n blocks) (no_luck f))
      ∙ omega (arith, total-count_blocks (take n blocks) (no_luck f), length-take n blocks)

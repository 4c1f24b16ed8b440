-- ===== src/Bitcoin/Difficulty.antt =====
-- bitcoin/btc_difficulty.go: targets, the work behind them, and difficulties. float64 is an interface.
use btcpool.Common.{
  ℕ, zero, suc, ◌-◌, ◌*◌, ◌/◌, ◌%◌, ◌^◌, Option, some, leb, if◌then◌else◌, ◌||◌, ◌>>=◌,
}
use btcpool.Common.Int.{ℤ, pos}
use btcpool.Common.Bytes.{Bytes, codes, beq}
use btcpool.Common.Decimal.{format_int}
use btcpool.Common.Float.{Float64}

-- `GENESISNBITS`
abbrev pub genesis_n_bits : ℕ
genesis_n_bits = 486604799

-- The exponent and the mantissa of a uint32.
abbrev pub size_of : ℕ → ℕ
size_of n_bits = n_bits % 2 ^ 32 / 2 ^ 24

abbrev pub word_of : ℕ → ℕ
word_of n_bits = n_bits % 2 ^ 32 % 2 ^ 23

-- `NBits2Target`
unfoldable pub n_bits2_target : ℕ → ℕ
n_bits2_target n_bits =
    if leb (size_of n_bits) 3
    then word_of n_bits * 2 ^ (8 * (3 - size_of n_bits))
    else word_of n_bits * 2 ^ (8 * (size_of n_bits - 3))

module _ (f : Float64) where
  open f use {Float}

  -- `GetTargetWork`; `none` is an error.
  unfoldable pub get_target_work : ℤ → Option Float
  get_target_work target = do
    target_max_float ← f.parse_float (format_int (pos (2 ^ 256)))
    target_float ← f.parse_float (format_int target)
    some (f.div target_max_float target_float)

  -- `GetGenesisTargetWork`
  unfoldable pub get_genesis_target_work : Option Float
  get_genesis_target_work = get_target_work (pos (n_bits2_target genesis_n_bits))

  -- So many rounds of the first loop of `GetNBitsDiff`, and of the second.
  unfoldable pub scale_up : ℕ → Float → Float
  scale_up zero diff = diff
  scale_up (suc n) diff = scale_up n (f.mul diff (f.literal (codes "256.0")))

  unfoldable pub scale_down : ℕ → Float → Float
  scale_down zero diff = diff
  scale_down (suc n) diff = scale_down n (f.div diff (f.literal (codes "256.0")))

  -- `GetNBitsDiff`: the loops end when the exponent is 29.
  unfoldable pub get_n_bits_diff : ℕ → Float
  get_n_bits_diff n_bits =
      let shift = n_bits / 2 ^ 24 % 2 ^ 8 in
      scale_down (shift - 29)
        (scale_up (29 - shift) (f.div (f.of_int (pos 65535)) (f.of_int (pos (n_bits % 2 ^ 24)))))

  -- `GetTargetDiff`
  unfoldable pub get_target_diff : ℤ → Option Float
  get_target_diff target = do
    target_genesis_float ← f.parse_float (format_int (pos (n_bits2_target genesis_n_bits)))
    target_float ← f.parse_float (format_int target)
    some (f.div target_genesis_float target_float)

  -- `GetDiffWork`
  unfoldable pub get_diff_work : Float → Option Float
  get_diff_work diff = do genesis_work ← get_genesis_target_work; some (f.mul genesis_work diff)

  -- A power of ten under a hash rate.
  abbrev pub per : Float → Bytes → Float
  per hash_rate exponent = f.div hash_rate (f.pow (f.literal (codes "10.0")) (f.literal exponent))

  -- `GetHashRateByWork`
  unfoldable pub get_hash_rate_by_work : Float → ℤ → Bytes → Float
  get_hash_rate_by_work work secs unit =
      let hash_rate = f.div work (f.of_int secs) in
      if beq unit (codes "k") || beq unit (codes "K")
      then per hash_rate (codes "3.0")
      else if beq unit (codes "m") || beq unit (codes "M")
      then per hash_rate (codes "6.0")
      else if beq unit (codes "g") || beq unit (codes "G")
      then per hash_rate (codes "9.0")
      else if beq unit (codes "t") || beq unit (codes "T")
      then per hash_rate (codes "12.0")
      else if beq unit (codes "p") || beq unit (codes "P")
      then per hash_rate (codes "15.0")
      else if beq unit (codes "e") || beq unit (codes "E")
      then per hash_rate (codes "18.0")
      else hash_rate

  -- `GetHashRateByDiff`
  unfoldable pub get_hash_rate_by_diff : Float → ℤ → Bytes → Option Float
  get_hash_rate_by_diff diff secs unit = do
    work ← get_diff_work diff
    some (get_hash_rate_by_work work secs unit)

  -- `GetHashRateByNBits`
  unfoldable pub get_hash_rate_by_n_bits : ℕ → ℤ → Bytes → Option Float
  get_hash_rate_by_n_bits n_bits secs unit = do
    work ← get_target_work (pos (n_bits2_target n_bits))
    some (get_hash_rate_by_work work secs unit)

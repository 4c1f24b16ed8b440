-- ===== src/Storage/Finance/Keys.antt =====
-- The keys of the miners and of the finances, and what a queue does to them.
use btcpool.Common.{◌≡◌, Bool, true, false, List, ◌++◌}
use btcpool.Common.Int.{
  ℤ, pos, IsInt64, ◌+ℤ◌, +ℤ_assoc, +ℤ_zero, zero_+ℤ, +ℤ_parts, eq_of_parts, int_laws, add64, neg64,
  wrap64, neg_ℤ, wrap64-add, wrap64_fits, neg-+ℤ,
}
use btcpool.Common.Bytes.{Bytes, codes, beq, beq_refl, beq-append, starts_with, starts_with-append}
use btcpool.Storage.Keys.{format_key}
use btcpool.Storage.Commands.{
  Cmd, increments, increments-append, when, when-false, when-zero, when-+ℤ,
}
use btcpool.Storage.Finance.{miner_key, finances_key}

module _ (prefix : Bytes) where
  -- The keys `prefix:miners:...`.
  pub is_miner_key : Bytes → Bool
  is_miner_key = starts_with (prefix ++ codes ":miners:")

  pub is_finances_key : Bytes → Bool
  is_finances_key k = beq k (finances_key prefix)

  pub is_miner_key-miner_key : (login : Bytes) → is_miner_key (miner_key prefix login) ≡ true
  unfolding is_miner_key format_key
  is_miner_key-miner_key login =
      starts_with-append prefix (codes ":miners:") (codes ":miners:" ++ login)

  pub is_miner_key-finances_key : is_miner_key (finances_key prefix) ≡ false
  unfolding is_miner_key format_key
  is_miner_key-finances_key = starts_with-append prefix (codes ":miners:") (codes ":finances")

  pub is_finances_key-miner_key : (login : Bytes) → is_finances_key (miner_key prefix login) ≡ false
  unfolding is_finances_key format_key
  is_finances_key-miner_key login =
      beq-append prefix (codes ":miners:" ++ login) (codes ":finances")

  pub is_finances_key-finances_key : is_finances_key (finances_key prefix) ≡ true
  unfolding is_finances_key
  is_finances_key-finances_key = beq_refl (finances_key prefix)

  -- A queue raises a field of all the miners together as it raises that field of the finances.
  abbrev pub IsBalanced : Bytes → List Cmd → Type 0
  IsBalanced f q = increments is_miner_key f q ≡ increments is_finances_key f q

pub ruleset key_tests = (
  is_miner_key-miner_key, is_miner_key-finances_key, is_finances_key-miner_key,
  is_finances_key-finances_key,
)

pub ruleset ledger = (key_tests, when-false, zero_+ℤ, +ℤ_zero, when-+ℤ, increments-append)

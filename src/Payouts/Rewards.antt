-- ===== src/Payouts/Rewards.antt =====
-- payouts/unlocker.go: `chargeFee`, `calculateRewardsForShares`, `calculateRewards` and `handleBlock`.
-- `fee / 100` is a float64: its exact value, which `SetFloat64` takes, is an argument.
pub mod Bounds
pub mod Fee
use btcpool.Common.{
  ℕ, ◌+◌, ◌-◌, ◌==◌, ◌&&◌, Bool, true, false, Option, none, some, List, [], ◌∷◌, map, leb, ltb,
  length, ◌>>=◌, if◌then◌else◌,
}
use btcpool.Common.Int.{ℤ, pos, ◌+ℤ◌, add64}
use btcpool.Common.Bytes.{Bytes, codes, beq}
use btcpool.Common.Decimal.{parse_int}
use btcpool.Storage.Keys.{BlockData}
use btcpool.Payouts.Rational.{Rat, of_int, new_rat, add, sub, mul, float_string}

-- Returns new value after fee deduction and fee value.
pub charge_fee : Rat → Rat → Rat × Rat
charge_fee value fee_percent =
    let fee_value = mul value fee_percent in (sub value fee_value, fee_value)

-- `rewards[login] += value` on a map.
pub add_reward : Bytes → ℤ → List (Bytes × ℤ) → List (Bytes × ℤ)
add_reward login value [] = (login, value) ∷ []
add_reward login value ((l, v) ∷ rewards) =
    if beq l login then (l, add64 v value) ∷ rewards else (l, v) ∷ add_reward login value rewards

-- What one login gets for `n` shares of `total`; `none` is the panic of `big.NewRat` at zero.
pub worker_value : ℤ → Rat → ℤ → Option ℤ
worker_value total reward n = do
  percent ← new_rat n total
  some (parse_int (float_string (mul reward percent))).0

-- The loop of `calculateRewardsForShares`.
pub rewards_loop : List (Bytes × ℤ) → ℤ → Rat → List (Bytes × ℤ) → Option (List (Bytes × ℤ))
rewards_loop [] total reward rewards = some rewards
rewards_loop ((login, n) ∷ shares) total reward rewards = do
  value ← worker_value total reward n
  rewards_loop shares total reward (add_reward login value rewards)

pub calculate_rewards_for_shares : List (Bytes × ℤ) → ℤ → Rat → Option (List (Bytes × ℤ))
calculate_rewards_for_shares shares total reward = rewards_loop shares total reward []

-- The fields of `UnlockerConfig` that the methods read. `fee_percent` is the exact value of
-- `poolFee / 100`.
pub record Config : Type 0 where
  pub fee_percent : Rat
  pub pool_fee_address : Bytes
  pub depth : ℤ
  pub immature_depth : ℤ
  pub keep_tx_fees : Bool

-- `strings.ToLower` on ASCII.
pub to_lower : Bytes → Bytes
to_lower = map (λ c. if leb b'A' c && leb c b'Z' then c + 32 else c)

pub record Round : Type 0 where
  pub revenue : Rat
  pub miners_profit : Rat
  pub pool_profit : Rat
  pub rewards : List (Bytes × ℤ)

-- The end of `calculateRewards`: the pool's part, to its own address.
pub credit_pool : Config → Rat → List (Bytes × ℤ) → List (Bytes × ℤ)
credit_pool c pool_profit rewards =
    if ltb 0 (length c.pool_fee_address)
    then add_reward (to_lower c.pool_fee_address) (parse_int (float_string pool_profit)).0 rewards
    else rewards

-- `calculateRewards` with the shares of the round that Redis gives; `none` is a panic: a nil reward,
-- or a total of zero with a share to reward.
pub calculate_rewards : Config → BlockData → List (Bytes × ℤ) → Option Round
calculate_rewards c block shares = do
  reward ← block.reward
  let revenue = of_int reward
  let (miners_profit, pool_profit) = charge_fee revenue c.fee_percent
  rewards ← calculate_rewards_for_shares shares block.total_shares miners_profit
  some (elim block.extra_reward [
    | none ↦ record {
      revenue = revenue;
      miners_profit = miners_profit;
      pool_profit = pool_profit;
      rewards = credit_pool c pool_profit rewards;
    }
    | some extra ↦ record {
      revenue = add revenue (of_int extra);
      miners_profit = miners_profit;
      pool_profit = add pool_profit (of_int extra);
      rewards = credit_pool c (add pool_profit (of_int extra)) rewards;
    }
  ])

-- `handleBlock`, with the block's hash from the node; `none` is the panic at a nil value.
unfoldable pub handle_block : Config → Bytes → BlockData → Option BlockData
handle_block c hash candidate = do
  reward ← candidate.coin_base_value
  extra_tx_reward ← candidate.blk_total_fee
  some (
      if c.keep_tx_fees
      then record candidate {
        orphan = false;
        hash = hash;
        extra_reward = some extra_tx_reward;
        reward = some reward;
      }
      else record candidate {
        orphan = false;
        hash = hash;
        reward = some (reward +ℤ extra_tx_reward);
      })

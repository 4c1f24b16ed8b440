-- ===== src/Tests/Payouts.antt =====
-- Rewards of one block, and sessions of the unlocker with a node and a backend that are fixed.
use btcpool.Common.{
  ℕ, ◌*◌, ◌+◌, ◌≤◌, ◌≡◌, refl, true, false, none, some, List, [], ◌∷◌, map, length, arith,
}
use btcpool.Common.Int.{ℤ, pos}
use btcpool.Common.Bytes.{Bytes, codes}
use btcpool.Common.Hex.{hex8}
use btcpool.Storage.Keys.{BlockData, empty_block}
use btcpool.Payouts.Rewards.{Config, calculate_rewards_for_shares}
use btcpool.Payouts.Rewards.Bounds.{sum_rewards, as_int, calculate_rewards_for_shares_bounds}
use btcpool.Payouts.Rewards.Fee.{odd_reward_overpays}
use btcpool.Payouts.Unlocker.{Services, BlockUnlocker, unlock_candidates}
use btcpool.Payouts.Unlocker.Split.{Splits, unlock_candidates-Splits}

abbrev prefix : Bytes
prefix = codes "btc"

abbrev shares : List (Bytes × ℕ)
shares = (codes "alice", 3) ∷ (codes "bob", 1) ∷ []

calculate_rewards_for_shares_bounds_example :
    (rewards : List (Bytes × ℤ)) × (calculate_rewards_for_shares
        (map as_int shares)
        (pos 4)
        (record { num = pos 10; den = 1 })
      ≡ some rewards)
    × (2 * (1 * sum_rewards rewards) ≤ 2 * 10 + length shares * 1)
    × (2 * 10 ≤ 2 * (1 * sum_rewards rewards) + length shares * 1)
calculate_rewards_for_shares_bounds_example =
    calculate_rewards_for_shares_bounds 10 1 4 (omega arith) (omega arith) shares (ground arith)
      (ground arith) refl

odd_reward_overpays_example :
    (rewards : List (Bytes × ℤ)) × (calculate_rewards_for_shares
        ((codes "alice", pos 1) ∷ (codes "bob", pos 1) ∷ [])
        (pos 2)
        (record { num = pos 5; den = 1 })
      ≡ some rewards)
    × (sum_rewards rewards ≡ 6)
odd_reward_overpays_example =
    odd_reward_overpays (codes "alice") (codes "bob") 1 2 refl (omega arith) (omega arith)

abbrev config : Config
config = record {
  fee_percent = record { num = pos 1; den = 50 };
  pool_fee_address = codes "pool";
  depth = pos 100;
  immature_depth = pos 20;
  keep_tx_fees = false;
}

abbrev mined : BlockData
mined = record empty_block {
  height = pos 800000;
  round_height = pos 800000;
  nonce = hex8 439041101;
  coin_base_value = some (pos 1000);
  blk_total_fee = some (pos 7);
}

abbrev lost : BlockData
lost = record mined { nonce = hex8 1 }

-- The node knows one block, and the backend gives two candidates for its height.
abbrev one_block : Services
one_block = record {
  St = Unit {0};
  pending_height = λ s. some 800021;
  block_hash = λ h s. some (codes "00000000000000ab");
  block_by_hash =
      λ h s. some (some (record { nonce = 439041101; hash = codes "00000000000000ab" }));
  candidates = λ h s. some (mined ∷ lost ∷ []);
  immature_blocks = λ h s. some [];
  round_shares = λ h n s. some ((codes "alice", pos 3) ∷ (codes "bob", pos 1) ∷ []);
  watch = λ k s. true;
  hget_all_map = λ k s. some [];
  now = λ s. pos 1700000000;
  exec = λ q s. (true, s);
}

unlock_candidates-Splits_example :
    Splits config prefix one_block
      (mined ∷ lost ∷ [])
      tt
      (unlock_candidates config prefix one_block (mined ∷ lost ∷ []) tt)
unlock_candidates-Splits_example =
    unlock_candidates-Splits config prefix one_block (mined ∷ lost ∷ []) tt

-- A node that is down.
abbrev no_node : Services
no_node = record one_block { pending_height = λ s. none }

abbrev running : BlockUnlocker
running = record { halt = false; last_fail = none }

-- ===== src/Tests/Finance.antt =====
-- Balances of two miners, who are paid for one block.
use btcpool.Common.{◌≡◌, refl, true, some, List, [], ◌∷◌, arith}
use btcpool.Common.Int.{ℤ, pos, ◌+ℤ◌, neg_ℤ, IsInt64}
use btcpool.Common.Bytes.{Bytes, codes}
use btcpool.Common.Decimal.{format_int, parse_int, parse_int-format_int}
use btcpool.Storage.Finance.Loops.{sum, sum_credits, CreditsFit}
use btcpool.Storage.Keys.{BlockData, empty_block}
use btcpool.Storage.Commands.{Cmd, increments}
use btcpool.Storage.Finance.{
  immature_credits_key, update_balance, rollback_balance, write_payment, write_immature_block,
  write_matured_block, write_orphan,
}
use btcpool.Storage.Finance.Keys.{is_miner_key, IsBalanced}
use btcpool.Storage.Finance.Payments.{payments-IsBalanced, rollback_balance-update_balance}
use btcpool.Storage.Finance.Balance.{
  Matures, write_immature_block-IsBalanced, write_matured_block-Matures,
}
use btcpool.Storage.Finance.Credits.{recorded, write_orphan-write_immature_block}

abbrev prefix : Bytes
prefix = codes "btc"

abbrev block : BlockData
block = record empty_block {
  height = pos 800000;
  round_height = pos 800000;
  hash = codes "00ab";
  nonce = codes "1a2b3c4d";
  reward = some (pos 1000);
}

abbrev rewards : List (Bytes × ℤ)
rewards = (codes "alice", pos 600) ∷ (codes "bob", pos 400) ∷ []

abbrev credits : List (Bytes × Bytes)
credits = (codes "alice", format_int (pos 600)) ∷ (codes "bob", format_int (pos 400)) ∷ []

rewards-IsInt64 : IsInt64 (sum rewards)
unfolding sum ◌+ℤ◌
rewards-IsInt64 = ground arith

negated_rewards-IsInt64 : IsInt64 (neg_ℤ (sum rewards))
unfolding sum ◌+ℤ◌
negated_rewards-IsInt64 = ground arith

read_600 : parse_int (format_int (pos 600)) ≡ (pos 600, true)
read_600 = parse_int-format_int (pos 600) (ground arith)

read_400 : parse_int (format_int (pos 400)) ≡ (pos 400, true)
read_400 = parse_int-format_int (pos 400) (ground arith)

credits-CreditsFit : CreditsFit credits
credits-CreditsFit = rw (read_600, read_400) (ground arith)

credits-IsInt64 : IsInt64 (sum_credits credits)
unfolding sum_credits ◌+ℤ◌
credits-IsInt64 = rw (read_600, read_400) (ground arith)

negated_credits-IsInt64 : IsInt64 (neg_ℤ (sum_credits credits))
unfolding sum_credits ◌+ℤ◌
negated_credits-IsInt64 = rw (read_600, read_400) (ground arith)

write_orphan-write_immature_block_example :
    let immature = write_immature_block prefix block rewards in
    let read = recorded (immature_credits_key prefix block.round_height block.hash) immature [] in
    increments (is_miner_key prefix) (codes "immature") immature
      +ℤ increments (is_miner_key prefix) (codes "immature") (write_orphan prefix block read)
    ≡ pos 0
write_orphan-write_immature_block_example =
    write_orphan-write_immature_block prefix (is_miner_key prefix) (codes "immature") block block
      rewards (ground arith) (ground arith) rewards-IsInt64 negated_rewards-IsInt64 refl refl

write_immature_block-IsBalanced_example :
    IsBalanced prefix (codes "immature") (write_immature_block prefix block rewards)
write_immature_block-IsBalanced_example =
    write_immature_block-IsBalanced prefix block rewards (codes "immature") rewards-IsInt64

write_matured_block-Matures_example :
    (q : List Cmd) × (write_matured_block prefix (pos 1700000000) block credits rewards ≡ some q)
    × Matures prefix credits rewards (codes "balance") q
write_matured_block-Matures_example =
    write_matured_block-Matures prefix (pos 1700000000) block credits rewards (codes "balance")
      (pos 1000) credits-CreditsFit credits-IsInt64 negated_credits-IsInt64 rewards-IsInt64 refl
      refl

payments-IsBalanced_example :
    IsBalanced prefix
      (codes "paid")
      (update_balance prefix (pos 1700000000) (codes "alice") (pos 600))
    × IsBalanced prefix (codes "paid") (rollback_balance prefix (codes "alice") (pos 600))
    × IsBalanced prefix
        (codes "paid")
        (write_payment prefix (pos 1700000000) (codes "alice") (codes "0xfe") (pos 600))
payments-IsBalanced_example =
    payments-IsBalanced prefix (pos 1700000000) (codes "alice") (codes "0xfe") (pos 600)
      (codes "paid")

rollback_balance-update_balance_example :
    increments
        (λ k. true)
        (codes "balance")
        (update_balance prefix (pos 1700000000) (codes "alice") (pos 600))
      +ℤ increments
          (λ k. true)
          (codes "balance")
          (rollback_balance prefix (codes "alice") (pos 600))
    ≡ pos 0
rollback_balance-update_balance_example =
    rollback_balance-update_balance prefix (λ k. true) (codes "balance") (pos 1700000000)
      (codes "alice") (pos 600) (omega arith)

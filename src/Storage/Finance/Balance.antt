-- ===== src/Storage/Finance/Balance.antt =====
-- The transactions of storage/redis.go keep the pool's finances equal to the sums over the miners.
use btcpool.Common.{refl, ◌≡◌, false, some, List}
use btcpool.Common.Int.{wrap64, ℤ, pos, IsInt64, ◌+ℤ◌, +ℤ_comm, neg64, neg_ℤ, wrap64_fits}
use btcpool.Common.Bytes.{Bytes, codes, beq}
use btcpool.Storage.Keys.{BlockData}
use btcpool.Storage.Commands.{Cmd, increments, when}
use btcpool.Storage.Finance.{
  write_immature_block, queue_credits, write_orphan, write_matured_block, reward_in_satoshi,
}
use btcpool.Storage.Finance.Keys.{is_miner_key, IsBalanced, ledger}
use btcpool.Storage.Finance.Loops.{
  sum, sum_credits, CreditsFit, credit_immature-total_fits, credit_immature-increments,
  take_back-total_fits, take_back-increments, credit_balance-total_fits, credit_balance-increments,
  queue_immature_block-increments, queue_matured_block-increments,
}

module _ (prefix : Bytes) where
  -- `WriteImmatureBlock` raises the immature balance of the pool by what it raises those of the
  -- miners, and every other field of both alike. The sum of the rewards fits an int64.
  pub write_immature_block-IsBalanced :
      (block : BlockData) (rewards : List (Bytes × ℤ)) (f : Bytes)
      → IsInt64 (sum rewards)
      → IsBalanced prefix f (write_immature_block prefix block rewards)
  unfolding write_immature_block increments
  write_immature_block-IsBalanced block rewards f fits =
      let (m, n) = credit_immature-increments prefix block (pos 0) rewards f in
      simp (
        ledger,
        queue_immature_block-increments prefix block,
        m,
        n,
        credit_immature-total_fits prefix block rewards fits,
      )

  -- `WriteOrphan` moves every field of the pool's finances by what it moves that field over the
  -- miners. Each credit that was read, their sum and its negation fit an int64.
  pub write_orphan-IsBalanced :
      (block : BlockData) (credits : List (Bytes × Bytes)) (f : Bytes)
      → CreditsFit credits
      → IsInt64 (sum_credits credits)
      → IsInt64 (neg_ℤ (sum_credits credits))
      → IsBalanced prefix f (write_orphan prefix block credits)
  unfolding write_orphan increments neg64
  write_orphan-IsBalanced block credits f each fits neg =
      let (m, n) = take_back-increments prefix (pos 0) credits f each in
      simp (
        ledger,
        queue_matured_block-increments prefix block,
        m,
        n,
        take_back-total_fits prefix credits fits,
        wrap64_fits _ neg,
      )

  -- The queue takes the credits back from the immature balances and adds the rewards to the
  -- balances, over the miners and for the pool alike.
  abbrev pub Matures : List (Bytes × Bytes) → List (Bytes × ℤ) → Bytes → List Cmd → Type 0
  Matures credits rewards f q =
      IsBalanced prefix f q
      × (increments (is_miner_key prefix) f q
          ≡ when (beq (codes "immature") f) (neg_ℤ (sum_credits credits))
            +ℤ when (beq (codes "balance") f) (sum rewards))

  queue_credits-Matures :
      (ts : ℤ) (block : BlockData) (credits : List (Bytes × Bytes)) (rewards : List (Bytes × ℤ))
      (mined : ℤ) (f : Bytes)
      → CreditsFit credits
      → IsInt64 (sum_credits credits)
      → IsInt64 (neg_ℤ (sum_credits credits))
      → IsInt64 (sum rewards)
      → beq (codes "totalMined") f ≡ false
      → Matures credits rewards f (queue_credits prefix ts block credits rewards mined)
  unfolding queue_credits increments neg64
  queue_credits-Matures ts block credits rewards mined f each fits neg total other =
      let (m, n) = take_back-increments prefix (pos 0) credits f each in
      let (m', n') = credit_balance-increments prefix block (pos 0) rewards f in
      (
        simp
            (
              ledger,
              queue_matured_block-increments prefix block,
              m,
              n,
              m',
              n',
              other,
              take_back-total_fits prefix credits fits,
              wrap64_fits _ neg,
              credit_balance-total_fits prefix block rewards total,
            )
            (+ℤ_comm _ _),
        simp (ledger, queue_matured_block-increments prefix block, m, m', other),
      )

  -- On a block with a reward `WriteMaturedBlock` runs, and every field but the total mined moves alike
  -- over the miners and for the pool: the immature balances lose the credits that were read, the
  -- balances gain the rewards, and nothing else moves. The credits, the two sums and the negation of
  -- the credits' sum fit an int64.
  pub write_matured_block-Matures :
      (ts : ℤ) (block : BlockData) (credits : List (Bytes × Bytes)) (rewards : List (Bytes × ℤ))
      (f : Bytes) (reward : ℤ)
      → CreditsFit credits
      → IsInt64 (sum_credits credits)
      → IsInt64 (neg_ℤ (sum_credits credits))
      → IsInt64 (sum rewards)
      → beq (codes "totalMined") f ≡ false
      → block.reward ≡ some reward
      → (q : List Cmd) × (write_matured_block prefix ts block credits rewards ≡ some q)
        × Matures credits rewards f q
  unfolding write_matured_block reward_in_satoshi
  write_matured_block-Matures ts block credits rewards f reward each fits neg total other e = (
    queue_credits prefix ts block credits rewards (wrap64 reward),
    rw e refl,
    queue_credits-Matures ts block credits rewards (wrap64 reward) f each fits neg total other,
  )

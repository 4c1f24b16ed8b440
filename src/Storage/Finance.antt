-- ===== src/Storage/Finance.antt =====
-- storage/redis.go: the transactions on balances, rewards and blocks, as the queues of commands
-- that the function given to `tx.Exec` makes. A map is the list of its entries in the order in
-- which the `range` loop meets them.
pub mod Keys
pub mod Loops
pub mod Payments
pub mod Balance
pub mod Credits
use mathlib.Core.Option
use btcpool.Common.{
  Bool, true, false, Option, none, some, List, [], ◌∷◌, ◌++◌, ◌==◌, ◌&&◌, if◌then◌else◌,
}
use btcpool.Common.Int.{ℤ, pos, pos_part, neg_part, add64, neg64, wrap64}
use btcpool.Common.Bytes.{Bytes, codes}
use btcpool.Common.Decimal.{format_int, parse_int}
use btcpool.Storage.Keys.{BlockData, Arg, str, int64, big, join, format_key, format_round, key}
use btcpool.Storage.Rows.{Z}
use btcpool.Storage.Commands.{Cmd, hset, hset_nx, hincr_by, zadd, zrem, rename, del}

-- `b.Reward.Int64()`; `none` is the panic at a nil pointer.
pub reward_in_satoshi : BlockData → Option ℤ
reward_in_satoshi block = elim block.reward [ none ↦ none | some r ↦ some (wrap64 r) ]

module _ (prefix : Bytes) where
  abbrev pub miner_key : Bytes → Bytes
  miner_key login = format_key prefix (str (codes "miners") ∷ str login ∷ [])

  abbrev pub finances_key : Bytes
  finances_key = format_key prefix (str (codes "finances") ∷ [])

  abbrev pub immature_credits_key : ℤ → Bytes → Bytes
  immature_credits_key height hash =
      format_key prefix
        (str (codes "credits") ∷ str (codes "immature") ∷ int64 height ∷ str hash ∷ [])

  pub update_balance : ℤ → Bytes → ℤ → List Cmd
  update_balance ts login amount =
      hincr_by (miner_key login) (codes "balance") (neg64 amount)
      ∷ hincr_by (miner_key login) (codes "pending") amount
      ∷ hincr_by finances_key (codes "balance") (neg64 amount)
      ∷ hincr_by finances_key (codes "pending") amount
      ∷ zadd (format_key prefix (str (codes "payments") ∷ str (codes "pending") ∷ []))
          (record { score = ts; member = join (str login ∷ int64 amount ∷ []) })
      ∷ []

  pub rollback_balance : Bytes → ℤ → List Cmd
  rollback_balance login amount =
      hincr_by (miner_key login) (codes "balance") amount
      ∷ hincr_by (miner_key login) (codes "pending") (neg64 amount)
      ∷ hincr_by finances_key (codes "balance") amount
      ∷ hincr_by finances_key (codes "pending") (neg64 amount)
      ∷ zrem (format_key prefix (str (codes "payments") ∷ str (codes "pending") ∷ []))
          (join (str login ∷ int64 amount ∷ []))
      ∷ []

  pub write_payment : ℤ → Bytes → Bytes → ℤ → List Cmd
  write_payment ts login tx_hash amount =
      hincr_by (miner_key login) (codes "pending") (neg64 amount)
      ∷ hincr_by (miner_key login) (codes "paid") amount
      ∷ hincr_by finances_key (codes "pending") (neg64 amount)
      ∷ hincr_by finances_key (codes "paid") amount
      ∷ zadd (format_key prefix (str (codes "payments") ∷ str (codes "all") ∷ []))
          (record { score = ts; member = join (str tx_hash ∷ str login ∷ int64 amount ∷ []) })
      ∷ zadd (format_key prefix (str (codes "payments") ∷ str login ∷ []))
          (record { score = ts; member = join (str tx_hash ∷ int64 amount ∷ []) })
      ∷ zrem (format_key prefix (str (codes "payments") ∷ str (codes "pending") ∷ []))
          (join (str login ∷ int64 amount ∷ []))
      ∷ del (format_key prefix (str (codes "payments") ∷ str (codes "lock") ∷ []))
      ∷ []

  -- The helper `writeImmatureBlock`.
  pub queue_immature_block : BlockData → List Cmd
  queue_immature_block block =
      (if pos_part block.height == pos_part block.round_height
          && neg_part block.height == neg_part block.round_height
        then []
        else rename (format_round prefix block.round_height block.nonce)
            (format_round prefix block.height block.nonce)
          ∷ [])
      ++ (zrem (format_key prefix (str (codes "blocks") ∷ str (codes "candidates") ∷ []))
            block.candidate_key
          ∷ zadd (format_key prefix (str (codes "blocks") ∷ str (codes "immature") ∷ []))
              (record { score = block.height; member = key block })
          ∷ [])

  -- The helper `writeMaturedBlock`.
  pub queue_matured_block : BlockData → List Cmd
  queue_matured_block block =
      del (format_round prefix block.round_height block.nonce)
      ∷ zrem (format_key prefix (str (codes "blocks") ∷ str (codes "immature") ∷ []))
          block.immature_key
      ∷ zadd (format_key prefix (str (codes "blocks") ∷ str (codes "matured") ∷ []))
          (record { score = block.height; member = key block })
      ∷ []

  -- The loop of `WriteImmatureBlock`: what it queues, and the total.
  pub credit_immature : BlockData → ℤ → List (Bytes × ℤ) → List Cmd × ℤ
  credit_immature block total [] = ([], total)
  credit_immature block total ((login, amount) ∷ rewards) =
      let (rest, sum) = credit_immature block (add64 total amount) rewards in
      (
        hincr_by (miner_key login) (codes "immature") amount
            ∷ hset_nx (immature_credits_key block.height block.hash) login (format_int amount)
            ∷ rest,
        sum,
      )

  pub write_immature_block : BlockData → List (Bytes × ℤ) → List Cmd
  write_immature_block block rewards =
      let (credits, total) = credit_immature block (pos 0) rewards in
      queue_immature_block block ++ (credits ++ hincr_by finances_key (codes "immature") total ∷ [])

  -- The loop that takes back the immature credits.
  pub take_back : ℤ → List (Bytes × Bytes) → List Cmd × ℤ
  take_back total [] = ([], total)
  take_back total ((login, amount_string) ∷ credits) =
      let amount = (parse_int amount_string).0 in
      let (rest, sum) = take_back (add64 total amount) credits in
      (hincr_by (miner_key login) (codes "immature") (neg64 amount) ∷ rest, sum)

  -- The loop that credits the balances.
  pub credit_balance : BlockData → ℤ → List (Bytes × ℤ) → List Cmd × ℤ
  credit_balance block total [] = ([], total)
  credit_balance block total ((login, amount) ∷ rewards) =
      let (rest, sum) = credit_balance block (add64 total amount) rewards in
      (
        hincr_by (miner_key login) (codes "balance") amount
            ∷ hset_nx
                (format_key prefix
                  (str (codes "credits") ∷ int64 block.height ∷ str block.hash ∷ []))
                login (format_int amount)
            ∷ rest,
        sum,
      )

  -- What `WriteMaturedBlock` queues where the block's reward is the int64 `mined`; `credits` is the
  -- reply to the HGETALL of the immature credits, under WATCH.
  pub queue_credits : ℤ → BlockData → List (Bytes × Bytes) → List (Bytes × ℤ) → ℤ → List Cmd
  queue_credits ts block credits rewards mined =
      let (debits, total_immature) = take_back (pos 0) credits in
      let (payments, total) = credit_balance block (pos 0) rewards in
      queue_matured_block block
      ++ (zadd (format_key prefix (str (codes "credits") ∷ str (codes "all") ∷ [])) (record {
        score = block.height;
        member = join (str block.hash ∷ int64 ts ∷ big block.reward ∷ []);
      })
          ∷ (debits
              ++ (payments
                  ++ (del (immature_credits_key block.round_height block.hash)
                      ∷ hincr_by finances_key (codes "balance") total
                      ∷ hincr_by finances_key (codes "immature") (neg64 total_immature)
                      ∷ hset finances_key (codes "lastCreditHeight") (format_int block.height)
                      ∷ hset finances_key (codes "lastCreditHash") block.hash
                      ∷ hincr_by finances_key (codes "totalMined") mined
                      ∷ []))))

  pub write_matured_block :
      ℤ → BlockData → List (Bytes × Bytes) → List (Bytes × ℤ) → Option (List Cmd)
  write_matured_block ts block credits rewards =
      Option.map (queue_credits ts block credits rewards) (reward_in_satoshi block)

  pub write_orphan : BlockData → List (Bytes × Bytes) → List Cmd
  write_orphan block credits =
      let (debits, total_immature) = take_back (pos 0) credits in
      queue_matured_block block
      ++ (debits
          ++ (del (immature_credits_key block.round_height block.hash)
              ∷ hincr_by finances_key (codes "immature") (neg64 total_immature)
              ∷ []))

  pub write_pending_orphans : List BlockData → List Cmd
  write_pending_orphans [] = []
  write_pending_orphans (block ∷ blocks) =
      queue_immature_block block ++ write_pending_orphans blocks

-- ===== src/Storage/Finance/Payments.antt =====
-- The payment transactions of storage/redis.go: debit, rollback and completion.
use btcpool.Common.{◌≡◌, Bool, ◌&&◌}
use btcpool.Common.Int.{ℤ, pos, IsInt64, ◌+ℤ◌, neg64, neg_ℤ, neg_parts, wrap64_fits, int_laws}
use btcpool.Common.Bytes.{Bytes, codes, beq}
use btcpool.Storage.Commands.{increments, when, when-neg}
use btcpool.Storage.Finance.{
  miner_key, finances_key, update_balance, rollback_balance, write_payment,
}
use btcpool.Storage.Finance.Keys.{is_miner_key, IsBalanced, ledger}

module _ (prefix : Bytes) where
  -- `UpdateBalance`, `RollbackBalance` and `WritePayment` each move every field of the pool's
  -- finances by exactly what they move that field over all the miners' hashes.
  pub payments-IsBalanced :
      (ts : ℤ) (login tx_hash : Bytes) (amount : ℤ) (f : Bytes)
      → IsBalanced prefix f (update_balance prefix ts login amount)
        × IsBalanced prefix f (rollback_balance prefix login amount)
        × IsBalanced prefix f (write_payment prefix ts login tx_hash amount)
  unfolding update_balance rollback_balance write_payment increments
  payments-IsBalanced ts login tx_hash amount f = (simp ledger, simp ledger, simp ledger)

  abbrev on : (Bytes → Bool) → Bytes → Bytes → Bytes → ℤ → ℤ
  on p f k field n = when (p k && beq field f) n

  cancel_four :
      (a b c d : ℤ)
      → neg_ℤ a +ℤ (b +ℤ (neg_ℤ c +ℤ (d +ℤ pos 0))) +ℤ (a +ℤ (neg_ℤ b +ℤ (c +ℤ (neg_ℤ d +ℤ pos 0))))
        ≡ pos 0
  cancel_four a b c d = omega (int_laws, neg_parts a, neg_parts b, neg_parts c, neg_parts d)

  -- `RollbackBalance` undoes `UpdateBalance`: over the two, every field of every key is raised by
  -- zero. The amount's negation fits an int64.
  pub rollback_balance-update_balance :
      (p : Bytes → Bool) (f : Bytes) (ts : ℤ) (login : Bytes) (amount : ℤ)
      → IsInt64 (neg_ℤ amount)
      → increments p f (update_balance prefix ts login amount)
          +ℤ increments p f (rollback_balance prefix login amount)
        ≡ pos 0
  unfolding update_balance rollback_balance increments neg64
  rollback_balance-update_balance p f ts login amount fits = rw (wrap64_fits (neg_ℤ amount) fits) (
      simp when-neg (
        cancel_four (on p f (miner_key prefix login) (codes "balance") amount)
          (on p f (miner_key prefix login) (codes "pending") amount)
          (on p f (finances_key prefix) (codes "balance") amount)
          (on p f (finances_key prefix) (codes "pending") amount)))

  -- `WritePayment` settles what `UpdateBalance` made pending: over the two, a miner's hash loses the
  -- amount from the balance and gains it as paid, and the pending amount is what it was.
  pub write_payment-update_balance :
      (f : Bytes) (ts ts' : ℤ) (login tx_hash : Bytes) (amount : ℤ)
      → IsInt64 (neg_ℤ amount)
      → increments (is_miner_key prefix) f (update_balance prefix ts login amount)
          +ℤ increments (is_miner_key prefix) f (write_payment prefix ts' login tx_hash amount)
        ≡ when (beq (codes "balance") f) (neg_ℤ amount) +ℤ when (beq (codes "paid") f) amount
  unfolding update_balance write_payment increments neg64
  write_payment-update_balance f ts ts' login tx_hash amount fits =
      rw (wrap64_fits (neg_ℤ amount) fits) (
        simp (ledger, when-neg)
          (settle (when (beq (codes "balance") f) amount) (when (beq (codes "pending") f) amount)
            (when (beq (codes "paid") f) amount)))
    where
      settle : (a b c : ℤ) → neg_ℤ a +ℤ b +ℤ (neg_ℤ b +ℤ c) ≡ neg_ℤ a +ℤ c
      settle a b c = omega (int_laws, neg_parts a, neg_parts b)

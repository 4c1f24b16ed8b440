-- ===== src/Storage/Finance/Loops.antt =====
-- The loops over rewards and credits: what they queue, and their totals.
use btcpool.Common.{◌≡◌, refl, Bool, List, [], ◌∷◌, arith, ap, sym, All}
use btcpool.Common.Int.{
  ℤ, pos, IsInt64, ◌+ℤ◌, +ℤ_assoc, +ℤ_zero, zero_+ℤ, add64, neg64, wrap64, neg_ℤ, wrap64-add,
  wrap64_fits, neg-+ℤ,
}
use btcpool.Common.Bytes.{Bytes, codes, beq}
use btcpool.Common.Decimal.{parse_int}
use btcpool.Storage.Keys.{BlockData}
use btcpool.Storage.Commands.{increments, when, when-zero}
use btcpool.Storage.Finance.{
  credit_immature, queue_immature_block, take_back, credit_balance, queue_matured_block,
}
use btcpool.Storage.Finance.Keys.{is_miner_key, is_finances_key, ledger}

-- The exact sum of the amounts of a map.
unfoldable pub sum : List (Bytes × ℤ) → ℤ
sum [] = pos 0
sum ((_, amount) ∷ rewards) = amount +ℤ sum rewards

-- The exact sum of the amounts that a hash of credits spells.
unfoldable pub sum_credits : List (Bytes × Bytes) → ℤ
sum_credits [] = pos 0
sum_credits ((_, amount) ∷ credits) = (parse_int amount).0 +ℤ sum_credits credits

-- No credit is the least int64, whose negation would wrap around.
abbrev pub CreditsFit : List (Bytes × Bytes) → Type 0
CreditsFit = All (λ c. IsInt64 (neg_ℤ (parse_int c.1).0))

module _ (prefix : Bytes) where
  pub credit_immature-total :
      (block : BlockData) (z : ℤ) (rewards : List (Bytes × ℤ))
      → (credit_immature prefix block (wrap64 z) rewards).1 ≡ wrap64 (z +ℤ sum rewards)
  unfolding credit_immature sum add64
  credit_immature-total block z [] = ap wrap64 (sym (+ℤ_zero z))
  credit_immature-total block z ((login, amount) ∷ rewards) =
      rw (wrap64-add z amount, ← +ℤ_assoc z amount (sum rewards))
        (credit_immature-total block (z +ℤ amount) rewards)

  pub credit_immature-increments :
      (block : BlockData) (total : ℤ) (rewards : List (Bytes × ℤ)) (f : Bytes)
      → let q = (credit_immature prefix block total rewards).0 in
        (increments (is_miner_key prefix) f q ≡ when (beq (codes "immature") f) (sum rewards))
        × (increments (is_finances_key prefix) f q ≡ pos 0)
  unfolding credit_immature increments sum
  credit_immature-increments block total [] f = (sym (when-zero _), refl)
  credit_immature-increments block total ((login, amount) ∷ rewards) f =
      let (m, n) = credit_immature-increments block (add64 total amount) rewards f in
      (simp (ledger, m), simp (ledger, n))

  pub credit_immature-total_fits :
      (block : BlockData) (rewards : List (Bytes × ℤ))
      → IsInt64 (sum rewards)
      → (credit_immature prefix block (pos 0) rewards).1 ≡ sum rewards
  credit_immature-total_fits block rewards fits =
      simp (wrap64_fits (pos 0) (omega arith), zero_+ℤ, wrap64_fits (sum rewards) fits) at
        (credit_immature-total block (pos 0) rewards)

  pub take_back-total :
      (z : ℤ) (credits : List (Bytes × Bytes))
      → (take_back prefix (wrap64 z) credits).1 ≡ wrap64 (z +ℤ sum_credits credits)
  unfolding take_back sum_credits add64
  take_back-total z [] = ap wrap64 (sym (+ℤ_zero z))
  take_back-total z ((login, amount) ∷ credits) =
      rw
        (wrap64-add z (parse_int amount).0, ← +ℤ_assoc z (parse_int amount).0 (sum_credits credits))
        (take_back-total (z +ℤ (parse_int amount).0) credits)

  pub take_back-total_fits :
      (credits : List (Bytes × Bytes))
      → IsInt64 (sum_credits credits)
      → (take_back prefix (pos 0) credits).1 ≡ sum_credits credits
  take_back-total_fits credits fits =
      simp (wrap64_fits (pos 0) (omega arith), zero_+ℤ, wrap64_fits (sum_credits credits) fits) at
        (take_back-total (pos 0) credits)

  pub credit_balance-total :
      (block : BlockData) (z : ℤ) (rewards : List (Bytes × ℤ))
      → (credit_balance prefix block (wrap64 z) rewards).1 ≡ wrap64 (z +ℤ sum rewards)
  unfolding credit_balance sum add64
  credit_balance-total block z [] = ap wrap64 (sym (+ℤ_zero z))
  credit_balance-total block z ((login, amount) ∷ rewards) =
      rw (wrap64-add z amount, ← +ℤ_assoc z amount (sum rewards))
        (credit_balance-total block (z +ℤ amount) rewards)

  pub credit_balance-total_fits :
      (block : BlockData) (rewards : List (Bytes × ℤ))
      → IsInt64 (sum rewards)
      → (credit_balance prefix block (pos 0) rewards).1 ≡ sum rewards
  credit_balance-total_fits block rewards fits =
      simp (wrap64_fits (pos 0) (omega arith), zero_+ℤ, wrap64_fits (sum rewards) fits) at
        (credit_balance-total block (pos 0) rewards)

  pub credit_balance-increments :
      (block : BlockData) (total : ℤ) (rewards : List (Bytes × ℤ)) (f : Bytes)
      → let q = (credit_balance prefix block total rewards).0 in
        (increments (is_miner_key prefix) f q ≡ when (beq (codes "balance") f) (sum rewards))
        × (increments (is_finances_key prefix) f q ≡ pos 0)
  unfolding credit_balance increments sum
  credit_balance-increments block total [] f = (sym (when-zero _), refl)
  credit_balance-increments block total ((login, amount) ∷ rewards) f =
      let (m, n) = credit_balance-increments block (add64 total amount) rewards f in
      (simp (ledger, m), simp (ledger, n))

  pub take_back-increments :
      (total : ℤ) (credits : List (Bytes × Bytes)) (f : Bytes)
      → CreditsFit credits
      → let q = (take_back prefix total credits).0 in
        (increments (is_miner_key prefix) f q
          ≡ when (beq (codes "immature") f) (neg_ℤ (sum_credits credits)))
        × (increments (is_finances_key prefix) f q ≡ pos 0)
  unfolding take_back increments sum_credits neg64
  take_back-increments total [] f h = (sym (when-zero _), refl)
  take_back-increments total ((login, amount) ∷ credits) f h =
      let (m, n) = take_back-increments (add64 total (parse_int amount).0) credits f h.1 in
      (simp (ledger, m, wrap64_fits _ h.0, neg-+ℤ), simp (ledger, n))

  pub queue_immature_block-increments :
      (block : BlockData) (p : Bytes → Bool) (f : Bytes)
      → increments p f (queue_immature_block prefix block) ≡ pos 0
  unfolding queue_immature_block increments
  queue_immature_block-increments block p f = ground arith

  pub queue_matured_block-increments :
      (block : BlockData) (p : Bytes → Bool) (f : Bytes)
      → increments p f (queue_matured_block prefix block) ≡ pos 0
  unfolding queue_matured_block increments
  queue_matured_block-increments block p f = refl

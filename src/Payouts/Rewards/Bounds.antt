-- ===== src/Payouts/Rewards/Bounds.antt =====
-- What the shared-out rewards add up to: each is rounded to the nearest satoshi, so the sum misses
-- the reward by at most half a satoshi a login, in either direction.
use native.Mathlib.Nat.{div-add-mod, mod-lt, mul-pos, le_of_mul-le-mul_left}
use btcpool.Common.{
  ℕ, zero, suc, ◌+◌, ◌-◌, ◌*◌, ◌/◌, ◌^◌, ◌≤◌, ◌<◌, ◌≡◌, refl, ap, sym, some, List, [], ◌∷◌, ◌++◌,
  map, length, All, append_assoc, append-nil, arith,
}
use btcpool.Common.Int.{ℤ, pos, pos_part, ◌*ℤ◌}
use btcpool.Common.Bytes.{Bytes}
use btcpool.Common.Maps.{IsMap, Fresh, AllFresh, AllFresh-nil, AllFresh-append}
use btcpool.Common.Decimal.{parse_int-format_int}
use btcpool.Payouts.Rational.{Rat, new_rat, mul, round, float_string}
use btcpool.Payouts.Rewards.{add_reward, worker_value, rewards_loop, calculate_rewards_for_shares}

abbrev pub as_int : Bytes × ℕ → Bytes × ℤ
as_int (login, n) = (login, pos n)

abbrev pub sum_shares : List (Bytes × ℕ) → ℕ
sum_shares [] = 0
sum_shares ((_, n) ∷ shares) = n + sum_shares shares

abbrev pub sum_rewards : List (Bytes × ℤ) → ℕ
sum_rewards [] = 0
sum_rewards ((_, v) ∷ rewards) = pos_part v + sum_rewards rewards

add_reward-Fresh :
    (login : Bytes) (value : ℤ) (rewards : List (Bytes × ℤ))
    → Fresh login rewards
    → add_reward login value rewards ≡ rewards ++ (login, value) ∷ []
unfolding add_reward
add_reward-Fresh login value [] h = refl
add_reward-Fresh login value ((l, v) ∷ rewards) h =
    rw (h.0, add_reward-Fresh login value rewards h.1)

pos-*ℤ : (m n : ℕ) → pos m *ℤ pos n ≡ pos (m * n)
unfolding ◌*ℤ◌
pos-*ℤ m n = ground arith

new_rat-pos : (a : ℤ) (t : ℕ) → 0 < t → new_rat a (pos t) ≡ some (record { num = a; den = t })
unfolding new_rat
new_rat-pos a zero h = elim h [ ]
new_rat-pos a (suc t) h = refl

-- A rounded quotient is a half away from the exact one at most.
half_bounds :
    (a b : ℕ)
    → 0 < b
    → let q = (2 * a + b) / (2 * b) in (2 * (b * q) ≤ 2 * a + b) × (2 * a ≤ 2 * (b * q) + b)
half_bounds a b h =
    let p : 0 < 2 * b = omega arith in
    (
      omega (arith, div-add-mod (2 * a + b) (2 * b)),
      omega (arith, div-add-mod (2 * a + b) (2 * b), mod-lt (2 * a + b) p),
    )

add_bounds :
    (b v total x y k : ℕ)
    → (2 * (b * v) ≤ 2 * x + b) × (2 * x ≤ 2 * (b * v) + b)
    → (2 * (b * total) ≤ 2 * y + k * b) × (2 * y ≤ 2 * (b * total) + k * b)
    → (2 * (b * (v + total)) ≤ 2 * (x + y) + suc k * b)
      × (2 * (x + y) ≤ 2 * (b * (v + total)) + suc k * b)
add_bounds b v total x y k h l = (omega arith, omega arith)

-- A common positive factor is left out.
cancel_total :
    (t d n v k : ℕ)
    → 0 < t
    → (2 * (d * t * v) ≤ 2 * (n * t) + k * (d * t)) × (2 * (n * t) ≤ 2 * (d * t * v) + k * (d * t))
    → (2 * (d * v) ≤ 2 * n + k * d) × (2 * n ≤ 2 * (d * v) + k * d)
cancel_total t d n v k h l = (
  le_of_mul-le-mul_left {k = t} (omega (arith, l.0)) h,
  le_of_mul-le-mul_left {k = t} (omega (arith, l.1)) h,
)

-- A reward of `n / d` in satoshi, shared out over `t` shares.
module _ (n d t : ℕ) (d_pos : 0 < d) (t_pos : 0 < t) where
  abbrev pub reward : Rat
  reward = record { num = pos n; den = d }

  abbrev pub share_value : ℕ → ℕ
  share_value s = (2 * (n * s) + d * t) / (2 * (d * t))

  abbrev pub valued : Bytes × ℕ → Bytes × ℤ
  valued (login, s) = (login, pos (share_value s))

  -- Every login's value fits an int64.
  abbrev pub ValuesFit : List (Bytes × ℕ) → Type 0
  ValuesFit = All (λ s. share_value s.1 ≤ 2 ^ 63 - 1)

  worker_value-pos :
      (s : ℕ)
      → share_value s ≤ 2 ^ 63 - 1
      → worker_value (pos t) reward (pos s) ≡ some (pos (share_value s))
  unfolding worker_value mul float_string round
  worker_value-pos s h = rw (
    new_rat-pos (pos s) t t_pos,
    pos-*ℤ n s,
    parse_int-format_int (pos (share_value s)) (h, omega arith),
  )

  pub rewards_loop-eq :
      (shares : List (Bytes × ℕ)) (rewards : List (Bytes × ℤ))
      → IsMap shares
      → AllFresh shares rewards
      → ValuesFit shares
      → rewards_loop (map as_int shares) (pos t) reward rewards
        ≡ some (rewards ++ map valued shares)
  unfolding rewards_loop
  rewards_loop-eq [] rewards m f v = ap some (sym (append-nil rewards))
  rewards_loop-eq ((login, s) ∷ shares) rewards m f v = rw (
    worker_value-pos s v.0,
    add_reward-Fresh login (pos (share_value s)) rewards f.0,
    rewards_loop-eq shares (rewards ++ (login, pos (share_value s)) ∷ []) m.1
        (AllFresh-append login (pos (share_value s)) rewards shares m.0 f.1) v.1,
    append_assoc,
  )

  sum_bounds :
      (shares : List (Bytes × ℕ))
      → let total = sum_rewards (map valued shares) in
        (2 * (d * t * total) ≤ 2 * (n * sum_shares shares) + length shares * (d * t))
        × (2 * (n * sum_shares shares) ≤ 2 * (d * t * total) + length shares * (d * t))
  sum_bounds [] = (omega arith, omega arith)
  sum_bounds ((login, s) ∷ shares) =
      let total = sum_rewards (map valued shares) in
      let all =
        add_bounds (d * t) (share_value s) total (n * s) (n * sum_shares shares) (length shares)
          (half_bounds (n * s) (d * t) (mul-pos d_pos t_pos)) (sum_bounds shares) in
      (omega (arith, all.0), omega (arith, all.1))

  -- Where the shares of a map of logins make up the block's total, `calculateRewardsForShares`
  -- returns rewards whose sum differs from the reward, n / d, by half a satoshi a login at most, to
  -- either side; the values fit an int64.
  pub calculate_rewards_for_shares_bounds :
      (shares : List (Bytes × ℕ))
      → IsMap shares
      → ValuesFit shares
      → sum_shares shares ≡ t
      → (rewards : List (Bytes × ℤ)) × (calculate_rewards_for_shares
            (map as_int shares)
            (pos t)
            reward
          ≡ some rewards)
        × (2 * (d * sum_rewards rewards) ≤ 2 * n + length shares * d)
        × (2 * n ≤ 2 * (d * sum_rewards rewards) + length shares * d)
  unfolding calculate_rewards_for_shares
  calculate_rewards_for_shares_bounds shares m v whole =
      let bounds =
        cancel_total t d n (sum_rewards (map valued shares)) (length shares) t_pos
          (rw whole at (sum_bounds shares)) in
      (map valued shares, rewards_loop-eq shares [] m (AllFresh-nil ℤ shares) v, bounds.0, bounds.1)

-- ===== src/Payouts/Rewards/Fee.antt =====
-- The pool's fee, and how rounding can pay out more than a block brings.
use native.Mathlib.Nat.{add-mul-div_left, div-eq_of_lt}
use btcpool.Common.{ℕ, ◌+◌, ◌*◌, ◌/◌, ◌^◌, ◌<◌, ◌≡◌, ap, some, List, [], ◌∷◌, arith, false}
use btcpool.Common.Int.{
  ℤ, pos, pos_part, neg_part, ◌+ℤ◌, ◌-ℤ◌, ◌*ℤ◌, +ℤ_parts, -ℤ_parts, *ℤ_parts, eq_of_parts,
}
use btcpool.Common.Bytes.{Bytes, beq}
use btcpool.Payouts.Rational.{Rat, add, sub, mul}
use btcpool.Payouts.Rewards.{charge_fee, calculate_rewards_for_shares}
use btcpool.Payouts.Rewards.Bounds.{rewards_loop-eq, sum_rewards}

-- (v e - p d) e + p (d e) = v e e, for v and p as differences of numbers, times d.
regroup :
    (vp vn pp pn d e p1 n1 p2 n2 p3 n3 p4 n4 p5 n5 p6 n6 p7 n7 p8 n8 : ℕ)
    → p1 + e * vn ≡ n1 + e * vp
    → p2 + d * pn ≡ n2 + d * pp
    → p3 + n1 + p2 ≡ n3 + p1 + n2
    → p4 + e * n3 ≡ n4 + e * p3
    → p5 + d * e * pn ≡ n5 + d * e * pp
    → p6 + n4 + n5 ≡ n6 + p4 + p5
    → p7 + d * n6 ≡ n7 + d * p6
    → p8 + d * e * e * vn ≡ n8 + d * e * e * vp
    → p7 + n8 ≡ p8 + n7
regroup vp vn pp pn d e p1 n1 p2 n2 p3 n3 p4 n4 p5 n5 p6 n6 p7 n7 p8 n8 h1 h2 h3 h4 h5 h6 h7 h8 =
    omega (
      arith,
      ap (λ (t : ℕ). d * e * t) h1,
      ap (λ (t : ℕ). d * e * t) h2,
      ap (λ (t : ℕ). d * e * t) h3,
      ap (λ (t : ℕ). d * t) h4,
      ap (λ (t : ℕ). d * t) h5,
      ap (λ (t : ℕ). d * t) h6,
    )

-- `chargeFee` loses nothing: what is left and the fee add up to the value, as fractions.
pub charge_fee_splits :
    (value fee : Rat)
    → let (rest, fee_value) = charge_fee value fee in
      let whole = add rest fee_value in whole.num *ℤ pos value.den ≡ value.num *ℤ pos whole.den
unfolding charge_fee add sub mul
charge_fee_splits value fee =
    let v = value.num in
    let d = value.den in
    let e = value.den * fee.den in
    let p = v *ℤ fee.num in
    let x1 = v *ℤ pos e in
    let x2 = p *ℤ pos d in
    let x3 = x1 -ℤ x2 in
    let x4 = x3 *ℤ pos e in
    let x5 = p *ℤ pos (d * e) in
    let x6 = x4 +ℤ x5 in
    let x7 = x6 *ℤ pos d in
    let x8 = v *ℤ pos (d * e * e) in
    eq_of_parts x7 x8 (
      regroup (pos_part v) (neg_part v) (pos_part p) (neg_part p) d e (pos_part x1) (neg_part x1)
        (pos_part x2) (neg_part x2) (pos_part x3) (neg_part x3) (pos_part x4) (neg_part x4)
        (pos_part x5) (neg_part x5) (pos_part x6) (neg_part x6) (pos_part x7) (neg_part x7)
        (pos_part x8) (neg_part x8) (times v e) (times p d) (omega (arith, -ℤ_parts x1 x2))
        (times x3 e) (times p (d * e)) (omega (arith, +ℤ_parts x4 x5)) (times x6 d)
        (times v (d * e * e)))
  where
    times :
        (a : ℤ) (k : ℕ)
        → pos_part (a *ℤ pos k) + k * neg_part a ≡ neg_part (a *ℤ pos k) + k * pos_part a
    times a k = omega (arith, *ℤ_parts a (pos k))

divide : (r s : ℕ) → 0 < s → (2 * ((2 * r + 1) * s) + 1 * (s + s)) / (2 * (1 * (s + s))) ≡ r + 1
divide r s p =
    let y = 2 * (1 * (s + s)) in
    let y_pos : 0 < y = omega arith in
    let numerator : 2 * ((2 * r + 1) * s) + 1 * (s + s) ≡ 0 + y * (r + 1) = omega arith in
    rw (numerator, add-mul-div_left 0 (r + 1) y_pos, div-eq_of_lt y_pos) (omega arith)

-- Two different logins with equal shares, more than none, of an odd reward below 2^63 are paid one
-- satoshi more than the reward.
pub odd_reward_overpays :
    (l l' : Bytes) (s r : ℕ)
    → beq l l' ≡ false
    → 0 < s
    → r < 2 ^ 62
    → (rewards : List (Bytes × ℤ)) × (calculate_rewards_for_shares
          ((l, pos s) ∷ (l', pos s) ∷ [])
          (pos (s + s))
          (record { num = pos (2 * r + 1); den = 1 })
        ≡ some rewards)
      × (sum_rewards rewards ≡ 2 * r + 2)
unfolding calculate_rewards_for_shares
odd_reward_overpays l l' s r ne p lim =
    let q : 0 < s + s = omega arith in
    let o : 0 < 1 = omega arith in
    (
      (l, pos (r + 1)) ∷ (l', pos (r + 1)) ∷ [],
      rw (← divide r s p) (
          rewards_loop-eq (2 * r + 1) 1 (s + s) o q ((l, s) ∷ (l', s) ∷ []) [] ((ne, tt), (tt, tt))
            (tt, (tt, tt)) (rw (divide r s p) (omega arith, (omega arith, tt)))),
      omega arith,
    )

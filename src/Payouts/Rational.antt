-- ===== src/Payouts/Rational.antt =====
-- The part of Go's big.Rat that payouts/unlocker.go uses. A fraction is kept as it is computed, not
-- in lowest terms: what the code reads of one, its rounded decimal print, depends on the value alone.
use btcpool.Common.{ℕ, zero, suc, ◌+◌, ◌*◌, ◌/◌, ◌≡◌, refl, Option, none, some}
use btcpool.Common.Int.{ℤ, pos, negsuc, ◌+ℤ◌, ◌-ℤ◌, ◌*ℤ◌, sub_ℕ, neg_ℤ}
use btcpool.Common.Bytes.{Bytes, codes}
use btcpool.Common.Decimal.{format_int}

-- `num / den`, where `den` is positive.
pub record Rat : Type 0 where
  pub num : ℤ
  pub den : ℕ

-- `new(big.Rat).SetInt(n)`
pub of_int : ℤ → Rat
of_int n = record { num = n; den = 1 }

-- `big.NewRat(a, b)`, which panics where b is zero.
unfoldable pub new_rat : ℤ → ℤ → Option Rat
new_rat a (pos zero) = none
new_rat a (pos (suc n)) = some (record { num = a; den = suc n })
new_rat a (negsuc n) = some (record { num = neg_ℤ a; den = suc n })

unfoldable pub add : Rat → Rat → Rat
add x y = record { num = x.num *ℤ pos y.den +ℤ y.num *ℤ pos x.den; den = x.den * y.den }

unfoldable pub sub : Rat → Rat → Rat
sub x y = record { num = x.num *ℤ pos y.den -ℤ y.num *ℤ pos x.den; den = x.den * y.den }

unfoldable pub mul : Rat → Rat → Rat
mul x y = record { num = x.num *ℤ y.num; den = x.den * y.den }

-- The nearest integer, halves away from zero.
unfoldable pub round : Rat → ℤ
round x = elim x.num [
  | pos n ↦ pos ((2 * n + x.den) / (2 * x.den))
  | negsuc n ↦ sub_ℕ 0 ((2 * suc n + x.den) / (2 * x.den))
]

-- `x.FloatString(0)`, but that Go prints a negative fraction which is rounded to zero as "-0".
unfoldable pub float_string : Rat → Bytes
unfolding round
float_string x = format_int (round x)

halves :
    (float_string (record { num = pos 5; den = 2 }) ≡ codes "3")
    × (float_string (record { num = negsuc 4; den = 2 }) ≡ codes "-3")
unfolding float_string format_int
halves = (refl, refl)

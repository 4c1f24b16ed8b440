-- ===== src/Common/Decimal.antt =====
-- `strconv.FormatInt(n, 10)` and `strconv.ParseInt(s, 10, 64)` of Go's library, as the pool uses
-- them: the value is used also where an error is returned (`n, _ := strconv.ParseInt(...)`).
use mathlib.Core.Option
use btcpool.Common.{Option, none, some}
use btcpool.Common.{
  ℕ, zero, suc, ◌+◌, ◌-◌, ◌*◌, ◌/◌, ◌%◌, ◌^◌, ◌≤◌, ◌<◌, ◌≡◌, refl, ◌∙◌, Bool, true, false, ◌||◌, [],
  ◌∷◌, arith, ltb, leb, ◌==◌, if◌then◌else◌, All, Bool-cases, inl, inr,
}
use btcpool.Common.Int.{ℤ, pos, negsuc, IsInt64}
use btcpool.Common.Bytes.{Bytes, codes, Lacks}

-- The digits of `n` in front of `out`, for a fuel above `n`.
digits : ℕ → ℕ → Bytes → Bytes
digits zero n out = out
digits (suc fuel) n out = elim (ltb n 10) [
  | true ↦ (b'0' + n) ∷ out
  | false ↦ digits fuel (n / 10) ((b'0' + n % 10) ∷ out)
]

pub format_uint : ℕ → Bytes
unfolding digits
format_uint n = digits (suc n) n []

unfoldable pub format_int : ℤ → Bytes
unfolding format_uint
format_int (pos n) = format_uint n
format_int (negsuc n) = b'-' ∷ format_uint (suc n)

-- What `ParseUint` finds: a number below 2^64, a number that is too large, or no number.
pub data Scan : Type 0 where
  value : ℕ → Scan
  range syntax : Scan

unfoldable pub scan : ℕ → Bytes → Scan
scan n [] = value n
scan n (c ∷ s) =
    let rest = scan (n * 10 + (c - b'0')) s in
    if ltb c b'0' || ltb b'9' c
    then syntax
    else if leb (2 ^ 64) (n * 10 + (c - b'0'))
    then range
    else rest

unfoldable pub parse_uint : Bytes → Scan
unfolding scan
parse_uint [] = syntax
parse_uint (c ∷ s) = scan 0 (c ∷ s)

-- The value and whether the error is nil.
unfoldable pub from_scan : Bool → Scan → ℤ × Bool
from_scan neg syntax = (pos 0, false)
from_scan false range = (pos (2 ^ 63 - 1), false)
from_scan true range = (negsuc (2 ^ 63 - 1), false)
from_scan false (value n) = if leb (2 ^ 63) n then (pos (2 ^ 63 - 1), false) else (pos n, true)
from_scan true (value zero) = (pos 0, true)
from_scan true (value (suc n)) =
    if leb (2 ^ 63) n then (negsuc (2 ^ 63 - 1), false) else (negsuc n, true)

unfoldable pub parse_int : Bytes → ℤ × Bool
unfolding parse_uint from_scan
parse_int [] = (pos 0, false)
parse_int (c ∷ s) =
    if c == b'+'
    then from_scan false (parse_uint s)
    else if c == b'-'
    then from_scan true (parse_uint s)
    else from_scan false (parse_uint (c ∷ s))

abbrev IsDigit : ℕ → Type 0
IsDigit c = (b'0' ≤ c) × (c ≤ b'9')

-- One digit or more.
abbrev IsNumeral : Bytes → Type 0
IsNumeral [] = ⊥
IsNumeral (c ∷ s) = IsDigit c × All IsDigit s

digits-IsNumeral_more :
    (fuel n c : ℕ) (out : Bytes) → All IsDigit (c ∷ out) → IsNumeral (digits fuel n (c ∷ out))
unfolding digits
digits-IsNumeral_more zero n c out h = h
digits-IsNumeral_more (suc fuel) n c out h = elim (Bool-cases (ltb n 10)) [
  | inl last ↦ rw (last, digits) ((omega arith, ground arith), h)
  | inr more ↦
      rw (more, digits)
        (digits-IsNumeral_more fuel (n / 10) (b'0' + n % 10) (c ∷ out)
          ((omega arith, omega arith), h))
]

digits-IsNumeral : (fuel n : ℕ) → IsNumeral (digits (suc fuel) n [])
unfolding digits
digits-IsNumeral fuel n = elim (Bool-cases (ltb n 10)) [
  | inl last ↦ rw (last, digits) ((omega arith, ground arith), tt)
  | inr more ↦
      rw (more, digits)
        (digits-IsNumeral_more fuel (n / 10) (b'0' + n % 10) [] ((omega arith, omega arith), tt))
]

-- Reading what `digits` writes gives the number, whatever digits follow.
scan-digits :
    (fuel n : ℕ) (out : Bytes) → n < fuel → n < 2 ^ 64 → scan 0 (digits fuel n out) ≡ scan n out
unfolding scan digits
scan-digits zero n out h k = elim h [ ]
scan-digits (suc fuel) n out h k = ground (arith, scan-digits fuel (n / 10) ((b'0' + n % 10) ∷ out))

parse_int-numeral : (s : Bytes) → IsNumeral s → parse_int s ≡ from_scan false (scan 0 s)
unfolding parse_int
parse_int-numeral [] h = absurd h
parse_int-numeral (c ∷ s) h = ground arith

parse_uint-numeral : (s : Bytes) → IsNumeral s → parse_uint s ≡ scan 0 s
unfolding parse_uint
parse_uint-numeral [] h = absurd h
parse_uint-numeral (c ∷ s) h = refl

scan-format_uint : (n : ℕ) → n < 2 ^ 64 → scan 0 (format_uint n) ≡ value n
unfolding format_uint
scan-format_uint n h = scan-digits (suc n) n [] (omega arith) h ∙ unfold scan in refl

format_uint-IsNumeral : (n : ℕ) → IsNumeral (format_uint n)
unfolding format_uint
format_uint-IsNumeral n = digits-IsNumeral n n

-- Every int64 is read back from its decimal print.
pub parse_int-format_int : (z : ℤ) → IsInt64 z → parse_int (format_int z) ≡ (z, true)
unfolding format_int
parse_int-format_int (pos n) h =
    rw (parse_int-numeral _ (format_uint-IsNumeral n), scan-format_uint n (omega arith))
      (unfold from_scan in ground arith)
parse_int-format_int (negsuc n) h =
    unfold parse_int in
    rw
      (parse_uint-numeral _ (format_uint-IsNumeral (suc n)), scan-format_uint (suc n) (omega arith))
      (ground arith)

numeral-Lacks : (b : ℕ) (s : Bytes) → b'9' < b → All IsDigit s → Lacks b s
numeral-Lacks b [] h k = tt
numeral-Lacks b (c ∷ s) h k = (omega arith, numeral-Lacks b s h k.1)

numeral-Lacks_colon : (s : Bytes) → IsNumeral s → Lacks b':' s
numeral-Lacks_colon [] h = absurd h
numeral-Lacks_colon (c ∷ s) h = numeral-Lacks b':' (c ∷ s) (omega arith) h

-- A decimal print holds no colon.
pub format_int-Lacks : (z : ℤ) → Lacks b':' (format_int z)
unfolding format_int
format_int-Lacks (pos n) = numeral-Lacks_colon _ (format_uint-IsNumeral n)
format_int-Lacks (negsuc n) = (omega arith, numeral-Lacks_colon _ (format_uint-IsNumeral (suc n)))

format_min : format_int (negsuc (2 ^ 63 - 1)) ≡ codes "-9223372036854775808"
unfolding format_int
format_min = refl

parse_samples :
    (parse_int (codes "-12") ≡ (negsuc 11, true))
    × (parse_int (codes "12a") ≡ (pos 0, false))
    × (parse_int (codes "9223372036854775808") ≡ (pos (2 ^ 63 - 1), false))
unfolding parse_int
parse_samples = (refl, refl, refl)

scan_big : ℕ → Bytes → Option ℕ
scan_big n [] = some n
scan_big n (c ∷ s) = if ltb c b'0' || ltb b'9' c then none else scan_big (n * 10 + (c - b'0')) s

negate : ℕ → ℤ
negate zero = pos 0
negate (suc n) = negsuc n

-- `new(big.Int).SetString(s, 10)`: a sign or none, and one digit or more; `none` is its nil.
unfoldable pub parse_big : Bytes → Option ℤ
unfolding scan_big negate
parse_big [] = none
parse_big (c ∷ []) = Option.map pos (scan_big 0 (c ∷ []))
parse_big (c ∷ d ∷ s) =
    if c == b'-'
    then Option.map negate (scan_big 0 (d ∷ s))
    else if c == b'+'
    then Option.map pos (scan_big 0 (d ∷ s))
    else Option.map pos (scan_big 0 (c ∷ d ∷ s))

scan_big-digits :
    (fuel n : ℕ) (out : Bytes) → n < fuel → scan_big 0 (digits fuel n out) ≡ scan_big n out
unfolding scan_big digits
scan_big-digits zero n out h = elim h [ ]
scan_big-digits (suc fuel) n out h =
    ground (arith, scan_big-digits fuel (n / 10) ((b'0' + n % 10) ∷ out))

scan_big-format_uint : (n : ℕ) → scan_big 0 (format_uint n) ≡ some n
unfolding format_uint
scan_big-format_uint n = scan_big-digits (suc n) n [] (omega arith) ∙ unfold scan_big in refl

parse_big-numeral : (s : Bytes) → IsNumeral s → parse_big s ≡ Option.map pos (scan_big 0 s)
unfolding parse_big
parse_big-numeral [] h = absurd h
parse_big-numeral (c ∷ []) h = refl
parse_big-numeral (c ∷ d ∷ s) h = ground arith

parse_big-minus :
    (s : Bytes) → IsNumeral s → parse_big (b'-' ∷ s) ≡ Option.map negate (scan_big 0 s)
unfolding parse_big
parse_big-minus [] h = absurd h
parse_big-minus (c ∷ s) h = refl

-- Every integer is read back from the print of its big.Int.
pub parse_big-format_int : (z : ℤ) → parse_big (format_int z) ≡ some z
unfolding format_int
parse_big-format_int (pos n) =
    rw (parse_big-numeral _ (format_uint-IsNumeral n), scan_big-format_uint n) refl
parse_big-format_int (negsuc n) =
    rw (parse_big-minus _ (format_uint-IsNumeral (suc n)), scan_big-format_uint (suc n))
      (unfold negate in refl)

-- ===== src/Common/Hex.antt =====
-- Hexadecimal texts: `%08x` of a uint32, `hex.EncodeToString` and `hex.DecodeString`.
use btcpool.Common.{
  ℕ, zero, suc, ◌+◌, ◌-◌, ◌*◌, ◌/◌, ◌%◌, ◌^◌, ◌<◌, ◌≡◌, refl, ap, ◌&&◌, Option, none, some, [], ◌∷◌,
  map, arith, ltb, leb, ◌>>=◌, if◌then◌else◌, All, length, Option-cases, inl, inr,
}
use btcpool.Common.Bytes.{Bytes}

unfoldable pub hex_digit : ℕ → ℕ
hex_digit d = if ltb d 10 then b'0' + d else b'a' + (d - 10)

-- `fmt.Sprintf("%08x", n)` for n below 2^32.
unfoldable pub hex8 : ℕ → Bytes
hex8 n =
    map (λ k. hex_digit (n / k % 16))
      (16 ^ 7 ∷ 16 ^ 6 ∷ 16 ^ 5 ∷ 16 ^ 4 ∷ 16 ^ 3 ∷ 16 ^ 2 ∷ 16 ∷ 1 ∷ [])

-- `hex.EncodeToString`
unfoldable pub encode : Bytes → Bytes
encode [] = []
encode (b ∷ s) = hex_digit (b / 16) ∷ hex_digit (b % 16) ∷ encode s

unfoldable pub from_digit : ℕ → Option ℕ
from_digit c =
    if leb b'0' c && leb c b'9'
    then some (c - b'0')
    else if leb b'a' c && leb c b'f'
    then some (c - b'a' + 10)
    else if leb b'A' c && leb c b'F'
    then some (c - b'A' + 10)
    else none

-- `hex.DecodeString`: `none` is an error, at an odd length or a byte that is no digit.
unfoldable pub decode : Bytes → Option Bytes
decode [] = some []
decode (c ∷ []) = none
decode (c ∷ d ∷ s) = do
  hi ← from_digit c
  lo ← from_digit d
  rest ← decode s
  some ((hi * 16 + lo) ∷ rest)

pub from_digit-hex_digit : (d : ℕ) → d < 16 → from_digit (hex_digit d) ≡ some d
unfolding from_digit hex_digit
from_digit-hex_digit d h = ground arith

-- Bytes come back from their hexadecimal text.
pub decode-encode : (s : Bytes) → All (λ b. b < 256) s → decode (encode s) ≡ some s
unfolding decode encode
decode-encode [] h = refl
decode-encode (b ∷ s) h =
    rw
      (
        from_digit-hex_digit (b / 16) (omega arith),
        from_digit-hex_digit (b % 16) (omega arith),
        decode-encode s h.1,
      )
      (ap (λ t. some (t ∷ s)) (omega arith))

hex_digit-injective : (a b : ℕ) → a < 16 → b < 16 → hex_digit a ≡ hex_digit b → a ≡ b
unfolding hex_digit
hex_digit-injective a b h k e = ground arith

-- The byte at an index, or 0.
abbrev at : ℕ → Bytes → ℕ
at i [] = 0
at zero (c ∷ s) = c
at (suc i) (c ∷ s) = at i s

same_digits :
    (m n : ℕ)
    → m < 2 ^ 32
    → n < 2 ^ 32
    → m / 16 ^ 7 % 16 ≡ n / 16 ^ 7 % 16
    → m / 16 ^ 6 % 16 ≡ n / 16 ^ 6 % 16
    → m / 16 ^ 5 % 16 ≡ n / 16 ^ 5 % 16
    → m / 16 ^ 4 % 16 ≡ n / 16 ^ 4 % 16
    → m / 16 ^ 3 % 16 ≡ n / 16 ^ 3 % 16
    → m / 16 ^ 2 % 16 ≡ n / 16 ^ 2 % 16
    → m / 16 % 16 ≡ n / 16 % 16
    → m / 1 % 16 ≡ n / 1 % 16
    → m ≡ n
same_digits m n h k d7 d6 d5 d4 d3 d2 d1 d0 = omega arith

-- Different numbers have different texts.
pub hex8-injective : (m n : ℕ) → m < 2 ^ 32 → n < 2 ^ 32 → hex8 m ≡ hex8 n → m ≡ n
unfolding hex8
hex8-injective m n h k e =
    same_digits m n h k (digit (16 ^ 7) (ap (at 0) e)) (digit (16 ^ 6) (ap (at 1) e))
      (digit (16 ^ 5) (ap (at 2) e)) (digit (16 ^ 4) (ap (at 3) e)) (digit (16 ^ 3) (ap (at 4) e))
      (digit (16 ^ 2) (ap (at 5) e)) (digit 16 (ap (at 6) e)) (digit 1 (ap (at 7) e))
  where
    digit : (p : ℕ) → hex_digit (m / p % 16) ≡ hex_digit (n / p % 16) → m / p % 16 ≡ n / p % 16
    digit p q = hex_digit-injective (m / p % 16) (n / p % 16) (omega arith) (omega arith) q

-- ASCII letters in lower case.
pub lower : ℕ → ℕ
lower c = if leb b'A' c && leb c b'Z' then c + 32 else c

-- A text that can be decoded has two digits to the byte.
pub length-decode : (s : Bytes) {t : Bytes} → decode s ≡ some t → length s ≡ 2 * length t
unfolding decode
length-decode [] e = ground arith
length-decode (c ∷ []) e = ground arith
length-decode (c ∷ d ∷ s) {t} e = elim (Option-cases (from_digit c)) [
  | inl f ↦ ground arith
  | inr (hi, f) ↦ elim (Option-cases (from_digit d)) [
    | inl g ↦ ground arith
    | inr (lo, g) ↦ elim (Option-cases (decode s)) [
      | inl k ↦ ground arith
      | inr (rest, k) ↦ ground (arith, length-decode s k)
    ]
  ]
]

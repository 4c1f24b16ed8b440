-- ===== src/Proxy/Broadcast/Digits.antt =====
-- The digits of a job and how they are read.
use btcpool.Common.{
  ℕ, ◌+◌, ◌*◌, ◌/◌, ◌%◌, ◌^◌, ◌<◌, ◌≡◌, refl, some, [], ◌∷◌, ◌++◌, arith, some-elim, some-subst,
}
use btcpool.Common.Bytes.{Bytes}
use btcpool.Common.Hex.{hex8, hex_digit, from_digit, from_digit-hex_digit, decode}
use btcpool.Proxy.Work.{hex_value, parse_uint_hex}

-- A number is read back from its eight digits.
pub parse_uint_hex-hex8 : (n : ℕ) → n < 2 ^ 32 → parse_uint_hex (hex8 n) ≡ some n
unfolding parse_uint_hex hex8 hex_value
parse_uint_hex-hex8 n h =
    let digit : (k : ℕ) → from_digit (hex_digit (n / k % 16)) ≡ some (n / k % 16) =
      λ k. from_digit-hex_digit (n / k % 16) (omega arith) in
    rw
      (
        digit (16 ^ 7),
        digit (16 ^ 6),
        digit (16 ^ 5),
        digit (16 ^ 4),
        digit (16 ^ 3),
        digit (16 ^ 2),
        digit 16,
        digit 1,
      )
      (ground arith)

pub decode-append :
    (x y : Bytes) {a b : Bytes}
    → decode x ≡ some a
    → decode y ≡ some b
    → decode (x ++ y) ≡ some (a ++ b)
unfolding decode
decode-append [] y {a} {b} e f = some-subst (λ t. decode y ≡ some (t ++ b)) e f
decode-append (c ∷ []) y {a} {b} e f = absurd cc
decode-append (c ∷ d ∷ x) y {a} {b} e f = some-elim (from_digit c) _ e (λ hi p e1.
    some-elim (from_digit d) _ e1 (λ lo q e2. some-elim (decode x) _ e2 (λ rest r e3.
      let more = decode-append x y r f in
      rw (p, q, more)
        (some-subst (λ t. some ((hi * 16 + lo) ∷ (rest ++ b)) ≡ some (t ++ b)) e3 refl))))

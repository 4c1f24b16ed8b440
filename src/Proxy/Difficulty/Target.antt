-- ===== src/Proxy/Difficulty/Target.antt =====
-- A target's text and its difficulty.
use btcpool.Common.{
  All, All-append, after_if, ◌==◌, subst, some-subst, ℕ, zero, suc, ◌+◌, ◌/◌, ◌%◌, ◌*◌, ◌^◌, ◌<◌,
  ◌≤◌, ◌≡◌, refl, ap, sym, ◌∙◌, some, [], ◌∷◌, ◌++◌, arith,
}
use native.Mathlib.Nat.{div-eq_of_lt-le, le-div_iff_mul-le}
use btcpool.Common.Int.{pos}
use btcpool.Common.Bytes.{Bytes}
use btcpool.Proxy.Work.{Packages, target_hex_to_diff, set_bytes}
use btcpool.Proxy.Difficulty.{big_bytes, get_target_hex}

set_bytes-snoc : (m : ℕ) (s : Bytes) (b : ℕ) → set_bytes m (s ++ b ∷ []) ≡ set_bytes m s * 256 + b
unfolding set_bytes
set_bytes-snoc m [] b = refl
set_bytes-snoc m (c ∷ s) b = set_bytes-snoc (m * 256 + c) s b

-- Enough bytes hold the number.
set_bytes-big_bytes : (k n : ℕ) → n < 256 ^ k → set_bytes 0 (big_bytes k n) ≡ n
unfolding set_bytes big_bytes
set_bytes-big_bytes zero n h = omega arith
set_bytes-big_bytes (suc k) n h =
    let rest = set_bytes-big_bytes k (n / 256) (omega arith) in
    let last = set_bytes-snoc 0 (big_bytes k (n / 256)) (n % 256) in ground arith

big_bytes-All : (k n : ℕ) → All (λ b. b < 256) (big_bytes k n)
unfolding big_bytes
big_bytes-All zero n = tt
big_bytes-All (suc k) n =
    after_if (All (λ b. b < 256)) (n == 0) [] (big_bytes k (n / 256) ++ n % 256 ∷ []) tt (
      All-append (λ b. b < 256) (big_bytes k (n / 256)) (n % 256 ∷ []) (big_bytes-All k (n / 256))
        (omega arith, tt))

-- `FromHex` reads the bytes that `hexutil.Encode` wrote.
abbrev pub ReadsBack : Packages → (Bytes → Bytes) → Type 0
ReadsBack p hexutil_encode = (b : Bytes) → All (λ c. c < 256) b → p.from_hex (hexutil_encode b) ≡ b

-- Dividing by the quotient gives the divisor back, where it is not above the quotient.
div_div : (q d r : ℕ) → 1 ≤ d → r < d → d ≤ q → (q * d + r) / q ≡ d
div_div q d r h k l = div-eq_of_lt-le q (omega arith) (omega arith)

at_least : (a n d : ℕ) → 1 ≤ d → a * d ≤ n → a ≤ n / d
at_least a n d h = (le-div_iff_mul-le {k = d} {x = a} {y = n} h).1

-- A difficulty that an int64 holds is that of its quotient.
quotient_back : (n d : ℕ) → 2 ^ 126 ≤ n → 1 ≤ d → d < 2 ^ 63 → (1 ≤ n / d) × (n / (n / d) ≡ d)
quotient_back n d l h k =
    let large = at_least (2 ^ 63) n d h (omega arith) in
    let whole : n / d * d + n % d ≡ n = omega arith in
    (
      omega arith,
      subst (λ m. m / (n / d) ≡ d) whole (div_div (n / d) d (n % d) h (omega arith) (omega arith)),
    )

module _ (p : Packages) (hexutil_encode : Bytes → Bytes)
    (inverse : ReadsBack p hexutil_encode) where
  of_quotient :
      (n : ℕ)
      → 1 ≤ n
      → n ≤ 2 ^ 256
      → target_hex_to_diff p (hexutil_encode (big_bytes 33 n)) ≡ some (pos (2 ^ 256 / n))
  unfolding target_hex_to_diff
  of_quotient n h k =
      rw (inverse (big_bytes 33 n) (big_bytes-All 33 n), set_bytes-big_bytes 33 n (omega arith))
        (ground arith)

  pub positive_target :
      (d : ℕ)
      → 1 ≤ d
      → get_target_hex hexutil_encode (pos d) ≡ some (hexutil_encode (big_bytes 33 (2 ^ 256 / d)))
  unfolding get_target_hex
  positive_target d h = ground arith

  -- GetTargetHex of a positive difficulty that an int64 holds gives a target, and TargetHexToDiff of
  -- that target gives the difficulty back, where FromHex reads what hexutil.Encode writes.
  pub target_hex_to_diff-get_target_hex :
      (d : ℕ)
      → 1 ≤ d
      → d < 2 ^ 63
      → (t : Bytes) × (get_target_hex hexutil_encode (pos d) ≡ some t)
        × (target_hex_to_diff p t ≡ some (pos d))
  target_hex_to_diff-get_target_hex d h k =
      let (some_left, back) = quotient_back (2 ^ 256) d (omega arith) h k in
      (
        hexutil_encode (big_bytes 33 (2 ^ 256 / d)),
        positive_target d h,
        of_quotient (2 ^ 256 / d) some_left (omega arith) ∙ ap (λ m. some (pos m)) back,
      )

  -- The same for a target under its name.
  pub diff_of_target :
      (d : ℕ) {t : Bytes}
      → 1 ≤ d
      → d < 2 ^ 63
      → get_target_hex hexutil_encode (pos d) ≡ some t
      → target_hex_to_diff p t ≡ some (pos d)
  diff_of_target d h k e =
      let (t', e', back) = target_hex_to_diff-get_target_hex d h k in
      some-subst (λ t. target_hex_to_diff p t ≡ some (pos d)) (sym e' ∙ e) back

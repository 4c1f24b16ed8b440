-- ===== src/Bitcoin/Number.antt =====
-- bitcoin/btc_coinbase.go: `PackNumber`, the push of a number in a coinbase script.
use mathlib.Core.Logic.{dite}
use mathlib.Core.WellFounded.{Acc, WellFounded}
use native.Mathlib.Decide.{dec_lt}
use btcpool.Common.{
  ℕ, zero, suc, ◌+◌, ◌-◌, ◌*◌, ◌/◌, ◌%◌, ◌^◌, ◌≤◌, ◌<◌, ◌≡◌, refl, Option, none, some, [], ◌∷◌,
  ◌++◌, append_assoc, length, length-append, take, drop, leb, if◌then◌else◌, arith,
  take-append_left, drop-append_left,
}
use btcpool.Common.Int.{ℤ, pos, negsuc}
use btcpool.Common.Bytes.{Bytes}

unfoldable pub Acc_below : (k n : ℕ) → n < k → Acc ◌<◌ n
Acc_below zero n h = absurd (omega arith)
Acc_below (suc k) n h = Acc.intro n (λ m l. Acc_below k m (omega arith))

unfoldable pub lt_wf : WellFounded ◌<◌
unfolding Acc_below
lt_wf = record { apply = λ n. Acc_below (suc n) n (omega arith) }

pub quotient_less : (num : ℕ) → 127 < num → num / 256 < num
quotient_less num more = omega arith

-- The rounds of the loop: the count in `s[0]`, a byte, and the bytes behind it.
unfoldable pub pack_loop : ℕ → Bytes → (num : ℕ) → Acc ◌<◌ num → Bytes
pack_loop count s num (Acc.intro _ smaller) =
    dite (dec_lt 127 num)
      (λ more.
        pack_loop ((count + 1) % 256) (s ++ num % 256 ∷ []) (num / 256)
          (smaller _ (quotient_less num more)))
      (λ _. count ∷ s ++ num % 256 ∷ [])

-- `PackNumber`; the byte of a negative number is that of its two's complement.
unfoldable pub pack_number : ℤ → Bytes
unfolding lt_wf
pack_number (pos num) = pack_loop 1 [] num (lt_wf.apply num)
pack_number (negsuc n) = 1 ∷ (255 - n % 256) ∷ []

-- The number whose bytes these are, the least significant first.
pub little_endian : Bytes → ℕ
little_endian [] = 0
little_endian (b ∷ s) = b + 256 * little_endian s

-- How a script reads a push of fewer than 76 bytes: the length, the bytes, the rest.
pub read_push : Bytes → Option (Bytes × Bytes)
read_push [] = none
read_push (c ∷ s) =
    if leb 1 c
    then (if leb c 75 then (if leb c (length s) then some (take c s, drop c s) else none) else none)
    else none

-- The last byte, or 0: it holds the sign.
pub top : Bytes → ℕ
top [] = 0
top (b ∷ []) = b
top (b ∷ c ∷ s) = top (c ∷ s)

top-cons : (b : ℕ) (s : Bytes) → 1 ≤ length s → top (b ∷ s) ≡ top s
unfolding top
top-cons b [] h = absurd (omega arith)
top-cons b (c ∷ s) h = refl

-- What the rounds put behind `s`, for a number below 128 * 256 ^ k.
abbrev Rounds : ℕ → Bytes → ℕ → Bytes → Type 0
Rounds k s num packed =
    (t : Bytes) × (packed ≡ (length s + length t) ∷ s ++ t)
    × (little_endian t ≡ num)
    × (1 ≤ length t)
    × (length t ≤ k + 1)
    × (top t < 128)

after_dec {ℓ κ} :
    {A : Type 0} {B : Type ℓ} (P : B → Type κ) (d : Dec A) {f : A → B} {g : ¬ A → B}
    → ((a : A) → P (f a))
    → ((n : ¬ A) → P (g n))
    → P (dite d f g)
after_dec P (yes a) h k = h a
after_dec P (no n) h k = k n

one_round :
    (k : ℕ) (s : Bytes) (num : ℕ) (packed : Bytes)
    → 127 < num
    → Rounds k (s ++ num % 256 ∷ []) (num / 256) packed
    → Rounds (suc k) s num packed
unfolding little_endian
one_round k s num packed more (t, e, v, l, u, p) = (
  num % 256 ∷ t,
  ground (arith, length-append s (num % 256 ∷ []), append_assoc s (num % 256 ∷ []) t),
  omega arith,
  omega arith,
  omega arith,
  ground (arith, top-cons (num % 256) t l),
)

last_round :
    (k : ℕ) (s : Bytes) (num : ℕ)
    → num ≤ 127
    → Rounds k s num ((length s + 1) ∷ s ++ num % 256 ∷ [])
unfolding little_endian top
last_round k s num end = (num % 256 ∷ [], refl, omega arith, omega arith, omega arith, omega arith)

pack_loop_lem :
    (k count : ℕ) (s : Bytes) (num : ℕ) (w : Acc ◌<◌ num)
    → count ≡ length s + 1
    → num < 128 * 256 ^ k
    → length s + k < 74
    → Rounds k s num (pack_loop count s num w)
unfolding pack_loop
pack_loop_lem zero count s num (Acc.intro _ smaller) c h l =
    after_dec (Rounds zero s num) (dec_lt 127 num) (λ more. absurd (omega arith))
      (λ end. rw (c) (last_round zero s num (omega arith)))
pack_loop_lem (suc k) count s num (Acc.intro _ smaller) c h l =
    after_dec (Rounds (suc k) s num) (dec_lt 127 num)
      (λ more. one_round k s num _ more (
        pack_loop_lem k _ (s ++ num % 256 ∷ []) (num / 256) (smaller _ _)
          (omega (arith, length-append s (num % 256 ∷ []))) (omega arith)
          (omega (arith, length-append s (num % 256 ∷ [])))))
      (λ end. rw (c) (last_round (suc k) s num (omega arith)))

-- `PackNumber` ends on every number of an int64 that is not negative with the push of the number's
-- bytes: a script that begins with it reads those bytes, at most nine, they are the number, and
-- the last one has no sign bit.
pub read_push-pack_number :
    (num : ℕ) (rest : Bytes)
    → num < 2 ^ 63
    → (t : Bytes) × (read_push (pack_number (pos num) ++ rest) ≡ some (t, rest))
      × (little_endian t ≡ num)
      × (length t ≤ 9)
      × (top t < 128)
unfolding pack_number read_push
read_push-pack_number num rest h =
    let (t, e, v, l, u, p) =
      pack_loop_lem 8 1 [] num (lt_wf.apply num) refl (omega arith) (omega arith) in
    (
      t,
      rw (e)
          (ground (arith, length-append t rest, take-append_left t rest, drop-append_left t rest)),
      v,
      u,
      p,
    )

-- ===== src/Util/Hashes.antt =====
-- util/util.go: the texts of hashes in Stratum. `SetHex` of a Uint256, which gives its bytes, is a
-- parameter.
pub mod Words
use btcpool.Common.{
  ℕ, zero, suc, ◌+◌, ◌*◌, Option, none, some, List, [], ◌∷◌, ◌++◌, get_elem?, ◌>>=◌,
}
use btcpool.Common.Bytes.{Bytes}
use btcpool.Common.Hex.{encode}
use btcpool.Common.Result.{Result, panic, failed, done}

-- The inner loop: the four bytes of word `i`, from the last; `none` is an index out of range.
unfoldable pub word_at : Bytes → ℕ → Option Bytes
word_at bytes i = do
  b3 ← get_elem? bytes (i * 4 + 3)
  b2 ← get_elem? bytes (i * 4 + 2)
  b1 ← get_elem? bytes (i * 4 + 1)
  b0 ← get_elem? bytes (i * 4 + 0)
  some (b3 ∷ b2 ∷ b1 ∷ b0 ∷ [])

-- The outer loop, for so many words from word `i`.
unfoldable pub words_from : ℕ → ℕ → Bytes → Option Bytes
words_from zero i bytes = some []
words_from (suc n) i bytes = do
  word ← word_at bytes i
  rest ← words_from n (i + 1) bytes
  some (word ++ rest)

module _ (set_hex : Bytes → Option Bytes) where
  -- `TargetHash256StratumFormat`
  unfoldable pub target_hash256_stratum_format : Bytes → Result Bytes
  target_hash256_stratum_format hex_str = elim (set_hex hex_str) [
    | none ↦ failed
    | some b ↦ elim (words_from 8 0 b) [ none ↦ panic | some b2 ↦ done (encode b2) ]
  ]

  -- `Hash256StratumFormat`
  unfoldable pub hash256_stratum_format : Bytes → Option Bytes
  hash256_stratum_format hex_str = set_hex hex_str >>= λ b. some (encode b)

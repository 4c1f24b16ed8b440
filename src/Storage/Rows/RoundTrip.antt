-- ===== src/Storage/Rows/RoundTrip.antt =====
-- Rows that the pool writes are read back as what was written.
use btcpool.Common.{
  ℕ, ◌≡◌, refl, ap, Bool, true, false, Option, none, some, List, [], ◌∷◌, ◌++◌, All, arith,
  append_assoc, ltb, length, if◌then◌else◌,
}
use btcpool.Common.Int.{ℤ, pos, IsInt64}
use btcpool.Common.Bytes.{Bytes, codes, Lacks, join_with, split, split-join}
use btcpool.Common.Decimal.{
  format_int, format_int-Lacks, parse_int-format_int, parse_big, parse_big-format_int,
}
use btcpool.Storage.Keys.{
  BlockData, empty_block, join, key, show, str, int64, big, bool, serialize_hash,
}
use btcpool.Storage.Rows.{candidate_of_row, block_of_row, pending_of_row, parse_bool}
use btcpool.Storage.Shares.{candidate_row}

module _ (sep : ℕ) where
  -- Pieces that are joined before they are joined again.
  join_with-join :
      (p : Bytes) (ps : List Bytes) (q : Bytes) (qs : List Bytes)
      → join_with sep (join_with sep (p ∷ ps) ∷ q ∷ qs) ≡ join_with sep (p ∷ (ps ++ q ∷ qs))
  unfolding join_with
  join_with-join p [] q qs = refl
  join_with-join p (p' ∷ ps) q qs =
      simp append_assoc (ap (λ t. p ++ sep ∷ t) (join_with-join p' ps q qs))

-- A big.Int, where nil is written as zero.
abbrev pub value_or_zero : Option ℤ → ℤ
value_or_zero none = pos 0
value_or_zero (some n) = n

parse_big-show : (x : Option ℤ) → parse_big (show (big x)) ≡ some (value_or_zero x)
unfolding show
parse_big-show none = unfold parse_big in refl
parse_big-show (some n) = parse_big-format_int n

parse_bool-show : (b : Bool) → parse_bool (show (bool b)) ≡ b
unfolding show parse_bool
parse_bool-show true = refl
parse_bool-show false = refl

show-Lacks : (x : Option ℤ) → Lacks b':' (show (big x))
unfolding show
show-Lacks none = omega arith
show-Lacks (some n) = format_int-Lacks n

show_bool-Lacks : (b : Bool) → Lacks b':' (show (bool b))
unfolding show
show_bool-Lacks true = omega arith
show_bool-Lacks false = omega arith

serialize_hash-Lacks : (b : BlockData) → Lacks b':' b.hash → Lacks b':' (serialize_hash b)
unfolding serialize_hash
serialize_hash-Lacks b h = go b.hash h
  where
    go : (s : Bytes) → Lacks b':' s → Lacks b':' (if ltb 0 (length s) then s else codes "0x0")
    go [] h = omega arith
    go (c ∷ s) h = rw (positive s) h
      where
        positive : (s : Bytes) → ltb 0 (length (c ∷ s)) ≡ true
        positive s = ground arith

-- A pending payment is read back as `UpdateBalance` wrote it, if the login holds no colon and the
-- amount fits an int64.
pub pending_of_row-join :
    (ts : ℤ) (login : Bytes) (amount : ℤ)
    → Lacks b':' login
    → IsInt64 amount
    → pending_of_row (record { score = ts; member = join (str login ∷ int64 amount ∷ []) })
      ≡ some (record { timestamp = ts; amount = amount; address = login })
unfolding pending_of_row join
pending_of_row-join ts login amount h k = rw (
  split-join b':' login (format_int amount ∷ []) (h, (format_int-Lacks amount, tt)),
  parse_int-format_int amount k,
)

-- The fields of `key` behind the first, which is not read back.
abbrev key_fields : BlockData → List Bytes
key_fields b =
    show (bool b.orphan)
    ∷ b.nonce
    ∷ serialize_hash b
    ∷ format_int b.timestamp
    ∷ format_int b.difficulty
    ∷ format_int b.total_shares
    ∷ show (big b.coin_base_value)
    ∷ show (big b.blk_total_fee)
    ∷ show (big b.reward)
    ∷ []

key_fields-Lacks :
    (b : BlockData) → Lacks b':' b.nonce → Lacks b':' b.hash → All (Lacks b':') (key_fields b)
key_fields-Lacks b n h =
    search (show_bool-Lacks, n, serialize_hash-Lacks, h, format_int-Lacks, show-Lacks, tt) depth 20

split-key :
    (b : BlockData)
    → Lacks b':' b.nonce
    → Lacks b':' b.hash
    → split (key b) b':' ≡ format_int b.uncle_height ∷ key_fields b
unfolding key
split-key b n h =
    split-join b':' (format_int b.uncle_height) (key_fields b)
      (format_int-Lacks b.uncle_height, key_fields-Lacks b n h)

-- The immature or matured block that `key` spells is read back with its numbers, if the nonce and
-- the hash hold no colon and the timestamp, the difficulty and the shares fit an int64.
pub block_of_row-key :
    (b : BlockData)
    → Lacks b':' b.nonce
    → Lacks b':' b.hash
    → IsInt64 b.timestamp
    → IsInt64 b.difficulty
    → IsInt64 b.total_shares
    → block_of_row (record { score = b.height; member = key b })
      ≡ some (record empty_block {
        height = b.height;
        round_height = b.height;
        orphan = b.orphan;
        nonce = b.nonce;
        hash = serialize_hash b;
        timestamp = b.timestamp;
        difficulty = b.difficulty;
        total_shares = b.total_shares;
        coin_base_value = some (value_or_zero b.coin_base_value);
        blk_total_fee = some (value_or_zero b.blk_total_fee);
        reward_string = show (big b.reward);
        immature_reward = show (big b.reward);
        immature_key = key b;
      })
unfolding block_of_row
block_of_row-key b n h t d s = rw (
  split-key b n h,
  parse_bool-show b.orphan,
  parse_int-format_int b.timestamp t,
  parse_int-format_int b.difficulty d,
  parse_int-format_int b.total_shares s,
  parse_big-show b.coin_base_value,
  parse_big-show b.blk_total_fee,
)

abbrev row_fields : Bytes → Bytes → ℤ → ℤ → ℤ → ℤ → ℤ → List Bytes
row_fields e_nonce1 e_nonce2 ts diff total value fee =
    e_nonce1
    ∷ e_nonce2
    ∷ format_int ts
    ∷ format_int diff
    ∷ format_int total
    ∷ format_int value
    ∷ format_int fee
    ∷ []

split-candidate_row :
    (nonce e_nonce1 e_nonce2 : Bytes) (ts diff total value fee : ℤ)
    → Lacks b':' nonce
    → Lacks b':' e_nonce1
    → Lacks b':' e_nonce2
    → split (candidate_row (nonce ∷ e_nonce1 ∷ e_nonce2 ∷ []) ts diff total value fee) b':'
      ≡ nonce ∷ row_fields e_nonce1 e_nonce2 ts diff total value fee
unfolding candidate_row
split-candidate_row nonce e_nonce1 e_nonce2 ts diff total value fee h h1 h2 =
    let fields = row_fields e_nonce1 e_nonce2 ts diff total value fee in
    let lacks : All (Lacks b':') (nonce ∷ fields) =
      search (h, h1, h2, format_int-Lacks, tt) depth 20 in
    unfold join in
    rw
      (join_with-join b':' nonce (e_nonce1 ∷ e_nonce2 ∷ []) (format_int ts)
        (format_int diff ∷ format_int total ∷ format_int value ∷ format_int fee ∷ []))
      (split-join b':' nonce fields lacks)

-- A candidate that `WriteBlock` adds is read back by `convertCandidateResults` with every value that
-- was written, if the nonces hold no colon and the numbers fit an int64.
pub candidate_of_row-candidate_row :
    (height : ℤ) (nonce e_nonce1 e_nonce2 : Bytes) (ts diff total value fee : ℤ)
    → Lacks b':' nonce
    → Lacks b':' e_nonce1
    → Lacks b':' e_nonce2
    → IsInt64 ts
    → IsInt64 diff
    → IsInt64 total
    → IsInt64 value
    → IsInt64 fee
    → let row = candidate_row (nonce ∷ e_nonce1 ∷ e_nonce2 ∷ []) ts diff total value fee in
      candidate_of_row (record { score = height; member = row })
      ≡ some (record empty_block {
        height = height;
        round_height = height;
        nonce = nonce;
        e_nonce1 = e_nonce1;
        e_nonce2 = e_nonce2;
        timestamp = ts;
        difficulty = diff;
        total_shares = total;
        coin_base_value = some value;
        blk_total_fee = some fee;
        candidate_key = row;
      })
unfolding candidate_of_row
candidate_of_row-candidate_row height nonce e_nonce1 e_nonce2 ts diff total value fee h h1 h2 t d n
      v f =
    rw (
      split-candidate_row nonce e_nonce1 e_nonce2 ts diff total value fee h h1 h2,
      parse_int-format_int ts t,
      parse_int-format_int diff d,
      parse_int-format_int total n,
      parse_int-format_int value v,
      parse_int-format_int fee f,
    )

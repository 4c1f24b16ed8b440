-- ===== src/Storage/Rows.antt =====
-- storage/redis.go: how the rows of the sorted sets are read back. `none` is a panic of the code,
-- an index that is out of range.
pub mod RoundTrip
use btcpool.Common.{
  Bool, true, false, Option, none, some, List, [], ◌∷◌, ltb, length, get_elem?, map_all, ◌>>=◌, ◌≡◌,
  ◌||◌, if◌then◌else◌,
}
use btcpool.Common.Int.{ℤ, pos}
use btcpool.Common.Bytes.{Bytes, codes, beq, split}
use btcpool.Common.Decimal.{parse_int, parse_big}
use btcpool.Storage.Keys.{BlockData, empty_block}

-- `redis.Z`: its score is a float64 that is made from an int64 and read as one; heights and times
-- lie below 2^53, where both conversions are exact.
pub record Z : Type 0 where
  pub score : ℤ
  pub member : Bytes

-- `strconv.ParseBool`, whose error is dropped.
pub parse_bool : Bytes → Bool
parse_bool s =
    beq s (codes "1")
    || beq s (codes "t")
    || beq s (codes "T")
    || beq s (codes "TRUE")
    || beq s (codes "true")
    || beq s (codes "True")

-- One round of the loop of `convertCandidateResults`.
pub candidate_of_row : Z → Option BlockData
candidate_of_row v = do
  let fields = split v.member b':'
  nonce ← get_elem? fields 0
  e_nonce1 ← get_elem? fields 1
  e_nonce2 ← get_elem? fields 2
  timestamp ← get_elem? fields 3
  difficulty ← get_elem? fields 4
  total_shares ← get_elem? fields 5
  coin_base_value ← get_elem? fields 6
  blk_total_fee ← get_elem? fields 7
  some (record empty_block {
    height = v.score;
    round_height = v.score;
    nonce = nonce;
    e_nonce1 = e_nonce1;
    e_nonce2 = e_nonce2;
    timestamp = (parse_int timestamp).0;
    difficulty = (parse_int difficulty).0;
    total_shares = (parse_int total_shares).0;
    coin_base_value = some (parse_int coin_base_value).0;
    blk_total_fee = some (parse_int blk_total_fee).0;
    candidate_key = v.member;
  })

unfoldable pub convert_candidate_results : List Z → Option (List BlockData)
unfolding candidate_of_row map_all
convert_candidate_results = map_all candidate_of_row

-- One round of the inner loop of `convertBlockResults`.
pub block_of_row : Z → Option BlockData
block_of_row v = do
  let fields = split v.member b':'
  orphan ← get_elem? fields 1
  nonce ← get_elem? fields 2
  hash ← get_elem? fields 3
  timestamp ← get_elem? fields 4
  difficulty ← get_elem? fields 5
  total_shares ← get_elem? fields 6
  coin_base_value ← get_elem? fields 7
  blk_total_fee ← get_elem? fields 8
  reward ← get_elem? fields 9
  some (record empty_block {
    height = v.score;
    round_height = v.score;
    uncle_height = pos 0;
    uncle = false;
    orphan = parse_bool orphan;
    nonce = nonce;
    hash = hash;
    timestamp = (parse_int timestamp).0;
    difficulty = (parse_int difficulty).0;
    total_shares = (parse_int total_shares).0;
    coin_base_value = parse_big coin_base_value;
    blk_total_fee = parse_big blk_total_fee;
    reward_string = reward;
    immature_reward = reward;
    immature_key = v.member;
  })

-- For one reply; `convertBlockResults` with several goes through them in turn.
unfoldable pub convert_block_results : List Z → Option (List BlockData)
unfolding block_of_row map_all
convert_block_results = map_all block_of_row

pub record Payment : Type 0 where
  pub timestamp : ℤ
  pub tx : Bytes
  pub address : Option Bytes
  pub amount : ℤ

-- One round of the loop of `convertPaymentsResults`; a key that is not set is `none`.
pub payment_of_row : Z → Option Payment
payment_of_row v = do
  let fields = split v.member b':'
  tx ← get_elem? fields 0
  second ← get_elem? fields 1
  if ltb (length fields) 3
      then some
          (record { timestamp = v.score; tx = tx; address = none; amount = (parse_int second).0 })
      else (do
        third ← get_elem? fields 2
        some (record {
          timestamp = v.score;
          tx = tx;
          address = some second;
          amount = (parse_int third).0;
        }))

unfoldable pub convert_payments_results : List Z → Option (List Payment)
unfolding payment_of_row map_all
convert_payments_results = map_all payment_of_row

pub record PendingPayment : Type 0 where
  pub timestamp : ℤ
  pub amount : ℤ
  pub address : Bytes

-- One round of the loop of `GetPendingPayments`.
pub pending_of_row : Z → Option PendingPayment
pending_of_row v = do
  let fields = split v.member b':'
  address ← get_elem? fields 0
  amount ← get_elem? fields 1
  some (record { timestamp = v.score; amount = (parse_int amount).0; address = address })

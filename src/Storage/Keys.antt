-- ===== src/Storage/Keys.antt =====
-- storage/redis.go: the record of a block, and how keys and rows are put together from values.
use btcpool.Common.{
  Bool, true, false, Option, none, some, List, [], ◌∷◌, ltb, length, map, if◌then◌else◌,
}
use btcpool.Common.{ℕ, ◌++◌, ◌≡◌, refl}
use btcpool.Common.Int.{ℤ, pos}
use btcpool.Common.Bytes.{Bytes, codes, join_with}
use btcpool.Common.Decimal.{format_int, format_uint}

-- `BlockData`; a `*big.Int` is `none` where it is nil.
pub record BlockData : Type 0 where
  pub height : ℤ
  pub timestamp : ℤ
  pub difficulty : ℤ
  pub total_shares : ℤ
  pub uncle : Bool
  pub uncle_height : ℤ
  pub orphan : Bool
  pub hash : Bytes
  pub nonce : Bytes
  pub e_nonce1 : Bytes
  pub e_nonce2 : Bytes
  pub coin_base_value : Option ℤ
  pub blk_total_fee : Option ℤ
  pub reward : Option ℤ
  pub extra_reward : Option ℤ
  pub immature_reward : Bytes
  pub reward_string : Bytes
  pub round_height : ℤ
  pub candidate_key : Bytes
  pub immature_key : Bytes

-- `BlockData{}`.
abbrev pub empty_block : BlockData
empty_block = record {
  height = pos 0;
  timestamp = pos 0;
  difficulty = pos 0;
  total_shares = pos 0;
  uncle = false;
  uncle_height = pos 0;
  orphan = false;
  hash = [];
  nonce = [];
  e_nonce1 = [];
  e_nonce2 = [];
  coin_base_value = none;
  blk_total_fee = none;
  reward = none;
  extra_reward = none;
  immature_reward = [];
  reward_string = [];
  round_height = pos 0;
  candidate_key = [];
  immature_key = [];
}

-- The types of value that the calls of `join` pass. (No call passes a float64.)
pub data Arg : Type 0 where
  str : Bytes → Arg
  int64 : ℤ → Arg
  uint64 : ℕ → Arg
  bool : Bool → Arg
  big : Option ℤ → Arg

unfoldable pub show : Arg → Bytes
show (str s) = s
show (int64 n) = format_int n
show (uint64 n) = format_uint n
show (bool true) = codes "1"
show (bool false) = codes "0"
show (big (some n)) = format_int n
show (big none) = codes "0"

unfoldable pub join : List Arg → Bytes
unfolding show join_with
join args = join_with b':' (map show args)

-- `formatKey` of a client with this prefix.
unfoldable pub format_key : Bytes → List Arg → Bytes
unfolding join
format_key prefix args = join (str prefix ∷ str (join args) ∷ [])

pub format_round : Bytes → ℤ → Bytes → Bytes
unfolding format_key
format_round prefix height nonce =
    format_key prefix
      (str (codes "shares") ∷ str (codes "round" ++ format_int height) ∷ str nonce ∷ [])

unfoldable pub serialize_hash : BlockData → Bytes
serialize_hash b = if ltb 0 (length b.hash) then b.hash else codes "0x0"

pub round_key : BlockData → Bytes
unfolding join
round_key b = join (int64 b.round_height ∷ str b.hash ∷ [])

-- `BlockData.key`
unfoldable pub key : BlockData → Bytes
unfolding join serialize_hash
key b = join (
    int64 b.uncle_height
    ∷ bool b.orphan
    ∷ str b.nonce
    ∷ str (serialize_hash b)
    ∷ int64 b.timestamp
    ∷ int64 b.difficulty
    ∷ int64 b.total_shares
    ∷ big b.coin_base_value
    ∷ big b.blk_total_fee
    ∷ big b.reward
    ∷ [])

round_sample :
    format_round (codes "btc") (pos 12) (codes "00ff00ff") ≡ codes "btc:shares:round12:00ff00ff"
unfolding format_round format_int join_with
round_sample = refl

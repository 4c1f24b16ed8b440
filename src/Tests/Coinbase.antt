-- ===== src/Tests/Coinbase.antt =====
-- Coinbase transactions, packed by functions of the usual layout and paid to a key.
use btcpool.Common.{
  ℕ, ◌/◌, ◌%◌, ◌<◌, ◌≤◌, ◌≡◌, refl, Option, none, some, [], ◌∷◌, ◌++◌, length, ltb, if◌then◌else◌,
  ◌>>=◌, arith,
}
use btcpool.Common.Int.{pos, pos_part}
use btcpool.Common.Bytes.{Bytes, codes}
use btcpool.Common.Hex.{decode, from_digit}
use btcpool.Common.Result.{Result, panic, failed, done, or_fail}
use btcpool.Bitcoin.Number.{
  Acc_below, lt_wf, pack_loop, pack_number, read_push, little_endian, top, read_push-pack_number,
}
use btcpool.Bitcoin.Coinbase.{
  Library, CoinBaseTransaction, key_script, get_coin_base_script_by_pub_key, get_coin_base_script,
  pack_string, generate_coin_b, generate_coin_b1, generate_coin_b2, witness_vout, initialize,
  recover_to_raw_transaction,
}
use btcpool.Bitcoin.Coinbase.Serialize.{PacksScripts}
use btcpool.Bitcoin.Coinbase.Initialize.{IsCoinbase, recover_to_raw_transaction-IsCoinbase}

read_push-pack_number_example :
    (t : Bytes) × (read_push (pack_number (pos 800000) ++ codes "rest") ≡ some (t, codes "rest"))
    × (little_endian t ≡ 800000)
    × (length t ≤ 9)
    × (top t < 128)
read_push-pack_number_example = read_push-pack_number 800000 (codes "rest") (omega arith)

-- Two bytes, then zeros.
abbrev pub low : ℕ → Bytes → Bytes
low n zeros = n % 256 ∷ n / 256 % 256 ∷ zeros

abbrev pub compact_size : ℕ → Option Bytes
compact_size n = if ltb n 253 then some (n ∷ []) else none

abbrev pub library : Library
library = record {
  base58 = decode;
  sha256 = λ s. s;
  pack_byte = λ b. some (b ∷ []);
  pack_int32 = λ z. some (low (pos_part z) (0 ∷ 0 ∷ []));
  pack_uint32 = λ n. some (low n (0 ∷ 0 ∷ []));
  pack_int64 = λ z. some (low (pos_part z) (0 ∷ 0 ∷ 0 ∷ 0 ∷ 0 ∷ 0 ∷ []));
  pack_compact_size = compact_size;
  set_hex = decode;
  pack_out_point = λ hash n. some (hash ++ 255 ∷ 255 ∷ 255 ∷ 255 ∷ []);
  pack_script = λ s. compact_size (length s) >>= λ size. some (size ++ s);
  pack_pub_key = λ key. some (33 ∷ key);
  pack_key_id = λ key. some (20 ∷ key);
  op_dup = 0x76;
  op_hash160 = 0xa9;
  op_equal = 0x87;
  op_equalverify = 0x88;
  op_checksig = 0xac;
}

pub library-PacksScripts : PacksScripts library
library-PacksScripts s size e = rw (e) refl

abbrev pub wallet : Bytes
wallet = codes "020000000000000000000000000000000000000000000000000000000000000001"

abbrev pub blank : CoinBaseTransaction
blank = record {
  block_time = 0;
  block_height = 0;
  reward_value = pos 0;
  cb_extras = [];
  cb_aux_flag = [];
  vin_script1 = [];
  vin_script2 = [];
  vout_script = [];
  coin_base_tx1 = [];
  coin_base_tx2 = [];
  default_witness_commitment = [];
}

abbrev pub result_or {ℓ} : {A : Type ℓ} → Result A → A → A
result_or (done a) b = a
result_or panic b = b
result_or failed b = b

abbrev pub coinbase : CoinBaseTransaction
coinbase =
    result_or
      (initialize library (pos 1700000000) wallet 1700000000 800000 (pos 1000) (codes "0a")
        (codes "pool") [])
      blank

recover_to_raw_transaction-IsCoinbase_example :
    (raw : Bytes) × IsCoinbase library
      (pos 1700000000)
      wallet
      800000
      (pos 1000)
      (codes "0a")
      (codes "pool")
      []
      (0 ∷ 1 ∷ 0 ∷ 2 ∷ [])
      (1 ∷ 2 ∷ 3 ∷ 4 ∷ [])
      raw
    × (recover_to_raw_transaction some coinbase (codes "00010002") (codes "01020304")
        ≡ or_fail (some raw))
unfolding Acc_below lt_wf pack_loop pack_number decode from_digit key_script
    get_coin_base_script_by_pub_key get_coin_base_script pack_string generate_coin_b
    generate_coin_b1 generate_coin_b2 witness_vout initialize native.Mathlib.Decide.dec_lt
recover_to_raw_transaction-IsCoinbase_example =
    recover_to_raw_transaction-IsCoinbase library some (pos 1700000000) wallet 1700000000 800000
      (pos 1000) (codes "0a") (codes "pool") [] (codes "00010002") (codes "01020304")
      library-PacksScripts refl refl refl refl refl

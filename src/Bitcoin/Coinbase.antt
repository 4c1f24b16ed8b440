-- ===== src/Bitcoin/Coinbase.antt =====
-- bitcoin/btc_coinbase.go: the coinbase transaction, cut where the extra nonces go. base58, SHA-256
-- and the packing of numbers, scripts and keys are those of the package bitcoin-lib. A call that
-- packs gives the bytes it writes; what an error leaves behind in the receiver is not kept, since
-- the caller drops it.
pub mod Serialize
pub mod Initialize
pub mod Total
use btcpool.Common.{
  ℕ, ◌+◌, Bool, true, false, not, ◌&&◌, ◌||◌, ◌==◌, Option, none, some, List, [], ◌∷◌, ◌++◌, length,
  take, drop, replicate, if◌then◌else◌,
}
use btcpool.Common.Int.{ℤ, pos}
use btcpool.Common.Bytes.{Bytes, beq}
use btcpool.Common.Hex.{encode, decode}
use btcpool.Common.Result.{Result, panic, failed, done, ◌>>=◌, or_fail}
use btcpool.Bitcoin.Number.{pack_number}

-- bitcoin-lib; `none` is an error.
pub record Library : Type 0 where
  pub base58 : Bytes → Option Bytes
  pub sha256 : Bytes → Bytes
  pub pack_byte : ℕ → Option Bytes
  pub pack_int32 : ℤ → Option Bytes
  pub pack_uint32 : ℕ → Option Bytes
  pub pack_int64 : ℤ → Option Bytes
  pub pack_compact_size : ℕ → Option Bytes
  -- `SetHex` of a Uint256
  pub set_hex : Bytes → Option Bytes
  -- `Pack` of an OutPoint
  pub pack_out_point : Bytes → ℕ → Option Bytes
  -- `Pack` of a Script
  pub pack_script : Bytes → Option Bytes
  -- `SetPubKeyData` and `Pack` of a PubKey
  pub pack_pub_key : Bytes → Option Bytes
  -- `SetKeyIDData` and `Pack` of a KeyID
  pub pack_key_id : Bytes → Option Bytes
  pub op_dup : ℕ
  pub op_hash160 : ℕ
  pub op_equal : ℕ
  pub op_equalverify : ℕ
  pub op_checksig : ℕ

pub record CoinBaseTransaction : Type 0 where
  pub block_time : ℕ
  pub block_height : ℕ
  pub reward_value : ℤ
  pub cb_extras : Bytes
  pub cb_aux_flag : Bytes
  pub vin_script1 : Bytes
  pub vin_script2 : Bytes
  pub vout_script : Bytes
  pub coin_base_tx1 : Bytes
  pub coin_base_tx2 : Bytes
  pub default_witness_commitment : Bytes

abbrev pub extranonce1_size : ℕ
extranonce1_size = 4

abbrev pub extranonce2_size : ℕ
extranonce2_size = 4

abbrev pub coinbase_tx_version : ℕ
coinbase_tx_version = 2

module _ (l : Library) where
  -- The script of a key; the first byte of an empty one is out of range.
  unfoldable pub key_script : Bytes → Result Bytes
  key_script [] = panic
  key_script (b ∷ key) = if not (b == 2) && not (b == 3) then failed else do
    packed ← or_fail (l.pack_pub_key (b ∷ key))
    op ← or_fail (l.pack_byte l.op_checksig)
    done (packed ++ op)

  -- `GetCoinBaseScriptByPubKey`
  unfoldable pub get_coin_base_script_by_pub_key : Bytes → Result Bytes
  get_coin_base_script_by_pub_key pub_key_hex = do
    pub_key ← or_fail (decode pub_key_hex)
    key_script pub_key

  -- The script that pays to the hash of a key.
  unfoldable pub pay_to_key_hash : Bytes → Result Bytes
  pay_to_key_hash hash = do
    dup ← or_fail (l.pack_byte l.op_dup)
    hash160 ← or_fail (l.pack_byte l.op_hash160)
    addr ← or_fail (l.pack_key_id hash)
    equalverify ← or_fail (l.pack_byte l.op_equalverify)
    checksig ← or_fail (l.pack_byte l.op_checksig)
    done ((((dup ++ hash160) ++ addr) ++ equalverify) ++ checksig)

  -- The script that pays to the hash of a script.
  unfoldable pub pay_to_script_hash : Bytes → Result Bytes
  pay_to_script_hash hash = do
    hash160 ← or_fail (l.pack_byte l.op_hash160)
    addr ← or_fail (l.pack_key_id hash)
    equal ← or_fail (l.pack_byte l.op_equal)
    done ((hash160 ++ addr) ++ equal)

  -- `addrWithCheck[0]` of a text of 25 bytes.
  abbrev version_byte : Bytes → ℕ
  version_byte [] = 0
  version_byte (b ∷ s) = b

  -- `GetCoinBaseScriptByAddress`
  unfoldable pub get_coin_base_script_by_address : Bytes → Result Bytes
  get_coin_base_script_by_address address = do
    addr_with_check ← or_fail (l.base58 address)
    if not (length addr_with_check == 25)
        then failed
        else if not
            (beq (take 4 (l.sha256 (l.sha256 (take 21 addr_with_check)))) (drop 21 addr_with_check))
        then failed
        else (let version = version_byte addr_with_check in
            let hash = drop 1 (take 21 addr_with_check) in
            if version == 0 || version == 111
            then pay_to_key_hash hash
            else if version == 5 || version == 196
            then pay_to_script_hash hash
            else failed)

  -- `GetCoinBaseScript`
  unfoldable pub get_coin_base_script : Bytes → Result Bytes
  get_coin_base_script wallet =
      if length wallet == 66
      then get_coin_base_script_by_pub_key wallet
      else get_coin_base_script_by_address wallet

  -- `GetCoinBaseScriptHex`
  pub get_coin_base_script_hex : Bytes → Result Bytes
  get_coin_base_script_hex wallet = do script ← get_coin_base_script wallet; done (encode script)

  -- `PackString`
  unfoldable pub pack_string : Bytes → Result Bytes
  pack_string str = do size ← or_fail (l.pack_compact_size (length str)); done (size ++ str)

  -- The first part: up to the place of the extra nonces, which the length of the script counts.
  unfoldable pub generate_coin_b1 : CoinBaseTransaction → Result Bytes
  generate_coin_b1 t = do
    version ← or_fail (l.pack_int32 (pos coinbase_tx_version))
    vin_count ← or_fail (l.pack_compact_size 1)
    hash ← or_fail (l.set_hex (replicate 64 b'0'))
    prev_out ← or_fail (l.pack_out_point hash 0xFFFFFFFF)
    size ← or_fail (
        l.pack_compact_size
          (length t.vin_script1 + extranonce1_size + extranonce2_size + length t.vin_script2))
    done ((((version ++ vin_count) ++ prev_out) ++ size) ++ t.vin_script1)

  -- The output of the witness commitment, where there is one.
  unfoldable pub witness_vout : Bytes → Result Bytes
  witness_vout commitment = if length commitment == 0 then done [] else do
    value ← or_fail (l.pack_int64 (pos 0))
    script ← or_fail (l.pack_script commitment)
    done (value ++ script)

  -- The second part: what follows the extra nonces.
  unfoldable pub generate_coin_b2 : CoinBaseTransaction → Result Bytes
  generate_coin_b2 t = do
    sequence ← or_fail (l.pack_uint32 0)
    vout_count ←
        or_fail (l.pack_compact_size (if length t.default_witness_commitment == 0 then 1 else 2))
    value ← or_fail (l.pack_int64 t.reward_value)
    script ← or_fail (l.pack_script t.vout_script)
    witness ← witness_vout t.default_witness_commitment
    lock_time ← or_fail (l.pack_uint32 0)
    done (
        (((((t.vin_script2 ++ sequence) ++ vout_count) ++ value) ++ script) ++ witness)
        ++ lock_time)

  -- `_generateCoinB`
  unfoldable pub generate_coin_b : CoinBaseTransaction → Result CoinBaseTransaction
  generate_coin_b t = do
    tx1 ← generate_coin_b1 t
    tx2 ← generate_coin_b2 t
    done (record t { coin_base_tx1 = tx1; coin_base_tx2 = tx2 })

  -- `Initialize`, at a time in seconds.
  unfoldable pub initialize :
      ℤ → Bytes → ℕ → ℕ → ℤ → Bytes → Bytes → Bytes → Result CoinBaseTransaction
  initialize now cb_wallet b_time height value flags cb_extras default_witness_commitment = do
    cb_flag ← or_fail (decode flags)
    script2 ← pack_string cb_extras
    vout_script ← get_coin_base_script cb_wallet
    commitment ← or_fail (decode default_witness_commitment)
    if not (length commitment == 38) && not (length commitment == 0)
        then failed
        else generate_coin_b (record {
          block_time = b_time;
          block_height = height;
          reward_value = value;
          cb_extras = cb_extras;
          cb_aux_flag = cb_flag;
          vin_script1 =
              ((pack_number (pos height) ++ cb_flag) ++ pack_number now)
              ++ (extranonce1_size + extranonce2_size) ∷ [];
          vin_script2 = script2;
          vout_script = vout_script;
          coin_base_tx1 = [];
          coin_base_tx2 = [];
          default_witness_commitment = commitment;
        })

-- `RecoverToRawTransaction`
pub recover_to_raw_transaction {ℓ} :
    {Transaction : Type ℓ}
    → (Bytes → Option Transaction)
    → CoinBaseTransaction
    → Bytes
    → Bytes
    → Result Transaction
recover_to_raw_transaction unpack t extra_nonce1_hex extra_nonce2_hex = do
  extra_nonce1 ← or_fail (decode extra_nonce1_hex)
  extra_nonce2 ← or_fail (decode extra_nonce2_hex)
  if not (length extra_nonce1 == extranonce1_size)
      then failed
      else if not (length extra_nonce2 == extranonce2_size)
      then failed
      else or_fail (unpack (((t.coin_base_tx1 ++ extra_nonce1) ++ extra_nonce2) ++ t.coin_base_tx2))

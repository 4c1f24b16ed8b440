-- ===== src/Proxy/Work.antt =====
-- proxy/blocks.go and proxy/miner.go: the header of a share, the test of its hash, and the raw block.
-- The packages for transactions, hashes and Merkle trees are parameters.
pub mod Submitted
use btcpool.Common.{
  ℕ, ◌+◌, ◌*◌, ◌/◌, ◌%◌, ◌^◌, Bool, true, false, Option, none, some, List, [], ◌∷◌, ◌++◌, ltb, ◌==◌,
  ◌>>=◌, if◌then◌else◌,
}
use btcpool.Common.Int.{ℤ, pos, ltb_ℤ, wrap32}
use btcpool.Common.Bytes.{Bytes, beq}
use btcpool.Common.Hex.{decode, from_digit}

-- `BlockTemplateJob`
pub record BlockTemplateJob : Type 0 where
  pub blk_tpl_job_id : Bytes
  pub blk_tpl_job_time : ℕ
  pub tx_id_list : List Bytes
  pub merkle_branch : List Bytes
  pub coin_base1 : Bytes
  pub coin_base2 : Bytes
  pub coin_base_value : ℤ
  pub job_txs_fee_total : ℤ
  pub default_witness_commitment : Bytes

-- `BlockTemplate`; the maps are lists of entries.
pub record BlockTemplate : Type 0 where
  pub version : ℕ
  pub height : ℕ
  pub prev_hash : Bytes
  pub n_bits : ℕ
  pub target : Bytes
  pub difficulty : ℤ
  pub block_tpl_job_map : List (Bytes × BlockTemplateJob)
  pub tx_detail_map : List (Bytes × Bytes)
  pub update_time : ℤ
  pub new_blk_tpl : Bool
  pub last_blk_tpl_id : Bytes

-- `Block`: a share or a block, as it comes from a miner.
pub record Block : Type 0 where
  pub difficulty : ℤ
  pub coin_base1 : Bytes
  pub coin_base2 : Bytes
  pub extra_nonce1 : Bytes
  pub extra_nonce2 : Bytes
  pub merkle_branch : List Bytes
  pub n_version : ℕ
  pub prev_hash : Bytes
  pub s_time : Bytes
  pub n_bits : ℕ
  pub s_nonce : Bytes

-- `block.BlockHeader` of bitcoin-lib; a Uint256 is its bytes.
pub record Header : Type 0 where
  pub version : ℤ
  pub hash_prev_block : Bytes
  pub hash_merkle_root : Bytes
  pub time : ℕ
  pub bits : ℕ
  pub nonce : ℕ

-- The packages that the code calls: each call gives a result or an error.
pub record Packages : Type 1 where
  pub Transaction : Type 0
  pub unpack : Bytes → Option Transaction
  pub unpack_from_hex : Bytes → Option Transaction
  pub calc_trx_id : Transaction → Option Bytes
  pub merkle_root : Bytes → List Bytes → Option Bytes
  -- `SetHex` of a Uint256
  pub set_hex : Bytes → Option Bytes
  pub pack_header : Header → Option Bytes
  pub pack_block : Header → List Transaction → Option Bytes
  pub sha256 : Bytes → Bytes
  -- `GetHex` of a Baseblob
  pub get_hex : Bytes → Bytes
  -- `common.FromHex`
  pub from_hex : Bytes → Bytes

-- A lookup in a map.
unfoldable pub lookup {ℓ} : {A : Type ℓ} → Bytes → List (Bytes × A) → Option A
lookup k [] = none
lookup k ((j, a) ∷ m) = if beq j k then some a else lookup k m

-- The value of hexadecimal digits, most significant first; `none` at another byte.
unfoldable pub hex_value : ℕ → Bytes → Option ℕ
hex_value n [] = some n
hex_value n (c ∷ s) = from_digit c >>= λ d. hex_value (n * 16 + d) s

-- `strconv.ParseUint(s, 16, 32)`; `none` is an error.
unfoldable pub parse_uint_hex : Bytes → Option ℕ
parse_uint_hex [] = none
parse_uint_hex (c ∷ s) = hex_value 0 (c ∷ s) >>= λ n. if ltb n (2 ^ 32) then some n else none

-- `new(big.Int).SetBytes`
unfoldable pub set_bytes : ℕ → Bytes → ℕ
set_bytes n [] = n
set_bytes n (b ∷ s) = set_bytes (n * 256 + b) s

module _ (p : Packages) where
  open p use {Transaction}

  -- `TargetHexToDiff`; `none` is the panic of a division by zero.
  unfoldable pub target_hex_to_diff : Bytes → Option ℤ
  target_hex_to_diff target_hex =
      let n = set_bytes 0 (p.from_hex target_hex) in
      if n == 0 then none else some (pos (2 ^ 256 / n))

  -- What `DoubleSha256HashVerify` and `ConstructRawBlockHex` both begin with: the coinbase
  -- transaction and the header, or an error.
  unfoldable pub assemble : Block → Option (Transaction × Header)
  assemble b = do
    bytes1 ← decode b.coin_base1
    bytes2 ← decode b.extra_nonce1
    bytes3 ← decode b.extra_nonce2
    bytes4 ← decode b.coin_base2
    cb_trx ← p.unpack (((bytes1 ++ bytes2) ++ bytes3) ++ bytes4)
    cb_trx_id ← p.calc_trx_id cb_trx
    root_hex ← p.merkle_root cb_trx_id b.merkle_branch
    prev ← p.set_hex b.prev_hash
    root ← p.set_hex root_hex
    n_time ← parse_uint_hex b.s_time
    n_nonce ← parse_uint_hex b.s_nonce
    some (
      cb_trx,
      record {
        version = wrap32 (pos b.n_version);
        hash_prev_block = prev;
        hash_merkle_root = root;
        time = n_time;
        bits = b.n_bits;
        nonce = n_nonce;
      },
    )

  -- The difficulty of a header's double hash; the inner `none` is a panic.
  unfoldable pub hash_diff : Bytes → Option ℤ
  hash_diff packed = target_hex_to_diff (p.get_hex (p.sha256 (p.sha256 packed)))

  -- `DoubleSha256HashVerify`: an error is false; `none` is a panic.
  unfoldable pub double_sha256_hash_verify : Block → Option Bool
  double_sha256_hash_verify b = elim (assemble b) [
    | none ↦ some false
    | some (_, header) ↦ elim (p.pack_header header) [
      | none ↦ some false
      | some packed ↦ elim (hash_diff packed) [ none ↦ none | some d ↦ some (ltb_ℤ b.difficulty d) ]
    ]
  ]

  -- The loop over the transactions of a job: `none` is an error, and `some none` the return of an
  -- empty text with no error where the map has no transaction of that name.
  pub add_transactions :
      List Bytes → List (Bytes × Bytes) → List Transaction → Option (Option (List Transaction))
  add_transactions [] details vtx = some (some vtx)
  add_transactions (id ∷ ids) details vtx = elim (lookup id details) [
    | none ↦ some none
    | some raw ↦ elim (p.unpack_from_hex raw) [
      | none ↦ none
      | some trx ↦ add_transactions ids details (vtx ++ trx ∷ [])
    ]
  ]

  -- `ConstructRawBlockHex`: `none` is an error.
  pub construct_raw_block_hex : Block → BlockTemplateJob → BlockTemplate → Option Bytes
  construct_raw_block_hex b job tpl = do
    (cb_trx, header) ← assemble b
    vtx ← add_transactions job.tx_id_list tpl.tx_detail_map (cb_trx ∷ [])
    elim vtx [ none ↦ some [] | some trxs ↦ p.pack_block header trxs ]

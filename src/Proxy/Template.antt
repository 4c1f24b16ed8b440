-- ===== src/Proxy/Template.antt =====
-- proxy/blocks.go: `fetchBlockTemplate`. What the node replies, the Merkle branch, the two parts of
-- the coinbase transaction and SHA-256 are arguments; the time is in seconds.
pub mod Jobs
pub mod Coinbase
use btcpool.Common.{
  ℕ, ◌+◌, ◌-◌, ◌*◌, ◌%◌, ◌^◌, Bool, true, false, ◌&&◌, Option, none, some, List, [], ◌∷◌, map, take,
  ltb, ◌==◌, ◌>>=◌, if◌then◌else◌,
}
use btcpool.Common.Int.{ℤ, pos, ◌-ℤ◌, ltb_ℤ, leb_ℤ, add64}
use btcpool.Common.Bytes.{Bytes, beq}
use btcpool.Common.Hex.{encode}
use btcpool.Proxy.Work.{BlockTemplate, BlockTemplateJob, hex_value}

-- `rpc.GetBlockTemplateReplyPart`, as far as it is read.
pub record TplTransaction : Type 0 where
  pub tx_id : Bytes
  pub data_hex : Bytes
  pub fee : ℤ

pub record TemplateReply : Type 0 where
  pub version : ℕ
  pub height : ℕ
  pub previous_block_hash : Bytes
  pub bits : Bytes
  pub target : Bytes
  pub cur_time : ℕ
  pub transactions : List TplTransaction
  pub coin_base_value : ℤ
  pub flags : Bytes
  pub default_witness_commitment : Bytes

-- What a call leaves: the template as it was, the end by a panic, or a new template.
pub data Fetch : Type 0 where
  unchanged panic : Fetch
  fetched : BlockTemplate → Fetch

-- `m[k] = a` on a map.
pub put_entry {ℓ} : {A : Type ℓ} → Bytes → A → List (Bytes × A) → List (Bytes × A)
put_entry k a [] = (k, a) ∷ []
put_entry k a ((j, b) ∷ m) = if beq j k then (j, a) ∷ m else (j, b) ∷ put_entry k a m

-- Hexadecimal digits below a bound; `none` is an error.
pub bounded_hex : ℕ → Bytes → Option ℕ
bounded_hex bound [] = none
bounded_hex bound (c ∷ s) = hex_value 0 (c ∷ s) >>= λ n. if ltb n bound then some n else none

-- `uint32` of `strconv.ParseInt(s, 16, 32)`.
pub parse_bits : Bytes → Option ℕ
parse_bits [] = none
parse_bits (c ∷ s) =
    if c == b'-'
    then (bounded_hex (2 ^ 31 + 1) s >>= λ n. some ((2 ^ 32 - n) % 2 ^ 32))
    else if c == b'+'
    then bounded_hex (2 ^ 31) s
    else bounded_hex (2 ^ 31) (c ∷ s)

pub total_fee : ℤ → List TplTransaction → ℤ
total_fee total [] = total
total_fee total (tx ∷ txs) = total_fee (add64 total tx.fee) txs

pub put_details : List TplTransaction → List (Bytes × Bytes) → List (Bytes × Bytes)
put_details [] m = m
put_details (tx ∷ txs) m = put_details txs (put_entry tx.tx_id tx.data_hex m)

-- The template before the job is added: it starts anew on another previous block.
unfoldable pub base_template : ℤ → ℤ → TemplateReply → Option BlockTemplate → Option BlockTemplate
base_template now difficulty reply t =
    let anew = parse_bits reply.bits >>= λ n_bits. some (record {
      version = reply.version;
      height = reply.height;
      prev_hash = reply.previous_block_hash;
      n_bits = n_bits;
      target = reply.target;
      difficulty = difficulty;
      block_tpl_job_map = [];
      tx_detail_map = [];
      update_time = now;
      new_blk_tpl = true;
      last_blk_tpl_id = [];
    }) in
    elim t [
      | none ↦ anew
      | some old ↦
          if beq old.prev_hash reply.previous_block_hash
          then some (record old {
            difficulty = difficulty;
            update_time = now;
            new_blk_tpl = false;
            last_blk_tpl_id = [];
          })
          else anew
    ]

-- The job of a reply, and its template with the job in it.
unfoldable pub make_job :
    (Bytes → Bytes) → TemplateReply → List Bytes → Bytes × Bytes → BlockTemplateJob
make_job sha256 reply branch (coin_base_tx1, coin_base_tx2) = record {
  blk_tpl_job_id = take 16 (encode (sha256 coin_base_tx1));
  blk_tpl_job_time = reply.cur_time;
  tx_id_list = map (λ tx. tx.tx_id) reply.transactions;
  merkle_branch = branch;
  coin_base1 = encode coin_base_tx1;
  coin_base2 = encode coin_base_tx2;
  coin_base_value = reply.coin_base_value;
  job_txs_fee_total = total_fee (pos 0) reply.transactions;
  default_witness_commitment = reply.default_witness_commitment;
}

pub add_job : BlockTemplateJob → TemplateReply → BlockTemplate → BlockTemplate
add_job job reply tpl = record tpl {
  last_blk_tpl_id = job.blk_tpl_job_id;
  block_tpl_job_map = put_entry job.blk_tpl_job_id job tpl.block_tpl_job_map;
  tx_detail_map = put_details reply.transactions tpl.tx_detail_map;
}

-- Whether the template is of the node's last block, and fresh.
unfoldable pub is_fresh : ℤ → ℤ → Bytes → Option BlockTemplate → Bool
is_fresh now interval prev_hash none = false
is_fresh now interval prev_hash (some t) =
    beq t.prev_hash prev_hash && ltb_ℤ (now -ℤ t.update_time) interval

module _ (sha256 : Bytes → Bytes) (difficulty_of : Bytes → Option ℤ)
    (merkle_branch : List Bytes → Option (List Bytes))
    (coinbase : TemplateReply → ℕ → Option (Bytes × Bytes)) where
  -- The end of `fetchBlockTemplate`, from the template before the job is added.
  pub fetch_job : TemplateReply → BlockTemplate → Fetch
  fetch_job reply tpl = elim (merkle_branch (map (λ tx. tx.tx_id) reply.transactions)) [
    | none ↦ unchanged
    | some branch ↦
        if leb_ℤ reply.coin_base_value (pos 0)
        then unchanged
        else elim (coinbase reply tpl.height) [
          | none ↦ unchanged
          | some parts ↦ fetched (add_job (make_job sha256 reply branch parts) reply tpl)
        ]
  ]

  -- `fetchBlockTemplate`, with the replies to its two calls of the node. The inner `none` is a reply
  -- without a result, a nil pointer. On another previous block the bits are parsed before the
  -- difficulty is computed.
  pub fetch_block_template :
      ℤ → ℤ → Option Bytes → Option (Option TemplateReply) → Option BlockTemplate → Fetch
  fetch_block_template now interval none reply t = unchanged
  fetch_block_template now interval (some prev_hash) reply t =
      if is_fresh now interval prev_hash t then unchanged else elim reply [
        | none ↦ unchanged
        | some none ↦ panic
        | some (some rep) ↦ elim (base_template now (pos 0) rep t) [
          | none ↦ unchanged
          | some tpl ↦ elim (difficulty_of rep.target) [
            | none ↦ panic
            | some d ↦ fetch_job rep (record tpl { difficulty = d })
          ]
        ]
      ]

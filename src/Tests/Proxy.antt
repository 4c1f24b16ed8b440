-- ===== src/Tests/Proxy.antt =====
-- Shares of one session, with packages that do no more than keep the bytes.
pub mod Submit
pub mod Stratum
pub mod Http
pub mod Broadcast
pub mod Difficulty
pub mod Template
pub mod Coinbase
use btcpool.Common.{
  ℕ, ◌^◌, not, ◌||◌, ◌≡◌, refl, Bool, true, false, Option, none, some, List, [], ◌∷◌, arith,
  map_all,
}
use btcpool.Common.Int.{ℤ, pos, ◌-ℤ◌, ltb_ℤ, wrap64}
use btcpool.Common.Bytes.{Bytes, codes}
use btcpool.Common.Hex.{decode, from_digit}
use btcpool.Proxy.Work.{
  Block, BlockTemplate, BlockTemplateJob, Header, Packages, lookup, hex_value, parse_uint_hex,
  set_bytes, target_hex_to_diff, assemble, hash_diff, double_sha256_hash_verify,
  construct_raw_block_hex,
}
use btcpool.Proxy.Work.Submitted.{detail, construct_raw_block_hex-Verified}
use btcpool.Proxy.Template.{TemplateReply, fetched, is_fresh, base_template, fetch_block_template}
use btcpool.Proxy.Template.Jobs.{Serves, Leaves, fetch_block_template-Serves}
use btcpool.Proxy.Miner.{World, Submission, block_of, process_share}
use btcpool.Proxy.Miner.Accepted.{process_share-Verified, process_share_replay, process_share_new}
use btcpool.Policy.{apply_malformed_policy}
use btcpool.Tests.Policy
use btcpool.Proxy.Session.Submit.{handle_submit_rpc_valid, handle_submit_rpc-Verified}
use btcpool.Proxy.Session.{
  Session, Pool, ErrorReply, minus_one, nonce_pattern, submission_of, handle_submit_rpc,
}
use btcpool.Proxy.Session.Nonce.{handle_subscribe_rpc-injective}
use btcpool.Tests.Shares.{prefix, server, seen_set, nothing_seen}

-- Every header has the hash 1.
abbrev pub packages : Packages
packages = record {
  Transaction = Bytes;
  unpack = λ s. some s;
  unpack_from_hex = decode;
  calc_trx_id = λ t. some t;
  merkle_root = λ id branch. some id;
  set_hex = λ s. some s;
  pack_header = λ h. some [];
  pack_block = λ h trxs. some (codes "block");
  sha256 = λ s. s;
  get_hex = λ s. s;
  from_hex = λ s. 1 ∷ [];
}

abbrev pub job : BlockTemplateJob
job = record {
  blk_tpl_job_id = codes "j1";
  blk_tpl_job_time = 1700000000;
  tx_id_list = codes "t1" ∷ [];
  merkle_branch = [];
  coin_base1 = codes "01";
  coin_base2 = codes "02";
  coin_base_value = pos 1000;
  job_txs_fee_total = pos 7;
  default_witness_commitment = [];
}

abbrev pub template : BlockTemplate
template = record {
  version = 1;
  height = 800000;
  prev_hash = codes "ab";
  n_bits = 1;
  target = codes "01";
  difficulty = pos (2 ^ 256);
  block_tpl_job_map = (codes "j1", job) ∷ [];
  tx_detail_map = (codes "t1", codes "0a") ∷ [];
  update_time = pos 1700000000;
  new_blk_tpl = true;
  last_blk_tpl_id = codes "j1";
}

abbrev pub submission : Submission
submission = record {
  login = codes "alice";
  id = codes "rig";
  e_nonce1 = codes "00010001";
  share_diff = pos 4;
  ms = 1700000000000;
  window = pos 600;
}

abbrev pub work : ℤ → Block
work = block_of submission template job (codes "0000002a") (codes "6553f100") (codes "1a2b3c4d")

pub share_verified : double_sha256_hash_verify packages (work (pos 4)) ≡ some true
unfolding double_sha256_hash_verify assemble hash_diff target_hex_to_diff parse_uint_hex hex_value
    set_bytes decode from_digit block_of
share_verified = refl

pub no_block : double_sha256_hash_verify packages (work (pos (2 ^ 256))) ≡ some false
unfolding double_sha256_hash_verify assemble hash_diff target_hex_to_diff parse_uint_hex hex_value
    set_bytes decode from_digit block_of
no_block = refl

pub job_known : lookup (codes "j1") template.block_tpl_job_map ≡ some job
unfolding lookup
job_known = refl

abbrev pub accepts : Bytes → World server → Bool
accepts raw w = true

abbrev pub world : World server
world = record { store = nothing_seen; submitted = []; refreshed = 0 }

abbrev pub shares : List Bytes
shares =
    codes "alice.rig" ∷ codes "j1" ∷ codes "0000002a" ∷ codes "6553f100" ∷ codes "1a2b3c4d" ∷ []

process_share_replay_example :
    (process_share packages server prefix accepts submission shares template
      (process_share packages server prefix accepts submission shares template world).1).0
    ≡ some (true, false)
process_share_replay_example =
    process_share_replay packages server prefix accepts seen_set submission template world
      (codes "alice.rig") (codes "j1") (codes "0000002a") (codes "6553f100") (codes "1a2b3c4d") []
      job (codes "alice") (codes "rig") 1700000000000 job_known share_verified no_block
      (omega arith) (omega arith)

details_known :
    map_all (detail packages template.tx_detail_map) job.tx_id_list ≡ some ((10 ∷ []) ∷ [])
unfolding map_all lookup decode from_digit
details_known = refl

construct_raw_block_hex-Verified_example :
    (header : Header) × (cb_trx : packages.Transaction) × (packed : Bytes) × (d : ℤ)
    × (packages.pack_header header ≡ some packed)
    × (hash_diff packages packed ≡ some d)
    × (ltb_ℤ (work (pos 4)).difficulty d ≡ true)
    × (construct_raw_block_hex packages (work (pos 4)) job template
        ≡ packages.pack_block header (cb_trx ∷ (10 ∷ []) ∷ []))
unfolding block_of
construct_raw_block_hex-Verified_example =
    construct_raw_block_hex-Verified packages (work (pos 4)) job template share_verified
      details_known

abbrev pub session : Session
session = record {
  ip = codes "10.0.0.1";
  login = codes "alice";
  id = codes "rig";
  target = codes "01";
  target_next_job = codes "01";
  share_count_inv = pos 0;
  tag = 1;
  sid = [];
  extra_nonce1 = codes "00010001";
  is_auth = true;
}

abbrev pub server_id : ℕ
server_id = 1

accepted_first :
    (process_share packages server prefix accepts submission shares template world).0
    ≡ some (false, true)
accepted_first =
    process_share_new packages server prefix accepts seen_set submission template world
      (codes "alice.rig") (codes "j1") (codes "0000002a") (codes "6553f100") (codes "1a2b3c4d") []
      job job_known share_verified no_block refl refl

process_share-Verified_example :
    (h : BlockTemplateJob) × (lookup (codes "j1") template.block_tpl_job_map ≡ some h)
    × (double_sha256_hash_verify packages (
          block_of submission template h
            (codes "0000002a")
            (codes "6553f100")
            (codes "1a2b3c4d")
            (pos 4))
        ≡ some true)
process_share-Verified_example =
    process_share-Verified packages server prefix accepts submission template world
      (codes "alice.rig") (codes "j1") (codes "0000002a") (codes "6553f100") (codes "1a2b3c4d") []
      accepted_first

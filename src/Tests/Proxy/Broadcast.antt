-- ===== src/Tests/Proxy/Broadcast.antt =====
-- A job that is broadcast, with a hash that is always the same.
use btcpool.Common.{
  ◌<◌, ◌≡◌, refl, Bool, true, false, ◌&&◌, Option, none, some, List, [], ◌∷◌, ◌==◌, ltb, length,
  map_all, replicate, arith, All, some-elim, some-subst, guard-elim, ◌>>=◌, if◌then◌else◌,
}
use btcpool.Common.Int.{pos, wrap32}
use btcpool.Common.Bytes.{Bytes, codes}
use btcpool.Common.Hex.{decode, encode, from_digit, hex_digit, decode-encode, hex8}
use btcpool.Common.Result.{done}
use btcpool.Proxy.Work.{
  Packages, Header, BlockTemplate, BlockTemplateJob, lookup, parse_uint_hex, hex_value, assemble,
}
use btcpool.Proxy.Miner.{block_of}
use btcpool.Proxy.Stratum.{Client}
use btcpool.Util.Hashes.{word_at, words_from, hash256_stratum_format, target_hash256_stratum_format}
use btcpool.Proxy.Broadcast.{
  Notify, notify_params, new_job, push_new_job, recipients, broadcast_new_jobs,
}
use btcpool.Proxy.Broadcast.Header.{
  IsHash, Documented, root_of, miner_header, miner_header-assemble,
}
use btcpool.Tests.Proxy
use btcpool.Tests.Proxy.{job, template, session}

abbrev small : Bytes → Bool
small [] = true
small (b ∷ s) = ltb b 256 && small s

small-All : (s : Bytes) → small s ≡ true → All (λ b. b < 256) s
small-All [] h = tt
small-All (b ∷ s) h = (ground arith, small-All s (ground arith))

All-small : (s : Bytes) → All (λ b. b < 256) s → small s ≡ true
All-small [] h = refl
All-small (b ∷ s) (h, k) = let rest = All-small s k in ground arith

abbrev read_hash : Bytes → Option Bytes
read_hash s = decode s >>= λ b. if length b == 32 && small b then some b else none

abbrev seven : Bytes
seven = replicate 32 7

abbrev last_hash : Bytes → List Bytes → Bytes
last_hash id [] = id
last_hash id (h ∷ hs) = seven

abbrev hashing : Packages
hashing = record Proxy.packages {
  calc_trx_id = λ t. some (encode seven);
  merkle_root = λ id branch.
      read_hash id >>= λ b. map_all read_hash branch >>= λ hs. some (encode (last_hash b hs));
  set_hex = read_hash;
  sha256 = λ s. seven;
  get_hex = encode;
}

seven_fold : (hs : List Bytes) → root_of hashing seven hs ≡ seven
unfolding root_of
seven_fold [] = refl
seven_fold (h ∷ hs) = seven_fold hs

fold-last_hash : (id : Bytes) (hs : List Bytes) → root_of hashing id hs ≡ last_hash id hs
unfolding root_of
fold-last_hash id [] = refl
fold-last_hash id (h ∷ hs) = seven_fold hs

read_back : (b : Bytes) → IsHash b → read_hash (encode b) ≡ some b
read_back b (l, a) = rw (decode-encode b a, l, All-small b a) refl

documented : Documented hashing
documented = record {
  set_hex-IsHash = λ s b e. some-elim (decode s) _ e (λ c f g.
      guard-elim (length c == 32 && small c) (some c) g
        (λ h k. some-subst IsHash k (ground arith, small-All c (ground arith))));
  set_hex-get_hex = read_back;
  sha256-IsHash = λ b. (refl, small-All seven refl);
  merkle_root-root_of =
      λ id branch hashes h e. rw (read_back id h, e, fold-last_hash id hashes) refl;
}

abbrev client : Client
client = record { session = record session { is_auth = true }; registered = true }

abbrev full_job : BlockTemplateJob
full_job = record job { merkle_branch = encode seven ∷ [] }

abbrev full_template : BlockTemplate
full_template = record template {
  prev_hash = codes "0000000000000016279b3d504011f71505d83c036e7b50466841e40ed37214c5";
  block_tpl_job_map = (codes "j1", full_job) ∷ [];
}

abbrev params : Notify
params = record {
  job_id = codes "j1";
  prev_hash = codes "0000000016000000503d9b2715f71140033cd80546507b6e0ee44168c51472d3";
  coin_base1 = codes "01";
  coin_base2 = codes "02";
  merkle_branch = encode seven ∷ [];
  version = codes "00000001";
  n_bits = codes "00000001";
  n_time = codes "6553f100";
  clean_jobs = true;
}

broadcast :
    broadcast_new_jobs hashing false (some full_template) (λ c. false) (client ∷ [])
    ≡ done ((params, client.session ∷ []), record client { registered = false } ∷ [])
unfolding broadcast_new_jobs new_job notify_params recipients push_new_job hash256_stratum_format
    target_hash256_stratum_format words_from word_at decode encode from_digit hex_digit hex8 lookup
    map_all
broadcast = refl

abbrev header : Header
header = record {
  version = wrap32 (pos 1);
  hash_prev_block = elim (decode full_template.prev_hash) [ none ↦ [] | some b ↦ b ];
  hash_merkle_root = seven;
  time = 1700000000;
  bits = 1;
  nonce = 439041101;
}

miner_header-assemble_example :
    miner_header hashing params Proxy.submission.e_nonce1
      (codes "0000002a")
      (codes "6553f100")
      (codes "1a2b3c4d")
    ≡ some header
unfolding assemble block_of decode encode from_digit hex_digit lookup map_all parse_uint_hex
    hex_value
miner_header-assemble_example =
    miner_header-assemble hashing documented false full_template (λ c. false) (client ∷ [])
      (record client { registered = false } ∷ []) params (client.session ∷ []) Proxy.submission
      full_job (codes "0000002a") (codes "6553f100") (codes "1a2b3c4d") (pos 4)
      (1 ∷ 0 ∷ 1 ∷ 0 ∷ 1 ∷ 0 ∷ 0 ∷ 0 ∷ 42 ∷ 2 ∷ []) (1 ∷ 0 ∷ 1 ∷ 0 ∷ 1 ∷ 0 ∷ 0 ∷ 0 ∷ 42 ∷ 2 ∷ [])
      header broadcast (omega arith) (omega arith) refl refl refl refl

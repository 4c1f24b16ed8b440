-- ===== src/Proxy/Miner.antt =====
-- proxy/miner.go: `processShare`. Redis, the node and the packages of Proxy/Work are parameters;
-- the milliseconds that `MakeTimestamp` gives are an argument.
pub mod Accepted
pub mod Sends
use btcpool.Common.{
  ℕ, suc, ◌/◌, Bool, true, false, Option, none, some, List, [], ◌∷◌, if◌then◌else◌,
}
use btcpool.Common.Int.{ℤ, wrap64}
use btcpool.Common.Bytes.{Bytes}
use btcpool.Storage.Commands.{Cmd, Redis}
use btcpool.Storage.Shares.{
  Outcome, failed, exists, stored, panic, invalid_share, reject_share, write_share, write_block,
}
use btcpool.Proxy.Work.{
  Packages, BlockTemplate, BlockTemplateJob, Block, lookup, double_sha256_hash_verify,
  construct_raw_block_hex,
}

-- Redis, the raw blocks that went to the node, and how often a new block template was asked for.
pub record World (r : Redis) : Type 0 where
  pub store : r.Store
  pub submitted : List Bytes
  pub refreshed : ℕ

-- The answer `(exist, valid)`; `none` is a panic.
abbrev pub Answer : Type 0
Answer = Option (Bool × Bool)

-- The miner's part of a share, and the time.
pub record Submission : Type 0 where
  pub login : Bytes
  pub id : Bytes
  pub e_nonce1 : Bytes
  pub share_diff : ℤ
  pub ms : ℕ
  -- `hashrateExpiration`
  pub window : ℤ

-- `share` and `block` differ in their difficulty.
unfoldable pub block_of :
    Submission → BlockTemplate → BlockTemplateJob → Bytes → Bytes → Bytes → ℤ → Block
block_of m t h e_nonce2 n_time nonce difficulty = record {
  difficulty = difficulty;
  coin_base1 = h.coin_base1;
  coin_base2 = h.coin_base2;
  extra_nonce1 = m.e_nonce1;
  extra_nonce2 = e_nonce2;
  merkle_branch = h.merkle_branch;
  n_version = t.version;
  prev_hash = t.prev_hash;
  s_time = n_time;
  n_bits = t.n_bits;
  s_nonce = nonce;
}

module _ (p : Packages) (r : Redis) (prefix : Bytes) (accepts : Bytes → World r → Bool) where
  open r use {Store, call}

  -- A command whose error is only logged.
  pub note : Cmd → World r → World r
  note q w = record w { store = (call q w.store).1 }

  pub note_invalid : Submission → World r → World r
  note_invalid m = note (invalid_share prefix m.ms (m.ms / 1000) m.login m.id m.share_diff)

  pub note_reject : Submission → World r → World r
  note_reject m = note (reject_share prefix m.ms (m.ms / 1000) m.login m.id m.share_diff)

  -- What `processShare` makes of the backend's answer.
  unfoldable pub answer : Submission → Outcome × Store → World r → Answer × World r
  answer m (exists, s) w = (some (true, false), note_invalid m (record w { store = s }))
  answer m (failed, s) w = (some (false, true), record w { store = s })
  answer m (stored, s) w = (some (false, true), record w { store = s })
  answer m (panic, s) w = (none, record w { store = s })

  -- A block goes to the node first; where the node takes it, the template is refreshed and the
  -- candidate is written. `paramIn` is the nonces.
  unfoldable pub process_block :
      Submission
      → BlockTemplate
      → BlockTemplateJob
      → Block
      → List Bytes
      → World r
      → Answer × World r
  process_block m t h block param_in w = elim (construct_raw_block_hex p block h t) [
    | none ↦ (some (false, false), w)
    | some raw ↦
        let sent = record w { submitted = raw ∷ w.submitted } in
        if accepts raw w
        then answer m
            (write_block r prefix m.ms m.login m.id param_in m.share_diff (wrap64 t.difficulty)
              t.height h.coin_base_value h.job_txs_fee_total m.window w.store)
            (record sent { refreshed = suc w.refreshed })
        else (some (false, true), sent)
  ]

  -- The share and the block of a known job.
  unfoldable pub process_job :
      Submission
      → BlockTemplate
      → BlockTemplateJob
      → Bytes
      → Bytes
      → Bytes
      → World r
      → Answer × World r
  process_job m t h e_nonce2 n_time nonce w =
      let share = block_of m t h e_nonce2 n_time nonce m.share_diff in
      let block = block_of m t h e_nonce2 n_time nonce t.difficulty in
      let param_in : List Bytes = nonce ∷ m.e_nonce1 ∷ e_nonce2 ∷ [] in
      elim (double_sha256_hash_verify p share) [
        | none ↦ (none, w)
        | some false ↦ (some (false, false), note_reject m w)
        | some true ↦ elim (double_sha256_hash_verify p block) [
          | none ↦ (none, w)
          | some true ↦ process_block m t h block param_in w
          | some false ↦
              answer m
                (write_share r prefix m.ms m.login m.id param_in m.share_diff t.height m.window
                  w.store)
                w
        ]
      ]

  -- `processShare`; fewer than five parameters are a panic.
  unfoldable pub process_share :
      Submission → List Bytes → BlockTemplate → World r → Answer × World r
  process_share m (_ ∷ job ∷ e_nonce2 ∷ n_time ∷ nonce ∷ _) t w =
      elim (lookup job t.block_tpl_job_map) [
        | none ↦ (some (false, false), note_invalid m w)
        | some h ↦ process_job m t h e_nonce2 n_time nonce w
      ]
  process_share m _ t w = (none, w)

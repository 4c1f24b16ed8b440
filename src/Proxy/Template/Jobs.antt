-- ===== src/Proxy/Template/Jobs.antt =====
-- The jobs of a template.
use btcpool.Common.{
  ◌∙◌, ◌≢◌, ◌⊎◌, Option-cases, after_if, under_if, under_match, ℕ, ◌≡◌, refl, true, Option, none,
  some, List, [], ◌∷◌, map, arith, All, Bool-cases, inl, inr, if◌then◌else◌,
}
use btcpool.Common.Int.{ℤ, pos, leb_ℤ}
use btcpool.Common.Bytes.{Bytes, beq, eq_of_beq, beq_refl}
use btcpool.Proxy.Work.{BlockTemplate, BlockTemplateJob, lookup}
use btcpool.Proxy.Template.{
  parse_bits, TplTransaction, TemplateReply, Fetch, unchanged, panic, fetched, put_entry,
  put_details, base_template, make_job, add_job, is_fresh, fetch_job, fetch_block_template,
}

lookup-put_entry {ℓ} :
    {A : Type ℓ} (k j : Bytes) (a : A) (m : List (Bytes × A))
    → lookup j (put_entry k a m) ≡ (if beq k j then some a else lookup j m)
unfolding lookup put_entry
lookup-put_entry k j a [] = refl
lookup-put_entry k j a ((i, b) ∷ m) =
    ground
      (arith, lookup-put_entry k j a m, eq_of_beq i k, eq_of_beq i j, eq_of_beq k j, beq_refl k)

-- The bytes of the last transaction of a name, in a reply.
unfoldable pub sent_data : Bytes → List TplTransaction → Option Bytes
sent_data id [] = none
sent_data id (tx ∷ txs) =
    let rest = sent_data id txs in
    elim rest [ some raw ↦ some raw | none ↦ if beq tx.tx_id id then some tx.data_hex else none ]

lookup-put_details :
    (id : Bytes) (txs : List TplTransaction) (m : List (Bytes × Bytes))
    → lookup id (put_details txs m)
      ≡ elim (sent_data id txs) [ none ↦ lookup id m | some raw ↦ some raw ]
unfolding put_details sent_data
lookup-put_details id [] m = refl
lookup-put_details id (tx ∷ txs) m =
    lookup-put_details id txs (put_entry tx.tx_id tx.data_hex m)
    ∙ ground (arith, lookup-put_entry tx.tx_id id tx.data_hex m)

-- One of the transactions has this name and these bytes.
abbrev pub Sends : List TplTransaction → Bytes → Bytes → Type 0
Sends [] id raw = ⊥
Sends (tx ∷ txs) id raw = ((tx.tx_id ≡ id) × (tx.data_hex ≡ raw)) ⊎ Sends txs id raw

sent_data-Sends :
    (id : Bytes) (txs : List TplTransaction) {raw : Bytes}
    → sent_data id txs ≡ some raw
    → Sends txs id raw
unfolding sent_data
sent_data-Sends id [] e = absurd cc
sent_data-Sends id (tx ∷ txs) e = elim (Option-cases (sent_data id txs)) [
  | inr (rest, f) ↦ inr (sent_data-Sends id txs (ground arith))
  | inl f ↦ elim (Bool-cases (beq tx.tx_id id)) [
    | inl g ↦ inl (eq_of_beq tx.tx_id id g, ground arith)
    | inr g ↦ absurd (ground arith)
  ]
]

-- The map has bytes under the name that a transaction of this name was sent with.
abbrev pub HasSent : List TplTransaction → List (Bytes × Bytes) → Bytes → Type 0
HasSent txs m id = (raw : Bytes) × (lookup id m ≡ some raw) × Sends txs id raw

sent :
    (txs : List TplTransaction) (m : List (Bytes × Bytes)) (id : Bytes) {raw : Bytes}
    → sent_data id txs ≡ some raw
    → HasSent txs (put_details txs m) id
sent txs m id {raw} e = (raw, lookup-put_details id txs m ∙ rw (e) refl, sent_data-Sends id txs e)

first_sent :
    (tx : TplTransaction) (txs : List TplTransaction) → sent_data tx.tx_id (tx ∷ txs) ≢ none
unfolding sent_data
first_sent tx txs e = elim (Option-cases (sent_data tx.tx_id txs)) [
  | inl f ↦ ground (arith, beq_refl tx.tx_id)
  | inr (raw, f) ↦ ground arith
]

later_sent :
    (id : Bytes) (tx : TplTransaction) (txs : List TplTransaction)
    → sent_data id (tx ∷ txs) ≡ none
    → sent_data id txs ≡ none
unfolding sent_data
later_sent id tx txs e = elim (Option-cases (sent_data id txs)) [
  | inl f ↦ f
  | inr (raw, f) ↦ absurd (ground arith)
]

-- Every transaction of the second list has bytes of the first.
All-HasSent :
    (all txs : List TplTransaction) (m : List (Bytes × Bytes))
    → ((id : Bytes) → sent_data id all ≡ none → sent_data id txs ≡ none)
    → All (HasSent all (put_details all m)) (map (λ tx. tx.tx_id) txs)
All-HasSent all [] m h = tt
All-HasSent all (tx ∷ txs) m h = (
  elim (Option-cases (sent_data tx.tx_id all)) [
    | inl e ↦ absurd (first_sent tx txs (h tx.tx_id e))
    | inr (raw, e) ↦ sent all m tx.tx_id e
  ],
  All-HasSent all txs m (λ id e. later_sent id tx txs (h id e)),
)

-- What a new template promises: its last job is in its map, with the value and the transactions of
-- the reply, and every transaction of the job has its bytes.
abbrev pub Serves : TemplateReply → BlockTemplate → Type 0
Serves reply tpl =
    (job : BlockTemplateJob) × (lookup tpl.last_blk_tpl_id tpl.block_tpl_job_map ≡ some job)
    × (job.coin_base_value ≡ reply.coin_base_value)
    × (job.tx_id_list ≡ map (λ tx. tx.tx_id) reply.transactions)
    × All (HasSent reply.transactions tpl.tx_detail_map) job.tx_id_list

module _ (sha256 : Bytes → Bytes) (difficulty_of : Bytes → Option ℤ)
    (merkle_branch : List Bytes → Option (List Bytes))
    (coinbase : TemplateReply → ℕ → Option (Bytes × Bytes)) where
  abbrev job_of : TemplateReply → List Bytes → Bytes × Bytes → BlockTemplateJob
  job_of = make_job sha256

  add_job-Serves :
      (reply : TemplateReply) (branch : List Bytes) (parts : Bytes × Bytes) (tpl : BlockTemplate)
      → Serves reply (add_job (job_of reply branch parts) reply tpl)
  unfolding add_job make_job
  add_job-Serves reply branch parts tpl = (
    job_of reply branch parts,
    rw
        (
          lookup-put_entry _ _ (job_of reply branch parts) tpl.block_tpl_job_map,
          beq_refl (job_of reply branch parts).blk_tpl_job_id,
        )
        refl,
    refl,
    refl,
    All-HasSent reply.transactions reply.transactions tpl.tx_detail_map (λ id e. e),
  )

  -- Why a reply to a node's call leads to no template.
  pub data Rejects (reply : TemplateReply) : Type 0 where
    bad_bits : parse_bits reply.bits ≡ none → Rejects reply
    no_branch : merkle_branch (map (λ tx. tx.tx_id) reply.transactions) ≡ none → Rejects reply
    no_value : leb_ℤ reply.coin_base_value (pos 0) ≡ true → Rejects reply
    no_coinbase : (height : ℕ) → coinbase reply height ≡ none → Rejects reply

  -- What a reply leads to.
  abbrev Ends : TemplateReply → Fetch → Type 0
  Ends reply unchanged = Rejects reply
  Ends reply panic = difficulty_of reply.target ≡ none
  Ends reply (fetched tpl) = Serves reply tpl

  -- What a call leaves: the old template only where the node did not answer, the template is fresh,
  -- or the reply cannot be used; a panic only at a nil reply or a target of 0; and else a template
  -- that serves.
  abbrev pub Leaves :
      ℤ → ℤ → Option Bytes → Option (Option TemplateReply) → Option BlockTemplate → Fetch → Type 0
  Leaves now interval none reply t o = o ≡ unchanged
  Leaves now interval (some prev_hash) none t o = o ≡ unchanged
  Leaves now interval (some prev_hash) (some none) t o =
      o ≡ (if is_fresh now interval prev_hash t then unchanged else panic)
  Leaves now interval (some prev_hash) (some (some reply)) t o =
      ((is_fresh now interval prev_hash t ≡ true) × (o ≡ unchanged)) ⊎ Ends reply o

  base_template-none :
      (now d : ℤ) (reply : TemplateReply) (t : Option BlockTemplate)
      → base_template now d reply t ≡ none
      → parse_bits reply.bits ≡ none
  unfolding base_template
  base_template-none now d reply none e = elim (Option-cases (parse_bits reply.bits)) [
    | inl f ↦ f
    | inr (n, f) ↦ absurd (ground arith)
  ]
  base_template-none now d reply (some old) e = elim (Option-cases (parse_bits reply.bits)) [
    | inl f ↦ f
    | inr (n, f) ↦ absurd (ground arith)
  ]

  fetch_job-Ends :
      (reply : TemplateReply) (tpl : BlockTemplate)
      → Ends reply (fetch_job sha256 difficulty_of merkle_branch coinbase reply tpl)
  unfolding fetch_job
  fetch_job-Ends reply tpl =
      under_match (Ends reply) (merkle_branch (map (λ tx. tx.tx_id) reply.transactions)) unchanged _
        no_branch
        (λ branch _.
          under_if (Ends reply) (leb_ℤ reply.coin_base_value (pos 0)) unchanged _ no_value (λ _.
            under_match (Ends reply) (coinbase reply tpl.height) unchanged _
              (no_coinbase tpl.height) (λ parts _. add_job-Serves reply branch parts tpl)))

  -- `fetchBlockTemplate` leaves the old template where a call of the node fails, where the old
  -- template is fresh, or where the bits, the Merkle branch, the value or the coinbase of the reply
  -- cannot be used; it panics at a nil reply or a target of 0. In every other case it leaves a new
  -- template, whose last job is in its map, pays the value of the node's reply, and lists its
  -- transactions in order; the template has for each of them the bytes that the reply has under its
  -- name.
  pub fetch_block_template-Serves :
      (now interval : ℤ) (prev_hash : Option Bytes) (reply : Option (Option TemplateReply))
      (t : Option BlockTemplate)
      → Leaves now interval prev_hash reply t (
          fetch_block_template sha256 difficulty_of merkle_branch coinbase now interval prev_hash
            reply t)
  unfolding fetch_block_template
  fetch_block_template-Serves now interval none reply t = refl
  fetch_block_template-Serves now interval (some prev_hash) none t =
      after_if (λ o. o ≡ unchanged) (is_fresh now interval prev_hash t) unchanged unchanged refl
        refl
  fetch_block_template-Serves now interval (some prev_hash) (some none) t = refl
  fetch_block_template-Serves now interval (some prev_hash) (some (some reply)) t =
      under_if (Leaves now interval (some prev_hash) (some (some reply)) t)
        (is_fresh now interval prev_hash t) unchanged _ (λ e. inl (e, refl))
        (λ _. inr (
          under_match (Ends reply) (base_template now (pos 0) reply t) unchanged _
            (λ e. bad_bits (base_template-none now (pos 0) reply t e))
            (λ tpl _.
              under_match (Ends reply) (difficulty_of reply.target) panic _ (λ e. e)
                (λ d _. fetch_job-Ends reply (record tpl { difficulty = d })))))

-- ===== src/Proxy/Miner/Sends.antt =====
-- Which blocks proxy/miner.go sends to the node.
use btcpool.Common.{
  ◌≡◌, refl, Bool, true, false, some, List, ◌∷◌, ◌⊎◌, inl, inr, Option-cases, under_match, after_if,
}
use btcpool.Common.Bytes.{Bytes}
use btcpool.Storage.Commands.{Redis}
use btcpool.Storage.Shares.{Outcome, failed, exists, stored, panic}
use btcpool.Proxy.Work.{
  Packages, BlockTemplate, BlockTemplateJob, lookup, double_sha256_hash_verify,
  construct_raw_block_hex,
}
use btcpool.Proxy.Miner.{
  World, Answer, Submission, block_of, note, note_invalid, note_reject, answer, process_block,
  process_job, process_share,
}

module _ (p : Packages) (r : Redis) (prefix : Bytes) (accepts : Bytes → World r → Bool) where
  -- One block more was sent: it is the packed block of the job, and the hash of its header beats both
  -- the difficulty of the session and that of the template.
  abbrev pub SendsBlock :
      Submission → BlockTemplate → Bytes → Bytes → Bytes → Bytes → World r → World r → Type 0
  SendsBlock m t job e_nonce2 n_time nonce w w' =
      (h : BlockTemplateJob) × (raw : Bytes) × (lookup job t.block_tpl_job_map ≡ some h)
      × (double_sha256_hash_verify p (block_of m t h e_nonce2 n_time nonce m.share_diff)
          ≡ some true)
      × (double_sha256_hash_verify p (block_of m t h e_nonce2 n_time nonce t.difficulty)
          ≡ some true)
      × (construct_raw_block_hex p (block_of m t h e_nonce2 n_time nonce t.difficulty) h t
          ≡ some raw)
      × (w'.submitted ≡ raw ∷ w.submitted)

  -- Nothing was sent, or one such block.
  abbrev pub SendsAtMost :
      Submission
      → BlockTemplate
      → Bytes
      → Bytes
      → Bytes
      → Bytes
      → World r
      → Answer × World r
      → Type 0
  SendsAtMost m t job e_nonce2 n_time nonce w o =
      (o.1.submitted ≡ w.submitted) ⊎ SendsBlock m t job e_nonce2 n_time nonce w o.1

  answer-submitted :
      (m : Submission) (o : Outcome × r.Store) (w : World r)
      → (answer p r prefix accepts m o w).1.submitted ≡ w.submitted
  unfolding answer note_invalid note
  answer-submitted m (exists, s) w = refl
  answer-submitted m (failed, s) w = refl
  answer-submitted m (stored, s) w = refl
  answer-submitted m (panic, s) w = refl

  process_block-Sends :
      (m : Submission) (t : BlockTemplate) (h : BlockTemplateJob)
      (job e_nonce2 n_time nonce : Bytes) (param_in : List Bytes) (w : World r)
      → lookup job t.block_tpl_job_map ≡ some h
      → double_sha256_hash_verify p (block_of m t h e_nonce2 n_time nonce m.share_diff) ≡ some true
      → double_sha256_hash_verify p (block_of m t h e_nonce2 n_time nonce t.difficulty) ≡ some true
      → SendsAtMost m t job e_nonce2 n_time nonce w (
          process_block p r prefix accepts m t h
            (block_of m t h e_nonce2 n_time nonce t.difficulty)
            param_in
            w)
  unfolding process_block
  process_block-Sends m t h job e_nonce2 n_time nonce param_in w known share block =
      under_match (SendsAtMost m t job e_nonce2 n_time nonce w)
        (construct_raw_block_hex p (block_of m t h e_nonce2 n_time nonce t.difficulty) h t) _ _
        (λ e. inl refl)
        (λ raw e. inr (
          h,
          raw,
          known,
          share,
          block,
          e,
          after_if (λ (o : Answer × World r). o.1.submitted ≡ raw ∷ w.submitted) (accepts raw w) _ _
              (answer-submitted m _ _) refl,
        ))

  process_job-Sends :
      (m : Submission) (t : BlockTemplate) (h : BlockTemplateJob)
      (job e_nonce2 n_time nonce : Bytes) (w : World r)
      → lookup job t.block_tpl_job_map ≡ some h
      → SendsAtMost m t job e_nonce2 n_time nonce w
          (process_job p r prefix accepts m t h e_nonce2 n_time nonce w)
  unfolding process_job note_reject note
  process_job-Sends m t h job e_nonce2 n_time nonce w known =
      elim (Option-cases
        (double_sha256_hash_verify p (block_of m t h e_nonce2 n_time nonce m.share_diff))) [
          | inl e ↦ rw (e, process_job) (inl refl)
          | inr (false, e) ↦ rw (e, process_job) (inl refl)
          | inr (true, e) ↦
              elim (Option-cases
                (double_sha256_hash_verify p (block_of m t h e_nonce2 n_time nonce t.difficulty))) [
                  | inl g ↦ rw (e, process_job) (rw (g, process_job) (inl refl))
                  | inr (false, g) ↦
                      rw (e, process_job) (rw (g, process_job) (inl (answer-submitted m _ w)))
                  | inr (true, g) ↦
                      rw (e, process_job)
                        (rw (g, process_job)
                          (process_block-Sends m t h job e_nonce2 n_time nonce _ w known e g))
                ]
        ]

  -- `processShare` sends the node nothing, or one such block.
  pub process_share-Sends :
      (m : Submission) (t : BlockTemplate) (w : World r) (worker job e_nonce2 n_time nonce : Bytes)
      (rest : List Bytes)
      → SendsAtMost m t job e_nonce2 n_time nonce w
          (process_share p r prefix accepts m (worker ∷ job ∷ e_nonce2 ∷ n_time ∷ nonce ∷ rest) t w)
  unfolding process_share note_invalid note
  process_share-Sends m t w worker job e_nonce2 n_time nonce rest =
      under_match (SendsAtMost m t job e_nonce2 n_time nonce w) (lookup job t.block_tpl_job_map)
        (some (false, false), note_invalid p r prefix accepts m w)
        (λ h. process_job p r prefix accepts m t h e_nonce2 n_time nonce w) (λ e. inl refl)
        (λ h e. process_job-Sends m t h job e_nonce2 n_time nonce w e)

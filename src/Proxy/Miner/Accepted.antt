-- ===== src/Proxy/Miner/Accepted.antt =====
-- Which shares the pool accepts.
use btcpool.Common.{
  ℕ, ◌≤◌, ◌<◌, ◌^◌, ◌≡◌, refl, ap, sym, ◌∙◌, Bool, true, false, none, some, List, [], ◌∷◌, arith,
  Option-cases, inl, inr,
}
use btcpool.Common.Int.{pos}
use btcpool.Common.Bytes.{Bytes, join_with}
use btcpool.Storage.Commands.{Reply, Redis}
use btcpool.Storage.Shares.{
  Outcome, failed, exists, stored, panic, pow_key, share_queue, check_pow_exist, write_share,
}
use btcpool.Storage.Shares.Replay.{
  invalid_share-Avoids, SortedSet, write_share-known, write_share_new, write_share-exists,
  check_pow_exist-exists,
}
use btcpool.Proxy.Work.{
  Packages, BlockTemplate, BlockTemplateJob, lookup, double_sha256_hash_verify,
}
use btcpool.Proxy.Miner.{
  World, Submission, block_of, note, note_invalid, answer, process_job, process_share,
}

module _ (p : Packages) (r : Redis) (prefix : Bytes) (accepts : Bytes → World r → Bool) where
  process_job-Verified :
      (m : Submission) (t : BlockTemplate) (h : BlockTemplateJob) (e_nonce2 n_time nonce : Bytes)
      (w : World r)
      → (process_job p r prefix accepts m t h e_nonce2 n_time nonce w).0 ≡ some (false, true)
      → double_sha256_hash_verify p (block_of m t h e_nonce2 n_time nonce m.share_diff) ≡ some true
  unfolding process_job
  process_job-Verified m t h e_nonce2 n_time nonce w valid = ground arith

  process_share-job :
      (m : Submission) (t : BlockTemplate) (w : World r) (worker job e_nonce2 n_time nonce : Bytes)
      (rest : List Bytes) (h : BlockTemplateJob)
      → lookup job t.block_tpl_job_map ≡ some h
      → process_share p r prefix accepts m (worker ∷ job ∷ e_nonce2 ∷ n_time ∷ nonce ∷ rest) t w
        ≡ process_job p r prefix accepts m t h e_nonce2 n_time nonce w
  unfolding process_share
  process_share-job m t w worker job e_nonce2 n_time nonce rest h e = rw (e, process_share) refl

  -- A share that is answered as valid, and as new, belongs to a job of the template, and its hash
  -- beats the difficulty of the session.
  pub process_share-Verified :
      (m : Submission) (t : BlockTemplate) (w : World r) (worker job e_nonce2 n_time nonce : Bytes)
      (rest : List Bytes)
      → (process_share p r prefix accepts m (worker ∷ job ∷ e_nonce2 ∷ n_time ∷ nonce ∷ rest) t w).0
        ≡ some (false, true)
      → (h : BlockTemplateJob) × (lookup job t.block_tpl_job_map ≡ some h)
        × (double_sha256_hash_verify p (block_of m t h e_nonce2 n_time nonce m.share_diff)
            ≡ some true)
  unfolding process_share
  process_share-Verified m t w worker job e_nonce2 n_time nonce rest valid =
      elim (Option-cases (lookup job t.block_tpl_job_map)) [
        | inl e ↦ ground arith
        | inr (h, e) ↦ (
          h,
          e,
          process_job-Verified m t h e_nonce2 n_time nonce w (
              sym
                (ap (λ a. a.0) (process_share-job m t w worker job e_nonce2 n_time nonce rest h e))
              ∙ valid),
        )
      ]

  module _ (set : SortedSet r (pow_key prefix)) where
    note_invalid-score :
        (m : Submission) (w : World r) (k : Bytes)
        → set.score k (note_invalid p r prefix accepts m w).store ≡ set.score k w.store
    unfolding note_invalid note
    note_invalid-score m w k =
        set.score-call _ k w.store (invalid_share-Avoids prefix _ _ m.login m.id m.share_diff)

    answer-score :
        (m : Submission) (o : Outcome) (s : r.Store) (w : World r) (k : Bytes)
        → set.score k (answer p r prefix accepts m (o, s) w).1.store ≡ set.score k s
    unfolding answer
    answer-score m exists s w k = note_invalid-score m (record w { store = s }) k
    answer-score m failed s w k = refl
    answer-score m stored s w k = refl
    answer-score m panic s w k = refl

    process_job-share :
        (m : Submission) (t : BlockTemplate) (h : BlockTemplateJob) (e_nonce2 n_time nonce : Bytes)
        (w : World r)
        → double_sha256_hash_verify p (block_of m t h e_nonce2 n_time nonce m.share_diff)
          ≡ some true
        → double_sha256_hash_verify p (block_of m t h e_nonce2 n_time nonce t.difficulty)
          ≡ some false
        → process_job p r prefix accepts m t h e_nonce2 n_time nonce w
          ≡ answer p r prefix accepts m
              (write_share r prefix m.ms m.login m.id
                (nonce ∷ m.e_nonce1 ∷ e_nonce2 ∷ [])
                m.share_diff
                t.height
                m.window
                w.store)
              w
    unfolding process_job
    process_job-share m t h e_nonce2 n_time nonce w share block =
        rw (share, process_job) (rw (block, process_job) refl)

    -- The answer to a duplicate.
    answer-exists :
        (m : Submission) (o : Outcome × r.Store) (w : World r)
        → o.0 ≡ exists
        → (answer p r prefix accepts m o w).0 ≡ some (true, false)
    unfolding answer
    answer-exists m (o, s) w e = rw e refl

    answer-stored :
        (m : Submission) (o : Outcome × r.Store) (w : World r)
        → o.0 ≡ stored
        → (answer p r prefix accepts m o w).0 ≡ some (false, true)
    unfolding answer
    answer-stored m (o, s) w e = rw e refl

    -- A share that is no block and beats the session's difficulty is a duplicate when it comes again
    -- for the same job, at whatever time and from whatever login of the same extra nonce. The height
    -- is at least 3.
    pub process_share_replay :
        (m : Submission) (t : BlockTemplate) (w : World r)
        (worker job e_nonce2 n_time nonce : Bytes) (rest : List Bytes) (h : BlockTemplateJob)
        (login id : Bytes) (ms : ℕ)
        → lookup job t.block_tpl_job_map ≡ some h
        → double_sha256_hash_verify p (block_of m t h e_nonce2 n_time nonce m.share_diff)
          ≡ some true
        → double_sha256_hash_verify p (block_of m t h e_nonce2 n_time nonce t.difficulty)
          ≡ some false
        → 3 ≤ t.height
        → t.height < 2 ^ 64
        → let again = record m { login = login; id = id; ms = ms } in
          let params : List Bytes = worker ∷ job ∷ e_nonce2 ∷ n_time ∷ nonce ∷ rest in
          (process_share p r prefix accepts again params t
            (process_share p r prefix accepts m params t w).1).0
          ≡ some (true, false)
    unfolding block_of
    process_share_replay m t w worker job e_nonce2 n_time nonce rest h login id ms f share block lo
          hi =
        let again = record m { login = login; id = id; ms = ms } in
        let nonces : List Bytes = nonce ∷ m.e_nonce1 ∷ e_nonce2 ∷ [] in
        let first =
          process_share-job m t w worker job e_nonce2 n_time nonce rest h f
          ∙ process_job-share m t h e_nonce2 n_time nonce w share block in
        let stored_share =
          write_share r prefix m.ms m.login m.id nonces m.share_diff t.height m.window w.store in
        let w1 = (answer p r prefix accepts m stored_share w).1 in
        let known : (set.score (join_with b':' nonces) w1.store ≡ some (pos t.height)) =
          answer-score m stored_share.0 stored_share.1 w _
          ∙ write_share-known r prefix set m.ms m.login m.id nonces m.share_diff t.height m.window
              w.store in
        let second =
          process_share-job again t w1 worker job e_nonce2 n_time nonce rest h f
          ∙ process_job-share again t h e_nonce2 n_time nonce w1 share block in
        rw first (
          ap (λ a. a.0) second
          ∙ answer-exists again _ w1 (
              write_share-exists r prefix set ms login id nonces m.share_diff t.height m.window
                w1.store
                (check_pow_exist-exists r prefix set t.height t.height nonces w1.store lo hi
                  (omega arith) known)))

    -- A share of a known job that is no block and beats the session's difficulty is answered as new
    -- and valid, if Redis has not seen its nonces and answers the transaction.
    pub process_share_new :
        (m : Submission) (t : BlockTemplate) (w : World r)
        (worker job e_nonce2 n_time nonce : Bytes) (rest : List Bytes) (h : BlockTemplateJob)
        {replies : List Reply}
        → lookup job t.block_tpl_job_map ≡ some h
        → double_sha256_hash_verify p (block_of m t h e_nonce2 n_time nonce m.share_diff)
          ≡ some true
        → double_sha256_hash_verify p (block_of m t h e_nonce2 n_time nonce t.difficulty)
          ≡ some false
        → set.score (join_with b':' (nonce ∷ m.e_nonce1 ∷ e_nonce2 ∷ [])) w.store ≡ none
        → (r.exec
            (share_queue prefix m.ms m.login m.id m.share_diff m.window)
            (check_pow_exist r prefix t.height (nonce ∷ m.e_nonce1 ∷ e_nonce2 ∷ []) w.store).1).0
          ≡ some replies
        → (process_share p r prefix accepts m
            (worker ∷ job ∷ e_nonce2 ∷ n_time ∷ nonce ∷ rest)
            t
            w).0
          ≡ some (false, true)
    process_share_new m t w worker job e_nonce2 n_time nonce rest h f share block new done =
        ap (λ a. a.0)
          (process_share-job m t w worker job e_nonce2 n_time nonce rest h f
            ∙ process_job-share m t h e_nonce2 n_time nonce w share block)
        ∙ answer-stored m _ w (
            write_share_new r prefix set m.ms m.login m.id (nonce ∷ m.e_nonce1 ∷ e_nonce2 ∷ [])
              m.share_diff t.height m.window w.store new done)

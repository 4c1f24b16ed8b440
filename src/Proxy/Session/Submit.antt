-- ===== src/Proxy/Session/Submit.antt =====
-- What a submitted share is answered.
use btcpool.Common.{
  ℕ, ◌≡◌, refl, ap, sym, ◌∙◌, Bool, true, false, not, ◌||◌, Option, none, some, List, [], ◌∷◌,
  arith, Option-cases, Bool-cases, inl, inr,
}
use btcpool.Common.Int.{ℤ, wrap64}
use btcpool.Common.Bytes.{Bytes}
use btcpool.Storage.Commands.{Redis}
use btcpool.Policy.{Config, Server, apply_share_policy}
use btcpool.Proxy.Work.{
  Packages, BlockTemplate, BlockTemplateJob, lookup, double_sha256_hash_verify, target_hex_to_diff,
}
use btcpool.Proxy.Miner.{World, Answer, block_of, process_share}
use btcpool.Proxy.Miner.Accepted.{process_share-Verified}
use btcpool.Proxy.Session.{
  submission_of, Session, ErrorReply, Pool, nonce_pattern, respond, settle_share, malformed,
  handle_submit_rpc,
}

module _ (c : Config) (too_many : ℤ → ℤ → Bool) (p : Packages) (r : Redis) (prefix : Bytes)
    (accepts : Bytes → World r → Bool) where
  -- A response of true comes from a new and valid share.
  settle_share-true :
      (now : ℤ) (cs : Session) (policy : Server) (a : Answer) (w : World r) (e : Option ErrorReply)
      → (settle_share c too_many p r prefix accepts now cs policy (a, w)).0 ≡ some (true, e)
      → a ≡ some (false, true)
  unfolding settle_share respond
  settle_share-true now cs policy none w e h = ground arith
  settle_share-true now cs policy (some (true, v)) w e h = ground arith
  settle_share-true now cs policy (some (false, false)) w e h = ground arith
  settle_share-true now cs policy (some (false, true)) w e h = refl

  abbrev ill_formed : Bytes → Bytes → Bytes → Bool
  ill_formed e_nonce2 n_time nonce =
      not (nonce_pattern e_nonce2) || not (nonce_pattern n_time) || not (nonce_pattern nonce)

  -- A submission that comes to the test of its hash.
  handle_submit_rpc-share :
      (now : ℤ) (ms : ℕ) (window : ℤ) (cs : Session) (tpl : Option BlockTemplate) (s : Pool r)
      (worker job e_nonce2 n_time nonce : Bytes) (t : BlockTemplate) (diff : ℤ)
      → ill_formed e_nonce2 n_time nonce ≡ false
      → tpl ≡ some t
      → target_hex_to_diff p cs.target ≡ some diff
      → handle_submit_rpc c too_many p r prefix accepts now ms window cs
          (worker ∷ job ∷ e_nonce2 ∷ n_time ∷ nonce ∷ [])
          tpl
          s
        ≡ settle_share c too_many p r prefix accepts now cs s.policy (
            process_share p r prefix accepts
              (submission_of ms window cs diff)
              (worker ∷ job ∷ e_nonce2 ∷ n_time ∷ nonce ∷ [])
              t
              s.world)
  unfolding handle_submit_rpc
  handle_submit_rpc-share now ms window cs tpl s worker job e_nonce2 n_time nonce t diff e f g =
      simp (e, f, g)

  -- Where mining.submit is answered with true, with an error or without, there is a template that has
  -- the job, and the share's hash beats the difficulty of the session's target.
  pub handle_submit_rpc-Verified :
      (now : ℤ) (ms : ℕ) (window : ℤ) (cs : Session) (tpl : Option BlockTemplate) (s : Pool r)
      (worker job e_nonce2 n_time nonce : Bytes) (reply : Option ErrorReply)
      → (handle_submit_rpc c too_many p r prefix accepts now ms window cs
          (worker ∷ job ∷ e_nonce2 ∷ n_time ∷ nonce ∷ [])
          tpl
          s).0
        ≡ some (true, reply)
      → (t : BlockTemplate) × (h : BlockTemplateJob) × (diff : ℤ) × (tpl ≡ some t)
        × (target_hex_to_diff p cs.target ≡ some diff)
        × (lookup job t.block_tpl_job_map ≡ some h)
        × (double_sha256_hash_verify p
              (block_of (submission_of ms window cs diff) t h e_nonce2 n_time nonce (wrap64 diff))
            ≡ some true)
  unfolding handle_submit_rpc malformed
  handle_submit_rpc-Verified now ms window cs tpl s worker job e_nonce2 n_time nonce reply valid =
      elim (Bool-cases (ill_formed e_nonce2 n_time nonce)) [
        | inl e ↦ ground arith
        | inr e ↦ elim (Option-cases tpl) [
          | inl f ↦ ground arith
          | inr (t, f) ↦ elim (Option-cases (target_hex_to_diff p cs.target)) [
            | inl g ↦ ground arith
            | inr (diff, g) ↦
                let shares : List Bytes = worker ∷ job ∷ e_nonce2 ∷ n_time ∷ nonce ∷ [] in
                let m = submission_of ms window cs diff in
                let same =
                  handle_submit_rpc-share now ms window cs tpl s worker job e_nonce2 n_time nonce t
                    diff e f g in
                let (a, w) = process_share p r prefix accepts m shares t s.world in
                let answered =
                  settle_share-true now cs s.policy a w reply (sym (ap (λ x. x.0) same) ∙ valid) in
                let (h, known, verified) =
                  process_share-Verified p r prefix accepts m t s.world worker job e_nonce2 n_time
                    nonce [] answered in
                (t, h, diff, f, g, known, verified)
          ]
        ]
      ]

  -- A new and valid share is answered with true, with an error or without.
  settle_share-valid :
      (now : ℤ) (cs : Session) (policy : Server) (o : Answer × World r)
      → o.0 ≡ some (false, true)
      → (reply : Option ErrorReply) × ((settle_share c too_many p r prefix accepts now cs policy
            o).0
          ≡ some (true, reply))
  unfolding settle_share respond
  settle_share-valid now cs policy (a, w) e =
      rw e (respond-true (apply_share_policy c too_many now cs.ip true policy).0)
    where
      respond-true :
          (ok : Bool)
          → (reply : Option ErrorReply) × (respond c too_many p r prefix accepts (false, true) ok
              ≡ some (true, reply))
      respond-true true = (none, refl)
      respond-true false = (_, refl)

  -- mining.submit is answered with true where the nonces and the time are well formed, the template
  -- has the job, and `processShare` finds the share new and valid.
  pub handle_submit_rpc_valid :
      (now : ℤ) (ms : ℕ) (window : ℤ) (cs : Session) (tpl : Option BlockTemplate) (s : Pool r)
      (worker job e_nonce2 n_time nonce : Bytes) (t : BlockTemplate) (diff : ℤ)
      → ill_formed e_nonce2 n_time nonce ≡ false
      → tpl ≡ some t
      → target_hex_to_diff p cs.target ≡ some diff
      → (process_share p r prefix accepts
          (submission_of ms window cs diff)
          (worker ∷ job ∷ e_nonce2 ∷ n_time ∷ nonce ∷ [])
          t
          s.world).0
        ≡ some (false, true)
      → (reply : Option ErrorReply) × ((handle_submit_rpc c too_many p r prefix accepts now ms
            window cs
            (worker ∷ job ∷ e_nonce2 ∷ n_time ∷ nonce ∷ [])
            tpl
            s).0
          ≡ some (true, reply))
  handle_submit_rpc_valid now ms window cs tpl s worker job e_nonce2 n_time nonce t diff e f g new =
      let (reply, h) = settle_share-valid now cs s.policy _ new in
      (
        reply,
        ap (λ a. a.0)
              (handle_submit_rpc-share now ms window cs tpl s worker job e_nonce2 n_time nonce t
                diff e f g)
            ∙ h,
      )

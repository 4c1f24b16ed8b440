-- ===== src/Proxy/Difficulty/Told.antt =====
-- `setDifficulty` of proxy/stratum.go, which follows mining.authorize: the difficulty that a client is
-- told.
use btcpool.Common.{
  ℕ, ◌≡◌, refl, ◌∙◌, ◌≤◌, ◌<◌, ◌^◌, Bool, true, some, List, [], ◌∷◌, arith, if◌then◌else◌,
}
use btcpool.Common.Int.{ℤ, pos, wrap64, wrap64_fits}
use btcpool.Common.Bytes.{Bytes, codes, split}
use btcpool.Common.Float.{Float64}
use btcpool.Common.Result.{Result, panic, failed, done, or_fail, or_panic, ◌>>=◌}
use btcpool.Bitcoin.Difficulty.{get_genesis_target_work}
use btcpool.Policy.{Config, Server}
use btcpool.Proxy.Work.{Packages, target_hex_to_diff, set_bytes}
use btcpool.Proxy.Session.{
  Session, trim, worker_pattern, log_in, log_in_as, handle_authorize_rpc, handle_subscribe_rpc,
}
use btcpool.Proxy.Stratum.{new_session}
use btcpool.Proxy.Difficulty.{get_target_hex}
use btcpool.Proxy.Difficulty.Target.{ReadsBack, diff_of_target}

-- The difficulty that is told, if it can be written.
unfoldable pub set_difficulty :
    (f : Float64) → Packages → (Session → Bool) → Session → Result f.Float
set_difficulty f p delivered cs = do
  genesis_work ← or_fail (get_genesis_target_work f)
  diff ← or_panic (target_hex_to_diff p cs.target_next_job)
  (if delivered cs then done (f.div (f.of_int (wrap64 diff)) genesis_work) else failed)

module _ (f : Float64) (p : Packages) (work : f.Float)
    (known : get_genesis_target_work f ≡ some work) (delivered : Session → Bool)
    (cs : Session) where
  told_diff :
      (diff : ℤ)
      → delivered cs ≡ true
      → target_hex_to_diff p cs.target_next_job ≡ some diff
      → set_difficulty f p delivered cs ≡ done (f.div (f.of_int (wrap64 diff)) work)
  unfolding set_difficulty
  told_diff diff d e = rw (known, e, d) refl

  no_target : p.from_hex [] ≡ [] → cs.target_next_job ≡ [] → set_difficulty f p delivered cs ≡ panic
  unfolding set_difficulty target_hex_to_diff set_bytes
  no_target empty e = rw (known, e, empty) refl

module _ (cfg : Config) (valid_address : Bytes → Bool) where
  -- Who is authorized keeps the target that was set when he subscribed.
  log_in-keeps :
      (now : ℤ) (login id : Bytes) (cs : Session) (policy : Server)
      → (log_in cfg valid_address now login id cs policy).1.target_next_job ≡ cs.target_next_job
  unfolding log_in
  log_in-keeps now login id cs policy = ground arith

  log_in_as-keeps :
      (now : ℤ) (parts : List Bytes) (cs : Session) (policy : Server)
      → (log_in_as cfg valid_address now parts cs policy).1.target_next_job ≡ cs.target_next_job
  unfolding log_in_as
  log_in_as-keeps now [] cs policy = log_in-keeps now [] (codes "default") cs policy
  log_in_as-keeps now (login ∷ []) cs policy = log_in-keeps now login (codes "default") cs policy
  log_in_as-keeps now (login ∷ worker ∷ _) cs policy =
      log_in-keeps now login (if worker_pattern worker then worker else codes "default") cs policy

  handle_authorize_rpc-keeps :
      (now : ℤ) (params : List Bytes) (cs : Session) (policy : Server)
      → (handle_authorize_rpc cfg valid_address now params cs policy).1.target_next_job
        ≡ cs.target_next_job
  unfolding handle_authorize_rpc
  handle_authorize_rpc-keeps now [] cs policy = refl
  handle_authorize_rpc-keeps now (name ∷ _) cs policy =
      log_in_as-keeps now (split (trim name) b'.') cs policy

module _ (f : Float64) (p : Packages) (hexutil_encode : Bytes → Bytes)
    (inverse : ReadsBack p hexutil_encode) (empty : p.from_hex [] ≡ []) (work : f.Float)
    (known : get_genesis_target_work f ≡ some work) (cfg : Config) (valid_address : Bytes → Bool)
    (delivered : Session → Bool) where
  -- A client that subscribed, where the server's target is that of a positive difficulty below 2^63,
  -- is told after mining.authorize that difficulty over the work of the first block, if it can be
  -- written to; a client that did not subscribe makes setDifficulty panic.
  pub set_difficulty-handle_authorize_rpc :
      (d id tag : ℕ) (ip : Bytes) {target : Bytes} (now : ℤ) (params : List Bytes) (policy : Server)
      → 1 ≤ d
      → d < 2 ^ 63
      → get_target_hex hexutil_encode (pos d) ≡ some target
      → ((cs : Session) → delivered cs ≡ true)
      → (set_difficulty f p delivered
            (handle_authorize_rpc cfg valid_address now params
              (handle_subscribe_rpc p.sha256 id target (new_session ip tag))
              policy).1
          ≡ done (f.div (f.of_int (pos d)) work))
        × (set_difficulty f p delivered
              (handle_authorize_rpc cfg valid_address now params (new_session ip tag) policy).1
            ≡ panic)
  unfolding handle_subscribe_rpc new_session
  set_difficulty-handle_authorize_rpc d id tag ip {target} now params policy h k e writes =
      let subscribed = handle_subscribe_rpc p.sha256 id target (new_session ip tag) in
      let diff = diff_of_target p hexutil_encode inverse d h k e in
      let kept = handle_authorize_rpc-keeps cfg valid_address now params subscribed policy in
      (
        told_diff f p work known delivered _ (pos d) (writes _) (rw (kept) diff)
            ∙ rw (wrap64_fits (pos d) (omega arith, omega arith)) refl,
        no_target f p work known delivered _ empty
            (handle_authorize_rpc-keeps cfg valid_address now params (new_session ip tag) policy),
      )

-- ===== src/Proxy/Http.antt =====
-- proxy/proxy.go: the requests over HTTP. What decodes a body, `net.ParseIP` and `SplitHostPort` are
-- of Go's library, and parameters; `mux.Vars` has put the address' login into the request.
pub mod Idle
use btcpool.Common.{
  Bool, true, false, not, ◌&&◌, Option, none, some, List, [], ◌∷◌, ◌++◌, ltb, length, if◌then◌else◌,
}
use btcpool.Common.Int.{ℤ, pos, negsuc, ltb_ℤ}
use btcpool.Common.Bytes.{Bytes, codes, beq}
use btcpool.Storage.Commands.{Redis}
use btcpool.Policy.{Config, is_banned, apply_login_policy, apply_malformed_policy}
use btcpool.Proxy.Work.{Packages}
use btcpool.Proxy.Miner.{World}
use btcpool.Proxy.Session.{
  Session, ErrorReply, Pool, minus_one, handle_submit_rpc, handle_unknown_rpc,
}
use btcpool.Proxy.Stratum.{Surroundings, Reply, answered, refused}

-- `Params` of a `JSONRpcReq`: missing, not a list of texts, or read.
pub data Params : Type 0 where
  missing unread : Params
  texts : List Bytes → Params

pub record JsonRpcReq : Type 0 where
  pub has_id : Bool
  pub method : Bytes
  pub params : Params

-- A request to the server: the documents that its body decodes to, and whether they end in an error.
pub record Request : Type 0 where
  pub method : Bytes
  pub content_length : ℤ
  -- `mux.Vars(r)["login"]` in lower case
  pub login : Bytes
  pub documents : List JsonRpcReq
  pub malformed : Bool
  pub forwarded_for : Bytes
  pub remote_addr : Bytes

-- What is written: a status, or replies.
pub data Status : Type 0 where
  method_not_allowed too_large silent : Status
  replies : List Reply → Status

-- `remoteAddr`
unfoldable pub remote_addr : Bool → (Bytes → Bool) → (Bytes → Bytes) → Request → Bytes
remote_addr behind_reverse_proxy is_ip host_of req =
    if behind_reverse_proxy && ltb 0 (length req.forwarded_for) && is_ip req.forwarded_for
    then req.forwarded_for
    else host_of req.remote_addr

-- `&Session{...}` of a request: its target is empty.
unfoldable pub http_session : Bytes → Session
http_session ip = record {
  ip = ip;
  login = [];
  id = [];
  target = [];
  target_next_job = [];
  share_count_inv = pos 0;
  tag = 0;
  sid = [];
  extra_nonce1 = [];
  is_auth = false;
}

module _ (cfg : Config) (too_many : ℤ → ℤ → Bool) (p : Packages) (r : Redis) (prefix : Bytes)
    (accepts : Bytes → World r → Bool) (valid_address : Bytes → Bool) where
  abbrev count_malformed : ℤ → Session → Pool r → Pool r
  count_malformed now cs pool = record pool {
    policy = (apply_malformed_policy cfg now cs.ip pool.policy).1;
  }

  abbrev refuse : Bytes → List Reply
  refuse message = refused (record { code = minus_one; message = message }) ∷ []

  -- The case of `eth_submitWork`; `none` is a panic.
  unfoldable pub submit_work :
      Surroundings → Params → Session → Pool r → Option (List Reply) × Pool r
  submit_work e missing cs pool =
      (some (refuse (codes "Malformed request")), count_malformed e.now cs pool)
  submit_work e unread cs pool = (some [], count_malformed e.now cs pool)
  submit_work e (texts params) cs pool =
      let (response, pool') =
        handle_submit_rpc cfg too_many p r prefix accepts e.now e.ms e.window cs params e.tpl
          pool in
      (
        elim response [
          | none ↦ none
          | some (b, none) ↦ some (answered b ∷ [])
          | some (b, some error) ↦ some (refused error ∷ [])
        ],
        pool',
      )

  -- The methods.
  unfoldable pub on_method :
      Surroundings → JsonRpcReq → Session → Pool r → Option (List Reply) × Pool r
  on_method e req cs pool =
      if beq req.method (codes "eth_submitWork")
      then submit_work e req.params cs pool
      else if beq req.method (codes "eth_submitHashrate")
      then (some (answered true ∷ []), pool)
      else (let (error, policy) = handle_unknown_rpc cfg valid_address e.now cs pool.policy in
          (some (refused error ∷ []), record pool { policy = policy }))

  -- `handleMessage`: what it writes.
  unfoldable pub handle_message :
      Surroundings → Bytes → JsonRpcReq → Session → Pool r → Option (List Reply) × Pool r
  handle_message e login req cs pool =
      if not req.has_id
      then (some [], count_malformed e.now cs pool)
      else if not (valid_address login)
      then (some (refuse (codes "Invalid login")), pool)
      else (let (admitted, policy) = apply_login_policy cfg e.now login cs.ip pool.policy in
          if not admitted
          then (some (refuse (codes "You are blacklisted")), record pool { policy = policy })
          else on_method e req cs (record pool { policy = policy }))

  -- The loop of `handleClient`: what has been written, and whether it ended without a panic.
  unfoldable pub handle_documents :
      Surroundings
      → Bytes
      → List JsonRpcReq
      → Bool
      → Session
      → Pool r
      → Option (List Reply) × Pool r
  handle_documents e login [] malformed cs pool =
      (some [], if malformed then count_malformed e.now cs pool else pool)
  handle_documents e login (req ∷ reqs) malformed cs pool =
      let (written, pool') = handle_message e login req cs pool in
      let (rest, pool'') = handle_documents e login reqs malformed cs pool' in
      elim written [
        | none ↦ (none, pool')
        | some first ↦ (elim rest [ none ↦ none | some more ↦ some (first ++ more) ], pool'')
      ]

  -- `handleClient`, for the limit of a body.
  unfoldable pub handle_client :
      Surroundings → ℤ → Request → Bytes → Pool r → Option Status × Pool r
  handle_client e limit_body_size req ip pool =
      if ltb_ℤ limit_body_size req.content_length
      then (some too_large, count_malformed e.now (http_session ip) pool)
      else (let (written, pool') =
            handle_documents e req.login req.documents req.malformed (http_session ip) pool in
          (elim written [ none ↦ none | some rs ↦ some (replies rs) ], pool'))

  -- `ServeHTTP`, for the address of the other side.
  unfoldable pub serve_http : Surroundings → ℤ → Request → Bytes → Pool r → Option Status × Pool r
  serve_http e limit_body_size req ip pool =
      if not (beq req.method (codes "POST"))
      then (some method_not_allowed, pool)
      else (let (banned, policy) = is_banned cfg e.now ip pool.policy in
          if banned
          then (some silent, record pool { policy = policy })
          else handle_client e limit_body_size req ip (record pool { policy = policy }))

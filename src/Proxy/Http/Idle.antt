-- ===== src/Proxy/Http/Idle.antt =====
-- What requests over HTTP, of proxy/proxy.go, do to Redis and the node.
use btcpool.Common.{
  ℕ, Bool, true, false, Option, none, List, [], ◌∷◌, ◌≡◌, refl, ◌∙◌, arith, after_match,
}
use btcpool.Common.Int.{ℤ}
use btcpool.Common.Bytes.{Bytes}
use btcpool.Storage.Commands.{Redis}
use btcpool.Policy.{Config, is_banned, apply_login_policy}
use btcpool.Proxy.Work.{Packages, BlockTemplate, target_hex_to_diff, set_bytes}
use btcpool.Proxy.Miner.{World}
use btcpool.Proxy.Session.{Session, Pool, handle_submit_rpc, malformed}
use btcpool.Proxy.Stratum.{Surroundings}
use btcpool.Proxy.Http.{
  Params, missing, unread, texts, JsonRpcReq, Request, http_session, submit_work, on_method,
  handle_message, handle_documents, handle_client, serve_http,
}

-- A call leaves Redis and the node as they were.
Keeps : {A : Type 0} {r : Redis} → Pool r → A × Pool r → Type 0
Keeps s x = x.1.world ≡ s.world

module _ (cfg : Config) (too_many : ℤ → ℤ → Bool) (p : Packages) (r : Redis) (prefix : Bytes)
    (accepts : Bytes → World r → Bool) (valid_address : Bytes → Bool)
    (empty : p.from_hex [] ≡ []) where
  no_difficulty : target_hex_to_diff p [] ≡ none
  unfolding target_hex_to_diff set_bytes
  no_difficulty = rw (empty) refl

  handle_submit_rpc-idle :
      (now : ℤ) (ms : ℕ) (window : ℤ) (cs : Session) (params : List Bytes)
      (tpl : Option BlockTemplate) (s : Pool r)
      → cs.target ≡ []
      → Keeps s (handle_submit_rpc cfg too_many p r prefix accepts now ms window cs params tpl s)
  unfolding handle_submit_rpc malformed Keeps
  handle_submit_rpc-idle now ms window cs [] tpl s h = refl
  handle_submit_rpc-idle now ms window cs (a ∷ []) tpl s h = refl
  handle_submit_rpc-idle now ms window cs (a ∷ b ∷ []) tpl s h = refl
  handle_submit_rpc-idle now ms window cs (a ∷ b ∷ c ∷ []) tpl s h = refl
  handle_submit_rpc-idle now ms window cs (a ∷ b ∷ c ∷ d ∷ []) tpl s h = refl
  handle_submit_rpc-idle now ms window cs (a ∷ b ∷ c ∷ d ∷ e ∷ f ∷ params) tpl s h = refl
  handle_submit_rpc-idle now ms window cs (a ∷ b ∷ c ∷ d ∷ e ∷ []) tpl s h =
      let none_left : target_hex_to_diff p cs.target ≡ none = rw (h) no_difficulty in ground arith

  submit_work-idle :
      (e : Surroundings) (params : Params) (cs : Session) (s : Pool r)
      → cs.target ≡ []
      → Keeps s (submit_work cfg too_many p r prefix accepts valid_address e params cs s)
  unfolding submit_work Keeps
  submit_work-idle e missing cs s h = refl
  submit_work-idle e unread cs s h = refl
  submit_work-idle e (texts params) cs s h =
      handle_submit_rpc-idle e.now e.ms e.window cs params e.tpl s h

  on_method-idle :
      (e : Surroundings) (req : JsonRpcReq) (cs : Session) (s : Pool r)
      → cs.target ≡ []
      → Keeps s (on_method cfg too_many p r prefix accepts valid_address e req cs s)
  unfolding on_method Keeps
  on_method-idle e req cs s h =
      let work : (submit_work cfg too_many p r prefix accepts valid_address e req.params cs
            s).1.world
          ≡ s.world =
        submit_work-idle e req.params cs s h in
      ground arith

  handle_message-idle :
      (e : Surroundings) (login : Bytes) (req : JsonRpcReq) (cs : Session) (s : Pool r)
      → cs.target ≡ []
      → Keeps s (handle_message cfg too_many p r prefix accepts valid_address e login req cs s)
  unfolding handle_message Keeps
  handle_message-idle e login req cs s h = ground (
    arith,
    on_method-idle e req cs
        (record s { policy = (apply_login_policy cfg e.now login cs.ip s.policy).1 }) h,
  )

  handle_documents-idle :
      (e : Surroundings) (login : Bytes) (reqs : List JsonRpcReq) (bad : Bool) (cs : Session)
      (s : Pool r)
      → cs.target ≡ []
      → Keeps s
          (handle_documents cfg too_many p r prefix accepts valid_address e login reqs bad cs s)
  unfolding handle_documents Keeps
  handle_documents-idle e login [] false cs s h = refl
  handle_documents-idle e login [] true cs s h = refl
  handle_documents-idle e login (req ∷ reqs) bad cs s h =
      let first = handle_message-idle e login req cs s h in
      after_match (Keeps s) _ _ _ first
        (λ written. handle_documents-idle e login reqs bad cs _ h ∙ first)

  handle_client-idle :
      (e : Surroundings) (limit_body_size : ℤ) (req : Request) (ip : Bytes) (s : Pool r)
      → Keeps s
          (handle_client cfg too_many p r prefix accepts valid_address e limit_body_size req ip s)
  unfolding handle_client http_session Keeps
  handle_client-idle e limit_body_size req ip s = ground (
    arith,
    handle_documents-idle e req.login req.documents req.malformed (http_session ip) s refl,
  )

  -- Whatever is sent over HTTP, no share gets to Redis or to the node, since the target of the
  -- session that `handleClient` makes is empty, and the empty text has no bytes for `FromHex`.
  pub serve_http-idle :
      (e : Surroundings) (limit_body_size : ℤ) (req : Request) (ip : Bytes) (s : Pool r)
      → (serve_http cfg too_many p r prefix accepts valid_address e limit_body_size req ip
          s).1.world
        ≡ s.world
  unfolding serve_http Keeps
  serve_http-idle e limit_body_size req ip s = ground (
    arith,
    handle_client-idle e limit_body_size req ip
        (record s { policy = (is_banned cfg e.now ip s.policy).1 }),
  )

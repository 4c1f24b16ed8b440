-- ===== src/Proxy/Stratum/Nonces.antt =====
-- Each connection keeps the tag that it was given, and its extra nonce is made of that tag; so two
-- miners that are read never search the same nonces.
use btcpool.Common.{
  ℕ, ◌≡◌, refl, Bool, not, Option, none, some, List, [], ◌∷◌, ◌⊎◌, inl, inr, subst, Bool-cases, ltb,
  length, some-elim, some-subst, after_if, after_match,
}
use btcpool.Common.Int.{ℤ, pos}
use btcpool.Common.Bytes.{Bytes, codes, beq}
use btcpool.Storage.Commands.{Redis}
use btcpool.Policy.{Config, Server, apply_login_policy}
use btcpool.Proxy.Work.{Packages}
use btcpool.Proxy.Miner.{World}
use btcpool.Proxy.Session.{
  Session, ErrorReply, Pool, extra_nonce1_of, handle_subscribe_rpc, log_in, log_in_as,
  handle_authorize_rpc,
}
use btcpool.Proxy.Stratum.{
  StratumReq, Client, Surroundings, Turn, Line, too_long, eof, read_error, line, End, send,
  send_result, send_error, unread, on_subscribe, on_authorize, on_submit, on_unknown,
  handle_tcp_message, handle_request, handle_line,
}

module _ (id : ℕ) (target : Bytes) where
  -- A session of this tag, before mining.subscribe or after; none of its shares are counted.
  abbrev pub IsOwn : ℕ → Session → Type 0
  IsOwn tag s =
      (s.tag ≡ tag)
      × ((s.extra_nonce1 ≡ []) ⊎ (s.extra_nonce1 ≡ extra_nonce1_of id tag))
      × (s.share_count_inv ≡ pos 0)
      × ((s.target ≡ []) ⊎ (s.target ≡ target))

  subscribe-IsOwn :
      (tag : ℕ) (sha256 : Bytes → Bytes) (s : Session)
      → IsOwn tag s
      → IsOwn tag (handle_subscribe_rpc sha256 id target s)
  unfolding handle_subscribe_rpc
  subscribe-IsOwn tag sha256 s (e, h, uncounted, t) = (e, inr (rw (e) refl), uncounted, inr refl)

  log_in-IsOwn :
      (tag : ℕ) (cfg : Config) (valid_address : Bytes → Bool) (now : ℤ) (login worker : Bytes)
      (s : Session) (policy : Server)
      → IsOwn tag s
      → IsOwn tag (log_in cfg valid_address now login worker s policy).1
  unfolding log_in
  log_in-IsOwn tag cfg valid_address now login worker s policy h =
      after_if own (not (valid_address login)) _ _ h
        (after_if own (not (apply_login_policy cfg now login s.ip policy).0) _ _ h h)
    where
      own : (Bool × Option ErrorReply) × Session × Server → Type 0
      own x = IsOwn tag x.1

  log_in_as-IsOwn :
      (tag : ℕ) (cfg : Config) (valid_address : Bytes → Bool) (now : ℤ) (parts : List Bytes)
      (s : Session) (policy : Server)
      → IsOwn tag s
      → IsOwn tag (log_in_as cfg valid_address now parts s policy).1
  unfolding log_in_as
  log_in_as-IsOwn tag cfg valid_address now [] s policy h =
      log_in-IsOwn tag cfg valid_address now _ _ s policy h
  log_in_as-IsOwn tag cfg valid_address now (login ∷ []) s policy h =
      log_in-IsOwn tag cfg valid_address now _ _ s policy h
  log_in_as-IsOwn tag cfg valid_address now (login ∷ worker ∷ _) s policy h =
      log_in-IsOwn tag cfg valid_address now _ _ s policy h

  authorize-IsOwn :
      (tag : ℕ) (cfg : Config) (valid_address : Bytes → Bool) (now : ℤ) (params : List Bytes)
      (s : Session) (policy : Server)
      → IsOwn tag s
      → IsOwn tag (handle_authorize_rpc cfg valid_address now params s policy).1
  unfolding handle_authorize_rpc
  authorize-IsOwn tag cfg valid_address now [] s policy h = h
  authorize-IsOwn tag cfg valid_address now (name ∷ names) s policy h =
      log_in_as-IsOwn tag cfg valid_address now _ s policy h

  send-IsOwn :
      {r : Redis} (tag : ℕ) (e : Surroundings) (answer : Bool × Option ErrorReply) (c : Client)
      (pool : Pool r)
      → IsOwn tag c.session
      → IsOwn tag (send e answer c pool).client.session
  unfolding send send_result send_error
  send-IsOwn tag e (b, none) c pool h = h
  send-IsOwn tag e (b, some error) c pool h = h

  -- A result that has no turn, or one whose session is of this tag.
  Keeps : {r : Redis} → ℕ → Option (Turn r) → Type 0
  Keeps tag none = Unit
  Keeps tag (some turn) = IsOwn tag turn.client.session

  none-Keeps : (r : Redis) (tag : ℕ) → Keeps {r = r} tag none
  unfolding Keeps
  none-Keeps r tag = tt

  some-Keeps :
      {r : Redis} (tag : ℕ) (turn : Turn r) → IsOwn tag turn.client.session → Keeps tag (some turn)
  unfolding Keeps
  some-Keeps tag turn h = h

  module _ (cfg : Config) (too_many : ℤ → ℤ → Bool) (p : Packages) (r : Redis) (prefix : Bytes)
      (accepts : Bytes → World r → Bool) (valid_address : Bytes → Bool)
      (unmarshal : Bytes → Option StratumReq) where
    on_submit-Keeps :
        (tag : ℕ) (e : Surroundings) (params : List Bytes) (c : Client) (pool : Pool r)
        → IsOwn tag c.session
        → Keeps tag (
            on_submit cfg too_many p r prefix accepts valid_address unmarshal id target e params c
              pool)
    unfolding on_submit
    on_submit-Keeps tag e params c pool h =
        after_match (Keeps tag) _ _ _ (none-Keeps r tag)
          (λ answer. some-Keeps tag _ (send-IsOwn tag e answer c _ h))

    message-Keeps :
        (tag : ℕ) (e : Surroundings) (req : StratumReq) (c : Client) (pool : Pool r)
        → IsOwn tag c.session
        → Keeps tag (
            handle_tcp_message cfg too_many p r prefix accepts valid_address unmarshal id target e
              req c pool)
    unfolding handle_tcp_message on_subscribe on_authorize on_unknown unread send_result send_error
    message-Keeps tag e req c pool h =
        after_if (Keeps tag) (beq req.method (codes "mining.subscribe")) _ _
          (after_match (Keeps tag) req.params _ _ (some-Keeps tag _ h)
            (λ _. some-Keeps tag _ (subscribe-IsOwn tag p.sha256 c.session h)))
          (after_if (Keeps tag) (beq req.method (codes "mining.authorize")) _ _
            (after_match (Keeps tag) req.params _ _ (some-Keeps tag _ h) (λ params.
              some-Keeps tag _ (
                send-IsOwn tag e _ _ _
                  (authorize-IsOwn tag cfg valid_address e.now params c.session pool.policy h))))
            (after_if (Keeps tag) (beq req.method (codes "mining.submit")) _ _
              (after_match (Keeps tag) req.params _ _ (some-Keeps tag _ h)
                (λ params. on_submit-Keeps tag e params c pool h))
              (after_if (Keeps tag) (beq req.method (codes "mining.extranonce.subscribe")) _ _
                (some-Keeps tag _ h) (some-Keeps tag _ h))))

    -- What a line leaves of the session.
    abbrev pub Keeping : ℕ → End × Client × Pool r → Type 0
    Keeping tag (end, client, pool) = IsOwn tag client.session

    request-Keeping :
        (tag : ℕ) (e : Surroundings) (req : Option StratumReq) (c : Client) (pool : Pool r)
        {x : End × Client × Pool r}
        → handle_request cfg too_many p r prefix accepts valid_address unmarshal id target e req c
            pool
          ≡ some x
        → IsOwn tag c.session
        → Keeping tag x
    unfolding handle_request Keeps
    request-Keeping tag e none c pool f h = some-subst (Keeping tag) f h
    request-Keeping tag e (some req) c pool f h = some-elim _ _ f (λ turn g f'.
        some-subst (Keeping tag) f' (subst (Keeps tag) g (message-Keeps tag e req c pool h)))

    pub line-Keeping :
        (tag : ℕ) (e : Surroundings) (text : Line) (c : Client) (pool : Pool r)
        {x : End × Client × Pool r}
        → handle_line cfg too_many p r prefix accepts valid_address unmarshal id target e text c
            pool
          ≡ some x
        → IsOwn tag c.session
        → Keeping tag x
    unfolding handle_line
    line-Keeping tag e too_long c pool f h = some-subst (Keeping tag) f h
    line-Keeping tag e eof c pool f h = some-subst (Keeping tag) f h
    line-Keeping tag e read_error c pool f h = some-subst (Keeping tag) f h
    line-Keeping tag e (line text) c pool f h = elim (Bool-cases (ltb 1 (length text))) [
      | inl b ↦ request-Keeping tag e (unmarshal text) c pool (rw (b, handle_line) at f) h
      | inr b ↦ some-subst (Keeping tag) (rw (b, handle_line) at f) h
    ]

-- ===== src/Proxy/Stratum.antt =====
-- proxy/stratum.go: what a connection's lines do, and the pool of tags that `ListenTCP` hands out.
-- The JSON of a line is a parameter; that a write succeeds is part of the surroundings.
pub mod Tags
pub mod Nonces
pub mod Owners
pub mod Distinct
use btcpool.Common.{
  ℕ, zero, suc, ◌+◌, ◌%◌, ◌^◌, Bool, true, false, not, Option, none, some, List, [], ◌∷◌, ◌++◌,
  length, ltb, if◌then◌else◌, get_elem?, ◌>>=◌, ◌≡◌,
}
use btcpool.Common.Int.{ℤ, pos}
use btcpool.Common.Bytes.{Bytes, codes, beq}
use btcpool.Storage.Commands.{Redis}
use btcpool.Policy.{Config, is_banned, apply_limit_policy, ban_client, apply_malformed_policy}
use btcpool.Proxy.Work.{Packages, BlockTemplate}
use btcpool.Proxy.Miner.{World}
use btcpool.Proxy.Session.{
  Session, ErrorReply, Pool, handle_subscribe_rpc, handle_authorize_rpc, handle_unknown_rpc,
  handle_tcp_submit_rpc,
}

-- `StratumReq`: the parameters are those that `Unmarshal` reads as a list of texts, or an error.
pub record StratumReq : Type 0 where
  pub method : Bytes
  pub params : Option (List Bytes)

pub data Reply : Type 0 where
  subscribed : Bytes → Bytes → Reply
  answered : Bool → Reply
  refused : ErrorReply → Reply

-- A session, and whether it is in `sessions`.
pub record Client : Type 0 where
  pub session : Session
  pub registered : Bool

-- What one message finds: the times, the current template, and whether the reply can be written.
pub record Surroundings : Type 0 where
  pub now : ℤ
  pub ms : ℕ
  pub window : ℤ
  pub tpl : Option BlockTemplate
  pub delivered : Bool

-- What `handleTCPMessage` leaves: the reply that it writes, whether it returns an error.
pub record Turn (r : Redis) : Type 0 where
  pub reply : Option Reply
  pub errs : Bool
  pub client : Client
  pub pool : Pool r

-- What `ReadLine` gives.
pub data Line : Type 0 where
  too_long eof read_error : Line
  line : Bytes → Line

-- How one round of the loop of `handleTCPClient` ends: it goes on, it returns nil after the end of
-- the input or a line that is too long, or it returns an error.
pub data End : Type 0 where
  goes_on left flooded broken : End

-- A connection: its tag, and whether its goroutine still reads it.
pub record Connection : Type 0 where
  pub tag : ℕ
  pub client : Client
  pub handled : Bool
  pub opened : Bool

-- `&Session{...}` of a connection that is accepted.
unfoldable pub new_session : Bytes → ℕ → Session
new_session ip tag = record {
  ip = ip;
  login = [];
  id = [];
  target = [];
  target_next_job = [];
  share_count_inv = pos 0;
  tag = tag % 2 ^ 16;
  sid = [];
  extra_nonce1 = [];
  is_auth = false;
}

-- The connection that is read under a tag.
abbrev pub new_connection : Bytes → ℕ → Connection
new_connection ip tag = record {
  tag = tag;
  client = record { session = new_session ip tag; registered = false };
  handled = true;
  opened = true;
}

-- What the goroutine does with the connection when `handleTCPClient` has returned.
unfoldable pub settle : End → Connection → Connection
settle goes_on c = c
settle left c = record c {
  client = record c.client { registered = false };
  handled = false;
  opened = false;
}
settle broken c = record c {
  client = record c.client { registered = false };
  handled = false;
  opened = false;
}
settle flooded c = record c { handled = false }

-- The tags that go back into the channel then.
unfoldable pub freed : End → ℕ → List ℕ
freed goes_on tag = []
freed left tag = tag ∷ []
freed broken tag = tag ∷ []
freed flooded tag = tag ∷ []

unfoldable pub set_at {ℓ} : {A : Type ℓ} → ℕ → A → List A → List A
set_at i a [] = []
set_at zero a (x ∷ xs) = a ∷ xs
set_at (suc i) a (x ∷ xs) = x ∷ set_at i a xs

-- `ListenTCP`: the channel `accept` and the connections that were ever given a tag.
pub record Listener (r : Redis) : Type 0 where
  pub accept : List ℕ
  pub connections : List Connection
  pub pool : Pool r

abbrev pub range_from : ℕ → ℕ → List ℕ
range_from i zero = []
range_from i (suc n) = i ∷ range_from (i + 1) n

-- The channel as the first loop fills it.
unfoldable pub all_tags : ℕ → List ℕ
all_tags max_conn = range_from 0 max_conn

module _ {r : Redis} where
  -- `sendTCPResult`: an error where the reply cannot be written.
  unfoldable pub send_result : Surroundings → Reply → Client → Pool r → Turn r
  send_result e reply c pool = record {
    reply = some reply;
    errs = not e.delivered;
    client = c;
    pool = pool;
  }

  -- `sendTCPError`: an error in any case.
  unfoldable pub send_error : ErrorReply → Client → Pool r → Turn r
  send_error error c pool = record {
    reply = some (refused error);
    errs = true;
    client = c;
    pool = pool;
  }

  -- The reply to an answer and an error.
  unfoldable pub send : Surroundings → Bool × Option ErrorReply → Client → Pool r → Turn r
  send e (b, none) c pool = send_result e (answered b) c pool
  send e (b, some error) c pool = send_error error c pool

  -- Parameters that cannot be read.
  unfoldable pub unread : Client → Pool r → Turn r
  unread c pool = record { reply = none; errs = true; client = c; pool = pool }

  -- The end of a round of `ListenTCP`: the connection waits for a tag, which is `none` here.
  unfoldable pub give_tag : Bytes → Listener r → Option (Listener r)
  give_tag ip l = elim l.accept [
    | [] ↦ none
    | tag ∷ rest ↦
        some (record l { accept = rest; connections = l.connections ++ new_connection ip tag ∷ [] })
  ]

  -- `removeSession` on a job or a difficulty that could not be sent.
  unfoldable pub push_failed : ℕ → Listener r → Option (Listener r)
  push_failed i l = do
    c ← get_elem? l.connections i
    some (record l {
      connections =
          set_at i (record c { client = record c.client { registered = false } }) l.connections;
    })

  -- One round of the loop of `ListenTCP`.
  unfoldable pub listen_tcp : Config → ℤ → Bytes → Listener r → Option (Listener r)
  listen_tcp cfg now ip l =
      let (banned, policy) = is_banned cfg now ip l.pool.policy in
      let l' = record l { pool = record l.pool { policy = policy } } in
      if banned
      then some l'
      else (let (admitted, policy') = apply_limit_policy cfg now ip policy in
          let l'' = record l { pool = record l.pool { policy = policy' } } in
          if admitted then give_tag ip l'' else some l'')

module _ (cfg : Config) (too_many : ℤ → ℤ → Bool) (p : Packages) (r : Redis) (prefix : Bytes)
    (accepts : Bytes → World r → Bool) (valid_address : Bytes → Bool)
    (unmarshal : Bytes → Option StratumReq) (id : ℕ) (target : Bytes) where
  -- The case of `mining.subscribe`.
  unfoldable pub on_subscribe : Surroundings → Client → Pool r → Turn r
  on_subscribe e c pool =
      let session = handle_subscribe_rpc p.sha256 id target c.session in
      send_result e (subscribed session.sid session.extra_nonce1)
        (record { session = session; registered = true }) pool

  -- The case of `mining.authorize`; the difficulty is sent by another goroutine.
  unfoldable pub on_authorize : Surroundings → List Bytes → Client → Pool r → Turn r
  on_authorize e params c pool =
      let (answer, session, policy) =
        handle_authorize_rpc cfg valid_address e.now params c.session pool.policy in
      send e answer (record c { session = session }) (record pool { policy = policy })

  -- The case of `mining.submit`; `none` is a panic.
  unfoldable pub on_submit : Surroundings → List Bytes → Client → Pool r → Option (Turn r)
  on_submit e params c pool =
      let (response, pool') =
        handle_tcp_submit_rpc cfg too_many p r prefix accepts c.registered e.now e.ms e.window
          c.session params e.tpl pool in
      elim response [ none ↦ none | some answer ↦ some (send e answer c pool') ]

  unfoldable pub on_unknown : Surroundings → Client → Pool r → Turn r
  on_unknown e c pool =
      let (error, policy) = handle_unknown_rpc cfg valid_address e.now c.session pool.policy in
      send_error error c (record pool { policy = policy })

  -- `handleTCPMessage`
  unfoldable pub handle_tcp_message : Surroundings → StratumReq → Client → Pool r → Option (Turn r)
  handle_tcp_message e req c pool =
      if beq req.method (codes "mining.subscribe")
      then elim req.params [ none ↦ some (unread c pool) | some _ ↦ some (on_subscribe e c pool) ]
      else if beq req.method (codes "mining.authorize")
      then elim req.params [
        | none ↦ some (unread c pool)
        | some params ↦ some (on_authorize e params c pool)
      ]
      else if beq req.method (codes "mining.submit")
      then elim req.params [ none ↦ some (unread c pool) | some params ↦ on_submit e params c pool ]
      else if beq req.method (codes "mining.extranonce.subscribe")
      then some (send_result e (answered true) c pool)
      else some (on_unknown e c pool)

  -- A line of two bytes at least.
  unfoldable pub handle_request :
      Surroundings → Option StratumReq → Client → Pool r → Option (End × Client × Pool r)
  handle_request e none c pool = some (
    broken,
    c,
    record pool { policy = (apply_malformed_policy cfg e.now c.session.ip pool.policy).1 },
  )
  handle_request e (some req) c pool = do
    turn ← handle_tcp_message e req c pool
    some (if turn.errs then broken else goes_on, turn.client, turn.pool)

  -- One round of the loop of `handleTCPClient`.
  unfoldable pub handle_line :
      Surroundings → Line → Client → Pool r → Option (End × Client × Pool r)
  handle_line e too_long c pool =
      some (flooded, c, record pool { policy = ban_client cfg e.now c.session.ip pool.policy })
  handle_line e eof c pool = some (left, c, pool)
  handle_line e read_error c pool = some (broken, c, pool)
  handle_line e (line text) c pool =
      if ltb 1 (length text)
      then handle_request e (unmarshal text) c pool
      else some (goes_on, c, pool)

  -- A line of the connection `c` at index `i`.
  unfoldable pub read_line : Surroundings → ℕ → Line → Connection → Listener r → Option (Listener r)
  read_line e i text c l = do
    (end, client, pool) ← handle_line e text c.client l.pool
    some (record l {
      accept = l.accept ++ freed end c.tag;
      connections = set_at i (settle end (record c { client = client })) l.connections;
      pool = pool;
    })

  -- `handleTCPClient` reads a line, if it still runs; `none` where it does not, or at a panic.
  unfoldable pub handle_tcp_client : Surroundings → ℕ → Line → Listener r → Option (Listener r)
  handle_tcp_client e i text l = do
    c ← get_elem? l.connections i
    if c.handled then read_line e i text c l else none

  -- What can happen next to the listener.
  pub data Step : Listener r → Listener r → Type 0 where
    arrives :
        {l l' : Listener r} (now : ℤ) (ip : Bytes) → listen_tcp cfg now ip l ≡ some l' → Step l l'
    reads :
        {l l' : Listener r} (e : Surroundings) (i : ℕ) (text : Line)
        → handle_tcp_client e i text l ≡ some l'
        → Step l l'
    drops : {l l' : Listener r} (i : ℕ) → push_failed i l ≡ some l' → Step l l'

  -- What a listener with so many tags can come to.
  pub data Reachable (max_conn : ℕ) (pool : Pool r) : Listener r → Type 0 where
    starts :
        Reachable max_conn pool
          (record { accept = all_tags max_conn; connections = []; pool = pool })
    goes : {l l' : Listener r} → Reachable max_conn pool l → Step l l' → Reachable max_conn pool l'

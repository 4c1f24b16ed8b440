-- ===== src/Proxy/Session.antt =====
-- proxy/handlers.go: what a Stratum session asks for, and what it is answered. The policy server and
-- `processShare` are those of Policy and Proxy/Miner; base58, SHA-256 and the JSON of requests are
-- outside.
pub mod Nonce
pub mod Submit
pub mod Effect
use btcpool.Common.{
  ℕ, ◌+◌, ◌*◌, ◌^◌, Bool, true, false, not, ◌&&◌, ◌||◌, ◌==◌, Option, none, some, List, [], ◌∷◌,
  ◌++◌, leb, length, take, drop, if◌then◌else◌,
}
use btcpool.Common.Int.{ℤ, pos, negsuc, wrap64}
use btcpool.Common.Bytes.{Bytes, codes, beq, split}
use btcpool.Common.Hex.{hex8, encode}
use btcpool.Common.Decimal.{format_uint}
use btcpool.Storage.Commands.{Redis}
use btcpool.Policy.{Config, Server, apply_login_policy, apply_malformed_policy, apply_share_policy}
use btcpool.Proxy.Work.{Packages, BlockTemplate, target_hex_to_diff}
use btcpool.Proxy.Miner.{World, Answer, Submission, process_share}

-- `Session`, without the connection.
pub record Session : Type 0 where
  pub ip : Bytes
  pub login : Bytes
  pub id : Bytes
  pub target : Bytes
  pub target_next_job : Bytes
  pub share_count_inv : ℤ
  -- a uint16
  pub tag : ℕ
  pub sid : Bytes
  pub extra_nonce1 : Bytes
  pub is_auth : Bool

pub record ErrorReply : Type 0 where
  pub code : ℤ
  pub message : Bytes

-- `fmt.Sprintf("%08x", uint32(id)<<16|uint32(tag))` of two uint16: the low half is zero before the
-- `|`, which adds.
unfoldable pub extra_nonce1_of : ℕ → ℕ → Bytes
extra_nonce1_of id tag = hex8 (id * 2 ^ 16 + tag)

-- The session that `handleSubscribeRPC` leaves, for the server's identifier and target. It is
-- registered, and its extra nonce is the reply.
unfoldable pub handle_subscribe_rpc : (Bytes → Bytes) → ℕ → Bytes → Session → Session
handle_subscribe_rpc sha256 id target cs =
    let name = cs.ip ++ b',' ∷ format_uint id ++ b',' ∷ format_uint cs.tag in
    record cs {
      target = target;
      target_next_job = target;
      sid = take 32 (encode (sha256 name));
      extra_nonce1 = extra_nonce1_of id cs.tag;
    }

-- `IsValidBTCAddress`
pub is_valid_btc_address : (Bytes → Option Bytes) → (Bytes → Bytes) → Bytes → Bool
is_valid_btc_address base58 sha256 address = elim (base58 address) [
  | none ↦ false
  | some a ↦
      if not (length a == 25) then false else beq (take 4 (sha256 (sha256 (take 21 a)))) (drop 21 a)
]

abbrev is_blank : ℕ → Bool
is_blank c = c == b' ' || c == 9 || c == 13 || c == 10

abbrev drop_blanks : Bytes → Bytes
drop_blanks [] = []
drop_blanks (c ∷ s) = if is_blank c then drop_blanks s else c ∷ s

abbrev reverse_onto : Bytes → Bytes → Bytes
reverse_onto [] t = t
reverse_onto (c ∷ s) t = reverse_onto s (c ∷ t)

-- `strings.Trim(s, " \t\r\n")`
pub trim : Bytes → Bytes
trim s = reverse_onto (drop_blanks (reverse_onto (drop_blanks s) [])) []

abbrev pub all_bytes : (ℕ → Bool) → Bytes → Bool
all_bytes f [] = true
all_bytes f (c ∷ s) = f c && all_bytes f s

-- `workerPattern`
pub worker_pattern : Bytes → Bool
worker_pattern s =
    leb 1 (length s)
    && leb (length s) 64
    && all_bytes
        (λ c.
          (leb b'0' c && leb c b'9')
          || (leb b'a' c && leb c b'z')
          || (leb b'A' c && leb c b'Z')
          || c == b'-'
          || c == b'_'
          || c == b'.')
        s

-- `noncePattern`
unfoldable pub nonce_pattern : Bytes → Bool
nonce_pattern s =
    length s == 8 && all_bytes (λ c. (leb b'0' c && leb c b'9') || (leb b'a' c && leb c b'f')) s

abbrev pub minus_one : ℤ
minus_one = negsuc 0

module _ (c : Config) (valid_address : Bytes → Bool) where
  -- The session's login and worker, where the policy lets it in.
  unfoldable pub log_in :
      ℤ → Bytes → Bytes → Session → Server → (Bool × Option ErrorReply) × Session × Server
  log_in now login id cs policy =
      if not (valid_address login)
      then (
        (false, some (record { code = minus_one; message = codes "Invalid authorize" })),
        cs,
        policy,
      )
      else (let (admitted, policy') = apply_login_policy c now login cs.ip policy in
          if not admitted
          then (
            (false, some (record { code = minus_one; message = codes "You are blacklisted" })),
            cs,
            policy',
          )
          else ((true, none), record cs { login = login; id = id; is_auth = true }, policy'))

  -- The parts of the name, cut at its points: the login and the worker, if it has a proper one.
  unfoldable pub log_in_as :
      ℤ → List Bytes → Session → Server → (Bool × Option ErrorReply) × Session × Server
  log_in_as now [] cs policy = log_in now [] (codes "default") cs policy
  log_in_as now (login ∷ []) cs policy = log_in now login (codes "default") cs policy
  log_in_as now (login ∷ worker ∷ _) cs policy =
      log_in now login (if worker_pattern worker then worker else codes "default") cs policy

  -- `handleAuthorizeRPC`
  unfoldable pub handle_authorize_rpc :
      ℤ → List Bytes → Session → Server → (Bool × Option ErrorReply) × Session × Server
  handle_authorize_rpc now [] cs policy =
      ((false, some (record { code = minus_one; message = codes "Invalid params" })), cs, policy)
  handle_authorize_rpc now (name ∷ _) cs policy = log_in_as now (split (trim name) b'.') cs policy

  -- `handleUnknownRPC`
  unfoldable pub handle_unknown_rpc : ℤ → Session → Server → ErrorReply × Server
  handle_unknown_rpc now cs policy = (
    record { code = negsuc 2; message = codes "Method not found" },
    (apply_malformed_policy c now cs.ip policy).1,
  )

-- What `processShare` is given of a session, and of the difficulty of its target.
abbrev pub submission_of : ℕ → ℤ → Session → ℤ → Submission
submission_of ms window cs diff = record {
  login = cs.login;
  id = cs.id;
  e_nonce1 = cs.extra_nonce1;
  share_diff = wrap64 diff;
  ms = ms;
  window = window;
}

-- The policy server, and the world of `processShare`.
pub record Pool (r : Redis) : Type 0 where
  pub policy : Server
  pub world : World r

-- An answer and an error; `none` is a panic.
abbrev pub Response : Type 0
Response = Option (Bool × Option ErrorReply)

abbrev refuse : ℤ → Bytes → Response
refuse code message = some (false, some (record { code = code; message = message }))

module _ (c : Config) (too_many : ℤ → ℤ → Bool) (p : Packages) (r : Redis) (prefix : Bytes)
    (accepts : Bytes → World r → Bool) where
  -- What is answered to a share that was processed; `ok` is the policy's word.
  unfoldable pub respond : Bool × Bool → Bool → Response
  respond (true, _) ok = refuse (pos 22) (codes "Duplicate share")
  respond (false, false) ok =
      if ok then some (false, none) else refuse (pos 23) (codes "Invalid share")
  respond (false, true) ok =
      if ok
      then some (true, none)
      else some
          (true, some (record { code = minus_one; message = codes "High rate of invalid shares" }))

  unfoldable pub settle_share : ℤ → Session → Server → Answer × World r → Response × Pool r
  settle_share now cs policy (none, w) = (none, record { policy = policy; world = w })
  settle_share now cs policy (some (exist, valid), w) =
      let (ok, policy') = apply_share_policy c too_many now cs.ip (not exist && valid) policy in
      (respond (exist, valid) ok, record { policy = policy'; world = w })

  -- A request that the policy counts as malformed.
  unfoldable pub malformed : ℤ → Bytes → Session → Pool r → Response × Pool r
  malformed now message cs s = (
    refuse minus_one message,
    record s { policy = (apply_malformed_policy c now cs.ip s.policy).1 },
  )

  -- `handleSubmitRPC`, for the current template; with no template, `processShare` panics. The
  -- times are in milliseconds.
  unfoldable pub handle_submit_rpc :
      ℤ → ℕ → ℤ → Session → List Bytes → Option BlockTemplate → Pool r → Response × Pool r
  handle_submit_rpc now ms window cs (worker ∷ job ∷ e_nonce2 ∷ n_time ∷ nonce ∷ []) tpl s =
      if not (nonce_pattern e_nonce2) || not (nonce_pattern n_time) || not (nonce_pattern nonce)
      then malformed now (codes "Malformed PoW result") cs s
      else elim tpl [
        | none ↦ (none, s)
        | some t ↦ elim (target_hex_to_diff p cs.target) [
          | none ↦ (none, s)
          | some diff ↦ settle_share now cs s.policy (
              process_share p r prefix accepts (submission_of ms window cs diff)
                (worker ∷ job ∷ e_nonce2 ∷ n_time ∷ nonce ∷ []) t s.world)
        ]
      ]
  handle_submit_rpc now ms window cs _ tpl s = malformed now (codes "Invalid params") cs s

  -- `handleTCPSubmitRPC`; the test is whether the session is registered.
  unfoldable pub handle_tcp_submit_rpc :
      Bool → ℤ → ℕ → ℤ → Session → List Bytes → Option BlockTemplate → Pool r → Response × Pool r
  handle_tcp_submit_rpc registered now ms window cs params tpl s =
      if not registered
      then (refuse (pos 25) (codes "Not subscribed"), s)
      else handle_submit_rpc now ms window cs params tpl s

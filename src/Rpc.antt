-- ===== src/Rpc.antt =====
-- rpc/rpc.go: the client of a node. What a POST comes to, and what `Unmarshal` makes of a result, are
-- parameters.
pub mod Health
use btcpool.Common.{
  ℕ, ◌+◌, Bool, true, false, not, Option, none, some, List, [], ◌∷◌, leb, if◌then◌else◌,
}
use btcpool.Common.Int.{ℤ, pos}
use btcpool.Common.Bytes.{Bytes, codes}
use btcpool.Common.Result.{Result, panic, failed, done, or_fail}

-- `RPCClient`, without its lock and its HTTP client.
pub record RpcClient : Type 0 where
  pub url : Bytes
  pub name : Bytes
  pub sick : Bool
  pub sick_rate : ℕ
  pub success_rate : ℕ

-- `NewRPCClient`
pub new_rpc_client : Bytes → Bytes → RpcClient
new_rpc_client name url = record {
  url = url;
  name = name;
  sick = false;
  sick_rate = 0;
  success_rate = 0;
}

-- `markSick`
unfoldable pub mark_sick : RpcClient → RpcClient
mark_sick r = record r {
  sick_rate = r.sick_rate + 1;
  success_rate = 0;
  sick = if leb 5 (r.sick_rate + 1) then true else r.sick;
}

-- `markAlive`
unfoldable pub mark_alive : RpcClient → RpcClient
mark_alive r =
    if leb 5 (r.success_rate + 1)
    then record r { sick = false; sick_rate = 0; success_rate = 0 }
    else record r { success_rate = r.success_rate + 1 }

-- The end of `Check`, where the hash has come or not; `none` is a panic.
unfoldable pub found : Result Bytes × RpcClient → Option Bool × RpcClient
found (panic, r) = (none, r)
found (failed, r) = (some false, r)
found (done _, r) = (some (not (mark_alive r).sick), mark_alive r)

-- What a request asks with.
pub data Param : Type 0 where
  text : Bytes → Param
  number : ℤ → Param
  rules : List Bytes → Param

-- How a POST ends: it is not sent, gets no response, one that is no JSON of a response, the JSON
-- `null`, an error with its message where that is a text, or a result, which may be absent.
pub data Post {ℓ} (Json : Type ℓ) : Type ℓ where
  unsent unreached undecoded null : Post Json
  rpc_error : Option Bytes → Post Json
  response : Option Json → Post Json

-- What a POST of a method and its parameters comes to.
abbrev pub Node {ℓ} : Type ℓ → Type ℓ
Node Json = Bytes → List Param → Post Json

module _ {ℓ} {Json : Type ℓ} where
  -- `doPost`: the result, which may be absent, and the client. A response of `null` and an error
  -- whose message is no text are panics.
  unfoldable pub do_post : RpcClient → Post Json → Result (Option Json) × RpcClient
  do_post r unsent = (failed, r)
  do_post r unreached = (failed, mark_sick r)
  do_post r undecoded = (failed, mark_sick r)
  do_post r null = (panic, r)
  do_post r (rpc_error none) = (panic, mark_sick r)
  do_post r (rpc_error (some message)) = (failed, mark_sick r)
  do_post r (response result) = (done result, r)

  -- A result that has to be there.
  unfoldable pub read_result {κ} :
      {A : Type κ} → (Json → Option A) → Result (Option Json) → Result A
  read_result unmarshal panic = panic
  read_result unmarshal failed = failed
  read_result unmarshal (done none) = panic
  read_result unmarshal (done (some json)) = or_fail (unmarshal json)

  -- A result that may be absent.
  unfoldable pub read_optional {κ} :
      {A : Type κ} → (Json → Option A) → Result (Option Json) → Result (Option A)
  read_optional unmarshal panic = panic
  read_optional unmarshal failed = failed
  read_optional unmarshal (done none) = done none
  read_optional unmarshal (done (some json)) = elim (unmarshal json) [
    | none ↦ failed
    | some a ↦ done (some a)
  ]

  module _ (post : Node Json) where
    -- `GetPrevBlockHash`
    unfoldable pub get_prev_block_hash :
        (Json → Option Bytes) → RpcClient → Result Bytes × RpcClient
    get_prev_block_hash unmarshal r =
        let (result, r') = do_post r (post (codes "getbestblockhash") []) in
        (read_result unmarshal result, r')

    -- `GetPendingBlock`
    pub get_pending_block {κ} :
        {Template : Type κ}
        → (Json → Option Template)
        → RpcClient
        → Result (Option Template) × RpcClient
    get_pending_block unmarshal r =
        let (result, r') =
          do_post r (post (codes "getblocktemplate") (rules (codes "segwit" ∷ []) ∷ [])) in
        (read_optional unmarshal result, r')

    -- `GetBlockHashByHeight`
    pub get_block_hash_by_height : (Json → Option Bytes) → ℤ → RpcClient → Result Bytes × RpcClient
    get_block_hash_by_height unmarshal height r =
        let (result, r') = do_post r (post (codes "getblockhash") (number height ∷ [])) in
        (read_result unmarshal result, r')

    -- `getBlockBy`
    pub get_block_by {κ} :
        {Block : Type κ}
        → (Json → Option Block)
        → Bytes
        → List Param
        → RpcClient
        → Result (Option Block) × RpcClient
    get_block_by unmarshal method params r =
        let (result, r') = do_post r (post method params) in (read_optional unmarshal result, r')

    -- `GetBlockByHash`
    pub get_block_by_hash {κ} :
        {Block : Type κ}
        → (Json → Option Block)
        → Bytes
        → RpcClient
        → Result (Option Block) × RpcClient
    get_block_by_hash unmarshal hash r =
        get_block_by unmarshal (codes "getblock") (text hash ∷ number (pos 2) ∷ []) r

    -- `SubmitBlock`: the node accepts a block by giving no result.
    pub submit_block : List Param → RpcClient → Result (Unit {0}) × RpcClient
    submit_block params r =
        let (result, r') = do_post r (post (codes "submitblock") params) in
        (
          elim result [
            | panic ↦ panic
            | failed ↦ failed
            | done none ↦ done tt
            | done (some _) ↦ failed
          ],
          r',
        )

    -- `Check`
    unfoldable pub check : (Json → Option Bytes) → RpcClient → Option Bool × RpcClient
    check unmarshal r = found (get_prev_block_hash unmarshal r)

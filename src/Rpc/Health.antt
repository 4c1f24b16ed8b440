-- ===== src/Rpc/Health.antt =====
-- When a client counts as sick, and how it recovers.
use btcpool.Common.{
  ℕ, suc, ◌+◌, ◌<◌, ◌≤◌, ◌≡◌, ◌⊎◌, inl, inr, length, refl, false, Option, none, some, List, [], ◌∷◌,
  leb, All, arith,
}
use btcpool.Common.Bytes.{Bytes, codes}
use btcpool.Common.Result.{Result, panic, failed, done}
use btcpool.Rpc.{
  RpcClient, mark_sick, mark_alive, Post, Node, unsent, unreached, undecoded, null, rpc_error,
  response, do_post, read_result, found, get_prev_block_hash, check,
}

-- A client is sick where five requests at least have failed since it was last found healthy, and
-- counts at most four good checks in a row.
abbrev pub IsCounted : RpcClient → Type 0
IsCounted r = (r.sick ≡ leb 5 r.sick_rate) × (r.success_rate < 5)

mark_sick-IsCounted : (r : RpcClient) → IsCounted r → IsCounted (mark_sick r)
unfolding mark_sick
mark_sick-IsCounted r h = ground arith

mark_alive-IsCounted : (r : RpcClient) → IsCounted r → IsCounted (mark_alive r)
unfolding mark_alive
mark_alive-IsCounted r h = ground arith

found-IsCounted : (x : Result Bytes × RpcClient) → IsCounted x.1 → IsCounted (found x).1
unfolding found
found-IsCounted (panic, r) h = h
found-IsCounted (failed, r) h = h
found-IsCounted (done _, r) h = mark_alive-IsCounted r h

alive_success : (r : RpcClient) → r.success_rate < 5 → (mark_alive r).success_rate < 5
unfolding mark_alive
alive_success r h = ground arith

alive_sick :
    (r : RpcClient) (n : ℕ)
    → r.success_rate < 5
    → (r.sick ≡ false) ⊎ (5 ≤ r.success_rate + suc n)
    → ((mark_alive r).sick ≡ false) ⊎ (5 ≤ (mark_alive r).success_rate + n)
unfolding mark_alive
alive_sick r n h k = ground arith

module _ {ℓ} {Json : Type ℓ} where
  do_post-IsCounted : (r : RpcClient) (p : Post Json) → IsCounted r → IsCounted (do_post r p).1
  unfolding do_post
  do_post-IsCounted r unsent h = h
  do_post-IsCounted r unreached h = mark_sick-IsCounted r h
  do_post-IsCounted r undecoded h = mark_sick-IsCounted r h
  do_post-IsCounted r null h = h
  do_post-IsCounted r (rpc_error none) h = mark_sick-IsCounted r h
  do_post-IsCounted r (rpc_error (some message)) h = mark_sick-IsCounted r h
  do_post-IsCounted r (response result) h = h

  module _ (unmarshal : Json → Option Bytes) where
    hash-IsCounted :
        (node : Node Json) (r : RpcClient)
        → IsCounted r
        → IsCounted (get_prev_block_hash node unmarshal r).1
    unfolding get_prev_block_hash
    hash-IsCounted node r h = do_post-IsCounted r (node (codes "getbestblockhash") []) h

    check-IsCounted :
        (node : Node Json) (r : RpcClient) → IsCounted r → IsCounted (check node unmarshal r).1
    unfolding check
    check-IsCounted node r h = found-IsCounted _ (hash-IsCounted node r h)

    -- The checks of a node, one after another.
    unfoldable pub checks : List (Node Json) → RpcClient → RpcClient
    checks [] r = r
    checks (node ∷ nodes) r = checks nodes (check node unmarshal r).1

    -- The node gives the hash of its best block.
    abbrev pub Answers : Node Json → Type ℓ
    Answers node =
        (json : Json) × (hash : Bytes) × (node (codes "getbestblockhash") [] ≡ response (some json))
        × (unmarshal json ≡ some hash)

    check-alive :
        (node : Node Json) (r : RpcClient)
        → Answers node
        → (check node unmarshal r).1 ≡ mark_alive r
    unfolding check found get_prev_block_hash do_post read_result
    check-alive node r (json, hash, e, f) = rw (e, f) refl

    checks_recover_from :
        (nodes : List (Node Json)) (r : RpcClient)
        → All Answers nodes
        → r.success_rate < 5
        → (r.sick ≡ false) ⊎ (5 ≤ r.success_rate + length nodes)
        → (checks nodes r).sick ≡ false
    unfolding checks
    checks_recover_from [] r a h (inl e) = e
    checks_recover_from [] r a h (inr e) = absurd (omega arith)
    checks_recover_from (node ∷ nodes) r (a, a') h k =
        rw (check-alive node r a, checks)
          (checks_recover_from nodes (mark_alive r) a' (alive_success r h)
            (alive_sick r (length nodes) h k))

    -- Whatever a client went through, five checks in a row that the node answers make it healthy.
    pub checks_recover :
        (nodes : List (Node Json)) (r : RpcClient)
        → IsCounted r
        → All Answers nodes
        → 5 ≤ length nodes
        → (checks nodes r).sick ≡ false
    checks_recover nodes r h a l = checks_recover_from nodes r a h.1 (inr (omega arith))

-- ===== src/Storage/Reads.antt =====
-- storage/redis.go: what the other parts read from Redis, the state of the nodes and the lock of the
-- payouts. `failed` is an error of Redis, and `panic` an index that is out of range. A reply of
-- another kind than the command's does not come.
pub mod Lock
use btcpool.Common.{
  ℕ, Bool, true, false, not, Option, none, some, List, [], ◌∷◌, get_elem?, map, if◌then◌else◌,
}
use btcpool.Common.Int.{ℤ, pos, negsuc, eq_ℤ}
use btcpool.Common.Bytes.{Bytes, codes, split}
use btcpool.Common.Decimal.{format_int, format_uint, parse_int}
use btcpool.Common.Result.{Result, panic, failed, done, ◌>>=◌}
use btcpool.Storage.Keys.{BlockData, Arg, str, int64, join, format_key, format_round}
use btcpool.Storage.Rows.{
  Z, PendingPayment, convert_candidate_results, convert_block_results, pending_of_row,
}
use btcpool.Storage.Commands.{
  Cmd, hset, hget, hget_all_map, zrange_by_score, zrev_range, smembers, exists, set_nx, del, get,
  Reply, int, hash, rows, members, text, Redis,
}
use btcpool.Storage.Stats.{update_entry}

abbrev pub rows_of : Option Reply → Result (List Z)
rows_of (some (Reply.rows zs)) = done zs
rows_of _ = failed

abbrev pub members_of : Option Reply → Result (List Bytes)
members_of (some (Reply.members ms)) = done ms
members_of _ = failed

abbrev pub hash_of : Option Reply → Result (List (Bytes × Bytes))
hash_of (some (Reply.hash m)) = done m
hash_of _ = failed

abbrev pub text_of : Option Reply → Result (Option Bytes)
text_of (some (Reply.text t)) = done t
text_of _ = failed

abbrev pub or_panic {ℓ} : {A : Type ℓ} → Option A → Result A
or_panic none = panic
or_panic (some a) = done a

-- One round of the loop of `GetNodeStates`: the field goes into the map of its node.
unfoldable pub add_node :
    Bytes × Bytes
    → List (Bytes × List (Bytes × Bytes))
    → Option (List (Bytes × List (Bytes × Bytes)))
add_node (key, value) m =
    let parts = split key b':' in
    elim (get_elem? parts 0) [
      | none ↦ none
      | some id ↦ elim (get_elem? parts 1) [
        | none ↦ none
        | some field ↦ some (update_entry id [] (update_entry field value (λ _. value)) m)
      ]
    ]

unfoldable pub add_nodes :
    List (Bytes × Bytes)
    → List (Bytes × List (Bytes × Bytes))
    → Option (List (Bytes × List (Bytes × Bytes)))
add_nodes [] m = some m
add_nodes (field ∷ fields) m = elim (add_node field m) [
  | none ↦ none
  | some m' ↦ add_nodes fields m'
]

-- The loop of `GetRoundShares`.
unfoldable pub parse_shares : List (Bytes × Bytes) → List (Bytes × ℤ) → List (Bytes × ℤ)
parse_shares [] m = m
parse_shares ((login, v) ∷ fields) m =
    let n = (parse_int v).0 in parse_shares fields (update_entry login n (λ _. n) m)

-- The loop of `GetPendingPayments`.
unfoldable pub pending_payments : List Z → Option (List PendingPayment)
pending_payments [] = some []
pending_payments (v ∷ zs) = elim (pending_of_row v) [
  | none ↦ none
  | some p ↦ elim (pending_payments zs) [ none ↦ none | some ps ↦ some (p ∷ ps) ]
]

module _ (r : Redis) (prefix : Bytes) where
  open r use {Store, call, exec}

  abbrev key_at : List Arg → Bytes
  key_at args = format_key prefix args

  -- `GetBlacklist` and `GetWhitelist`; the list is empty at an error.
  unfoldable pub get_blacklist : Store → Result (List Bytes)
  get_blacklist s = members_of (call (smembers (key_at (str (codes "blacklist") ∷ []))) s).0

  unfoldable pub get_whitelist : Store → Result (List Bytes)
  get_whitelist s = members_of (call (smembers (key_at (str (codes "whitelist") ∷ []))) s).0

  -- The queue of `WriteNodeState`, at a time in seconds.
  unfoldable pub node_queue : ℤ → Bytes → ℕ → ℤ → List Cmd
  node_queue now id height diff =
      let nodes = key_at (str (codes "nodes") ∷ []) in
      hset nodes (join (str id ∷ str (codes "name") ∷ [])) id
      ∷ hset nodes (join (str id ∷ str (codes "height") ∷ [])) (format_uint height)
      ∷ hset nodes (join (str id ∷ str (codes "difficulty") ∷ [])) (format_int diff)
      ∷ hset nodes (join (str id ∷ str (codes "lastBeat") ∷ [])) (format_int now)
      ∷ []

  -- `WriteNodeState`: whether it succeeded.
  unfoldable pub write_node_state : ℤ → Bytes → ℕ → ℤ → Store → Bool × Store
  write_node_state now id height diff s =
      let (reply, s') = exec (node_queue now id height diff) s in
      (elim reply [ none ↦ false | some _ ↦ true ], s')

  -- `GetNodeStates`
  unfoldable pub get_node_states : Store → Result (List (List (Bytes × Bytes)))
  get_node_states s = do
    fields ← hash_of (call (hget_all_map (key_at (str (codes "nodes") ∷ []))) s).0
    nodes ← or_panic (add_nodes fields [])
    done (map (λ (id, node). node) nodes)

  -- `GetCandidates`
  unfoldable pub get_candidates : ℤ → Store → Result (List BlockData)
  get_candidates max_height s = do
    zs ←
        rows_of
          (call
            (zrange_by_score (key_at (str (codes "blocks") ∷ str (codes "candidates") ∷ []))
              max_height)
            s).0
    or_panic (convert_candidate_results zs)

  -- `GetImmatureBlocks`
  unfoldable pub get_immature_blocks : ℤ → Store → Result (List BlockData)
  get_immature_blocks max_height s = do
    zs ←
        rows_of
          (call
            (zrange_by_score (key_at (str (codes "blocks") ∷ str (codes "immature") ∷ []))
              max_height)
            s).0
    or_panic (convert_block_results zs)

  -- `GetRoundShares`
  unfoldable pub get_round_shares : ℤ → Bytes → Store → Result (List (Bytes × ℤ))
  get_round_shares height nonce s = do
    fields ← hash_of (call (hget_all_map (format_round prefix height nonce)) s).0
    done (parse_shares fields [])

  -- `GetBalance`; nil is zero, and a text that is no number is an error.
  unfoldable pub get_balance : Bytes → Store → Result ℤ
  get_balance login s = do
    t ← text_of (call (hget (key_at (str (codes "miners") ∷ str login ∷ [])) (codes "balance")) s).0
    elim t [
      | none ↦ done (pos 0)
      | some v ↦ (let (n, ok) = parse_int v in if ok then done n else failed)
    ]

  abbrev pub lock_key : Bytes
  lock_key = key_at (str (codes "payments") ∷ str (codes "lock") ∷ [])

  -- `LockPayouts`: whether the lock was free.
  unfoldable pub lock_payouts : Bytes → ℤ → Store → Bool × Store
  lock_payouts login amount s =
      let (reply, s') = call (set_nx lock_key (join (str login ∷ int64 amount ∷ []))) s in
      (elim reply [ none ↦ false | some (Reply.int n) ↦ eq_ℤ n (pos 1) | some _ ↦ false ], s')

  -- `UnlockPayouts`
  unfoldable pub unlock_payouts : Store → Bool × Store
  unlock_payouts s =
      let (reply, s') = call (del lock_key) s in (elim reply [ none ↦ false | some _ ↦ true ], s')

  -- `IsPayoutsLocked`
  unfoldable pub is_payouts_locked : Store → Result Bool
  is_payouts_locked s = do
    t ← text_of (call (get lock_key) s).0
    done (elim t [ none ↦ false | some _ ↦ true ])

  -- `GetPendingPayments`: nil where Redis fails.
  unfoldable pub get_pending_payments : Store → Result (List PendingPayment)
  get_pending_payments s =
      elim (rows_of
        (call (zrev_range (key_at (str (codes "payments") ∷ str (codes "pending") ∷ [])) (negsuc 0))
          s).0) [ panic ↦ panic | failed ↦ done [] | done zs ↦ or_panic (pending_payments zs) ]

  -- `IsMinerExists`
  unfoldable pub is_miner_exists : Bytes → Store → Result Bool
  is_miner_exists login s =
      elim (call (exists (key_at (str (codes "miners") ∷ str login ∷ []))) s).0 [
        | some (Reply.int n) ↦ done (eq_ℤ n (pos 1))
        | _ ↦ failed
      ]

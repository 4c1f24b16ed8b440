-- ===== src/Tests/Reads.antt =====
-- A server that keeps nothing but the lock of the payouts, and answers all else from a table.
use btcpool.Common.{
  ◌≡◌, ◌≢◌, ◌⊎◌, refl, Bool, true, false, Option, none, some, List, [], ◌∷◌, arith, if◌then◌else◌,
  map,
}
use btcpool.Common.Int.{ℤ, pos, negsuc}
use btcpool.Common.Bytes.{Bytes, codes, beq, split, split_from}
use btcpool.Common.Decimal.{parse_int, parse_uint, scan, from_scan}
use btcpool.Storage.Stats.{update_entry}
use btcpool.Common.Result.{failed, done}
use btcpool.Storage.Keys.{join, format_key}
use btcpool.Storage.Commands.{Cmd, Reply, Redis}
use btcpool.Storage.Reads.{
  lock_key, get_blacklist, get_whitelist, get_node_states, write_node_state, get_round_shares,
  get_balance, lock_payouts, unlock_payouts, is_payouts_locked, get_pending_payments,
  is_miner_exists, get_candidates, get_immature_blocks, parse_shares, add_node, add_nodes,
}
use btcpool.Storage.Reads.Lock.{Lock, grants, lock_payouts-Exclusive}

abbrev answer : Cmd → Bool → Option Reply × Bool
answer (Cmd.set_nx k v) locked = (some (Reply.int (if locked then pos 0 else pos 1)), true)
answer (Cmd.get k) locked = (some (Reply.text (if locked then some (codes "a") else none)), locked)
answer (Cmd.del k) locked = (some (Reply.int (pos 1)), false)
answer (Cmd.smembers k) locked = (some (Reply.members (codes "x" ∷ [])), locked)
answer (Cmd.hget k f) locked =
    (some (Reply.text (if beq k (codes "btc:miners:a") then some (codes "-12") else none)), locked)
answer (Cmd.hget_all_map k) locked = (
  some (
      Reply.hash (
        (codes "a:name", codes "12")
        ∷ (codes "b:name", codes "7x")
        ∷ (codes "a:height", codes "3")
        ∷ [])),
  locked,
)
answer (Cmd.exists k) locked = (some (Reply.int (pos 1)), locked)
answer _ locked = (none, locked)

abbrev server : Redis
server = record { Store = Bool; call = answer; exec = λ q s. (some (map (λ _. Reply.status) q), s) }

abbrev btc : Bytes
btc = codes "btc"

lists :
    (get_blacklist server btc false ≡ done (codes "x" ∷ []))
    × (get_whitelist server btc false ≡ done (codes "x" ∷ []))
unfolding get_blacklist get_whitelist
lists = (refl, refl)

-- A balance that is no key is 0.
balances :
    (get_balance server btc (codes "a") false ≡ done (negsuc 11))
    × (get_balance server btc (codes "b") false ≡ done (pos 0))
unfolding get_balance parse_int parse_uint scan from_scan format_key join
balances = (refl, refl)

-- A number that does not parse is 0.
round_shares :
    get_round_shares server btc (pos 7) (codes "n") false
    ≡ done ((codes "a:name", pos 12) ∷ (codes "b:name", pos 0) ∷ (codes "a:height", pos 3) ∷ [])
unfolding get_round_shares parse_shares update_entry parse_int parse_uint scan from_scan
round_shares = refl

nodes :
    get_node_states server btc false
    ≡ done (
        ((codes "name", codes "12") ∷ (codes "height", codes "3") ∷ [])
        ∷ ((codes "name", codes "7x") ∷ [])
        ∷ [])
unfolding get_node_states add_nodes add_node update_entry split split_from
nodes = refl

known :
    (is_miner_exists server btc (codes "a") false ≡ done true)
    × ((write_node_state server btc (pos 9) (codes "n") 5 (pos 2) false).0 ≡ true)
unfolding is_miner_exists write_node_state
known = (refl, refl)

-- The commands that read sorted sets fail here.
no_rows :
    (get_candidates server btc (pos 9) false ≡ failed)
    × (get_immature_blocks server btc (pos 9) false ≡ failed)
    × (get_pending_payments server btc false ≡ done [])
unfolding get_candidates get_immature_blocks get_pending_payments
no_rows = (refl, refl, refl)

locks :
    ((lock_payouts server btc (codes "a") (pos 5) false).0 ≡ true)
    × ((unlock_payouts server btc true).0 ≡ true)
    × (is_payouts_locked server btc true ≡ done true)
unfolding lock_payouts unlock_payouts is_payouts_locked
locks = (refl, refl, refl)

shown_as :
    (t : Option Bytes) (s : Bool)
    → some (Reply.text (if s then some (codes "a") else none)) ≡ some (Reply.text t)
    → s ≡ elim t [ none ↦ false | some _ ↦ true ]
shown_as none true e = absurd cc
shown_as none false e = refl
shown_as (some v) true e = refl
shown_as (some v) false e = absurd cc

kept : Lock server (lock_key server btc)
kept = record {
  held = λ s. s;
  granted = λ v s e. ground arith;
  taken = λ v s e. refl;
  stays = λ v s e. refl;
  shown = λ t s e. shown_as t s e;
  dropped = λ n s e. refl;
}

abbrev two_calls : List (Bytes × ℤ)
two_calls = (codes "a", pos 5) ∷ (codes "b", pos 6) ∷ []

lock_payouts-Exclusive_example :
    (((grants server btc two_calls false).0 ≡ 0)
      ⊎ (((grants server btc two_calls false).0 ≡ 1)
          × (is_payouts_locked server btc (grants server btc two_calls false).1 ≢ done false)))
    × (((unlock_payouts server btc (grants server btc two_calls false).1).0 ≡ false)
        ⊎ (is_payouts_locked server btc
              (unlock_payouts server btc (grants server btc two_calls false).1).1
            ≢ done true))
lock_payouts-Exclusive_example = lock_payouts-Exclusive server btc kept two_calls false

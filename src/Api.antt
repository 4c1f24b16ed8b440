-- ===== src/Api.antt =====
-- api/server.go: the HTTP interface to the statistics, and its two caches: the statistics of the pool,
-- and those of each account. Requests are routed and written as JSON outside; the times are arguments.
pub mod Server
pub mod Fresh
use btcpool.Common.{
  ℕ, suc, ltb, Bool, true, false, not, ◌||◌, Option, none, some, List, [], ◌∷◌, length,
  if◌then◌else◌,
}
use btcpool.Common.Int.{ℤ, pos, ◌-ℤ◌, ltb_ℤ, wrap64}
use btcpool.Common.Bytes.{Bytes, beq}
use btcpool.Common.Hex.{lower}
use btcpool.Common.Float.{Float64}
use btcpool.Common.Result.{Result, panic, failed, done}
use btcpool.Storage.Keys.{BlockData}
use btcpool.Storage.Rows.{Payment}
use btcpool.Storage.Commands.{Redis}
use btcpool.Storage.Stats.{Worker, WorkersStats}
use btcpool.Storage.Luck.{Luck, collect_luck_stats}
use btcpool.Storage.Luck.Windows.{find_row}
use btcpool.Storage.Collect.{
  Value, PoolStats, MinerStats, collect_stats, collect_workers_stats, get_miner_stats,
}
use btcpool.Storage.Reads.{is_miner_exists, get_node_states}
use btcpool.Storage.Scan.{Flush, stuck, panicked, halted, flushed, flush_stale_stats}

-- The settings that are read; the windows are whole seconds, and the interval milliseconds.
pub record ApiConfig : Type 0 where
  pub hashrate_window : ℤ
  pub hashrate_large_window : ℤ
  pub stats_intv : ℤ
  pub luck_window : List ℤ
  pub payments : ℤ
  pub blocks : ℤ
  pub purge_only : Bool

-- The map that `AccountIndex` puts together: the keys of both parts are different.
pub record Account : Type 0 where
  pub miner : MinerStats
  pub workers : WorkersStats
  pub page_size : ℤ

-- `Entry`
pub record Entry : Type 0 where
  pub stats : Account
  pub updated_at : ℤ

-- What `MakeTimestamp` gives: milliseconds, for an answer; and in seconds before and after a query.
pub record Times : Type 0 where
  pub ms : ℤ
  pub now : ℤ
  pub later : ℤ

-- How the queries of an account end.
pub data Reading : Type 0 where
  panics not_found broken : Reading
  found : Account → Reading

-- What `AccountIndex` answers: 404, 500, or 200 with the account.
pub data Answer : Type 0 where
  panics not_found server_error : Answer
  ok : Account → Answer

pub record StatsReply : Type 0 where
  pub now : ℤ
  pub stats : List (Bytes × Value)
  pub hashrate : ℤ
  pub miners_total : ℕ
  pub matured_total : ℤ
  pub immature_total : ℤ
  pub candidates_total : ℤ

pub record MinersReply : Type 0 where
  pub now : ℤ
  pub miners : List (Bytes × Worker)
  pub hashrate : ℤ
  pub miners_total : ℕ

pub record BlocksReply (F : Type 0) : Type 0 where
  pub matured : List BlockData
  pub matured_total : ℤ
  pub immature : List BlockData
  pub immature_total : ℤ
  pub candidates : List BlockData
  pub candidates_total : ℤ
  pub luck : Option (List (Bytes × Luck F))

pub record PaymentsReply : Type 0 where
  pub payments : List Payment
  pub payments_total : ℤ

-- The statistics that are stored, with the luck where windows are set.
pub record Stats (F : Type 0) : Type 0 where
  pub pool : PoolStats
  pub luck : Option (List (Bytes × Luck F))

-- `ApiServer`, without the backend.
pub record ApiServer (F : Type 0) : Type 0 where
  pub stats : Option (Stats F)
  pub miners : List (Bytes × Entry)

-- `s.miners[login] = reply`
unfoldable pub put_account : Bytes → Entry → List (Bytes × Entry) → List (Bytes × Entry)
put_account login e [] = (login, e) ∷ []
put_account login e ((k, x) ∷ m) =
    if beq k login then (k, e) ∷ m else (k, x) ∷ put_account login e m

-- Whether the entry is missing or too old.
unfoldable pub is_stale : ApiConfig → ℤ → Option Entry → Bool
is_stale c ms none = true
is_stale c ms (some e) = ltb_ℤ e.updated_at (wrap64 (ms -ℤ c.stats_intv))

module _ {F : Type 0} where
  -- `StatsIndex` without the nodes, `MinersIndex`, `BlocksIndex` and `PaymentsIndex`: `none` before
  -- statistics are stored.
  unfoldable pub stats_index : ℤ → ApiServer F → Option StatsReply
  stats_index ms s = elim s.stats [
    | none ↦ none
    | some x ↦ some (record {
      now = ms;
      stats = x.pool.stats;
      hashrate = x.pool.hashrate;
      miners_total = x.pool.miners_total;
      matured_total = x.pool.matured_total;
      immature_total = x.pool.immature_total;
      candidates_total = x.pool.candidates_total;
    })
  ]

  unfoldable pub miners_index : ℤ → ApiServer F → Option MinersReply
  miners_index ms s = elim s.stats [
    | none ↦ none
    | some x ↦ some (record {
      now = ms;
      miners = x.pool.miners;
      hashrate = x.pool.hashrate;
      miners_total = x.pool.miners_total;
    })
  ]

  unfoldable pub blocks_index : ApiServer F → Option (BlocksReply F)
  blocks_index s = elim s.stats [
    | none ↦ none
    | some x ↦ some (record {
      matured = x.pool.matured;
      matured_total = x.pool.matured_total;
      immature = x.pool.immature;
      immature_total = x.pool.immature_total;
      candidates = x.pool.candidates;
      candidates_total = x.pool.candidates_total;
      luck = x.luck;
    })
  ]

  unfoldable pub payments_index : ApiServer F → Option PaymentsReply
  payments_index s = elim s.stats [
    | none ↦ none
    | some x ↦ some (record { payments = x.pool.payments; payments_total = x.pool.payments_total })
  ]

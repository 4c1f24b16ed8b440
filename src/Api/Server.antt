-- ===== src/Api/Server.antt =====
-- api/server.go: what fills the caches: AccountIndex, the timers of Start, and what they call.
use btcpool.Common.{ℕ, true, false, ltb, Option, none, some, [], length, if◌then◌else◌}
use btcpool.Common.Bytes.{Bytes}
use btcpool.Common.Float.{Float64}
use btcpool.Common.Result.{panic, failed, done}
use btcpool.Storage.Commands.{Redis}
use btcpool.Storage.Luck.{collect_luck_stats}
use btcpool.Storage.Luck.Windows.{find_row}
use btcpool.Storage.Collect.{PoolStats, collect_stats, collect_workers_stats, get_miner_stats}
use btcpool.Storage.Reads.{is_miner_exists}
use btcpool.Storage.Scan.{stuck, panicked, halted, flushed, flush_stale_stats}
use btcpool.Api.{
  ApiConfig, Entry, Times, Reading, found, Answer, ok, ApiServer, put_account, is_stale,
}

module _ (f : Float64) (r : Redis) (prefix : Bytes) (c : ApiConfig) where
  open r use {Store}

  -- The queries of `AccountIndex`. That `IsMinerExists` failed is tested after that it gave false.
  unfoldable pub read_account : Bytes → Times → Store → Reading × Store
  read_account login t s = elim (is_miner_exists r prefix login s) [
    | panic ↦ (Reading.panics, s)
    | failed ↦ (Reading.not_found, s)
    | done false ↦ (Reading.not_found, s)
    | done true ↦
        let (stats, s1) = get_miner_stats r prefix login c.payments s in
        elim stats [
          | panic ↦ (Reading.panics, s1)
          | failed ↦ (Reading.broken, s1)
          | done miner ↦
              let (counted, s2) =
                collect_workers_stats r prefix t.now t.later c.hashrate_window
                  c.hashrate_large_window login s1 in
              (
                elim counted [
                  | panic ↦ Reading.panics
                  | failed ↦ Reading.broken
                  | done workers ↦
                      found (record { miner = miner; workers = workers; page_size = c.payments })
                ],
                s2,
              )
        ]
  ]

  -- What is answered after the queries; an account that was found goes into the cache.
  unfoldable pub keep_account :
      Bytes → Times → ApiServer f.Float → Reading × Store → (Answer × ApiServer f.Float) × Store
  keep_account login t a (Reading.panics, s) = ((Answer.panics, a), s)
  keep_account login t a (Reading.not_found, s) = ((Answer.not_found, a), s)
  keep_account login t a (Reading.broken, s) = ((Answer.server_error, a), s)
  keep_account login t a (found x, s) = (
    (
      ok x,
      record a { miners = put_account login (record { stats = x; updated_at = t.ms }) a.miners },
    ),
    s,
  )

  -- An answer from the cache, where there is one.
  unfoldable pub from_cache : Option Entry → Answer
  from_cache none = Answer.panics
  from_cache (some e) = ok e.stats

  -- `AccountIndex`, for the login in lower case.
  unfoldable pub account_index :
      Bytes → Times → ApiServer f.Float → Store → (Answer × ApiServer f.Float) × Store
  account_index login t a s =
      if is_stale c t.ms (find_row login a.miners)
      then keep_account login t a (read_account login t s)
      else ((from_cache (find_row login a.miners), a), s)

  -- The end of `collectStats`: the luck, where windows are set; `none` is a panic.
  unfoldable pub store_stats :
      PoolStats → ApiServer f.Float → Store → Option (ApiServer f.Float × Store)
  store_stats pool a s =
      if ltb 0 (length c.luck_window)
      then (let (luck, s') = collect_luck_stats f r prefix c.luck_window s in
          elim luck [
            | panic ↦ none
            | failed ↦ some (a, s')
            | done rows ↦
                some (record a { stats = some (record { pool = pool; luck = some rows }) }, s')
          ])
      else some (record a { stats = some (record { pool = pool; luck = none }) }, s)

  -- `collectStats`; what was stored stays at an error.
  unfoldable pub collect : Times → ApiServer f.Float → Store → Option (ApiServer f.Float × Store)
  collect t a s =
      let (pool, s') =
        collect_stats r prefix t.now t.later c.hashrate_window c.blocks c.payments s in
      elim pool [ panic ↦ none | failed ↦ some (a, s') | done x ↦ store_stats x a s' ]

  -- `purgeStale`, whose error is logged; `none` is a panic, or that the fuel is spent.
  unfoldable pub purge_stale : ℕ → Times → Store → Option Store
  purge_stale fuel t s =
      elim (flush_stale_stats r prefix fuel t.now c.hashrate_window c.hashrate_large_window s) [
        | stuck ↦ none
        | panicked ↦ none
        | halted n s' ↦ some s'
        | flushed n logins s' ↦ some s'
      ]

  -- The timers of `Start`, and the requests.
  pub data Event : Type 0 where
    stats_timer : Times → Event
    purge_timer : ℕ → Times → Event
    account : Bytes → Times → Event

  -- An event, with what it answers; `none` is a panic in one of the timers, which ends the program.
  unfoldable pub serve :
      Event → ApiServer f.Float → Store → Option ((Option Answer × ApiServer f.Float) × Store)
  serve (stats_timer t) a s =
      if c.purge_only
      then some ((none, a), s)
      else elim (collect t a s) [ none ↦ none | some (a', s') ↦ some ((none, a'), s') ]
  serve (purge_timer fuel t) a s = elim (purge_stale fuel t s) [
    | none ↦ none
    | some s' ↦ some ((none, a), s')
  ]
  serve (account login t) a s =
      let ((answer, a'), s') = account_index login t a s in some ((some answer, a'), s')

  -- `Start`, up to its loop: a purge, and the first statistics.
  unfoldable pub start : ℕ → Times → Store → Option (ApiServer f.Float × Store)
  start fuel t s = elim (purge_stale fuel t s) [
    | none ↦ none
    | some s' ↦
        if c.purge_only
        then some (record { stats = none; miners = [] }, s')
        else collect t (record { stats = none; miners = [] }) s'
  ]

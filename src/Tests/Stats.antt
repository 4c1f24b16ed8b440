-- ===== src/Tests/Stats.antt =====
-- Two workers of a login, and a server that gives its keys on two pages.
use btcpool.Common.{ℕ, ◌≡◌, ◌≢◌, refl, Option, some, List, [], ◌∷◌, if◌then◌else◌, map, All, arith}
use btcpool.Common.Int.{ℤ, pos, eq_ℤ}
use btcpool.Common.Bytes.{Bytes, codes}
use btcpool.Storage.Keys.{join, str, int64, format_key}
use btcpool.Storage.Rows.{Z}
use btcpool.Storage.Commands.{Cmd, Reply, Redis}
use btcpool.Storage.Stats.{WorkersStats, workers_stats, settle_worker, worker_share, new_worker}
use btcpool.Storage.Stats.Own.{own_work}
use btcpool.Storage.Stats.Names.{has_worker, sent_share}
use btcpool.Storage.Stats.Totals.{IsCounted, workers_stats-IsCounted}
use btcpool.Storage.Scan.{Flush, flush_stale_stats}
use btcpool.Storage.Scan.Ends.{Iteration, flush_stale_stats-ends}

abbrev row : ℤ → ℤ → Bytes → ℕ → Z
row score diff id ms = record {
  score = score;
  member = join (int64 diff ∷ str id ∷ int64 (pos ms) ∷ []);
}

abbrev shares : List Z
shares =
    row (pos 1699999000) (pos 60000) (codes "rig1") 1699999000000
    ∷ row (pos 1699999990) (pos 1200) (codes "rig2") 1699999990000
    ∷ row (pos 1699999999) (pos 1200) (codes "rig2") 1699999999000
    ∷ []

workers_stats-IsCounted_example :
    (s : WorkersStats) × (workers_stats
        (pos 1700000000)
        (pos 1700000000)
        (pos 600)
        (pos 3600)
        shares
      ≡ some s)
    × IsCounted (pos 1700000000) (pos 600) s
    × ((id : Bytes) → has_worker id s.workers ≡ sent_share id shares)
    × All
        (λ (id, w).
          settle_worker
            (pos 1700000000)
            (pos 600)
            (pos 3600)
            (own_work (worker_share (pos 1700000000) (pos 600)) id shares new_worker)
          ≡ some w)
        s.workers
workers_stats-IsCounted_example =
    workers_stats-IsCounted (pos 1700000000) (pos 1700000000) (pos 600) (pos 3600) shares
      (omega arith) (omega arith)
      (
        (pos 60000, codes "rig1", 1699999000000, refl, omega arith, omega arith),
        (
          (pos 1200, codes "rig2", 1699999990000, refl, omega arith, omega arith),
          ((pos 1200, codes "rig2", 1699999999000, refl, omega arith, omega arith), tt),
        ),
      )

-- The cursor 7 leads to the second page.
abbrev answer : Cmd → Unit {0} → Option Reply × Unit {0}
answer (Cmd.scan c pattern) s =
    (some (Reply.page (if eq_ℤ c (pos 0) then pos 7 else pos 0) (codes "btc:hashrate:a" ∷ [])), s)
answer _ s = (some (Reply.int (pos 1)), s)

abbrev server : Redis
server = record {
  Store = Unit {0};
  call = answer;
  exec = λ q s. (some (map (λ _. Reply.status) q), s);
}

iteration :
    Iteration server (format_key (codes "btc") (str (codes "hashrate") ∷ str (codes "*") ∷ []))
iteration = record {
  left = λ s c. if eq_ℤ c (pos 0) then 1 else 0;
  shrinks = λ c c' keys s e. ground arith;
  kept = λ key bound c s. omega arith;
}

flush_stale_stats-ends_example :
    flush_stale_stats server (codes "btc") 3 (pos 1700000000) (pos 600) (pos 3600) tt ≢ Flush.stuck
unfolding iteration
flush_stale_stats-ends_example =
    flush_stale_stats-ends server (codes "btc") iteration 3 (pos 1700000000) (pos 600) (pos 3600) tt
      (omega arith)

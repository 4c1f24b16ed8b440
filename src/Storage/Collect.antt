-- ===== src/Storage/Collect.antt =====
-- storage/redis.go: what the HTTP interface shows, each from one transaction. The time in seconds
-- before a transaction is `now`, and `later` is the time after it; a window is its number of seconds.
use btcpool.Common.{ℕ, Option, none, some, List, [], ◌∷◌, get_elem?, length, if◌then◌else◌}
use btcpool.Common.Int.{ℤ, pos, ◌-ℤ◌, wrap64}
use btcpool.Common.Bytes.{Bytes, codes}
use btcpool.Common.Decimal.{parse_int}
use btcpool.Common.Result.{Result, failed, done, ◌>>=◌}
use btcpool.Storage.Keys.{BlockData, str, format_key}
use btcpool.Storage.Rows.{
  Z, Payment, convert_candidate_results, convert_block_results, convert_payments_results,
}
use btcpool.Storage.Commands.{
  Cmd, zrem_below, zrange, zrev_range, hget_all_map, hget, zcard, Reply, Redis,
}
use btcpool.Storage.Reads.{or_panic}
use btcpool.Storage.Stats.{Worker, WorkersStats, convert_miners_stats, workers_stats}

-- A value that is a number or a text.
pub data Value : Type 0 where
  number : ℤ → Value
  text : Bytes → Value

-- `convertStringMap`
unfoldable pub convert_string_map : List (Bytes × Bytes) → List (Bytes × Value)
convert_string_map [] = []
convert_string_map ((k, v) ∷ m) =
    let (n, ok) = parse_int v in (k, if ok then number n else text v) ∷ convert_string_map m

-- `Val` of the reply at an index: the zero value where it is of another kind.
abbrev pub rows_val : Option Reply → List Z
rows_val (some (Reply.rows zs)) = zs
rows_val _ = []

abbrev hash_val : Option Reply → List (Bytes × Bytes)
hash_val (some (Reply.hash m)) = m
hash_val _ = []

abbrev int_val : Option Reply → ℤ
int_val (some (Reply.int n)) = n
int_val _ = pos 0

-- `Int64` of a reply, whose error is dropped; nil is 0.
abbrev number_val : Option Reply → ℤ
number_val (some (Reply.text (some t))) = (parse_int t).0
number_val _ = pos 0

-- What `CollectStats` puts in its map.
pub record PoolStats : Type 0 where
  pub stats : List (Bytes × Value)
  pub candidates : List BlockData
  pub candidates_total : ℤ
  pub immature : List BlockData
  pub immature_total : ℤ
  pub matured : List BlockData
  pub matured_total : ℤ
  pub payments : List Payment
  pub payments_total : ℤ
  pub miners : List (Bytes × Worker)
  pub miners_total : ℕ
  pub hashrate : ℤ

-- What `GetMinerStats` puts in its map.
pub record MinerStats : Type 0 where
  pub stats : List (Bytes × Value)
  pub payments : List Payment
  pub payments_total : ℤ
  pub round_shares : ℤ

module _ (r : Redis) (prefix : Bytes) where
  open r use {Store, exec}

  abbrev key1 : Bytes → Bytes
  key1 a = format_key prefix (str a ∷ [])

  abbrev key2 : Bytes → Bytes → Bytes
  key2 a b = format_key prefix (str a ∷ str b ∷ [])

  -- The queue of `CollectStats`.
  unfoldable pub stats_queue : ℤ → ℤ → ℤ → ℤ → List Cmd
  stats_queue now window max_blocks max_payments =
      zrem_below (key1 (codes "hashrate")) (wrap64 (now -ℤ window))
      ∷ zrange (key1 (codes "hashrate"))
      ∷ hget_all_map (key1 (codes "stats"))
      ∷ zrev_range (key2 (codes "blocks") (codes "candidates")) (wrap64 (pos 0 -ℤ pos 1))
      ∷ zrev_range (key2 (codes "blocks") (codes "immature")) (wrap64 (pos 0 -ℤ pos 1))
      ∷ zrev_range (key2 (codes "blocks") (codes "matured")) (wrap64 (max_blocks -ℤ pos 1))
      ∷ zcard (key2 (codes "blocks") (codes "candidates"))
      ∷ zcard (key2 (codes "blocks") (codes "immature"))
      ∷ zcard (key2 (codes "blocks") (codes "matured"))
      ∷ zcard (key2 (codes "payments") (codes "all"))
      ∷ zrev_range (key2 (codes "payments") (codes "all")) (wrap64 (max_payments -ℤ pos 1))
      ∷ []

  -- What `CollectStats` makes of the replies.
  unfoldable pub read_stats : ℤ → ℤ → List Reply → Result PoolStats
  read_stats later window cmds = do
    candidates ← or_panic (convert_candidate_results (rows_val (get_elem? cmds 3)))
    immature ← or_panic (convert_block_results (rows_val (get_elem? cmds 4)))
    matured ← or_panic (convert_block_results (rows_val (get_elem? cmds 5)))
    payments ← or_panic (convert_payments_results (rows_val (get_elem? cmds 10)))
    (hashrate, miners) ← or_panic (convert_miners_stats later window (rows_val (get_elem? cmds 1)))
    done (record {
      stats = convert_string_map (hash_val (get_elem? cmds 2));
      candidates = candidates;
      candidates_total = int_val (get_elem? cmds 6);
      immature = immature;
      immature_total = int_val (get_elem? cmds 7);
      matured = matured;
      matured_total = int_val (get_elem? cmds 8);
      payments = payments;
      payments_total = int_val (get_elem? cmds 9);
      miners = miners;
      miners_total = length miners;
      hashrate = hashrate;
    })

  -- `CollectStats`
  unfoldable pub collect_stats : ℤ → ℤ → ℤ → ℤ → ℤ → Store → Result PoolStats × Store
  collect_stats now later window max_blocks max_payments s =
      let (replies, s') = exec (stats_queue now window max_blocks max_payments) s in
      (elim replies [ none ↦ failed | some cmds ↦ read_stats later window cmds ], s')

  -- `CollectWorkersStats`
  unfoldable pub collect_workers_stats : ℤ → ℤ → ℤ → ℤ → Bytes → Store → Result WorkersStats × Store
  collect_workers_stats now later small_window large_window login s =
      let (replies, s') =
        exec
          (zrem_below (key2 (codes "hashrate") login) (wrap64 (now -ℤ large_window))
            ∷ zrange (key2 (codes "hashrate") login)
            ∷ [])
          s in
      (
        elim replies [
          | none ↦ failed
          | some cmds ↦
              or_panic
                (workers_stats now later small_window large_window (rows_val (get_elem? cmds 1)))
        ],
        s',
      )

  -- `GetMinerStats`. (A nil among the replies is no error.)
  unfoldable pub get_miner_stats : Bytes → ℤ → Store → Result MinerStats × Store
  get_miner_stats login max_payments s =
      let (replies, s') =
        exec
          (hget_all_map (key2 (codes "miners") login)
            ∷ zrev_range (key2 (codes "payments") login) (wrap64 (max_payments -ℤ pos 1))
            ∷ zcard (key2 (codes "payments") login)
            ∷ hget (key2 (codes "shares") (codes "roundCurrent")) login
            ∷ [])
          s in
      (
        elim replies [
          | none ↦ failed
          | some cmds ↦ do
            payments ← or_panic (convert_payments_results (rows_val (get_elem? cmds 1)))
            done (record {
              stats = convert_string_map (hash_val (get_elem? cmds 0));
              payments = payments;
              payments_total = int_val (get_elem? cmds 2);
              round_shares = number_val (get_elem? cmds 3);
            })
        ],
        s',
      )

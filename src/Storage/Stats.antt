-- ===== src/Storage/Stats.antt =====
-- storage/redis.go: the statistics of miners and workers, from the rows of the sorted sets. The time
-- in seconds is an argument, and a window is its number of seconds. `none` is a panic: an index out
-- of range, or a division by zero.
pub mod Totals
pub mod Names
pub mod Own
use btcpool.Common.{
  ℕ, zero, suc, ◌+◌, ◌*◌, ◌/◌, Bool, true, false, Option, none, some, List, [], ◌∷◌, get_elem?,
  ◌>>=◌, if◌then◌else◌, ◌||◌,
}
use btcpool.Common.Int.{
  ℤ, pos, negsuc, pos_part, neg_part, sub_ℕ, ◌-ℤ◌, ltb_ℤ, leb_ℤ, eq_ℤ, add64, wrap64,
}
use btcpool.Common.Bytes.{Bytes, beq, split}
use btcpool.Common.Decimal.{parse_int}
use btcpool.Storage.Rows.{Z}

-- `Worker`; a `Miner` is one without its hashrate of the large window.
pub record Worker : Type 0 where
  pub last_beat : ℤ
  pub hr : ℤ
  pub offline : Bool
  pub started_at : ℤ
  pub total_hr : ℤ

abbrev pub new_worker : Worker
new_worker = record {
  last_beat = pos 0;
  hr = pos 0;
  offline = false;
  started_at = pos 0;
  total_hr = pos 0;
}

-- `a / b` on int64, cut towards zero.
unfoldable pub quot : ℤ → ℤ → Option ℤ
quot a (pos zero) = none
quot (pos m) (pos n) = some (pos (m / n))
quot (negsuc m) (pos n) = some (sub_ℕ 0 ((m + 1) / n))
quot (pos m) (negsuc n) = some (sub_ℕ 0 (m / (n + 1)))
quot (negsuc m) (negsuc n) = some (wrap64 (pos ((m + 1) / (n + 1))))

-- `m[k]` is read, the zero value if it is missing, and written back.
unfoldable pub update_entry {ℓ} :
    {A : Type ℓ} → Bytes → A → (A → A) → List (Bytes × A) → List (Bytes × A)
update_entry k zero_value f [] = (k, f zero_value) ∷ []
update_entry k zero_value f ((j, a) ∷ m) =
    if beq j k then (j, f a) ∷ m else (j, a) ∷ update_entry k zero_value f m

-- The times of the first and the last share.
unfoldable pub note_beat : ℤ → Worker → Worker
note_beat score w = record w {
  last_beat = if ltb_ℤ w.last_beat score then score else w.last_beat;
  started_at =
      if ltb_ℤ score w.started_at || eq_ℤ w.started_at (pos 0) then score else w.started_at;
}

-- One round of the first loop of `convertMinersStats`, on the miner.
unfoldable pub miner_share : ℤ → ℤ → Worker → Worker
miner_share share score w = note_beat score (record w { hr = add64 w.hr share })

-- One round of the loop of `convertWorkersStats`, on the worker.
unfoldable pub worker_share : ℤ → ℤ → ℤ → ℤ → Worker → Worker
worker_share now window share score w = note_beat score (record w {
  total_hr = add64 w.total_hr share;
  hr = if leb_ℤ (wrap64 (now -ℤ window)) score then add64 w.hr share else w.hr;
})

-- The share and the name of a row.
unfoldable pub share_of_row : Z → Option (ℤ × Bytes)
share_of_row v = do
  let parts = split v.member b':'
  share ← get_elem? parts 0
  id ← get_elem? parts 1
  some ((parse_int share).0, id)

-- The loop over the rows, with what a share does to the entry of its name.
unfoldable pub gather :
    (ℤ → ℤ → Worker → Worker) → List Z → List (Bytes × Worker) → Option (List (Bytes × Worker))
gather f [] m = some m
gather f (v ∷ rows) m = do
  (share, id) ← share_of_row v
  gather f rows (update_entry id new_worker (f share v.score) m)

-- `convertWorkersStats`
unfoldable pub convert_workers_stats : ℤ → ℤ → List Z → Option (List (Bytes × Worker))
convert_workers_stats now window rows = gather (worker_share now window) rows []

-- The time over which an entry's shares are spread: how long it is online, at least ten minutes, and
-- at most the window.
unfoldable pub online_for : ℤ → Worker → ℤ
online_for now w =
    let online = wrap64 (now -ℤ w.started_at) in if ltb_ℤ online (pos 600) then pos 600 else online

unfoldable pub boundary : ℤ → ℤ → ℤ
boundary online window = if leb_ℤ window online then window else online

-- `window/2`, cut towards zero.
unfoldable pub half : ℤ → ℤ
half (pos n) = pos (n / 2)
half (negsuc n) = sub_ℕ 0 ((n + 1) / 2)

unfoldable pub is_late : ℤ → ℤ → Worker → Bool
is_late now window w = ltb_ℤ w.last_beat (wrap64 (now -ℤ half window))

-- One round of the second loop of `convertMinersStats`, on the miner.
unfoldable pub settle_miner : ℤ → ℤ → Worker → Option Worker
settle_miner now window w = do
  hr ← quot w.hr (boundary (online_for now w) window)
  some (record w { hr = hr; offline = if is_late now window w then true else w.offline })

-- One round of the loop of `CollectWorkersStats`, on the worker.
unfoldable pub settle_worker : ℤ → ℤ → ℤ → Worker → Option Worker
settle_worker now small_window large_window w = do
  hr ← quot w.hr (boundary (online_for now w) small_window)
  total_hr ← quot w.total_hr (boundary (online_for now w) large_window)
  some (record w {
    hr = hr;
    total_hr = total_hr;
    offline = if is_late now small_window w then true else w.offline;
  })

-- The loop over the miners.
unfoldable pub settle_miners :
    ℤ → ℤ → List (Bytes × Worker) → ℤ → Option (ℤ × List (Bytes × Worker))
settle_miners now window [] total = some (total, [])
settle_miners now window ((id, w) ∷ m) total = do
  w' ← settle_miner now window w
  (total', m') ← settle_miners now window m (add64 total w'.hr)
  some (total', (id, w') ∷ m')

-- `convertMinersStats`
unfoldable pub convert_miners_stats : ℤ → ℤ → List Z → Option (ℤ × List (Bytes × Worker))
convert_miners_stats now window rows = do
  miners ← gather miner_share rows []
  settle_miners now window miners (pos 0)

-- The counters of `CollectWorkersStats`.
pub record WorkersStats : Type 0 where
  pub workers : List (Bytes × Worker)
  pub workers_online : ℕ
  pub workers_offline : ℕ
  pub hashrate : ℤ
  pub current_hashrate : ℤ

abbrev pub no_stats : WorkersStats
no_stats = record {
  workers = [];
  workers_online = 0;
  workers_offline = 0;
  hashrate = pos 0;
  current_hashrate = pos 0;
}

unfoldable pub count_worker : Bytes → Worker → WorkersStats → WorkersStats
count_worker id w s = record {
  workers = (id, w) ∷ s.workers;
  workers_online = if w.offline then s.workers_online else s.workers_online + 1;
  workers_offline = if w.offline then s.workers_offline + 1 else s.workers_offline;
  hashrate = add64 s.hashrate w.total_hr;
  current_hashrate = add64 s.current_hashrate w.hr;
}

-- The loop over the workers.
unfoldable pub settle_workers :
    ℤ → ℤ → ℤ → List (Bytes × Worker) → WorkersStats → Option WorkersStats
settle_workers now small_window large_window [] s = some s
settle_workers now small_window large_window ((id, w) ∷ m) s = do
  w' ← settle_worker now small_window large_window w
  settle_workers now small_window large_window m (count_worker id w' s)

-- The computation of `CollectWorkersStats`, on the rows that it reads: `now` is the time before it
-- reads them, and `later` that after.
unfoldable pub workers_stats : ℤ → ℤ → ℤ → ℤ → List Z → Option WorkersStats
workers_stats now later small_window large_window rows = do
  workers ← convert_workers_stats later small_window rows
  settle_workers now small_window large_window workers no_stats

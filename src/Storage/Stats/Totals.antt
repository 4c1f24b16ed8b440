-- ===== src/Storage/Stats/Totals.antt =====
-- The workers of a login are counted right, and their hashrates are added up.
use btcpool.Common.{
  ℕ, zero, suc, ◌≡◌, ◌≢◌, refl, ap, ◌∙◌, ◌||◌, true, false, some, List, [], ◌∷◌, if◌then◌else◌, All,
  arith, after_if,
}
use btcpool.Common.Int.{ℤ, pos, negsuc, ◌+ℤ◌, ◌<ℤ◌, add64, wrap64, wrap64-add, +ℤ_comm, IsInt64}
use btcpool.Common.Bytes.{Bytes, beq, Lacks, split-join}
use btcpool.Common.Decimal.{format_int, format_int-Lacks, parse_int-format_int}
use btcpool.Storage.Keys.{join, show, str, int64}
use btcpool.Storage.Rows.{Z}
use btcpool.Storage.Stats.{
  Worker, new_worker, quot, update_entry, note_beat, worker_share, share_of_row, gather,
  convert_workers_stats, online_for, boundary, is_late, settle_worker, WorkersStats, no_stats,
  count_worker, settle_workers, workers_stats,
}
use btcpool.Storage.Stats.Own.{own_work, gathered, settle_workers-own}
use btcpool.Storage.Stats.Names.{has_worker, sent_share, sent_none, sent_first, named_count}

quot-some : (a b : ℤ) → b ≢ pos 0 → (c : ℤ) × (quot a b ≡ some c)
unfolding quot
quot-some a (pos zero) h = absurd (h refl)
quot-some (pos m) (pos (suc n)) h = (_, refl)
quot-some (negsuc m) (pos (suc n)) h = (_, refl)
quot-some (pos m) (negsuc n) h = (_, refl)
quot-some (negsuc m) (negsuc n) h = (_, refl)

boundary-nonzero :
    (now window : ℤ) (w : Worker) → pos 0 <ℤ window → boundary (online_for now w) window ≢ pos 0
unfolding boundary online_for
boundary-nonzero now window w h e = ground arith

-- The sum of a field over the workers, with no wrap-around.
abbrev pub sum_of : (Worker → ℤ) → List (Bytes × Worker) → ℤ
sum_of f [] = pos 0
sum_of f ((id, w) ∷ m) = f w +ℤ sum_of f m

-- The workers whose last share is too old, and the others.
unfoldable pub late_workers : ℤ → ℤ → List (Bytes × Worker) → ℕ
late_workers now small_window [] = 0
late_workers now small_window ((id, w) ∷ m) =
    let rest = late_workers now small_window m in
    if is_late now small_window w then suc rest else rest

unfoldable pub timely_workers : ℤ → ℤ → List (Bytes × Worker) → ℕ
timely_workers now small_window [] = 0
timely_workers now small_window ((id, w) ∷ m) =
    let rest = timely_workers now small_window m in
    if is_late now small_window w then rest else suc rest

-- The counters fit the workers, and a worker is offline where its last share is too old.
abbrev pub IsCounted : ℤ → ℤ → WorkersStats → Type 0
IsCounted now small_window s =
    (s.workers_online ≡ timely_workers now small_window s.workers)
    × (s.workers_offline ≡ late_workers now small_window s.workers)
    × (s.hashrate ≡ wrap64 (sum_of (λ w. w.total_hr) s.workers))
    × (s.current_hashrate ≡ wrap64 (sum_of (λ w. w.hr) s.workers))
    × All (λ (_, w). w.offline ≡ is_late now small_window w) s.workers

add64-sum : (total x sum : ℤ) → total ≡ wrap64 sum → add64 total x ≡ wrap64 (x +ℤ sum)
unfolding add64
add64-sum total x sum e = rw (e) (wrap64-add sum x ∙ ap wrap64 (+ℤ_comm sum x))

count_worker-IsCounted :
    (now small_window : ℤ) (id : Bytes) (w : Worker) (s : WorkersStats)
    → w.offline ≡ is_late now small_window w
    → IsCounted now small_window s
    → IsCounted now small_window (count_worker id w s)
unfolding count_worker timely_workers late_workers
count_worker-IsCounted now small_window id w s e (n, l, t, c, a) = (
  ground arith,
  ground arith,
  add64-sum s.hashrate w.total_hr _ t,
  add64-sum s.current_hashrate w.hr _ c,
  (e, a),
)

-- A row that `writeShare` puts in a login's set: a share, a worker whose name has no colon, a time.
abbrev pub IsShareRow : Z → Type 0
IsShareRow v =
    (diff : ℤ) × (id : Bytes) × (ms : ℕ) × (v.member
      ≡ join (int64 diff ∷ str id ∷ int64 (pos ms) ∷ []))
    × IsInt64 diff
    × Lacks b':' id

share_of_row-row :
    (v : Z) → IsShareRow v → (diff : ℤ) × (id : Bytes) × (share_of_row v ≡ some (diff, id))
unfolding share_of_row join show
share_of_row-row v (diff, id, ms, e, i, h) = (
  diff,
  id,
  rw
      (
        e,
        split-join b':' (format_int diff) (id ∷ format_int (pos ms) ∷ [])
            (format_int-Lacks diff, (h, (format_int-Lacks (pos ms), tt))),
        parse_int-format_int diff i,
      )
      refl,
)

-- Nobody is offline before the workers are settled.
abbrev IsUnsettled : Bytes × Worker → Type 0
IsUnsettled (id, w) = w.offline ≡ false

update_entry-IsUnsettled :
    (k : Bytes) (f : Worker → Worker) (m : List (Bytes × Worker))
    → ((w : Worker) → w.offline ≡ false → (f w).offline ≡ false)
    → All IsUnsettled m
    → All IsUnsettled (update_entry k new_worker f m)
unfolding update_entry
update_entry-IsUnsettled k f [] keep h = (keep new_worker refl, tt)
update_entry-IsUnsettled k f ((j, a) ∷ m) keep (e, h) =
    after_if (All IsUnsettled) (beq j k) _ _ (keep a e, h)
      (e, update_entry-IsUnsettled k f m keep h)

gather-IsUnsettled :
    (f : ℤ → ℤ → Worker → Worker) (rows : List Z) (m : List (Bytes × Worker))
    → ((share score : ℤ) (w : Worker) → w.offline ≡ false → (f share score w).offline ≡ false)
    → All IsShareRow rows
    → All IsUnsettled m
    → (m' : List (Bytes × Worker)) × (gather f rows m ≡ some m')
      × All IsUnsettled m'
      × ((id : Bytes) → has_worker id m' ≡ (sent_share id rows || has_worker id m))
unfolding gather
gather-IsUnsettled f [] m keep r h = (m, refl, h, λ id. sent_none id m)
gather-IsUnsettled f (v ∷ rows) m keep (row, r) h =
    let (diff, id, e) = share_of_row-row v row in
    let (m', g, h', named) =
      gather-IsUnsettled f rows (update_entry id new_worker (f diff v.score) m) keep r
        (update_entry-IsUnsettled id (f diff v.score) m (keep diff v.score) h) in
    (m', rw (e) g, h', λ i. named i ∙ sent_first i id diff v rows m (f diff v.score) e)

settle_worker-some :
    (now small large : ℤ) (w : Worker)
    → pos 0 <ℤ small
    → pos 0 <ℤ large
    → w.offline ≡ false
    → (w' : Worker) × (settle_worker now small large w ≡ some w')
      × (w'.offline ≡ is_late now small w')
unfolding settle_worker is_late
settle_worker-some now small large w p q h =
    let (hr, e) =
      quot-some w.hr (boundary (online_for now w) small) (boundary-nonzero now small w p) in
    let (total, f) =
      quot-some w.total_hr (boundary (online_for now w) large) (boundary-nonzero now large w q) in
    (
      record w {
        hr = hr;
        total_hr = total;
        offline = if is_late now small w then true else w.offline;
      },
      rw (e, f) refl,
      ground arith,
    )

settle_workers-IsCounted :
    (now small large : ℤ) (m : List (Bytes × Worker)) (s : WorkersStats)
    → pos 0 <ℤ small
    → pos 0 <ℤ large
    → All IsUnsettled m
    → IsCounted now small s
    → (s' : WorkersStats) × (settle_workers now small large m s ≡ some s')
      × IsCounted now small s'
      × ((id : Bytes) → has_worker id s'.workers ≡ (has_worker id m || has_worker id s.workers))
unfolding settle_workers has_worker
settle_workers-IsCounted now small large [] s p q h c = (s, refl, c, λ id. refl)
settle_workers-IsCounted now small large ((id, w) ∷ m) s p q (e, h) c =
    let (w', f, late) = settle_worker-some now small large w p q e in
    let (s', g, c', named) =
      settle_workers-IsCounted now small large m (count_worker id w' s) p q h
        (count_worker-IsCounted now small id w' s late c) in
    (s', rw (f) g, c', λ i. named i ∙ named_count i id w' m s)

-- For windows that are not empty and rows that `writeShare` wrote, `CollectWorkersStats` does not
-- divide by zero. Its workers are those that the rows name, and each is what its own rows make of a
-- new worker, settled. A worker is offline where its last share is
-- older than half the small window; the counter of the workers that are offline, and that of the
-- others, are the numbers of such workers. Its hashrates are the sums of those of the workers, as
-- int64.
pub workers_stats-IsCounted :
    (now later small large : ℤ) (rows : List Z)
    → pos 0 <ℤ small
    → pos 0 <ℤ large
    → All IsShareRow rows
    → (s : WorkersStats) × (workers_stats now later small large rows ≡ some s)
      × IsCounted now small s
      × ((id : Bytes) → has_worker id s.workers ≡ sent_share id rows)
      × All
          (λ (id, w).
            settle_worker now small large (own_work (worker_share later small) id rows new_worker)
            ≡ some w)
          s.workers
unfolding has_worker workers_stats convert_workers_stats worker_share note_beat wrap64
    timely_workers late_workers
workers_stats-IsCounted now later small large rows p q r =
    let (m, e, h, named) =
      gather-IsUnsettled (worker_share later small) rows [] (λ share score w k. k) r tt in
    let (s, f, c, kept) =
      settle_workers-IsCounted now small large m no_stats p q h (refl, refl, refl, refl, tt) in
    (
      s,
      rw (e) f,
      c,
      λ id. kept id ∙ rw (named id) (ground arith),
      settle_workers-own now small large
          (λ id. own_work (worker_share later small) id rows new_worker) m no_stats s
          (gathered _ rows m e) tt f,
    )

-- ===== src/Storage/Stats/Names.antt =====
-- The names of the workers that CollectWorkersStats of storage/redis.go makes of a login's shares.
use btcpool.Common.{◌≡◌, refl, Bool, ◌||◌, false, none, some, List, [], ◌∷◌, arith}
use btcpool.Common.Int.{ℤ}
use btcpool.Common.Bytes.{Bytes, beq, eq_of_beq, beq_refl}
use btcpool.Storage.Rows.{Z}
use btcpool.Storage.Stats.{
  Worker, new_worker, update_entry, share_of_row, WorkersStats, count_worker,
}

-- Whether a worker has this name.
unfoldable pub has_worker : Bytes → List (Bytes × Worker) → Bool
has_worker id [] = false
has_worker id ((j, w) ∷ m) = beq j id || has_worker id m

-- Whether a share of this worker is among the rows.
unfoldable pub sent_share : Bytes → List Z → Bool
sent_share id [] = false
sent_share id (v ∷ rows) = elim (share_of_row v) [
  | none ↦ sent_share id rows
  | some (diff, j) ↦ beq j id || sent_share id rows
]

pub has_worker-update_entry :
    (id k : Bytes) (f : Worker → Worker) (m : List (Bytes × Worker))
    → has_worker id (update_entry k new_worker f m) ≡ (beq k id || has_worker id m)
unfolding has_worker update_entry
has_worker-update_entry id k f [] = refl
has_worker-update_entry id k f ((j, a) ∷ m) =
    ground (arith, has_worker-update_entry id k f m, eq_of_beq j k, beq_refl k)

pub sent_none :
    (id : Bytes) (m : List (Bytes × Worker))
    → has_worker id m ≡ (sent_share id [] || has_worker id m)
unfolding sent_share
sent_none id m = refl

pub sent_first :
    (i id : Bytes) (diff : ℤ) (v : Z) (rows : List Z) (m : List (Bytes × Worker))
    (f : Worker → Worker)
    → share_of_row v ≡ some (diff, id)
    → (sent_share i rows || has_worker i (update_entry id new_worker f m))
      ≡ (sent_share i (v ∷ rows) || has_worker i m)
unfolding sent_share
sent_first i id diff v rows m f e = ground (arith, has_worker-update_entry i id f m)

pub named_count :
    (i id : Bytes) (w : Worker) (m : List (Bytes × Worker)) (s : WorkersStats)
    → (has_worker i m || has_worker i (count_worker id w s).workers)
      ≡ (beq id i || has_worker i m || has_worker i s.workers)
unfolding has_worker count_worker
named_count i id w m s = ground arith

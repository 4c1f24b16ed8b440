-- ===== src/Storage/Stats/Own.antt =====
-- Every worker of CollectWorkersStats in storage/redis.go is made of its own shares.
use btcpool.Common.{
  ◌≡◌, refl, sym, ap, subst, some-subst, under_if, Option-cases, ◌∙◌, true, false, none, some, List,
  [], ◌∷◌, if◌then◌else◌, All, arith, inl, inr,
}
use btcpool.Common.Int.{ℤ}
use btcpool.Common.Bytes.{Bytes, beq, eq_of_beq, beq_refl}
use btcpool.Storage.Rows.{Z}
use btcpool.Storage.Stats.{
  Worker, new_worker, update_entry, share_of_row, gather, settle_worker, WorkersStats, count_worker,
  settle_workers,
}
use btcpool.Storage.Stats.Names.{has_worker, has_worker-update_entry}

-- A worker, raised by the rows of this name.
unfoldable pub own_work : (ℤ → ℤ → Worker → Worker) → Bytes → List Z → Worker → Worker
own_work f id [] w = w
own_work f id (v ∷ rows) w = elim (share_of_row v) [
  | none ↦ own_work f id rows w
  | some (diff, j) ↦ own_work f id rows (if beq j id then f diff v.score w else w)
]

-- The worker of a name, a new one where there is none.
worker_of : Bytes → List (Bytes × Worker) → Worker
worker_of id [] = new_worker
worker_of id ((j, w) ∷ m) = if beq j id then w else worker_of id m

worker_of-update_entry :
    (id k : Bytes) (f : Worker → Worker) (m : List (Bytes × Worker))
    → worker_of id (update_entry k new_worker f m)
      ≡ (if beq k id then f (worker_of id m) else worker_of id m)
unfolding worker_of update_entry
worker_of-update_entry id k f [] = refl
worker_of-update_entry id k f ((j, a) ∷ m) = ground (
  arith,
  worker_of-update_entry id k f m,
  eq_of_beq j k,
  eq_of_beq j id,
  eq_of_beq k id,
  beq_refl k,
)

own_first :
    (f : ℤ → ℤ → Worker → Worker) (i id : Bytes) (diff : ℤ) (v : Z) (rows : List Z)
    (m : List (Bytes × Worker))
    → share_of_row v ≡ some (diff, id)
    → own_work f i rows (worker_of i (update_entry id new_worker (f diff v.score) m))
      ≡ own_work f i (v ∷ rows) (worker_of i m)
unfolding own_work
own_first f i id diff v rows m e =
    rw (worker_of-update_entry i id (f diff v.score) m) (ground arith)

-- No name comes twice.
abbrev IsDistinct : List (Bytes × Worker) → Type 0
IsDistinct [] = Unit
IsDistinct ((id, w) ∷ m) = (has_worker id m ≡ false) × IsDistinct m

own_none :
    (f : ℤ → ℤ → Worker → Worker) (i : Bytes) (m m' : List (Bytes × Worker))
    → m ≡ m'
    → worker_of i m' ≡ own_work f i [] (worker_of i m)
unfolding own_work
own_none f i m m' e = ap (worker_of i) (sym e)

IsDistinct-update_entry :
    (k : Bytes) (f : Worker → Worker) (m : List (Bytes × Worker))
    → IsDistinct m
    → IsDistinct (update_entry k new_worker f m)
unfolding update_entry has_worker
IsDistinct-update_entry k f [] h = (refl, tt)
IsDistinct-update_entry k f ((j, a) ∷ m) (new, h) =
    under_if IsDistinct (beq j k) _ _ (λ _. (new, h))
      (λ e. (
        has_worker-update_entry j k f m ∙ ground (arith, eq_of_beq k j, beq_refl j),
        IsDistinct-update_entry k f m h,
      ))

gather-own :
    (f : ℤ → ℤ → Worker → Worker) (rows : List Z) (m m' : List (Bytes × Worker))
    → gather f rows m ≡ some m'
    → IsDistinct m
    → IsDistinct m' × ((i : Bytes) → worker_of i m' ≡ own_work f i rows (worker_of i m))
unfolding gather
gather-own f [] m m' e h =
    let same : m ≡ m' = cc in (subst IsDistinct same h, λ i. own_none f i m m' same)
gather-own f (v ∷ rows) m m' e h = elim (Option-cases (share_of_row v)) [
  | inl g ↦ absurd (ground arith)
  | inr ((diff, id), g) ↦
      let (d, own) =
        gather-own f rows (update_entry id new_worker (f diff v.score) m) m' (ground arith)
          (IsDistinct-update_entry id (f diff v.score) m h) in
      (d, λ i. own i ∙ own_first f i id diff v rows m g)
]

-- The entries of names that come once are the workers of the names.
entries :
    (F : Bytes → Worker) (m : List (Bytes × Worker))
    → IsDistinct m
    → ((id : Bytes) → has_worker id m ≡ true → worker_of id m ≡ F id)
    → All (λ (id, w). w ≡ F id) m
unfolding has_worker worker_of
entries F [] h k = tt
entries F ((j, w) ∷ m) (new, h) k = (
  ground (arith, k j, beq_refl j),
  entries F m h (λ id e. ground (arith, k id, eq_of_beq j id, new, e)),
)

-- The workers that the rows make, each of its own rows.
pub gathered :
    (f : ℤ → ℤ → Worker → Worker) (rows : List Z) (m : List (Bytes × Worker))
    → gather f rows [] ≡ some m
    → All (λ (id, w). w ≡ own_work f id rows new_worker) m
unfolding worker_of
gathered f rows m e =
    let (d, own) = gather-own f rows [] m e tt in
    entries (λ id. own_work f id rows new_worker) m d (λ id _. own id)

-- They are settled one by one.
pub settle_workers-own :
    (now small large : ℤ) (F : Bytes → Worker) (m : List (Bytes × Worker)) (s s' : WorkersStats)
    → All (λ (id, w). w ≡ F id) m
    → All (λ (id, w). settle_worker now small large (F id) ≡ some w) s.workers
    → settle_workers now small large m s ≡ some s'
    → All (λ (id, w). settle_worker now small large (F id) ≡ some w) s'.workers
unfolding settle_workers count_worker
settle_workers-own now small large F [] s s' h k e =
    some-subst (λ x. All (λ (id, w). settle_worker now small large (F id) ≡ some w) x.workers) e k
settle_workers-own now small large F ((id, w) ∷ m) s s' (g, h) k e =
    elim (Option-cases (settle_worker now small large w)) [
      | inl q ↦ absurd (ground arith)
      | inr (w', q) ↦
          settle_workers-own now small large F m (count_worker id w' s) s' h
            (ap (settle_worker now small large) (sym g) ∙ q, k) (ground arith)
    ]

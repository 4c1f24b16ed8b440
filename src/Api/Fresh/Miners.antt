-- ===== src/Api/Fresh/Miners.antt =====
-- What of api/server.go leaves the cache of the accounts as it is.
use btcpool.Common.{
  ◌≡◌, ◌∙◌, sym, Option, none, some, List, [], ◌∷◌, ◌⊎◌, inl, inr, arith, Bool-cases, Option-cases,
  if◌then◌else◌,
}
use btcpool.Common.Bytes.{Bytes, beq, eq_of_beq}
use btcpool.Common.Float.{Float64}
use btcpool.Common.Result.{Result, panic, failed, done}
use btcpool.Storage.Commands.{Redis}
use btcpool.Storage.Luck.Windows.{find_row}
use btcpool.Storage.Collect.{PoolStats, collect_stats}
use btcpool.Api.{ApiConfig, Entry, Times, Answer, ApiServer, put_account}
use btcpool.Api.Server.{store_stats, collect, stats_timer, serve}

pub find_row-put_account :
    (k login : Bytes) (e : Entry) (m : List (Bytes × Entry)) {x : Entry}
    → find_row k (put_account login e m) ≡ some x
    → ((login ≡ k) × (e ≡ x)) ⊎ (find_row k m ≡ some x)
unfolding find_row put_account
find_row-put_account k login e [] h = elim (Bool-cases (beq login k)) [
  | inl g ↦ inl (eq_of_beq login k g, ground arith)
  | inr g ↦ absurd (ground arith)
]
find_row-put_account k login e ((j, y) ∷ m) {x} h = elim (Bool-cases (beq j login)) [
  | inl g ↦
      let same = eq_of_beq j login g in
      let first : (if beq j k then some e else find_row k m) ≡ some x = rw (g) at h in
      elim (Bool-cases (beq j k)) [
        | inl q ↦ inl (sym same ∙ eq_of_beq j k q, ground arith)
        | inr q ↦ inr (ground arith)
      ]
  | inr g ↦
      let rest : (if beq j k then some y else find_row k (put_account login e m)) ≡ some x =
        rw (g) at h in
      elim (Bool-cases (beq j k)) [
        | inl q ↦ inr (ground arith)
        | inr q ↦
            let later : find_row k (put_account login e m) ≡ some x = ground arith in
            elim (find_row-put_account k login e m later) [
              | inl both ↦ inl both
              | inr old ↦ inr (ground arith)
            ]
      ]
]

module _ (f : Float64) (r : Redis) (prefix : Bytes) (c : ApiConfig) where
  open r use {Store}

  store_stats-miners :
      (pool : PoolStats) (a a' : ApiServer f.Float) (s s' : Store)
      → store_stats f r prefix c pool a s ≡ some (a', s')
      → a'.miners ≡ a.miners
  unfolding store_stats
  store_stats-miners pool a a' s s' e = ground arith

  -- What `collect` makes of the statistics of the pool.
  abbrev after_pool :
      ApiServer f.Float → Result PoolStats → Store → Option (ApiServer f.Float × Store)
  after_pool a o s = elim o [
    | panic ↦ none
    | failed ↦ some (a, s)
    | done x ↦ store_stats f r prefix c x a s
  ]

  after_pool-miners :
      (a a' : ApiServer f.Float) (s s' : Store) (o : Result PoolStats)
      → after_pool a o s ≡ some (a', s')
      → a'.miners ≡ a.miners
  after_pool-miners a a' s s' panic e = absurd cc
  after_pool-miners a a' s s' failed e = ground arith
  after_pool-miners a a' s s' (done x) e = store_stats-miners x a a' s s' e

  pub collect-miners :
      (t : Times) (a a' : ApiServer f.Float) (s s' : Store)
      → collect f r prefix c t a s ≡ some (a', s')
      → a'.miners ≡ a.miners
  unfolding collect
  collect-miners t a a' s s' e =
      let o = collect_stats r prefix t.now t.later c.hashrate_window c.blocks c.payments s in
      after_pool-miners a a' o.1 s' o.0 e

  pub stats_timer-miners :
      (t : Times) (a a' : ApiServer f.Float) (s s' : Store) (reply : Option Answer)
      → serve f r prefix c (stats_timer t) a s ≡ some ((reply, a'), s')
      → a'.miners ≡ a.miners
  unfolding serve
  stats_timer-miners t a a' s s' reply e = elim (Option-cases (collect f r prefix c t a s)) [
    | inl g ↦ ground arith
    | inr ((a1, s1), g) ↦ let kept = collect-miners t a a1 s s1 g in ground arith
  ]

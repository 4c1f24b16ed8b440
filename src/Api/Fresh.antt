-- ===== src/Api/Fresh.antt =====
-- How old the accounts are that api/server.go answers with.
pub mod Miners
use btcpool.Common.{
  ℕ, ◌≡◌, refl, ◌∙◌, sym, false, Option, none, some, List, [], ◌∷◌, ◌⊎◌, inl, inr, arith,
  Bool-cases, Option-cases, subst, some-subst, if◌then◌else◌,
}
use btcpool.Common.Int.{◌-ℤ◌, wrap64, ltb_ℤ}
use btcpool.Common.Bytes.{Bytes, beq, eq_of_beq}
use btcpool.Common.Float.{Float64}
use btcpool.Common.Result.{Result, panic, failed, done}
use btcpool.Storage.Commands.{Redis}
use btcpool.Storage.Luck.Windows.{find_row}
use btcpool.Storage.Collect.{PoolStats, collect_stats}
use btcpool.Api.{
  ApiConfig, Account, Entry, Times, Reading, found, Answer, ok, ApiServer, put_account, is_stale,
}
use btcpool.Api.Server.{
  read_account, keep_account, from_cache, account_index, store_stats, collect, purge_stale, Event,
  stats_timer, purge_timer, account, serve, start,
}
use btcpool.Api.Fresh.Miners.{find_row-put_account, collect-miners, stats_timer-miners}

module _ (f : Float64) (r : Redis) (prefix : Bytes) (c : ApiConfig) where
  open r use {Store}

  -- The requests for accounts that were served: the login, the times, and Redis as it then was.
  abbrev pub History : Type 0
  History = List (Bytes × Times × Store)

  -- There was this request.
  abbrev pub Asked : History → Bytes → Times → Store → Type 0
  Asked [] login u s = ⊥
  Asked ((j, v, s0) ∷ h) login u s = ((j ≡ login) × (v ≡ u) × (s0 ≡ s)) ⊎ Asked h login u s

  -- What the queries give for a login, at these times in this Redis.
  abbrev pub Reads : Bytes → Times → Store → Account → Type 0
  Reads login u s x = (read_account f r prefix c login u s).0 ≡ found x

  -- Every entry is what the queries give for a request for its login, at the time that it bears.
  IsFilled : History → List (Bytes × Entry) → Type 0
  IsFilled h m =
      (login : Bytes) (e : Entry)
      → find_row login m ≡ some e
      → (u : Times) × (s : Store) × Asked h login u s
        × (u.ms ≡ e.updated_at)
        × Reads login u s e.stats

  empty-IsFilled : IsFilled [] []
  unfolding IsFilled find_row
  empty-IsFilled login e h = absurd cc

  -- An account that the queries give now, or that they give for a past request for this login which is
  -- not further back than the interval.
  abbrev pub IsRecent : History → Bytes → Times → Store → Account → Type 0
  IsRecent h login t s x =
      Reads login t s x
      ⊎ ((u : Times) × (s0 : Store) × Asked h login u s0
          × Reads login u s0 x
          × (ltb_ℤ u.ms (wrap64 (t.ms -ℤ c.stats_intv)) ≡ false))

  -- What is known of the entries is known after a further request.
  asked_more :
      (q : Bytes × Times × Store) (h : History) (m : List (Bytes × Entry))
      → IsFilled h m
      → IsFilled (q ∷ h) m
  unfolding IsFilled
  asked_more q h m filled k entry g =
      let (u, s, asked, at, read) = filled k entry g in (u, s, inr asked, at, read)

  keep_account-IsFilled :
      (login : Bytes) (t : Times) (a : ApiServer f.Float) (o : Reading × Store) (s : Store)
      (h : History)
      → IsFilled h a.miners
      → (read_account f r prefix c login t s).0 ≡ o.0
      → IsFilled ((login, t, s) ∷ h) (keep_account f r prefix c login t a o).0.1.miners
  unfolding keep_account
  keep_account-IsFilled login t a (Reading.panics, s1) s h filled e = asked_more _ h a.miners filled
  keep_account-IsFilled login t a (Reading.not_found, s1) s h filled e =
      asked_more _ h a.miners filled
  keep_account-IsFilled login t a (Reading.broken, s1) s h filled e = asked_more _ h a.miners filled
  keep_account-IsFilled login t a (found x, s1) s h filled e =
      unfold IsFilled in
      (λ k entry g.
        elim (find_row-put_account k login (record { stats = x; updated_at = t.ms }) a.miners g) [
          | inl (same, new) ↦
              subst
                (λ y.
                  (u : Times) × (s0 : Store) × Asked ((login, t, s) ∷ h) k u s0
                  × (u.ms ≡ y.updated_at)
                  × Reads k u s0 y.stats)
                new (t, s, inl (same, refl, refl), refl, subst (λ y. Reads y t s x) same e)
          | inr old ↦ asked_more (login, t, s) h a.miners filled k entry old
        ])

  account_index-IsFilled :
      (login : Bytes) (t : Times) (a : ApiServer f.Float) (s : Store) (h : History)
      → IsFilled h a.miners
      → IsFilled ((login, t, s) ∷ h) (account_index f r prefix c login t a s).0.1.miners
  unfolding account_index
  account_index-IsFilled login t a s h filled =
      elim (Bool-cases (is_stale c t.ms (find_row login a.miners))) [
        | inl e ↦
            rw (e) (
              keep_account-IsFilled login t a (read_account f r prefix c login t s) s h filled refl)
        | inr e ↦ rw (e) (asked_more (login, t, s) h a.miners filled)
      ]

  -- The history after an event.
  abbrev pub noted : Event f r prefix c → Store → History → History
  noted (account login t) s h = (login, t, s) ∷ h
  noted _ s h = h

  serve-IsFilled :
      (event : Event f r prefix c) (a a' : ApiServer f.Float) (s s' : Store) (reply : Option Answer)
      (h : History)
      → IsFilled h a.miners
      → serve f r prefix c event a s ≡ some ((reply, a'), s')
      → IsFilled (noted event s h) a'.miners
  unfolding serve
  serve-IsFilled (stats_timer t) a a' s s' reply h filled e =
      let same : a'.miners ≡ a.miners = stats_timer-miners f r prefix c t a a' s s' reply e in
      rw (same) filled
  serve-IsFilled (purge_timer fuel t) a a' s s' reply h filled e =
      let same : a'.miners ≡ a.miners = elim (Option-cases (purge_stale f r prefix c fuel t s)) [
        | inl g ↦ absurd (ground arith)
        | inr (s1, g) ↦ ground arith
      ] in
      rw (same) filled
  serve-IsFilled (account login t) a a' s s' reply h filled e =
      some-subst (λ x. IsFilled ((login, t, s) ∷ h) x.0.1.miners) e
        (account_index-IsFilled login t a s h filled)

  kept-found :
      (login : Bytes) (t : Times) (a : ApiServer f.Float) (o : Reading × Store) (x : Account)
      → (keep_account f r prefix c login t a o).0.0 ≡ ok x
      → o.0 ≡ found x
  unfolding keep_account
  kept-found login t a (Reading.panics, s1) x e = absurd cc
  kept-found login t a (Reading.not_found, s1) x e = absurd cc
  kept-found login t a (Reading.broken, s1) x e = absurd cc
  kept-found login t a (found y, s1) x e = let same : y ≡ x = cc in rw (same) refl

  cached-IsRecent :
      (login : Bytes) (t : Times) (a : ApiServer f.Float) (s : Store) (o : Option Entry)
      (x : Account) (h : History)
      → IsFilled h a.miners
      → find_row login a.miners ≡ o
      → is_stale c t.ms o ≡ false
      → from_cache f r prefix c o ≡ ok x
      → IsRecent h login t s x
  unfolding is_stale from_cache IsFilled
  cached-IsRecent login t a s none x h filled g fresh e = absurd cc
  cached-IsRecent login t a s (some entry) x h filled g fresh e =
      let (u, s0, asked, at, read) = filled login entry g in
      let same : entry.stats ≡ x = cc in
      inr (u, s0, asked, subst (Reads login u s0) same read, rw (at) fresh)

  -- An account that is answered with was read just now or is in the cache.
  answered-IsRecent :
      (login : Bytes) (t : Times) (a : ApiServer f.Float) (s : Store) (x : Account) (h : History)
      → IsFilled h a.miners
      → (account_index f r prefix c login t a s).0.0 ≡ ok x
      → IsRecent h login t s x
  unfolding account_index
  answered-IsRecent login t a s x h filled e =
      elim (Bool-cases (is_stale c t.ms (find_row login a.miners))) [
        | inl g ↦ inl (kept-found login t a (read_account f r prefix c login t s) x (rw (g) at e))
        | inr g ↦
            cached-IsRecent login t a s (find_row login a.miners) x h filled refl g (rw (g) at e)
      ]

  -- What the server can come to, with the requests for accounts that it served: its own events, and
  -- whatever other parts of the pool do to Redis between them.
  pub data Reached : History → ApiServer f.Float → Store → Type 0 where
    starts :
        (fuel : ℕ) (t : Times) (a : ApiServer f.Float) (s s' : Store)
        → start f r prefix c fuel t s ≡ some (a, s')
        → Reached [] a s'
    serves :
        (event : Event f r prefix c) (a a' : ApiServer f.Float) (s s' : Store)
        (reply : Option Answer) (h : History)
        → Reached h a s
        → serve f r prefix c event a s ≡ some ((reply, a'), s')
        → Reached (noted event s h) a' s'
    others : (a : ApiServer f.Float) (s s' : Store) (h : History) → Reached h a s → Reached h a s'

  start-IsFilled :
      (fuel : ℕ) (t : Times) (a : ApiServer f.Float) (s s' : Store)
      → start f r prefix c fuel t s ≡ some (a, s')
      → IsFilled [] a.miners
  unfolding start
  start-IsFilled fuel t a s s' e =
      let none_yet : a.miners ≡ [] = elim (Option-cases (purge_stale f r prefix c fuel t s)) [
        | inl g ↦ absurd (ground arith)
        | inr (s1, g) ↦
            elim (Option-cases (collect f r prefix c t (record { stats = none; miners = [] }) s1)) [
              | inl k ↦ ground arith
              | inr ((a1, s2), k) ↦
                  let kept = collect-miners f r prefix c t _ a1 s1 s2 k in ground arith
            ]
      ] in
      rw (none_yet) empty-IsFilled

  Reached-IsFilled :
      {h : History} {a : ApiServer f.Float} {s : Store} → Reached h a s → IsFilled h a.miners
  Reached-IsFilled (starts fuel t a s s' e) = start-IsFilled fuel t a s s' e
  Reached-IsFilled (serves event a a' s s' reply h reached e) =
      serve-IsFilled event a a' s s' reply h (Reached-IsFilled reached) e
  Reached-IsFilled (others a s s' h reached) = Reached-IsFilled reached

  -- However a server that was started has run, the account that AccountIndex answers with is either
  -- what its queries give now for this login, or what they give at the times, and in Redis as it then
  -- was, of a request for this login that it served before; and the time of that request is not before
  -- the present less the interval of the statistics (as int64).
  pub account_index-IsRecent :
      {h : History} {a : ApiServer f.Float} {s : Store} (login : Bytes) (t : Times) (x : Account)
      → Reached h a s
      → (account_index f r prefix c login t a s).0.0 ≡ ok x
      → IsRecent h login t s x
  account_index-IsRecent {h} {a} {s} login t x reached e =
      answered-IsRecent login t a s x h (Reached-IsFilled reached) e

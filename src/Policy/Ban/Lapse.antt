-- ===== src/Policy/Ban/Lapse.antt =====
-- How long a ban lasts, of an address that is silent.
use btcpool.Common.{
  ◌≡◌, refl, ◌∙◌, Option-cases, true, false, not, ◌||◌, ◌&&◌, Option, none, some, List, [], ◌∷◌,
  arith, inl, inr, Bool-cases, if◌then◌else◌, ltb, length,
}
use btcpool.Common.Int.{ℤ, pos, ◌-ℤ◌, ◌*ℤ◌, ltb_ℤ, leb_ℤ, wrap64}
use btcpool.Common.Bytes.{Bytes, beq, beq_refl, string_in_slice}
use btcpool.Policy.{
  Config, Stats, Server, find, put, get, save, new_stats, force_ban, ban_client, is_banned,
  reset_entry, reset_loop, reset_stats,
}
use btcpool.Policy.Ban.{IsFree, get-banned}

Absent : Bytes → List (Bytes × Stats) → Type 0
Absent ip [] = Unit
Absent ip ((j, x) ∷ m) = (beq j ip ≡ false) × Absent ip m

-- The map has one entry of the address at most.
unfoldable pub AtMostOnce : Bytes → List (Bytes × Stats) → Type 0
unfolding Absent
AtMostOnce ip [] = Unit
AtMostOnce ip ((j, x) ∷ m) = (beq j ip ≡ true → Absent ip m) × AtMostOnce ip m

find-put : (ip : Bytes) (x : Stats) (m : List (Bytes × Stats)) → find ip (put ip x m) ≡ some x
unfolding find put
find-put ip x [] = rw (beq_refl ip) refl
find-put ip x ((j, y) ∷ m) = elim (Bool-cases (beq j ip)) [
  | inl e ↦ rw (e, put) (rw (e, find) refl)
  | inr e ↦ rw (e, put) (rw (e, find) (find-put ip x m))
]

put-AtMostOnce :
    (ip : Bytes) (x : Stats) (m : List (Bytes × Stats))
    → AtMostOnce ip m
    → AtMostOnce ip (put ip x m)
unfolding AtMostOnce Absent put
put-AtMostOnce ip x [] h = (λ e. tt, tt)
put-AtMostOnce ip x ((j, y) ∷ m) (a, h) = elim (Bool-cases (beq j ip)) [
  | inl e ↦ rw (e, put) (a, h)
  | inr e ↦ rw (e, put) (λ f. absurd cc, put-AtMostOnce ip x m h)
]

module _ (c : Config) (now timeout : ℤ) where
  -- What a reset leaves of an entry that may be there.
  abbrev kept : Option Stats → Option Stats
  kept none = none
  kept (some x) = (reset_entry c now timeout x).0

  keep-find :
      (ip j : Bytes) (o : Option Stats) (rest : List (Bytes × Stats))
      → find ip (elim o [ none ↦ rest | some y ↦ (j, y) ∷ rest ])
        ≡ (if beq j ip then elim o [ none ↦ find ip rest | some y ↦ some y ] else find ip rest)
  unfolding find
  keep-find ip j none rest = ground arith
  keep-find ip j (some y) rest = refl

  find-Absent :
      (ip : Bytes) (m : List (Bytes × Stats))
      → Absent ip m
      → find ip (reset_loop c now timeout m).0 ≡ none
  unfolding Absent reset_loop find
  find-Absent ip [] h = refl
  find-Absent ip ((j, x) ∷ m) (a, h) =
      keep-find ip j (kept (some x)) (reset_loop c now timeout m).0 ∙ rw (a) (find-Absent ip m h)

  find-reset_loop :
      (ip : Bytes) (m : List (Bytes × Stats))
      → AtMostOnce ip m
      → find ip (reset_loop c now timeout m).0 ≡ kept (find ip m)
  unfolding AtMostOnce reset_loop find
  find-reset_loop ip [] h = refl
  find-reset_loop ip ((j, x) ∷ m) (a, h) =
      keep-find ip j (kept (some x)) (reset_loop c now timeout m).0 ∙ elim (Bool-cases (beq j ip)) [
        | inl e ↦ rw (e) (gone (kept (some x)) (find-Absent ip m (a e)))
        | inr e ↦ rw (e) (find-reset_loop ip m h)
      ]
    where
      gone :
          (o : Option Stats)
          → find ip (reset_loop c now timeout m).0 ≡ none
          → elim o [ none ↦ find ip (reset_loop c now timeout m).0 | some y ↦ some y ] ≡ o
      gone none n = n
      gone (some y) n = refl

get-beat : (c : Config) (now : ℤ) (ip : Bytes) (s : Server) → (get c now ip s).0.last_beat ≡ now
unfolding get new_stats
get-beat c now ip s = elim (Option-cases (find ip s.stats)) [
  | inl e ↦ rw (e, get) refl
  | inr (x, e) ↦ rw (e, get) refl
]

is_banned-find :
    (c : Config) (now : ℤ) (ip : Bytes) (s : Server)
    → (is_banned c now ip s).0
      ≡ elim (find ip s.stats) [ none ↦ false | some y ↦ ltb_ℤ (pos 0) y.banned ]
unfolding is_banned get new_stats
is_banned-find c now ip s = elim (Option-cases (find ip s.stats)) [
  | inl e ↦ rw (e, get) refl
  | inr (x, e) ↦ rw (e, get) refl
]

-- The map that a ban leaves.
abbrev banned_entry : ℤ → Stats → Stats
banned_entry now x = record x { banned_at = now; banned = pos 1 }

force_ban-stats :
    (c : Config) (now : ℤ) (x : Stats) (ip : Bytes) (s : Server)
    → x.banned ≡ pos 0
    → (not c.banning_enabled || string_in_slice ip s.whitelist) ≡ false
    → ((force_ban c now x ip s).stats ≡ put ip (banned_entry now x) s.stats)
      × ((force_ban c now x ip s).timeout ≡ s.timeout)
unfolding force_ban save
force_ban-stats c now x ip s free on = elim (Bool-cases (ltb 0 (length c.ip_set))) [
  | inl e ↦ rw (force_ban, on, free, e) (refl, refl)
  | inr e ↦ rw (force_ban, on, free, e) (refl, refl)
]

ban_client-stats :
    (c : Config) (now : ℤ) (ip : Bytes) (s : Server)
    → IsFree ip s.stats
    → (not c.banning_enabled || string_in_slice ip s.whitelist) ≡ false
    → ((ban_client c now ip s).stats
        ≡ put ip (banned_entry now (get c now ip s).0) (put ip (get c now ip s).0 s.stats))
      × ((ban_client c now ip s).timeout ≡ s.timeout)
unfolding ban_client get
ban_client-stats c now ip s h on =
    force_ban-stats c now (get c now ip s).0 ip (get c now ip s).1 (get-banned c now ip s h) on

-- What a reset leaves of an entry that was banned at its last beat.
reset_banned :
    (c : Config) (now later timeout : ℤ) (x : Stats)
    → x.last_beat ≡ now
    → elim (reset_entry c later timeout (banned_entry now x)).0 [
      | none ↦ false
      | some y ↦ ltb_ℤ (pos 0) y.banned
    ]
      ≡ (not (leb_ℤ (wrap64 (c.banning_timeout *ℤ pos 1000)) (wrap64 (later -ℤ now)))
          && not (leb_ℤ timeout (wrap64 (later -ℤ now))))
unfolding reset_entry
reset_banned c now later timeout x h = rw (h) (ground arith)

-- After BanClient on an address that is not banned and has one entry at most, where banning is on and
-- the address is not on the white list, IsBanned is true; after a resetStats that follows at once, it
-- is true exactly where less than the timeout of bans and less than the interval of the reset has
-- passed since the ban, as int64: the milliseconds of the timeout and the time since wrap around.
pub reset_stats-ban_client :
    (c : Config) (now later asked : ℤ) (ip : Bytes) (s : Server)
    → IsFree ip s.stats
    → AtMostOnce ip s.stats
    → (not c.banning_enabled || string_in_slice ip s.whitelist) ≡ false
    → ((is_banned c asked ip (ban_client c now ip s)).0 ≡ true)
      × ((is_banned c asked ip (reset_stats c later (ban_client c now ip s)).0).0 ≡ (
          not (leb_ℤ (wrap64 (c.banning_timeout *ℤ pos 1000)) (wrap64 (later -ℤ now)))
          && not (leb_ℤ s.timeout (wrap64 (later -ℤ now)))))
unfolding reset_stats
reset_stats-ban_client c now later asked ip s h k on =
    let (stats, timeout) = ban_client-stats c now ip s h on in
    let x = (get c now ip s).0 in
    let found = find-put ip (banned_entry now x) (put ip x s.stats) in
    let once =
      put-AtMostOnce ip (banned_entry now x) (put ip x s.stats) (put-AtMostOnce ip x s.stats k) in
    (
      is_banned-find c asked ip (ban_client c now ip s) ∙ rw (stats, found) refl,
      is_banned-find c asked ip (reset_stats c later (ban_client c now ip s)).0
          ∙ rw (stats, timeout, find-reset_loop c later s.timeout ip _ once, found)
              (reset_banned c now later s.timeout x (get-beat c now ip s)),
    )

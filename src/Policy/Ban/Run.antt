-- ===== src/Policy/Ban/Run.antt =====
-- No call and no timer event bans an address that is spared.
use btcpool.Common.{
  All, after_if, ◌≡◌, refl, ◌∙◌, Bool, true, false, not, Option, none, some, List, [], ◌∷◌, arith,
}
use btcpool.Common.Int.{ℤ, pos, wrap32, wrap64, ◌+ℤ◌, ◌-ℤ◌, ltb_ℤ, leb_ℤ}
use btcpool.Common.Bytes.{Bytes, beq, string_in_slice}
use btcpool.Policy.{
  Config, Stats, Server, get, save, force_ban, ban_client, is_banned, apply_limit_policy,
  apply_login_policy, apply_malformed_policy, count_share, apply_share_policy, reset_entry,
  reset_loop, reset_stats, Event, ban, ask, connect, login, malformed_request, share, reset,
  refresh, refresh_state, step, run,
}
use btcpool.Policy.Ban.{
  KeepsSparing, IsFree, NotBanned, IsSpared, IsSafe, get-banned, force_ban-IsSafe, save-IsSafe,
  get-IsSafe, get-free,
}

count_share-banned :
    (c : Config) (valid : Bool) (x : Stats) → (count_share c valid x).banned ≡ x.banned
unfolding count_share
count_share-banned c true x = refl
count_share-banned c false x = refl

reset_entry-banned :
    (c : Config) (now timeout : ℤ) (x y : Stats)
    → (reset_entry c now timeout x).0 ≡ some y
    → y.banned ≡ x.banned
unfolding reset_entry
reset_entry-banned c now timeout x y e = ground arith

keep-IsFree :
    (ip j : Bytes) (kept : Option Stats) (rest : List (Bytes × Stats))
    → ((y : Stats) → kept ≡ some y → beq j ip ≡ true → y.banned ≡ pos 0)
    → IsFree ip rest
    → IsFree ip (elim kept [ none ↦ rest | some y ↦ (j, y) ∷ rest ])
unfolding IsFree
keep-IsFree ip j none rest h k = k
keep-IsFree ip j (some y) rest h k = (h y refl, k)

reset_loop-IsFree :
    (c : Config) (now timeout : ℤ) (ip : Bytes) (m : List (Bytes × Stats))
    → IsFree ip m
    → IsFree ip (reset_loop c now timeout m).0
unfolding reset_loop IsFree
reset_loop-IsFree c now timeout ip [] h = tt
reset_loop-IsFree c now timeout ip ((j, x) ∷ m) (a, h) =
    keep-IsFree ip j (reset_entry c now timeout x).0 _
      (λ y e f. reset_entry-banned c now timeout x y e ∙ a f)
      (reset_loop-IsFree c now timeout ip m h)

ban_client-IsSafe :
    (c : Config) (now : ℤ) (ip j : Bytes) (s : Server)
    → IsSafe c j s
    → IsSafe c j (ban_client c now ip s)
unfolding ban_client
ban_client-IsSafe c now ip j s h =
    force_ban-IsSafe c now _ ip j _ (get-free c now ip j s h) (get-IsSafe c now ip j s h)

reset_stats-IsSafe :
    (c : Config) (now : ℤ) (j : Bytes) (s : Server)
    → IsSafe c j s
    → IsSafe c j (reset_stats c now s).0
unfolding reset_stats IsSafe
reset_stats-IsSafe c now j s (a, k) = (a, reset_loop-IsFree c now s.timeout j s.stats k)

refreshed :
    (c : Config) (j : Bytes) (s : Server) (black white : Option (List Bytes))
    → IsSpared c j (refresh_state black white s)
    → IsSafe c j s
    → IsSafe c j (refresh_state black white s)
unfolding refresh_state IsSafe
refreshed c j s black white k (a, h) = (k, h)

step-IsSafe :
    (c : Config) (too_many : ℤ → ℤ → Bool) (j : Bytes) (e : Event) (s : Server)
    → KeepsSparing c j e
    → IsSafe c j s
    → IsSafe c j (step c too_many e s)
unfolding step is_banned apply_limit_policy apply_login_policy apply_malformed_policy refresh_state
    apply_share_policy
step-IsSafe c too_many j (ban now ip) s k h = ban_client-IsSafe c now ip j s h
step-IsSafe c too_many j (ask now ip) s k h = get-IsSafe c now ip j s h
step-IsSafe c too_many j (connect now ip) s k h =
    let x = (get c now ip s).0 in
    let n = wrap32 (x.conn_limit -ℤ pos 1) in
    let y = record x { conn_limit = n } in
    let s' = (get c now ip s).1 in
    after_if (λ (x : Bool × Server). IsSafe c j x.1) (not c.limits_enabled) (true, s) _ h
      (after_if (λ (x : Bool × Server). IsSafe c j x.1)
        (ltb_ℤ s.grace (wrap64 (now -ℤ s.started_at))) (ltb_ℤ (pos 0) n, save c ip y s') (true, s)
        (save-IsSafe c ip j y s' (get-free c now ip j s h) (get-IsSafe c now ip j s h)) h)
step-IsSafe c too_many j (login now addy ip) s k h =
    after_if (λ (x : Bool × Server). IsSafe c j x.1) (string_in_slice addy s.blacklist)
      (false, ban_client c now ip s) (true, s) (ban_client-IsSafe c now ip j s h) h
step-IsSafe c too_many j (malformed_request now ip) s k h =
    let x = (get c now ip s).0 in
    let s' = (get c now ip s).1 in
    let y = record x { malformed = wrap32 (x.malformed +ℤ pos 1) } in
    let kept = get-IsSafe c now ip j s h in
    let free = get-free c now ip j s h in
    after_if (λ (x : Bool × Server). IsSafe c j x.1) (leb_ℤ c.malformed_limit y.malformed)
      (false, force_ban c now y ip s') (true, save c ip y s')
      (force_ban-IsSafe c now y ip j s' free kept) (save-IsSafe c ip j y s' free kept)
step-IsSafe c too_many j (share now ip valid) s k h =
    let y = count_share c valid (get c now ip s).0 in
    let s' = (get c now ip s).1 in
    let z = record y { valid_shares = pos 0; invalid_shares = pos 0 } in
    let kept = get-IsSafe c now ip j s h in
    let free : (beq ip j ≡ true → y.banned ≡ pos 0) =
      λ e. count_share-banned c valid _ ∙ get-free c now ip j s h e in
    after_if (λ (x : Bool × Server). IsSafe c j x.1)
      (ltb_ℤ (wrap32 (y.valid_shares +ℤ y.invalid_shares)) c.check_threshold) (true, save c ip y s')
      _ (save-IsSafe c ip j y s' free kept)
      (after_if (λ (x : Bool × Server). IsSafe c j x.1) (too_many y.invalid_shares y.valid_shares)
        (false, force_ban c now z ip s') (true, save c ip z s')
        (force_ban-IsSafe c now z ip j s' free kept) (save-IsSafe c ip j z s' free kept))
step-IsSafe c too_many j (reset now) s k h = reset_stats-IsSafe c now j s h
step-IsSafe c too_many j (refresh black none) s k h = refreshed c j s black none k h
step-IsSafe c too_many j (refresh black (some whitelist)) s k h =
    refreshed c j s black (some whitelist) k h

run-IsSafe :
    (c : Config) (too_many : ℤ → ℤ → Bool) (j : Bytes) (es : List Event) (s : Server)
    → All (KeepsSparing c j) es
    → IsSafe c j s
    → IsSafe c j (run c too_many es s)
unfolding run
run-IsSafe c too_many j [] s k h = h
run-IsSafe c too_many j (e ∷ es) s (k, ks) h =
    run-IsSafe c too_many j es (step c too_many e s) ks (step-IsSafe c too_many j e s k h)

-- Where banning is off or the address is on the white list, also on each one that a refresh brings,
-- and the address is not banned, it is not banned after any sequence of such calls and timer events,
-- and IsBanned then answers false. A refresh that fails to read the white list brings an empty one.
pub run-NotBanned :
    (c : Config) (too_many : ℤ → ℤ → Bool) (j : Bytes) (es : List Event) (s : Server) (now : ℤ)
    → IsSpared c j s
    → All (KeepsSparing c j) es
    → NotBanned j s
    → NotBanned j (run c too_many es s) × ((is_banned c now j (run c too_many es s)).0 ≡ false)
unfolding is_banned IsSafe
run-NotBanned c too_many j es s now spared keeps free =
    let h = run-IsSafe c too_many j es s keeps (spared, free) in
    (h.1, rw (get-banned c now j (run c too_many es s) h.1) refl)

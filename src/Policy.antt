-- ===== src/Policy.antt =====
-- policy/policy.go: what the pool remembers of each address, and when it bans one. The state is the
-- map `stats` and the two lists; the time in milliseconds is an argument. The division of float32
-- values, by which the share policy decides, is a parameter.
pub mod Ban
pub mod Workers
use btcpool.Common.{
  ℕ, ◌+◌, ◌-◌, ◌*◌, ◌%◌, ◌^◌, Bool, true, false, not, ◌&&◌, ◌||◌, Option, none, some, List, [], ◌∷◌,
  ltb, length, if◌then◌else◌,
}
use btcpool.Common.Int.{
  ℤ, pos, negsuc, pos_part, ◌+ℤ◌, ◌-ℤ◌, ltb_ℤ, leb_ℤ, eq_ℤ, ◌*ℤ◌, wrap32, wrap64, add64,
}
use btcpool.Common.Bytes.{Bytes, beq, string_in_slice}

-- The settings that the methods read; `invalid_percent` stands with the float32 parameter.
pub record Config : Type 0 where
  pub limits_enabled : Bool
  pub limit : ℤ
  pub limit_jump : ℤ
  pub banning_enabled : Bool
  pub ip_set : Bytes
  -- in seconds
  pub banning_timeout : ℤ
  pub check_threshold : ℤ
  pub malformed_limit : ℤ

-- `Stats`; the counters are int32.
pub record Stats : Type 0 where
  pub last_beat : ℤ
  pub banned_at : ℤ
  pub valid_shares : ℤ
  pub invalid_shares : ℤ
  pub malformed : ℤ
  pub conn_limit : ℤ
  pub banned : ℤ

-- `PolicyServer`, with what was sent to `banChannel`.
pub record Server : Type 0 where
  pub stats : List (Bytes × Stats)
  pub ban_channel : List Bytes
  pub started_at : ℤ
  -- milliseconds
  pub grace : ℤ
  pub timeout : ℤ
  pub blacklist : List Bytes
  pub whitelist : List Bytes

unfoldable pub find : Bytes → List (Bytes × Stats) → Option Stats
find ip [] = none
find ip ((j, x) ∷ m) = if beq j ip then some x else find ip m

-- `stats[ip] = x`, and also what a write through the pointer `stats[ip]` does.
unfoldable pub put : Bytes → Stats → List (Bytes × Stats) → List (Bytes × Stats)
put ip x [] = (ip, x) ∷ []
put ip x ((j, y) ∷ m) = if beq j ip then (j, x) ∷ m else (j, y) ∷ put ip x m

module _ (c : Config) where
  -- `NewStats`
  unfoldable pub new_stats : ℤ → Stats
  new_stats now = record {
    last_beat = now;
    banned_at = pos 0;
    valid_shares = pos 0;
    invalid_shares = pos 0;
    malformed = pos 0;
    conn_limit = c.limit;
    banned = pos 0;
  }

  -- `Get`: the entry, with its beat, and the map that holds it.
  unfoldable pub get : ℤ → Bytes → Server → Stats × Server
  unfolding new_stats
  get now ip s =
      let x : Stats = elim (find ip s.stats) [
        | none ↦ new_stats now
        | some y ↦ record y { last_beat = now }
      ] in
      (x, record s { stats = put ip x s.stats })

  unfoldable pub save : Bytes → Stats → Server → Server
  save ip x s = record s { stats = put ip x s.stats }

  -- `forceBan` on the entry `x` of `ip`.
  pub force_ban : ℤ → Stats → Bytes → Server → Server
  unfolding save
  force_ban now x ip s =
      if not c.banning_enabled || string_in_slice ip s.whitelist
      then save ip x s
      else if eq_ℤ x.banned (pos 0)
      then (let s' = save ip (record x { banned_at = now; banned = pos 1 }) s in
          if ltb 0 (length c.ip_set) then record s' { ban_channel = ip ∷ s.ban_channel } else s')
      else save ip (record x { banned_at = now }) s

  -- `BanClient`
  pub ban_client : ℤ → Bytes → Server → Server
  unfolding get force_ban
  ban_client now ip s = let (x, s') = get now ip s in force_ban now x ip s'

  -- `IsBanned`, which makes an entry too.
  unfoldable pub is_banned : ℤ → Bytes → Server → Bool × Server
  unfolding get
  is_banned now ip s = let (x, s') = get now ip s in (ltb_ℤ (pos 0) x.banned, s')

  unfoldable pub apply_limit_policy : ℤ → Bytes → Server → Bool × Server
  unfolding get save
  apply_limit_policy now ip s =
      if not c.limits_enabled
      then (true, s)
      else if ltb_ℤ s.grace (wrap64 (now -ℤ s.started_at))
      then (let (x, s') = get now ip s in
          let n = wrap32 (x.conn_limit -ℤ pos 1) in
          (ltb_ℤ (pos 0) n, save ip (record x { conn_limit = n }) s'))
      else (true, s)

  unfoldable pub apply_login_policy : ℤ → Bytes → Bytes → Server → Bool × Server
  unfolding ban_client
  apply_login_policy now addy ip s =
      if string_in_slice addy s.blacklist then (false, ban_client now ip s) else (true, s)

  pub apply_malformed_policy : ℤ → Bytes → Server → Bool × Server
  unfolding get force_ban save
  apply_malformed_policy now ip s =
      let (x, s') = get now ip s in
      let n = wrap32 (x.malformed +ℤ pos 1) in
      let y = record x { malformed = n } in
      if leb_ℤ c.malformed_limit n then (false, force_ban now y ip s') else (true, save ip y s')

  -- The counters after a share.
  pub count_share : Bool → Stats → Stats
  count_share true x = record x {
    valid_shares = wrap32 (x.valid_shares +ℤ pos 1);
    conn_limit = if c.limits_enabled then wrap32 (x.conn_limit +ℤ c.limit_jump) else x.conn_limit;
  }
  count_share false x = record x { invalid_shares = wrap32 (x.invalid_shares +ℤ pos 1) }

  -- `ApplySharePolicy`. `too_many invalid valid` is the test of the float32 values,
  -- `invalid / valid >= InvalidPercent / 100.0`.
  pub apply_share_policy : (ℤ → ℤ → Bool) → ℤ → Bytes → Bool → Server → Bool × Server
  unfolding get force_ban save count_share
  apply_share_policy too_many now ip valid_share s =
      let (x, s') = get now ip s in
      let y = count_share valid_share x in
      if ltb_ℤ (wrap32 (y.valid_shares +ℤ y.invalid_shares)) c.check_threshold
      then (true, save ip y s')
      else (let z = record y { valid_shares = pos 0; invalid_shares = pos 0 } in
          if too_many y.invalid_shares y.valid_shares
          then (false, force_ban now z ip s')
          else (true, save ip z s'))

  -- One round of the loop of `resetStats`: the entry, if it stays, and how often `total` is raised.
  pub reset_entry : ℤ → ℤ → Stats → Option Stats × ℕ
  reset_entry now timeout x =
      let stale = leb_ℤ timeout (wrap64 (now -ℤ x.last_beat)) in
      if leb_ℤ (wrap64 (c.banning_timeout *ℤ pos 1000)) (wrap64 (now -ℤ x.banned_at))
      then (if eq_ℤ x.banned (pos 1)
          then (none, if stale then 2 else 1)
          else if stale
          then (none, 1)
          else (some (record x { banned_at = pos 0 }), 0))
      else if stale
      then (none, 1)
      else (some x, 0)

  pub reset_loop : ℤ → ℤ → List (Bytes × Stats) → List (Bytes × Stats) × ℕ
  unfolding reset_entry
  reset_loop now timeout [] = ([], 0)
  reset_loop now timeout ((ip, x) ∷ m) =
      let (kept, n) = reset_entry now timeout x in
      let (rest, total) = reset_loop now timeout m in
      (elim kept [ none ↦ rest | some y ↦ (ip, y) ∷ rest ], n + total)

  -- `resetStats`: the flushed map, and the total that is logged.
  pub reset_stats : ℤ → Server → Server × ℕ
  unfolding reset_loop
  reset_stats now s =
      let (kept, total) = reset_loop now s.timeout s.stats in (record s { stats = kept }, total)

-- `refreshState`: each list is what the backend gives, empty where it fails.
pub refresh_state : Option (List Bytes) → Option (List Bytes) → Server → Server
refresh_state black white s = record s {
  blacklist = elim black [ none ↦ [] | some l ↦ l ];
  whitelist = elim white [ none ↦ [] | some l ↦ l ];
}

-- The calls of the other components and of the timers, each at a time in milliseconds; a refresh
-- with what the backend gives for the black list and the white list.
pub data Event : Type 0 where
  ban : ℤ → Bytes → Event
  ask : ℤ → Bytes → Event
  connect : ℤ → Bytes → Event
  login : ℤ → Bytes → Bytes → Event
  malformed_request : ℤ → Bytes → Event
  share : ℤ → Bytes → Bool → Event
  reset : ℤ → Event
  refresh : Option (List Bytes) → Option (List Bytes) → Event

module _ (c : Config) (too_many : ℤ → ℤ → Bool) where
  pub step : Event → Server → Server
  step (ban now ip) s = ban_client c now ip s
  step (ask now ip) s = (is_banned c now ip s).1
  step (connect now ip) s = (apply_limit_policy c now ip s).1
  step (login now addy ip) s = (apply_login_policy c now addy ip s).1
  step (malformed_request now ip) s = (apply_malformed_policy c now ip s).1
  step (share now ip valid) s = (apply_share_policy c too_many now ip valid s).1
  step (reset now) s = (reset_stats c now s).0
  step (refresh black white) s = refresh_state black white s

  pub run : List Event → Server → Server
  run [] s = s
  run (e ∷ es) s = run es (step e s)

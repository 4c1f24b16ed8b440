-- ===== src/Policy/Ban.antt =====
-- Who is banned, and who is not: what one write does.
pub mod Run
pub mod Lapse
use btcpool.Common.{
  ◌≡◌, refl, ◌∙◌, Option-cases, Bool, true, false, not, ◌||◌, Option, none, some, List, [], ◌∷◌,
  arith, inl, inr, Bool-cases, if◌then◌else◌,
}
use btcpool.Common.Int.{ℤ, pos, wrap32, ◌+ℤ◌, ◌-ℤ◌, ltb_ℤ, leb_ℤ}
use btcpool.Common.Bytes.{Bytes, beq, eq_of_beq, string_in_slice}
use btcpool.Policy.{
  Config, Stats, Server, find, put, get, save, force_ban, ban_client, is_banned, apply_limit_policy,
  apply_login_policy, apply_malformed_policy, count_share, apply_share_policy, reset_entry,
  reset_loop, reset_stats, Event, ban, ask, connect, login, malformed_request, share, reset,
  refresh, step, run,
}

-- No entry of the address is banned.
unfoldable pub IsFree : Bytes → List (Bytes × Stats) → Type 0
IsFree ip [] = Unit
IsFree ip ((j, x) ∷ m) = (beq j ip ≡ true → x.banned ≡ pos 0) × IsFree ip m

abbrev pub NotBanned : Bytes → Server → Type 0
NotBanned ip s = IsFree ip s.stats

-- Banning is off, or the address is on the list.
abbrev pub SparesIt : Config → Bytes → List Bytes → Type 0
SparesIt c ip whitelist = (not c.banning_enabled || string_in_slice ip whitelist) ≡ true

abbrev pub IsSpared : Config → Bytes → Server → Type 0
IsSpared c ip s = SparesIt c ip s.whitelist

-- A refresh brings a white list, and the address is on it, or banning is off.
abbrev pub KeepsSparing : Config → Bytes → Event → Type 0
KeepsSparing c ip (refresh black none) = SparesIt c ip []
KeepsSparing c ip (refresh black (some whitelist)) = SparesIt c ip whitelist
KeepsSparing c ip _ = Unit

put-IsFree :
    (ip j : Bytes) (x : Stats) (m : List (Bytes × Stats))
    → (beq ip j ≡ true → x.banned ≡ pos 0)
    → IsFree j m
    → IsFree j (put ip x m)
unfolding IsFree put
put-IsFree ip j x [] h k = (h, tt)
put-IsFree ip j x ((i, y) ∷ m) h (a, k) = elim (Bool-cases (beq i ip)) [
  | inl e ↦ rw e ((λ f. h (rw (← eq_of_beq i ip e) f)), k)
  | inr e ↦ rw e (a, put-IsFree ip j x m h k)
]

find-IsFree :
    (ip : Bytes) (m : List (Bytes × Stats)) (x : Stats)
    → IsFree ip m
    → find ip m ≡ some x
    → x.banned ≡ pos 0
unfolding IsFree find
find-IsFree ip [] x h e = ground arith
find-IsFree ip ((j, y) ∷ m) x (a, h) e = ground (arith, find-IsFree ip m x)

pub get-banned :
    (c : Config) (now : ℤ) (ip : Bytes) (s : Server)
    → NotBanned ip s
    → (get c now ip s).0.banned ≡ pos 0
unfolding get IsFree
get-banned c now ip s h = elim (Option-cases (find ip s.stats)) [
  | inl e ↦ rw (e, get) refl
  | inr (x, e) ↦ rw (e, get) (find-IsFree ip s.stats x h e)
]

-- A write of an entry that is not banned, or of another address.
save-NotBanned :
    (c : Config) (ip j : Bytes) (x : Stats) (s : Server)
    → (beq ip j ≡ true → x.banned ≡ pos 0)
    → NotBanned j s
    → NotBanned j (save c ip x s)
unfolding save
save-NotBanned c ip j x s h k = put-IsFree ip j x s.stats h k

get-NotBanned :
    (c : Config) (now : ℤ) (ip j : Bytes) (s : Server)
    → NotBanned j s
    → NotBanned j (get c now ip s).1
unfolding get
get-NotBanned c now ip j s h =
    put-IsFree ip j _ s.stats (λ e. get-banned c now ip s (rw (eq_of_beq ip j e) h)) h

force_ban-other :
    (c : Config) (now : ℤ) (x : Stats) (ip j : Bytes) (s : Server)
    → beq ip j ≡ false
    → NotBanned j s
    → NotBanned j (force_ban c now x ip s)
unfolding force_ban save
force_ban-other c now x ip j s e h =
    let other : (y : Stats) → IsFree j (put ip y s.stats) =
      λ y. put-IsFree ip j y s.stats (λ f. ground arith) h in
    ground (
      arith,
      other x,
      other (record x { banned_at = now }),
      other (record x { banned_at = now; banned = pos 1 }),
    )

force_ban-spared :
    (c : Config) (now : ℤ) (x : Stats) (ip : Bytes) (s : Server)
    → IsSpared c ip s
    → force_ban c now x ip s ≡ save c ip x s
unfolding force_ban
force_ban-spared c now x ip s e = rw e refl

force_ban-NotBanned :
    (c : Config) (now : ℤ) (x : Stats) (ip j : Bytes) (s : Server)
    → IsSpared c j s
    → (beq ip j ≡ true → x.banned ≡ pos 0)
    → NotBanned j s
    → NotBanned j (force_ban c now x ip s)
force_ban-NotBanned c now x ip j s spared h k = elim (Bool-cases (beq ip j)) [
  | inl e ↦
      rw (force_ban-spared c now x ip s (rw (eq_of_beq ip j e) spared))
        (save-NotBanned c ip j x s h k)
  | inr e ↦ force_ban-other c now x ip j s e k
]

force_ban-whitelist :
    (c : Config) (now : ℤ) (x : Stats) (ip : Bytes) (s : Server)
    → (force_ban c now x ip s).whitelist ≡ s.whitelist
unfolding force_ban save
force_ban-whitelist c now x ip s = ground arith

-- The address cannot be banned, and is not.
pub IsSafe : Config → Bytes → Server → Type 0
IsSafe c ip s = IsSpared c ip s × NotBanned ip s

pub force_ban-IsSafe :
    (c : Config) (now : ℤ) (x : Stats) (ip j : Bytes) (s : Server)
    → (beq ip j ≡ true → x.banned ≡ pos 0)
    → IsSafe c j s
    → IsSafe c j (force_ban c now x ip s)
unfolding IsSafe
force_ban-IsSafe c now x ip j s h (a, k) =
    (rw (force_ban-whitelist c now x ip s) a, force_ban-NotBanned c now x ip j s a h k)

pub save-IsSafe :
    (c : Config) (ip j : Bytes) (x : Stats) (s : Server)
    → (beq ip j ≡ true → x.banned ≡ pos 0)
    → IsSafe c j s
    → IsSafe c j (save c ip x s)
unfolding save IsSafe
save-IsSafe c ip j x s h (a, k) = (a, save-NotBanned c ip j x s h k)

pub get-IsSafe :
    (c : Config) (now : ℤ) (ip j : Bytes) (s : Server)
    → IsSafe c j s
    → IsSafe c j (get c now ip s).1
unfolding get IsSafe
get-IsSafe c now ip j s (a, k) = (a, get-NotBanned c now ip j s k)

-- The entry that `get` gives for a safe address.
pub get-free :
    (c : Config) (now : ℤ) (ip j : Bytes) (s : Server)
    → IsSafe c j s
    → beq ip j ≡ true
    → (get c now ip s).0.banned ≡ pos 0
unfolding IsSafe
get-free c now ip j s (a, k) e = get-banned c now ip s (rw (eq_of_beq ip j e) k)

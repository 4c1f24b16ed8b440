-- ===== src/Proxy/Difficulty.antt =====
-- The difficulties of the sessions: `GetTargetHex` of util/util.go and `UpdateAllSessionDiff` of
-- proxy/proxy.go. float64 and hexutil are outside.
pub mod Told
pub mod Target
pub mod Decay
pub mod Reached
use btcpool.Common.{
  ℕ, zero, suc, ◌+◌, ◌/◌, ◌%◌, ◌*◌, ◌^◌, ◌==◌, Bool, Option, none, some, List, [], ◌∷◌, ◌++◌,
  map_all, if◌then◌else◌, ◌>>=◌,
}
use btcpool.Common.Int.{ℤ, pos, pos_part, neg_part, ◌*ℤ◌, ltb_ℤ, wrap64}
use btcpool.Common.Bytes.{Bytes, codes}
use btcpool.Common.Float.{Float64}
use btcpool.Common.Result.{Result, failed, done, or_fail, or_panic}
use btcpool.Storage.Stats.{quot}
use btcpool.Proxy.Work.{Packages, target_hex_to_diff}
use btcpool.Proxy.Session.{Session}
use btcpool.Proxy.Stratum.{Client}

-- `big.Int.Bytes` of a number of at most so many bytes: most significant first, without zeros in
-- front.
unfoldable pub big_bytes : ℕ → ℕ → Bytes
big_bytes zero n = []
big_bytes (suc k) n =
    let front = big_bytes k (n / 256) in if n == 0 then [] else front ++ n % 256 ∷ []

-- `GetTargetHex` of an int64. `Bytes` leaves the sign out; `none` is the panic of a division by zero.
unfoldable pub get_target_hex : (Bytes → Bytes) → ℤ → Option Bytes
get_target_hex hexutil_encode diff =
    let difficulty = pos_part diff + neg_part diff in
    if difficulty == 0 then none else some (hexutil_encode (big_bytes 33 (2 ^ 256 / difficulty)))

module _ (f : Float64) (p : Packages) (hexutil_encode : Bytes → Bytes) where
  -- A target whose difficulty is the given one's, times a constant; `none` is a panic.
  unfoldable pub scaled_target : Bytes → Bytes → Option Bytes
  scaled_target factor target = do
    diff ← target_hex_to_diff p target
    get_target_hex hexutil_encode (f.to_int (f.mul (f.of_int (wrap64 diff)) (f.literal factor)))

  -- The loop of `UpdateAllSessionDiff`, on one session, for the expected count of shares.
  unfoldable pub update_session_diff : ℤ → Session → Option Session
  update_session_diff expect_share_count k = do
    half ← quot expect_share_count (pos 2)
    (if ltb_ℤ (wrap64 (expect_share_count *ℤ pos 2)) k.share_count_inv
        then (scaled_target (codes "1.2") k.target >>= λ t. some (record k { target_next_job = t }))
        else if ltb_ℤ k.share_count_inv half
        then (scaled_target (codes "0.8") k.target >>= λ t. some (record k { target = t }))
        else some k)

  -- The sessions are those that are registered.
  unfoldable pub update_client_diff : ℤ → Client → Option Client
  update_client_diff expect_share_count c =
      if c.registered
      then (update_session_diff expect_share_count c.session >>= λ k.
          some (record c { session = k }))
      else some c

  -- `UpdateAllSessionDiff`; `none` is a panic.
  unfoldable pub update_all_session_diff : ℤ → List Client → Option (List Client)
  update_all_session_diff expect_share_count = map_all (update_client_diff expect_share_count)

  -- So many rounds of its timer, of `NewProxy`.
  unfoldable pub diff_ticks : ℕ → ℤ → List Client → Option (List Client)
  diff_ticks zero expect_share_count clients = some clients
  diff_ticks (suc n) expect_share_count clients =
      update_all_session_diff expect_share_count clients >>= diff_ticks n expect_share_count

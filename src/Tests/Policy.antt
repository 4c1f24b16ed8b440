-- ===== src/Tests/Policy.antt =====
-- An address on the white list, which sends what is malformed and is banned by hand.
use btcpool.Common.{◌≡◌, refl, none, some, true, false, List, [], ◌∷◌}
use btcpool.Common.Int.{pos, ◌*ℤ◌, ◌-ℤ◌, wrap64}
use btcpool.Common.Bytes.{Bytes, codes, string_in_slice}
use btcpool.Policy.{
  Config, Server, Event, ban, login, malformed_request, reset, refresh, run, is_banned, ban_client,
  reset_stats,
}
use btcpool.Policy.Ban.{IsFree, NotBanned}
use btcpool.Policy.Workers.{work, do_ban}
use btcpool.Common.Decimal.{format_int}
use btcpool.Policy.Ban.Run.{run-NotBanned}
use btcpool.Policy.Ban.Lapse.{AtMostOnce, reset_stats-ban_client}

abbrev pub config : Config
config = record {
  limits_enabled = true;
  limit = pos 3;
  limit_jump = pos 1;
  banning_enabled = true;
  ip_set = codes "blacklist";
  banning_timeout = pos 1800;
  check_threshold = pos 30;
  malformed_limit = pos 1;
}

abbrev pub office : Bytes
office = codes "10.0.0.1"

abbrev pub server : Server
server = record {
  stats = [];
  ban_channel = [];
  started_at = pos 0;
  grace = pos 300000;
  timeout = pos 3600000;
  blacklist = codes "mallory" ∷ [];
  whitelist = office ∷ [];
}

abbrev events : List Event
events =
    malformed_request (pos 1000) office
    ∷ login (pos 2000) (codes "mallory") office
    ∷ ban (pos 3000) office
    ∷ ban (pos 4000) (codes "10.0.0.2")
    ∷ refresh none (some (codes "10.0.0.9" ∷ office ∷ []))
    ∷ reset (pos 3600500)
    ∷ []

run-NotBanned_example :
    NotBanned office (run config (λ a b. true) events server)
    × ((is_banned config (pos 3600600) office (run config (λ a b. true) events server)).0 ≡ false)
unfolding string_in_slice IsFree
run-NotBanned_example =
    run-NotBanned config (λ a b. true) office events server (pos 3600600) refl
      (tt, (tt, (tt, (tt, (refl, (tt, tt)))))) tt

-- A stranger, 1800 seconds after he was banned.
abbrev stranger : Bytes
stranger = codes "10.0.0.2"

reset_stats-ban_client_example :
    ((is_banned config (pos 1801001) stranger (ban_client config (pos 1000) stranger server)).0
      ≡ true)
    × ((is_banned config
          (pos 1801001)
          stranger
          (reset_stats config (pos 1801000) (ban_client config (pos 1000) stranger server)).0).0
        ≡ false)
unfolding string_in_slice IsFree AtMostOnce ◌*ℤ◌ ◌-ℤ◌ wrap64
reset_stats-ban_client_example =
    reset_stats-ban_client config (pos 1000) (pos 1801000) (pos 1801001) stranger server tt tt refl

-- Two addresses were banned, and a worker takes the first.
abbrev banning : Server
banning = record server { ban_channel = codes "10.0.0.3" ∷ stranger ∷ [] }

first_command :
    work config banning
    ≡ some (
      codes "sudo"
          ∷ codes "ipset"
          ∷ codes "add"
          ∷ codes "blacklist"
          ∷ stranger
          ∷ codes "timeout"
          ∷ codes "1800"
          ∷ codes "-!"
          ∷ [],
      record banning { ban_channel = codes "10.0.0.3" ∷ [] },
    )
unfolding work do_ban format_int
first_command = refl

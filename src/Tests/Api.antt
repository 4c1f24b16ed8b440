-- ===== src/Tests/Api.antt =====
-- An account that is asked for twice, and windows over two blocks.
use btcpool.Common.{◌≡◌, refl, true, Option, none, some, List, [], ◌∷◌, map, All, arith}
use btcpool.Common.Int.{ℤ, pos, ◌+ℤ◌, ◌*ℤ◌, ◌-ℤ◌, wrap64}
use btcpool.Common.Bytes.{Bytes, codes}
use btcpool.Common.Decimal.{format_int, parse_int, parse_uint, scan, from_scan}
use btcpool.Common.Float.{Float64}
use btcpool.Common.Result.{panic, done}
use btcpool.Storage.Keys.{BlockData, empty_block}
use btcpool.Storage.Rows.{convert_payments_results, convert_block_results}
use btcpool.Storage.Commands.{Cmd, Reply, Redis}
use btcpool.Storage.Stats.{
  update_entry, no_stats, quot, workers_stats, convert_workers_stats, gather, settle_workers,
}
use btcpool.Storage.Collect.{
  number, text, convert_string_map, collect_workers_stats, get_miner_stats,
}
use btcpool.Storage.Reads.{is_miner_exists}
use btcpool.Storage.Luck.{luck_rows, luck_loop, count_block, average, calc_luck, collect_luck_stats}
use btcpool.Storage.Luck.Windows.{find_row}
use btcpool.Storage.Luck.Rows.{HasRow, luck_rows-HasRow}
use btcpool.Api.{
  ApiConfig, Account, Times, ok, ApiServer, put_account, is_stale, stats_index, miners_index,
  blocks_index, payments_index,
}
use btcpool.Api.Server.{
  read_account, keep_account, from_cache, account_index, purge_stale, account, serve, start,
}
use btcpool.Storage.Scan.{trim_set, trim_next, flush_loop, flush_stale_stats}
use btcpool.Api.Fresh.{IsRecent, starts, serves, account_index-IsRecent}
use btcpool.Tests.Collect.{replies}

-- Whole numbers in place of floats.
abbrev whole : Float64
whole = record {
  Float = ℤ;
  of_int = λ n. n;
  to_int = λ n. n;
  add = λ a b. a +ℤ b;
  mul = λ a b. a *ℤ b;
  div = λ a b. elim (quot a b) [ none ↦ pos 0 | some q ↦ q ];
  pow = λ a b. a;
  literal = λ s. (parse_int s).0;
  parse_float = λ s. some (parse_int s).0;
}

abbrev answer : Cmd → Unit {0} → Option Reply × Unit {0}
answer (Cmd.exists k) s = (some (Reply.int (pos 1)), s)
answer _ s = (none, s)

abbrev server : Redis
server = record { Store = Unit {0}; call = answer; exec = λ q s. (some (replies q), s) }

abbrev btc : Bytes
btc = codes "btc"

abbrev config : ApiConfig
config = record {
  hashrate_window = pos 600;
  hashrate_large_window = pos 3600;
  stats_intv = pos 5000;
  luck_window = pos 1 ∷ pos 2 ∷ [];
  payments = pos 30;
  blocks = pos 50;
  purge_only = true;
}

abbrev at : ℤ → Times
at ms = record { ms = ms; now = pos 1000; later = pos 1001 }

abbrev empty : ApiServer ℤ
empty = record { stats = none; miners = [] }

abbrev alice : Account
alice = record {
  miner = record {
    stats = (codes "lastShare", number (pos 17)) ∷ (codes "name", text (codes "x7")) ∷ [];
    payments = [];
    payments_total = pos 3;
    round_shares = pos 250;
  };
  workers = no_stats;
  page_size = pos 30;
}

abbrev filled : ApiServer ℤ
filled = record empty {
  miners = (codes "alice", record { stats = alice; updated_at = pos 1000000 }) ∷ [];
}

started : start whole server btc config 3 (at (pos 1000000)) tt ≡ some (empty, tt)
unfolding start purge_stale flush_stale_stats flush_loop trim_next trim_set
started = refl

served :
    serve whole server btc config (account (codes "alice") (at (pos 1000000))) empty tt
    ≡ some ((some (ok alice), filled), tt)
unfolding serve account_index keep_account read_account is_stale put_account find_row
    is_miner_exists get_miner_stats collect_workers_stats workers_stats convert_workers_stats gather
    settle_workers convert_string_map convert_payments_results parse_int parse_uint scan from_scan
served = refl

from_the_cache :
    (account_index whole server btc config (codes "alice") (at (pos 1004000)) filled tt).0.0
    ≡ ok alice
unfolding account_index is_stale find_row from_cache wrap64 ◌-ℤ◌
from_the_cache = refl

account_index-IsRecent_example :
    IsRecent whole server btc config
      ((codes "alice", at (pos 1000000), tt) ∷ [])
      (codes "alice")
      (at (pos 1004000))
      tt
      alice
account_index-IsRecent_example =
    account_index-IsRecent whole server btc config (codes "alice") (at (pos 1004000)) alice
      (serves (account (codes "alice") (at (pos 1000000))) empty filled tt tt (some (ok alice)) []
        (starts 3 (at (pos 1000000)) empty tt tt started) served)
      from_the_cache

abbrev two : List BlockData
two =
    record empty_block { total_shares = pos 300; difficulty = pos 100 }
    ∷ record empty_block { total_shares = pos 500; difficulty = pos 100; orphan = true }
    ∷ []

luck_rows-HasRow_example :
    All
      (HasRow whole two (omega arith) (luck_rows whole two (map pos (1 ∷ 2 ∷ 5 ∷ [])) []))
      (1 ∷ 2 ∷ 5 ∷ [])
luck_rows-HasRow_example =
    luck_rows-HasRow whole two (omega arith) (1 ∷ 2 ∷ 5 ∷ []) []
      (omega arith, (omega arith, (omega arith, tt)))
      ((omega arith, (omega arith, tt)), ((omega arith, tt), (tt, tt)))

-- The luck of 300 and 500 shares at a difficulty of 100 each, in whole numbers.
luck :
    calc_luck whole two (pos 2)
    ≡ record { total = 2; shares_diff = pos 4; uncles = pos 0; orphans = pos 0 }
unfolding calc_luck luck_loop count_block average wrap64 ◌-ℤ◌ ◌+ℤ◌ quot
luck = refl

no_windows : (collect_luck_stats whole server btc [] tt).0 ≡ panic
unfolding collect_luck_stats
no_windows = refl

one_window :
    (collect_luck_stats whole server btc (pos 1 ∷ []) tt).0
    ≡ done (
        (codes "0", record { total = 0; shares_diff = pos 0; uncles = pos 0; orphans = pos 0 })
        ∷ [])
unfolding collect_luck_stats convert_block_results luck_rows calc_luck luck_loop average
    update_entry format_int
one_window = refl

-- Before statistics are stored there is nothing to show, and the first timer shows them.
nothing_yet :
    (stats_index (pos 1) empty ≡ none)
    × (miners_index (pos 1) empty ≡ none)
    × (blocks_index empty ≡ none)
    × (payments_index empty ≡ none)
unfolding stats_index miners_index blocks_index payments_index
nothing_yet = (refl, refl, refl, refl)

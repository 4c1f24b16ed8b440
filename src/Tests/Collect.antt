-- ===== src/Tests/Collect.antt =====
-- A server that answers reads from a table, and the keys of the miners on two pages.
use btcpool.Common.{◌≡◌, refl, true, false, Option, none, some, List, [], ◌∷◌}
use btcpool.Common.Int.{pos, eq_ℤ}
use btcpool.Common.Bytes.{Bytes, codes, string_in_slice, split, split_from}
use btcpool.Common.Decimal.{parse_int, parse_uint, scan, from_scan}
use btcpool.Common.Result.{done}
use btcpool.Storage.Stats.{
  no_stats, workers_stats, convert_workers_stats, gather, settle_workers, convert_miners_stats,
  settle_miners,
}
use btcpool.Storage.Rows.{
  convert_payments_results, convert_candidate_results, convert_block_results,
}
use btcpool.Storage.Commands.{Cmd, Reply, Redis}
use btcpool.Storage.Scan.{Payees, get_payees, payees_loop, add_payees, login_of}
use btcpool.Storage.Collect.{
  number, text, convert_string_map, stats_queue, read_stats, collect_stats, collect_workers_stats,
  get_miner_stats,
}

abbrev pub replies : List Cmd → List Reply
replies [] = []
replies (Cmd.hget_all_map k ∷ q) =
    Reply.hash ((codes "lastShare", codes "17") ∷ (codes "name", codes "x7") ∷ []) ∷ replies q
replies (Cmd.zcard k ∷ q) = Reply.int (pos 3) ∷ replies q
replies (Cmd.hget k f ∷ q) = Reply.text (some (codes "250")) ∷ replies q
replies (_ ∷ q) = Reply.rows [] ∷ replies q

abbrev answer : Cmd → Unit {0} → Option Reply × Unit {0}
answer (Cmd.scan c pattern) s = elim (eq_ℤ c (pos 0)) [
  | true ↦ (some (Reply.page (pos 7) (codes "btc:miners:a" ∷ codes "btc:miners:b" ∷ [])), s)
  | false ↦ (some (Reply.page (pos 0) (codes "btc:miners:a" ∷ [])), s)
]
answer _ s = (none, s)

abbrev server : Redis
server = record { Store = Unit {0}; call = answer; exec = λ q s. (some (replies q), s) }

abbrev btc : Bytes
btc = codes "btc"

payees_found : get_payees server btc 3 tt ≡ Payees.payees (codes "a" ∷ codes "b" ∷ [])
unfolding get_payees payees_loop add_payees login_of string_in_slice split split_from
payees_found = refl

miner_stats :
    (get_miner_stats server btc (codes "a") (pos 10) tt).0
    ≡ done (record {
      stats = (codes "lastShare", number (pos 17)) ∷ (codes "name", text (codes "x7")) ∷ [];
      payments = [];
      payments_total = pos 3;
      round_shares = pos 250;
    })
unfolding get_miner_stats convert_string_map convert_payments_results parse_int parse_uint scan
    from_scan
miner_stats = refl

pool_stats :
    (collect_stats server btc (pos 1000) (pos 1001) (pos 600) (pos 5) (pos 5) tt).0
    ≡ done (record {
      stats = (codes "lastShare", number (pos 17)) ∷ (codes "name", text (codes "x7")) ∷ [];
      candidates = [];
      candidates_total = pos 3;
      immature = [];
      immature_total = pos 3;
      matured = [];
      matured_total = pos 3;
      payments = [];
      payments_total = pos 3;
      miners = [];
      miners_total = 0;
      hashrate = pos 0;
    })
unfolding collect_stats stats_queue read_stats convert_string_map convert_payments_results
    convert_candidate_results convert_block_results convert_miners_stats gather settle_miners
    parse_int parse_uint scan from_scan
pool_stats = refl

no_workers :
    (collect_workers_stats server btc (pos 1000) (pos 1001) (pos 600) (pos 3600) (codes "a") tt).0
    ≡ done no_stats
unfolding collect_workers_stats workers_stats convert_workers_stats gather settle_workers
no_workers = refl

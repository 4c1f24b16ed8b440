-- ===== src/Tests/Proxy/Stratum.antt =====
-- Two miners that connect and subscribe.
use btcpool.Common.{ℕ, ◌≡◌, ◌≢◌, refl, true, false, Option, none, some, [], ◌∷◌, arith}
use btcpool.Common.Int.{pos, ◌-ℤ◌, wrap64}
use btcpool.Common.Bytes.{Bytes, codes}
use btcpool.Common.Hex.{hex8}
use btcpool.Policy.{find, put, new_stats, get, save, is_banned, apply_limit_policy}
use btcpool.Proxy.Session.{extra_nonce1_of, handle_subscribe_rpc}
use btcpool.Proxy.Stratum.{
  StratumReq, Surroundings, line, Listener, all_tags, new_session, settle, freed, set_at,
  send_result, on_subscribe, handle_tcp_message, handle_request, handle_line, read_line,
  handle_tcp_client, give_tag, listen_tcp, arrives, reads, starts, goes,
}
use btcpool.Proxy.Stratum.Owners.{Reached}
use btcpool.Proxy.Stratum.Distinct.{Served, extra_nonces_differ, listen_tcp-goes_on}
use btcpool.Tests.Policy
use btcpool.Tests.Shares.{prefix, server}
use btcpool.Tests.Proxy.{packages, accepts, template}
use btcpool.Tests.Proxy.Submit.{pool}

abbrev pub surroundings : Surroundings
surroundings = record {
  now = pos 1000;
  ms = 1000;
  window = pos 600;
  tpl = some template;
  delivered = true;
}

-- A line is the name of a method.
abbrev read_method : Bytes → Option StratumReq
read_method text = some (record { method = text; params = some [] })

abbrev start : Listener server
start = record { accept = 0 ∷ 1 ∷ []; connections = []; pool = pool }

abbrev or_start : Option (Listener server) → Listener server
or_start none = start
or_start (some l) = l

abbrev arrived : Bytes → Listener server → Listener server
arrived ip l = or_start (listen_tcp Policy.config (pos 1000) ip l)

abbrev subscribes : ℕ → Listener server → Listener server
subscribes i l = or_start (
    handle_tcp_client Policy.config (λ i v. false) packages server prefix accepts (λ a. true)
      read_method 1 (codes "01") surroundings i (line (codes "mining.subscribe")) l)

abbrev two : Listener server
two = arrived (codes "10.0.0.2") (arrived (codes "10.0.0.1") start)

abbrev both : Listener server
both = subscribes 1 (subscribes 0 two)

abbrev IsReached : Listener server → Type 0
IsReached l =
    Reached Policy.config (λ i v. false) packages server prefix accepts (λ a. true) read_method 1
      (codes "01") 2 pool l

both-IsReached : IsReached both
unfolding wrap64 ◌-ℤ◌ find put new_stats get save is_banned apply_limit_policy give_tag listen_tcp
    all_tags new_session settle freed set_at send_result on_subscribe handle_tcp_message
    handle_request handle_line read_line handle_tcp_client handle_subscribe_rpc
both-IsReached =
    goes
      (goes
        (goes (goes starts (arrives (pos 1000) (codes "10.0.0.1") refl))
          (arrives (pos 1000) (codes "10.0.0.2") refl))
        (reads surroundings 0 (line (codes "mining.subscribe")) refl))
      (reads surroundings 1 (line (codes "mining.subscribe")) refl)

extra_nonces_differ_example : extra_nonce1_of 1 0 ≢ extra_nonce1_of 1 1
unfolding wrap64 ◌-ℤ◌ find put new_stats get save is_banned apply_limit_policy give_tag listen_tcp
    all_tags new_session settle freed set_at send_result on_subscribe handle_tcp_message
    handle_request handle_line read_line handle_tcp_client handle_subscribe_rpc extra_nonce1_of hex8
extra_nonces_differ_example =
    extra_nonces_differ Policy.config (λ i v. false) packages server prefix accepts (λ a. true)
      read_method 1 (codes "01") 2 pool both 0 1 both-IsReached (omega arith) (omega arith)
      (omega arith) refl refl refl refl (λ e. cc) (λ e. cc)

listen_tcp-goes_on_example :
    (l' : Listener server) × (listen_tcp Policy.config (pos 1000) (codes "10.0.0.1") start
      ≡ some l')
    × Served start l'
unfolding all_tags
listen_tcp-goes_on_example =
    listen_tcp-goes_on Policy.config (λ i v. false) packages server prefix accepts (λ a. true)
      read_method 1 (codes "01") 2 pool start (pos 1000) (codes "10.0.0.1") starts (omega arith)

-- ===== src/Tests/Proxy/Difficulty.antt =====
-- Sessions whose difficulty is lowered, over floats that are decimal fractions.
use btcpool.Common.{
  Option, ℕ, ◌++◌, ◌+◌, ◌*◌, ◌/◌, ◌^◌, ◌≤◌, ◌≡◌, refl, true, false, none, some, [], ◌∷◌, drop,
  arith, if◌then◌else◌, map_all,
}
use btcpool.Common.Int.{◌-ℤ◌, pos, pos_part, ◌*ℤ◌, wrap64}
use btcpool.Common.Bytes.{Bytes, codes, beq}
use btcpool.Common.Hex.{encode, decode, decode-encode, hex_digit, from_digit}
use btcpool.Common.Float.{Float64}
use btcpool.Common.Result.{panic, done}
use btcpool.Storage.Stats.{quot}
use btcpool.Bitcoin.Difficulty.{
  n_bits2_target, genesis_n_bits, get_target_work, get_genesis_target_work,
}
use btcpool.Proxy.Work.{Packages, target_hex_to_diff, set_bytes}
use btcpool.Proxy.Session.{handle_subscribe_rpc, handle_authorize_rpc}
use btcpool.Proxy.Stratum.{
  StratumReq, Client, Connection, line, Listener, all_tags, new_session, settle, freed, set_at,
  send_result, on_subscribe, handle_tcp_message, handle_request, handle_line, read_line,
  handle_tcp_client, give_tag, listen_tcp, arrives, reads, starts, goes,
}
use btcpool.Proxy.Difficulty.{
  big_bytes, get_target_hex, scaled_target, update_session_diff, update_client_diff,
  update_all_session_diff, diff_ticks,
}
use btcpool.Proxy.Difficulty.Target.{ReadsBack, target_hex_to_diff-get_target_hex}
use btcpool.Proxy.Difficulty.Decay.{Shrinks}
use btcpool.Proxy.Difficulty.Reached.{diff_ticks_stop}
use btcpool.Policy.{Server, find, put, new_stats, get, save, is_banned, apply_limit_policy}
use btcpool.Proxy.Stratum.Owners.{Reached}
use btcpool.Tests.Shares.{prefix, server}
use btcpool.Tests.Proxy.{accepts}
use btcpool.Tests.Proxy.Submit.{pool}
use btcpool.Tests.Proxy.Stratum.{surroundings}
use btcpool.Proxy.Difficulty.Told.{set_difficulty, set_difficulty-handle_authorize_rpc}
use btcpool.Tests.Proxy
use btcpool.Tests.Policy

-- A fraction: a number, and how many of its digits stand behind the point.
abbrev decimals : Float64
decimals = record {
  Float = ℕ × ℕ;
  of_int = λ z. (pos_part z, 0);
  to_int = λ x. pos (x.0 / 10 ^ x.1);
  add = λ a b. a;
  mul = λ a b. (a.0 * b.0, a.1 + b.1);
  div = λ a b. (a.0 / b.0, a.1);
  pow = λ a b. a;
  literal = λ s. if beq s (codes "0.8") then (8, 1) else (12, 1);
  parse_float = λ s. some (1000, 0);
}

shrinks : Shrinks decimals
shrinks d h k = (d * 8 / 10, omega arith, refl)

abbrev hex_of : Bytes → Bytes
hex_of b = codes "0x" ++ encode b

abbrev hexing : Packages
hexing = record Proxy.packages {
  from_hex = λ s. elim (decode (drop 2 s)) [ none ↦ [] | some b ↦ b ];
}

reads_back : ReadsBack hexing hex_of
reads_back b h = rw (hexing, decode-encode b h) refl

-- The target of the first block.
genesis : n_bits2_target genesis_n_bits ≡ 65535 * 2 ^ 208
unfolding n_bits2_target
genesis = refl

target_hex_to_diff-get_target_hex_example :
    (t : Bytes) × (get_target_hex hex_of (pos 1024) ≡ some t)
    × (target_hex_to_diff hexing t ≡ some (pos 1024))
target_hex_to_diff-get_target_hex_example =
    target_hex_to_diff-get_target_hex hexing hex_of reads_back 1024 (omega arith) (omega arith)

abbrev target4 : Bytes
target4 = elim (get_target_hex hex_of (pos 4)) [ none ↦ [] | some t ↦ t ]

abbrev slow : Client
slow = record {
  session = record (new_session (codes "10.0.0.1") 7) {
    target = target4;
    target_next_job = target4;
  };
  registered = true;
}

abbrev idle : Client
idle = record slow { registered = false }

-- 4, 3, 2, 1, and a division by zero.
four_ticks : diff_ticks decimals hexing hex_of 4 (pos 5) (idle ∷ slow ∷ []) ≡ none
unfolding diff_ticks update_all_session_diff map_all update_client_diff update_session_diff quot
    scaled_target target_hex_to_diff set_bytes get_target_hex big_bytes decode encode hex_digit
    from_digit wrap64 ◌*ℤ◌ new_session
four_ticks = refl

-- A miner that connects and subscribes.
abbrev read_method : Bytes → Option StratumReq
read_method text = some (record { method = text; params = some [] })

abbrev connected : Connection
connected = record {
  tag = 0;
  client = record {
    session = handle_subscribe_rpc hexing.sha256 1 target4 (new_session (codes "10.0.0.1") 0);
    registered = true;
  };
  handled = true;
  opened = true;
}

abbrev listener : Server → Listener server
listener policy = record {
  accept = 1 ∷ [];
  connections = connected ∷ [];
  pool = record pool { policy = policy };
}

abbrev policed : Server
policed =
    (apply_limit_policy Policy.config (pos 1000) (codes "10.0.0.1")
      (is_banned Policy.config (pos 1000) (codes "10.0.0.1") pool.policy).1).1

listener-Reached :
    Reached Policy.config
      (λ i v. false)
      hexing
      server
      prefix
      accepts
      (λ a. true)
      read_method
      1
      target4
      2
      pool
      (listener policed)
unfolding wrap64 ◌-ℤ◌ find put new_stats get save is_banned apply_limit_policy give_tag listen_tcp
    all_tags new_session settle freed set_at send_result on_subscribe handle_tcp_message
    handle_request handle_line read_line handle_tcp_client handle_subscribe_rpc
listener-Reached =
    goes (goes starts (arrives (pos 1000) (codes "10.0.0.1") refl))
      (reads surroundings 0 (line (codes "mining.subscribe")) refl)

diff_ticks_stop_example :
    (n : ℕ) × (n ≤ 4) × (diff_ticks decimals hexing hex_of n (pos 5) (connected.client ∷ []) ≡ none)
unfolding get_target_hex decode
diff_ticks_stop_example =
    diff_ticks_stop decimals hexing hex_of shrinks reads_back refl 5 (omega arith) (omega arith)
      Policy.config (λ i v. false) server prefix accepts (λ a. true) read_method 1 target4 2 pool
      (listener policed) 0 4 listener-Reached refl refl (omega arith) (omega arith) refl

set_difficulty-handle_authorize_rpc_example :
    (set_difficulty decimals hexing
        (λ cs. true)
        (handle_authorize_rpc Policy.config
          (λ a. true)
          (pos 1000)
          (codes "alice.rig" ∷ [])
          (handle_subscribe_rpc hexing.sha256 1 target4 (new_session (codes "10.0.0.1") 7))
          Policy.server).1
      ≡ done (4, 0))
    × (set_difficulty decimals hexing
          (λ cs. true)
          (handle_authorize_rpc Policy.config
            (λ a. true)
            (pos 1000)
            (codes "alice.rig" ∷ [])
            (new_session (codes "10.0.0.1") 7)
            Policy.server).1
        ≡ panic)
unfolding get_target_hex get_target_work get_genesis_target_work decode
set_difficulty-handle_authorize_rpc_example =
    set_difficulty-handle_authorize_rpc decimals hexing hex_of reads_back refl (1, 0) refl
      Policy.config (λ a. true) (λ cs. true) 4 1 7 (codes "10.0.0.1") (pos 1000)
      (codes "alice.rig" ∷ []) Policy.server (omega arith) (omega arith) refl (λ cs. refl)

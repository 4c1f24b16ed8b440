-- ===== src/Tests/Rpc.antt =====
-- A node that was out of reach, and the choice between it and another.
use btcpool.Common.{◌≡◌, ◌⊎◌, refl, true, false, Option, some, [], ◌∷◌, All, arith, if◌then◌else◌}
use btcpool.Common.Int.{pos}
use btcpool.Common.Bytes.{Bytes, codes, beq}
use btcpool.Rpc.{
  RpcClient, Node, unreached, response, mark_alive, do_post, read_result, found,
  get_prev_block_hash, check,
}
use btcpool.Rpc.Health.{checks, checks_recover}
use btcpool.Proxy.Upstream.{ProxyServer, rpc, check_upstreams}
use btcpool.Proxy.Upstream.Choice.{IsUnhealthy, IsFirstHealthy, check_upstreams_first}

-- A node whose best block has this hash, as a result is its own text.
abbrev up : Node Bytes
up method params = response (some (codes "00ab"))

abbrev down : Node Bytes
down method params = unreached

abbrev sick_client : RpcClient
sick_client = record {
  url = codes "a";
  name = codes "main";
  sick = true;
  sick_rate = 7;
  success_rate = 3;
}

checks_recover_example : (checks some (up ∷ up ∷ up ∷ up ∷ up ∷ []) sick_client).sick ≡ false
checks_recover_example =
    checks_recover some (up ∷ up ∷ up ∷ up ∷ up ∷ []) sick_client (refl, omega arith)
      (answers, (answers, (answers, (answers, (answers, tt))))) (omega arith)
  where
    answers :
        (json : Bytes) × (hash : Bytes) × (up (codes "getbestblockhash") [] ≡ response (some json))
        × (◌≡◌ {A = Option Bytes} (some json) (some hash))
    answers = (codes "00ab", codes "00ab", refl, refl)

abbrev network : Bytes → Node Bytes
network url = if beq url (codes "a") then down else up

abbrev backup : RpcClient
backup = record {
  url = codes "b";
  name = codes "backup";
  sick = false;
  sick_rate = 0;
  success_rate = 0;
}

abbrev proxy : ProxyServer
proxy = record {
  upstream = 0;
  upstreams = sick_client ∷ backup ∷ [];
  fails_count = pos 0;
  health_check = true;
  max_fails = pos 3;
}

check_upstreams_first_example :
    (s' : ProxyServer) × (r : RpcClient) × (check_upstreams some network proxy ≡ some s')
    × (rpc s' ≡ some r)
    × (((s'.upstream ≡ 0) × All (IsUnhealthy some network) proxy.upstreams)
        ⊎ IsFirstHealthy some network proxy.upstreams s'.upstream r)
unfolding check found get_prev_block_hash do_post read_result mark_alive
check_upstreams_first_example =
    check_upstreams_first some network proxy sick_client (backup ∷ []) refl
      ((false, refl), ((true, refl), tt))

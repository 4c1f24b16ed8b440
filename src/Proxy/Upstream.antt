-- ===== src/Proxy/Upstream.antt =====
-- proxy/proxy.go: the choice of the node, and the health of the proxy itself.
pub mod Choice
use btcpool.Common.{
  ℕ, ◌+◌, Bool, true, false, not, ◌&&◌, Option, none, some, List, [], ◌∷◌, if◌then◌else◌, get_elem?,
  ◌>>=◌,
}
use btcpool.Common.Int.{ℤ, pos, leb_ℤ, add64}
use btcpool.Common.Bytes.{Bytes}
use btcpool.Rpc.{RpcClient, Node, check}

-- The part of `ProxyServer` that these methods use.
pub record ProxyServer : Type 0 where
  pub upstream : ℕ
  pub upstreams : List RpcClient
  pub fails_count : ℤ
  pub health_check : Bool
  pub max_fails : ℤ

-- `rpc`; an index out of range is a panic.
unfoldable pub rpc : ProxyServer → Option RpcClient
rpc s = get_elem? s.upstreams s.upstream

-- `markSick`
unfoldable pub mark_sick : ProxyServer → ProxyServer
mark_sick s = record s { fails_count = add64 s.fails_count (pos 1) }

-- `isSick`
unfoldable pub is_sick : ProxyServer → Bool
is_sick s = s.health_check && leb_ℤ s.max_fails s.fails_count

-- `markOk`
unfoldable pub mark_ok : ProxyServer → ProxyServer
mark_ok s = record s { fails_count = pos 0 }

-- One round of the loop: the candidate stays once there is a backup.
unfoldable pub choose : ℕ → Bool → ℕ × Bool → ℕ × Bool
choose i healthy (candidate, backup) =
    if healthy && not backup then (i, true) else (candidate, backup)

-- The node at an address is a parameter.
module _ {ℓ} {Json : Type ℓ} (unmarshal : Json → Option Bytes) (network : Bytes → Node Json) where
  -- `Check` of a client, at its own address.
  abbrev pub checked : RpcClient → Option Bool × RpcClient
  checked r = check (network r.url) unmarshal r

  -- The loop of `checkUpstreams` from index `i`: every client is checked. `none` is a panic.
  unfoldable pub check_loop : ℕ → List RpcClient → ℕ × Bool → Option ((ℕ × Bool) × List RpcClient)
  check_loop i [] chosen = some (chosen, [])
  check_loop i (r ∷ upstreams) chosen = do
    healthy ← (checked r).0
    (chosen', upstreams') ← check_loop (i + 1) upstreams (choose i healthy chosen)
    some (chosen', (checked r).1 ∷ upstreams')

  -- `checkUpstreams`
  unfoldable pub check_upstreams : ProxyServer → Option ProxyServer
  check_upstreams s = do
    ((candidate, _), upstreams') ← check_loop 0 s.upstreams (0, false)
    some (record s { upstream = candidate; upstreams = upstreams' })

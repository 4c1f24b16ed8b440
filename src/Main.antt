-- ===== src/Main.antt =====
-- main.go: what the pool does before it starts its parts. The password is read by the terminal, the
-- configuration by JSON, and the addresses of the machine by Go's library.
pub mod Ready
use btcpool.Common.{
  ℕ, Bool, true, false, not, ◌&&◌, ◌||◌, Option, none, some, List, [], ◌∷◌, ◌++◌, if◌then◌else◌,
}
use btcpool.Common.Bytes.{Bytes, beq}
use btcpool.Common.Result.{Result, panic, failed, done}
use btcpool.Util.Cipher.{Ciphers, ae64_decode}

pub record ClusterNode : Type 0 where
  pub node_name : Bytes
  pub node_ip : Bytes
  pub node_id : ℕ

-- The part of `Config` that `main` and its functions use.
pub record PoolConfig : Type 0 where
  pub name : Bytes
  pub id : ℕ
  pub cluster : List ClusterNode
  pub upstream_coin_base_encrypted : Bytes
  pub upstream_coin_base : Bytes
  pub password_encrypted : Bytes
  pub password : Bytes
  pub proxy_enabled : Bool
  pub api_enabled : Bool
  pub unlocker_enabled : Bool

-- An address of an interface: its text in version 4 if it is one of IP, and of that version.
pub record NetAddr : Type 0 where
  pub is_ip_net : Bool
  pub is_loopback : Bool
  pub to4 : Option Bytes

-- The parts that `main` starts.
pub data Part : Type 0 where
  proxy api unlocker : Part

-- `getDeviceIPs`, where the addresses could be listed.
unfoldable pub device_ips_of : List NetAddr → List Bytes
device_ips_of [] = []
device_ips_of (a ∷ addrs) =
    let rest = device_ips_of addrs in
    if a.is_ip_net && not a.is_loopback
    then elim a.to4 [ none ↦ rest | some ip ↦ ip ∷ rest ]
    else rest

-- A lookup in the map of addresses.
unfoldable pub has_ip : Bytes → List Bytes → Bool
has_ip ip [] = false
has_ip ip (j ∷ ips) = beq j ip || has_ip ip ips

-- The loop of `initPeerName`: the first node that is on this machine.
unfoldable pub local_node : List Bytes → List ClusterNode → Option ClusterNode
local_node device_ips [] = none
local_node device_ips (c ∷ cluster) =
    let rest = local_node device_ips cluster in if has_ip c.node_ip device_ips then some c else rest

-- `initPeerName`: no list of addresses is an error.
unfoldable pub init_peer_name : Option (List NetAddr) → PoolConfig → Option PoolConfig
init_peer_name none cfg = none
init_peer_name (some addrs) cfg = elim (local_node (device_ips_of addrs) cfg.cluster) [
  | none ↦ none
  | some c ↦ some (record cfg { name = c.node_name; id = c.node_id })
]

-- The parts that are enabled, as `main` starts them.
unfoldable pub started_parts : PoolConfig → List Part
started_parts cfg =
    (if cfg.proxy_enabled then Part.proxy ∷ [] else [])
    ++ (if cfg.api_enabled then Part.api ∷ [] else [])
    ++ (if cfg.unlocker_enabled then Part.unlocker ∷ [] else [])

module _ (c : Ciphers) (valid_address : Bytes → Bool) where
  -- `decryptPoolConfigure`: what is set before an error stays set.
  unfoldable pub decrypt_pool_configure : Bytes → PoolConfig → PoolConfig × Result (Unit {0})
  decrypt_pool_configure pass cfg = elim (ae64_decode c cfg.upstream_coin_base_encrypted pass) [
    | panic ↦ (cfg, panic)
    | failed ↦ (cfg, failed)
    | done wallet ↦
        let cfg' = record cfg { upstream_coin_base = wallet } in
        if not (valid_address wallet)
        then (cfg', failed)
        else elim (ae64_decode c cfg.password_encrypted pass) [
          | panic ↦ (cfg', panic)
          | failed ↦ (cfg', failed)
          | done secret ↦ (record cfg' { password = secret }, done tt)
        ]
  ]

  -- `main`, after the configuration is read: the configuration that the parts are started with, and
  -- the parts. An error ends the program; the Redis server need not answer.
  unfoldable pub main :
      Option (List NetAddr) → Option Bytes → PoolConfig → Result (PoolConfig × List Part)
  main addrs pass cfg = elim (init_peer_name addrs cfg) [
    | none ↦ failed
    | some cfg' ↦ elim pass [
      | none ↦ failed
      | some pass_bytes ↦
          let (cfg'', end) = decrypt_pool_configure pass_bytes cfg' in
          elim end [ panic ↦ panic | failed ↦ failed | done _ ↦ done (cfg'', started_parts cfg'') ]
    ]
  ]

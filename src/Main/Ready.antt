-- ===== src/Main/Ready.antt =====
-- What the parts of the pool can rely on when `main` starts them.
use btcpool.Common.{
  ◌≡◌, refl, sym, Bool-cases, ◌∙◌, Bool, true, false, Option, none, some, List, [], ◌∷◌, arith,
  Option-cases, inl, inr, ◌⊎◌,
}
use btcpool.Common.Bytes.{Bytes}
use btcpool.Common.Result.{done, done-subst, Result-cases}
use btcpool.Util.Cipher.{Ciphers, ae64_encode, ae64_decode}
use btcpool.Util.Cipher.RoundTrip.{Documented, ae64_decode-ae64_encode}
use btcpool.Main.{
  ClusterNode, PoolConfig, NetAddr, Part, device_ips_of, has_ip, local_node, init_peer_name,
  started_parts, decrypt_pool_configure, main,
}

-- A node stands in a list, and none before it is on the machine.
abbrev pub IsFirst : List Bytes → ClusterNode → List ClusterNode → Type 0
IsFirst ips n [] = ⊥
IsFirst ips n (c ∷ cluster) =
    ((c ≡ n) × (has_ip c.node_ip ips ≡ true))
    ⊎ ((has_ip c.node_ip ips ≡ false) × IsFirst ips n cluster)

-- What the parts find: the identity of the first node of the cluster that is on this machine, and a
-- wallet that is an address and was decrypted with the password.
abbrev pub IsReady :
    Ciphers → (Bytes → Bool) → List NetAddr → Bytes → PoolConfig → PoolConfig → Type 0
IsReady c valid_address addrs pass cfg cfg' =
    ((n : ClusterNode) × IsFirst (device_ips_of addrs) n cfg.cluster
      × (cfg'.name ≡ n.node_name)
      × (cfg'.id ≡ n.node_id))
    × (valid_address cfg'.upstream_coin_base ≡ true)
    × (ae64_decode c cfg.upstream_coin_base_encrypted pass ≡ done cfg'.upstream_coin_base)
    × (ae64_decode c cfg.password_encrypted pass ≡ done cfg'.password)

local_node-IsFirst :
    (ips : List Bytes) (cluster : List ClusterNode) {n : ClusterNode}
    → local_node ips cluster ≡ some n
    → IsFirst ips n cluster
unfolding local_node
local_node-IsFirst ips [] e = absurd cc
local_node-IsFirst ips (c ∷ cluster) {n} e = elim (Bool-cases (has_ip c.node_ip ips)) [
  | inl h ↦ inl (ground arith, h)
  | inr h ↦ inr (h, local_node-IsFirst ips cluster (ground arith))
]

module _ (c : Ciphers) (valid_address : Bytes → Bool) where
  -- A text that was encoded is decoded, under its name.
  reads :
      Documented c
      → (pass : Bytes) {src text : Bytes} → ae64_encode c src pass ≡ done text
      → ae64_decode c text pass ≡ done src
  reads d pass {src} e =
      let (text', e', back) = ae64_decode-ae64_encode c d src pass in
      done-subst (λ t. ae64_decode c t pass ≡ done src) (sym e' ∙ e) back

  -- What a finished decryption set.
  decrypted :
      (pass : Bytes) (cfg : PoolConfig) {cfg' : PoolConfig}
      → decrypt_pool_configure c valid_address pass cfg ≡ (cfg', done tt)
      → (cfg'.name ≡ cfg.name)
        × (cfg'.id ≡ cfg.id)
        × (valid_address cfg'.upstream_coin_base ≡ true)
        × (ae64_decode c cfg.upstream_coin_base_encrypted pass ≡ done cfg'.upstream_coin_base)
        × (ae64_decode c cfg.password_encrypted pass ≡ done cfg'.password)
  unfolding decrypt_pool_configure
  decrypted pass cfg {cfg'} e =
      elim (Result-cases (ae64_decode c cfg.upstream_coin_base_encrypted pass)) [
        | inl h ↦ ground arith
        | inr (inl h) ↦ ground arith
        | inr (inr (wallet, h)) ↦ elim (Bool-cases (valid_address wallet)) [
          | inr v ↦ ground arith
          | inl v ↦ elim (Result-cases (ae64_decode c cfg.password_encrypted pass)) [
            | inl k ↦ ground arith
            | inr (inl k) ↦ ground arith
            | inr (inr (secret, k)) ↦ ground arith
          ]
        ]
      ]

  -- Where main starts the parts, the pool has the name and the identifier of the first node of the
  -- cluster that is on this machine, its wallet is a valid address, wallet and password were
  -- decrypted with the password that was entered, and the parts are those that are enabled.
  pub main-IsReady :
      (addrs : Option (List NetAddr)) (pass : Option Bytes) (cfg : PoolConfig) {cfg' : PoolConfig}
      {parts : List Part}
      → main c valid_address addrs pass cfg ≡ done (cfg', parts)
      → (listed : List NetAddr) × (entered : Bytes) × (addrs ≡ some listed)
        × (pass ≡ some entered)
        × IsReady c valid_address listed entered cfg cfg'
        × (parts ≡ started_parts cfg')
  unfolding main init_peer_name
  main-IsReady none pass cfg e = absurd cc
  main-IsReady (some addrs) none cfg e = ground arith
  main-IsReady (some addrs) (some pass) cfg {cfg'} {parts} e =
      elim (Option-cases (local_node (device_ips_of addrs) cfg.cluster)) [
        | inl h ↦ ground arith
        | inr (n, h) ↦
            let named = record cfg { name = n.node_name; id = n.node_id } in
            let first = local_node-IsFirst (device_ips_of addrs) cfg.cluster h in
            elim (Result-cases (decrypt_pool_configure c valid_address pass named).1) [
              | inl k ↦ ground arith
              | inr (inl k) ↦ ground arith
              | inr (inr (tt, k)) ↦
                  let same : decrypt_pool_configure c valid_address pass named ≡ (cfg', done tt) =
                    ground arith in
                  let (name, id, valid, wallet, password) = decrypted pass named same in
                  (
                    addrs,
                    pass,
                    refl,
                    refl,
                    ((n, first, name, id), valid, wallet, password),
                    ground arith,
                  )
            ]
      ]

  -- A valid wallet and a password of Redis that were encrypted by Ae64Encode with a pass phrase are
  -- decrypted by decryptPoolConfigure with the same phrase, and nothing else of the configuration
  -- changes, where AES, CBC and base64 do as Go documents.
  pub decrypt_pool_configure-ae64_encode :
      Documented c
      → (pass wallet secret : Bytes) (cfg : PoolConfig) → valid_address wallet ≡ true
      → ae64_encode c wallet pass ≡ done cfg.upstream_coin_base_encrypted
      → ae64_encode c secret pass ≡ done cfg.password_encrypted
      → decrypt_pool_configure c valid_address pass cfg
        ≡ (record cfg { upstream_coin_base = wallet; password = secret }, done tt)
  unfolding decrypt_pool_configure
  decrypt_pool_configure-ae64_encode d pass wallet secret cfg v e1 e2 =
      rw (decrypt_pool_configure, reads d pass e1, v, reads d pass e2) refl

-- ===== src/Tests/Main.antt =====
-- A pool of two nodes that starts on the second, with the cipher of Tests/Util.
use btcpool.Common.{◌≡◌, refl, true, false, Bool, Option, some, List, [], ◌∷◌}
use btcpool.Common.Bytes.{Bytes, codes, beq}
use btcpool.Common.Result.{failed, done}
use btcpool.Util.Cipher.{
  ae64_encode, ae64_decode, encrypt_aes, decrypt_aes, padding, unpadding, fit_key,
}
use btcpool.Main.{
  PoolConfig, NetAddr, Part, device_ips_of, has_ip, local_node, init_peer_name, started_parts,
  decrypt_pool_configure, main,
}
use btcpool.Main.Ready.{IsReady, main-IsReady, decrypt_pool_configure-ae64_encode}
use btcpool.Tests.Util.{plain, as_documented}

abbrev is_wallet : Bytes → Bool
is_wallet s = beq s (codes "wallet")

abbrev encrypted : Bytes → Bytes
encrypted s = elim (ae64_encode plain s (codes "key")) [ done t ↦ t | _ ↦ [] ]

abbrev cfg : PoolConfig
cfg = record {
  name = [];
  id = 0;
  cluster =
      record { node_name = codes "a"; node_ip = codes "10.0.0.1"; node_id = 1 }
      ∷ record { node_name = codes "b"; node_ip = codes "10.0.0.2"; node_id = 2 }
      ∷ [];
  upstream_coin_base_encrypted = encrypted (codes "wallet");
  upstream_coin_base = [];
  password_encrypted = encrypted (codes "secret");
  password = [];
  proxy_enabled = true;
  api_enabled = false;
  unlocker_enabled = true;
}

abbrev addrs : List NetAddr
addrs =
    record { is_ip_net = true; is_loopback = true; to4 = some (codes "10.0.0.1") }
    ∷ record { is_ip_net = true; is_loopback = false; to4 = some (codes "10.0.0.2") }
    ∷ []

abbrev ready : PoolConfig
ready = record cfg {
  name = codes "b";
  id = 2;
  upstream_coin_base = codes "wallet";
  password = codes "secret";
}

starts :
    main plain is_wallet (some addrs) (some (codes "key")) cfg
    ≡ done (ready, Part.proxy ∷ Part.unlocker ∷ [])
unfolding main init_peer_name local_node has_ip device_ips_of started_parts decrypt_pool_configure
    ae64_encode ae64_decode encrypt_aes decrypt_aes padding unpadding fit_key
starts = refl

-- An address that only the loopback has is not on the machine.
stops : main plain is_wallet (some []) (some (codes "key")) cfg ≡ failed
unfolding main init_peer_name local_node has_ip device_ips_of
stops = refl

main-IsReady_example :
    (listed : List NetAddr) × (entered : Bytes) × (◌≡◌ {A = Option (List NetAddr)}
      (some addrs)
      (some listed))
    × (◌≡◌ {A = Option Bytes} (some (codes "key")) (some entered))
    × IsReady plain is_wallet listed entered cfg ready
    × (Part.proxy ∷ Part.unlocker ∷ [] ≡ started_parts ready)
main-IsReady_example = main-IsReady plain is_wallet (some addrs) (some (codes "key")) cfg starts

decrypt_pool_configure-ae64_encode_example :
    decrypt_pool_configure plain is_wallet (codes "key") cfg
    ≡ (record cfg { upstream_coin_base = codes "wallet"; password = codes "secret" }, done tt)
unfolding ae64_encode encrypt_aes padding fit_key
decrypt_pool_configure-ae64_encode_example =
    decrypt_pool_configure-ae64_encode plain is_wallet as_documented (codes "key") (codes "wallet")
      (codes "secret") cfg refl refl refl

-- ===== src/Tests/Proxy/Coinbase.antt =====
-- The coinbase transaction of a job, from the node's reply to the block that is tested.
use btcpool.Common.{◌≡◌, refl, true, some, [], ◌∷◌, ◌++◌, ltb, arith}
use btcpool.Common.Int.{pos}
use btcpool.Common.Bytes.{Bytes, codes}
use btcpool.Common.Hex.{encode, decode, from_digit, hex8, hex_digit}
use btcpool.Bitcoin.Number.{Acc_below, lt_wf, pack_loop, pack_number}
use btcpool.Bitcoin.Coinbase.{
  key_script, get_coin_base_script_by_pub_key, get_coin_base_script, pack_string, generate_coin_b,
  generate_coin_b1, generate_coin_b2, witness_vout, initialize,
}
use btcpool.Bitcoin.Coinbase.Initialize.{IsCoinbase}
use btcpool.Proxy.Work.{hex_value, parse_uint_hex, assemble}
use btcpool.Proxy.Template.{make_job}
use btcpool.Proxy.Template.Coinbase.{AreBytes, parts_of, coinbase_parts, assemble-IsCoinbase}
use btcpool.Proxy.Miner.{Submission, block_of}
use btcpool.Proxy.Session.{all_bytes, nonce_pattern, extra_nonce1_of}
use btcpool.Tests.Coinbase.{library, library-PacksScripts, wallet, coinbase}
use btcpool.Tests.Proxy.{packages, template, submission}
use btcpool.Tests.Proxy.Template.{reply}

bytes-AreBytes : (s : Bytes) → all_bytes (λ b. ltb b 256) s ≡ true → AreBytes s
bytes-AreBytes [] h = tt
bytes-AreBytes (b ∷ s) h = (ground arith, bytes-AreBytes s (ground arith))

abbrev miner : Submission
miner = record submission { e_nonce1 = extra_nonce1_of 1 2 }

assemble-IsCoinbase_example :
    (en1 : Bytes) × (en2 : Bytes) × (raw : Bytes) × (decode (extra_nonce1_of 1 2) ≡ some en1)
    × (decode (codes "01020304") ≡ some en2)
    × IsCoinbase library
        (pos 1700000000)
        wallet
        800000
        (pos 1000)
        (codes "0a")
        (codes "pool")
        []
        en1
        en2
        raw
    × (packages.unpack raw
        ≡ some (
            coinbase.coin_base_tx1
            ++ (0 ∷ 1 ∷ 0 ∷ 2 ∷ [])
            ++ (1 ∷ 2 ∷ 3 ∷ 4 ∷ [])
            ++ coinbase.coin_base_tx2))
unfolding Acc_below lt_wf pack_loop pack_number decode from_digit key_script
    get_coin_base_script_by_pub_key get_coin_base_script pack_string generate_coin_b
    generate_coin_b1 generate_coin_b2 witness_vout initialize native.Mathlib.Decide.dec_lt hex_value
    parse_uint_hex assemble make_job parts_of coinbase_parts block_of nonce_pattern extra_nonce1_of
    hex8 hex_digit encode
assemble-IsCoinbase_example =
    assemble-IsCoinbase library (pos 1700000000) wallet (codes "pool") packages (λ s. s)
      (record reply { flags = codes "0a" }) 800000 [] coinbase.coin_base_tx1 coinbase.coin_base_tx2
      miner 1 2 template (codes "01020304") (codes "6553f100") (codes "00000001") (pos 1)
      library-PacksScripts refl (bytes-AreBytes coinbase.coin_base_tx1 refl)
      (bytes-AreBytes coinbase.coin_base_tx2 refl) refl refl refl

-- ===== src/Proxy/Template/Coinbase.antt =====
-- proxy/blocks.go and bitcoin/btc_coinbase.go together: the coinbase transaction of a job, from
-- `fetchBlockTemplate` to `DoubleSha256HashVerify`.
use btcpool.Common.{
  ℕ, ◌+◌, ◌-◌, ◌*◌, ◌/◌, ◌%◌, ◌^◌, ◌<◌, ◌≡◌, refl, ◌∙◌, Bool, true, ◌&&◌, ◌||◌, Option, none, some,
  List, [], ◌∷◌, ◌++◌, length, leb, arith, All, some-elim, Option-cases, inl, inr,
}
use btcpool.Common.Int.{ℤ}
use btcpool.Common.Bytes.{Bytes}
use btcpool.Common.Hex.{decode, decode-encode, from_digit, hex8, hex_digit}
use btcpool.Common.Result.{Result, panic, failed, done}
use btcpool.Bitcoin.Coinbase.{Library, CoinBaseTransaction, initialize}
use btcpool.Bitcoin.Coinbase.Serialize.{PacksScripts}
use btcpool.Bitcoin.Coinbase.Initialize.{IsCoinbase, initialize-IsCoinbase}
use btcpool.Proxy.Work.{Packages, BlockTemplate, Block, Header, assemble, parse_uint_hex}
use btcpool.Proxy.Template.{TemplateReply, make_job}
use btcpool.Proxy.Miner.{Submission, block_of}
use btcpool.Proxy.Session.{all_bytes, nonce_pattern, extra_nonce1_of}

-- What `fetchBlockTemplate` takes of a coinbase transaction: an error ends it, and a panic cannot be
-- the end of `Initialize`.
unfoldable pub parts_of : Result CoinBaseTransaction → Option (Bytes × Bytes)
parts_of panic = none
parts_of failed = none
parts_of (done u) = some (u.coin_base_tx1, u.coin_base_tx2)

-- The two parts that it asks `Initialize` for.
unfoldable pub coinbase_parts :
    Library → ℤ → Bytes → Bytes → TemplateReply → ℕ → Option (Bytes × Bytes)
coinbase_parts l now wallet cb_extras reply height = parts_of (
    initialize l now wallet reply.cur_time height reply.coin_base_value reply.flags cb_extras
      reply.default_witness_commitment)

abbrev is_hex : ℕ → Bool
is_hex c = (leb b'0' c && leb c b'9') || (leb b'a' c && leb c b'f')

from_digit-some : (c : ℕ) → is_hex c ≡ true → (d : ℕ) × (from_digit c ≡ some d)
unfolding from_digit
from_digit-some c h = elim (Option-cases (from_digit c)) [
  | inl e ↦ absurd (ground arith)
  | inr (d, e) ↦ (d, e)
]

decode_digits :
    (n : ℕ) (s : Bytes)
    → length s ≡ 2 * n
    → all_bytes is_hex s ≡ true
    → (t : Bytes) × (decode s ≡ some t) × (length t ≡ n)
unfolding decode
decode_digits n [] h k = ([], refl, omega arith)
decode_digits n (c ∷ []) h k = absurd (omega arith)
decode_digits n (c ∷ d ∷ s) h k =
    let (hi, e) = from_digit-some c (ground arith) in
    let (lo, f) = from_digit-some d (ground arith) in
    let (t, g, l) = decode_digits (n - 1) s (omega arith) (ground arith) in
    ((hi * 16 + lo) ∷ t, rw (e, f, g) refl, omega arith)

decode-nonce_pattern :
    (s : Bytes) → nonce_pattern s ≡ true → (t : Bytes) × (decode s ≡ some t) × (length t ≡ 4)
unfolding nonce_pattern
decode-nonce_pattern s h = decode_digits 4 s (ground arith) (ground arith)

is_hex-hex_digit : (d : ℕ) → d < 16 → is_hex (hex_digit d) ≡ true
unfolding hex_digit
is_hex-hex_digit d h = ground arith

decode-hex8 : (n : ℕ) → (t : Bytes) × (decode (hex8 n) ≡ some t) × (length t ≡ 4)
unfolding hex8
decode-hex8 n = decode_digits 4 (hex8 n) refl (
    simp (
      is_hex-hex_digit (n / 16 ^ 7 % 16) (omega arith),
      is_hex-hex_digit (n / 16 ^ 6 % 16) (omega arith),
      is_hex-hex_digit (n / 16 ^ 5 % 16) (omega arith),
      is_hex-hex_digit (n / 16 ^ 4 % 16) (omega arith),
      is_hex-hex_digit (n / 16 ^ 3 % 16) (omega arith),
      is_hex-hex_digit (n / 16 ^ 2 % 16) (omega arith),
      is_hex-hex_digit (n / 16 % 16) (omega arith),
      is_hex-hex_digit (n / 1 % 16) (omega arith),
    ))

-- A block that can be assembled has the coinbase transaction that its four parts are read as.
assemble-unpack :
    (p : Packages) (b : Block) {bytes1 bytes2 bytes3 bytes4 : Bytes} {cb_trx : p.Transaction}
    {header : Header}
    → decode b.coin_base1 ≡ some bytes1
    → decode b.extra_nonce1 ≡ some bytes2
    → decode b.extra_nonce2 ≡ some bytes3
    → decode b.coin_base2 ≡ some bytes4
    → assemble p b ≡ some (cb_trx, header)
    → p.unpack (bytes1 ++ bytes2 ++ bytes3 ++ bytes4) ≡ some cb_trx
unfolding assemble
assemble-unpack p b {bytes1} {bytes2} {bytes3} {bytes4} e f g h a =
    some-elim (p.unpack (bytes1 ++ bytes2 ++ bytes3 ++ bytes4)) _ (rw (e, f, g, h) at a)
      (λ trx u a1. some-elim (p.calc_trx_id trx) _ a1 (λ id _ a2.
        some-elim (p.merkle_root id b.merkle_branch) _ a2 (λ root _ a3.
          some-elim (p.set_hex b.prev_hash) _ a3 (λ prev _ a4.
            some-elim (p.set_hex root) _ a4 (λ hash _ a5.
              some-elim (parse_uint_hex b.s_time) _ a5
                (λ time _ a6. some-elim (parse_uint_hex b.s_nonce) _ a6 (λ nonce _ a7. u ∙ cc)))))))

abbrev pub AreBytes : Bytes → Type 0
AreBytes = All (λ b. b < 256)

parts_of-done :
    (o : Result CoinBaseTransaction) {tx1 tx2 : Bytes}
    → parts_of o ≡ some (tx1, tx2)
    → (u : CoinBaseTransaction) × (o ≡ done u) × (tx1 ≡ u.coin_base_tx1) × (tx2 ≡ u.coin_base_tx2)
unfolding parts_of
parts_of-done panic e = absurd cc
parts_of-done failed e = absurd cc
parts_of-done (done u) e = (u, refl, cc, cc)

module _ (l : Library) (now : ℤ) (wallet cb_extras : Bytes) where
  parts-IsCoinbase :
      (reply : TemplateReply) (height : ℕ) (tx1 tx2 en1 en2 : Bytes)
      → PacksScripts l
      → coinbase_parts l now wallet cb_extras reply height ≡ some (tx1, tx2)
      → length en1 ≡ 4
      → length en2 ≡ 4
      → IsCoinbase l now wallet height reply.coin_base_value reply.flags cb_extras
          reply.default_witness_commitment en1 en2
          (tx1 ++ en1 ++ en2 ++ tx2)
  unfolding coinbase_parts
  parts-IsCoinbase reply height tx1 tx2 en1 en2 packs e h k =
      let (u, f, f1, f2) = parts_of-done _ e in
      rw (f1, f2)
        (initialize-IsCoinbase l now wallet reply.cur_time height reply.coin_base_value reply.flags
          cb_extras reply.default_witness_commitment en1 en2 packs f h k)

  -- The coinbase transaction that `DoubleSha256HashVerify` hashes, for a job that `fetchBlockTemplate`
  -- made, an extra nonce that `mining.subscribe` gave and a second one of eight digits, is read from
  -- the bytes of the one whole transaction that the node's reply, the pool's wallet and both nonces
  -- ask for.
  pub assemble-IsCoinbase :
      (p : Packages) (sha256 : Bytes → Bytes) (reply : TemplateReply) (height : ℕ)
      (branch : List Bytes) (tx1 tx2 : Bytes) (m : Submission) (id tag : ℕ) (t : BlockTemplate)
      (e_nonce2 n_time nonce : Bytes) (difficulty : ℤ) {cb_trx : p.Transaction} {header : Header}
      → PacksScripts l
      → coinbase_parts l now wallet cb_extras reply height ≡ some (tx1, tx2)
      → AreBytes tx1
      → AreBytes tx2
      → m.e_nonce1 ≡ extra_nonce1_of id tag
      → nonce_pattern e_nonce2 ≡ true
      → assemble p
          (block_of m t (make_job sha256 reply branch (tx1, tx2)) e_nonce2 n_time nonce difficulty)
        ≡ some (cb_trx, header)
      → (en1 : Bytes) × (en2 : Bytes) × (raw : Bytes) × (decode (extra_nonce1_of id tag) ≡ some en1)
        × (decode e_nonce2 ≡ some en2)
        × IsCoinbase l now wallet height reply.coin_base_value reply.flags cb_extras
            reply.default_witness_commitment en1 en2 raw
        × (p.unpack raw ≡ some cb_trx)
  unfolding block_of make_job extra_nonce1_of
  assemble-IsCoinbase p sha256 reply height branch tx1 tx2 m id tag t e_nonce2 n_time nonce
        difficulty packs e b1 b2 n1 n2 a =
      let (en1, f, h) = decode-hex8 (id * 2 ^ 16 + tag) in
      let (en2, g, k) = decode-nonce_pattern e_nonce2 n2 in
      (
        en1,
        en2,
        tx1 ++ en1 ++ en2 ++ tx2,
        f,
        g,
        parts-IsCoinbase reply height tx1 tx2 en1 en2 packs e h k,
        assemble-unpack p
            (block_of m t (make_job sha256 reply branch (tx1, tx2)) e_nonce2 n_time nonce
              difficulty)
            (decode-encode tx1 b1) (rw (n1) f) g (decode-encode tx2 b2) a,
      )

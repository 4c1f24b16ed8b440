-- ===== src/Bitcoin/Coinbase/Initialize.antt =====
-- What `Initialize` leaves, and what `RecoverToRawTransaction` reads of it.
use btcpool.Common.{
  ℕ, ◌≡◌, refl, Bool, true, false, Option, some, [], ◌∷◌, ◌++◌, length, if◌then◌else◌,
}
use btcpool.Common.Int.{ℤ, pos}
use btcpool.Common.Bytes.{Bytes}
use btcpool.Common.Hex.{decode}
use btcpool.Common.Result.{Result, failed, done, or_fail, or_fail-elim, done-elim}
use btcpool.Bitcoin.Number.{pack_number}
use btcpool.Bitcoin.Coinbase.{
  Library, CoinBaseTransaction, get_coin_base_script, pack_string, initialize,
  recover_to_raw_transaction,
}
use btcpool.Bitcoin.Coinbase.Serialize.{
  PacksScripts, coinbase_tx, serialize, generate_coin_b-serialize,
}

module _ (l : Library) where
  -- `raw` is the coinbase transaction that these arguments and extra nonces ask for: its script has
  -- the height, the node's flags, the time, a push of eight bytes, which the extra nonces are, and
  -- the pool's text; it pays to the wallet, and commits to the witnesses where it is told to.
  abbrev pub IsCoinbase : ℤ → Bytes → ℕ → ℤ → Bytes → Bytes → Bytes → Bytes → Bytes → Bytes → Type 0
  IsCoinbase now wallet height value flags cb_extras commitment_hex en1 en2 raw =
      (flag : Bytes) × (extra : Bytes) × (script : Bytes) × (commitment : Bytes) × (decode flags
        ≡ some flag)
      × (pack_string l cb_extras ≡ done extra)
      × (get_coin_base_script l wallet ≡ done script)
      × (decode commitment_hex ≡ some commitment)
      × (serialize l (
            coinbase_tx
              (pack_number (pos height) ++ flag ++ pack_number now ++ 8 ∷ [] ++ en1 ++ en2 ++ extra)
              value script commitment)
          ≡ some raw)

  after_length :
      {x : Result CoinBaseTransaction} {u : CoinBaseTransaction} (b : Bool)
      → (if b then failed else x) ≡ done u
      → x ≡ done u
  after_length true e = absurd cc
  after_length false e = e

  pub initialize-IsCoinbase :
      (now : ℤ) (wallet : Bytes) (b_time height : ℕ) (value : ℤ)
      (flags cb_extras commitment : Bytes) {u : CoinBaseTransaction} (en1 en2 : Bytes)
      → PacksScripts l
      → initialize l now wallet b_time height value flags cb_extras commitment ≡ done u
      → length en1 ≡ 4
      → length en2 ≡ 4
      → IsCoinbase now wallet height value flags cb_extras commitment en1 en2
          (u.coin_base_tx1 ++ en1 ++ en2 ++ u.coin_base_tx2)
  unfolding initialize
  initialize-IsCoinbase now wallet b_time height value flags cb_extras commitment en1 en2 packs e h
        k =
      or_fail-elim (decode flags) _ e (λ flag f1 e1.
        done-elim (pack_string l cb_extras) _ e1 (λ extra f2 e2.
          done-elim (get_coin_base_script l wallet) _ e2 (λ script f3 e3.
            or_fail-elim (decode commitment) _ e3 (λ bytes f4 e4. (
              flag,
              extra,
              script,
              bytes,
              f1,
              f2,
              f3,
              f4,
              generate_coin_b-serialize l _ en1 en2 packs (after_length _ e4) h k,
            )))))

recover_done {ℓ} :
    {Transaction : Type ℓ} (unpack : Bytes → Option Transaction) (u : CoinBaseTransaction)
    (hex1 hex2 : Bytes) {en1 en2 : Bytes}
    → decode hex1 ≡ some en1
    → decode hex2 ≡ some en2
    → length en1 ≡ 4
    → length en2 ≡ 4
    → recover_to_raw_transaction unpack u hex1 hex2
      ≡ or_fail (unpack (u.coin_base_tx1 ++ en1 ++ en2 ++ u.coin_base_tx2))
unfolding recover_to_raw_transaction
recover_done unpack u hex1 hex2 f g h k = rw (f, g) (rw (h, k) refl)

-- Where `Initialize` succeeds, `RecoverToRawTransaction` reads, for two extra nonces of eight digits,
-- the bytes of the one whole transaction that the arguments and the nonces ask for.
pub recover_to_raw_transaction-IsCoinbase {ℓ} :
    {Transaction : Type ℓ} (l : Library) (unpack : Bytes → Option Transaction) (now : ℤ)
    (wallet : Bytes) (b_time height : ℕ) (value : ℤ) (flags cb_extras commitment : Bytes)
    (hex1 hex2 : Bytes) {u : CoinBaseTransaction} {en1 en2 : Bytes}
    → PacksScripts l
    → initialize l now wallet b_time height value flags cb_extras commitment ≡ done u
    → decode hex1 ≡ some en1
    → decode hex2 ≡ some en2
    → length en1 ≡ 4
    → length en2 ≡ 4
    → (raw : Bytes) × IsCoinbase l now wallet height value flags cb_extras commitment en1 en2 raw
      × (recover_to_raw_transaction unpack u hex1 hex2 ≡ or_fail (unpack raw))
recover_to_raw_transaction-IsCoinbase l unpack now wallet b_time height value flags cb_extras
      commitment hex1 hex2 {u} {en1} {en2} packs e f g h k =
    (
      u.coin_base_tx1 ++ en1 ++ en2 ++ u.coin_base_tx2,
      initialize-IsCoinbase l now wallet b_time height value flags cb_extras commitment en1 en2
          packs e h k,
      recover_done unpack u hex1 hex2 f g h k,
    )

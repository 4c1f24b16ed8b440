-- ===== src/Bitcoin/Coinbase/Total.antt =====
-- `Initialize` cannot panic: the only index that could be out of range is the first of a key, whose
-- text has 66 digits.
use btcpool.Common.{
  ℕ, ◌+◌, replicate, if◌then◌else◌, ◌==◌, ◌≡◌, ◌≢◌, not, ◌&&◌, [], ◌∷◌, length, take, drop, arith,
}
use btcpool.Common.Int.{ℤ, pos}
use btcpool.Common.Bytes.{Bytes}
use btcpool.Common.Hex.{decode, length-decode}
use btcpool.Common.Result.{panic, or_fail-total, done-total, if-total, failed-total, is_done}
use btcpool.Bitcoin.Coinbase.{
  Library, CoinBaseTransaction, key_script, pay_to_key_hash, pay_to_script_hash,
  get_coin_base_script_by_pub_key, get_coin_base_script_by_address, get_coin_base_script,
  pack_string, generate_coin_b, generate_coin_b1, generate_coin_b2, witness_vout, initialize,
}

module _ (l : Library) where
  key_script-total : (key : Bytes) → length key ≡ 33 → key_script l key ≢ panic
  unfolding key_script
  key_script-total [] h = absurd (omega arith)
  key_script-total (b ∷ key) h =
      if-total (not (b == 2) && not (b == 3)) _ _ (λ _. failed-total)
        (λ _.
          or_fail-total (l.pack_pub_key (b ∷ key)) _
            (λ _ _. or_fail-total (l.pack_byte l.op_checksig) _ (λ _ _. is_done)))

  key-total :
      (wallet : Bytes) → length wallet ≡ 66 → get_coin_base_script_by_pub_key l wallet ≢ panic
  unfolding get_coin_base_script_by_pub_key
  key-total wallet h =
      or_fail-total (decode wallet) _
        (λ key e. key_script-total key (omega (arith, length-decode wallet e)))

  pay_to_key_hash-total : (hash : Bytes) → pay_to_key_hash l hash ≢ panic
  unfolding pay_to_key_hash
  pay_to_key_hash-total hash = or_fail-total (l.pack_byte l.op_dup) _ (λ _ _.
      or_fail-total (l.pack_byte l.op_hash160) _ (λ _ _.
        or_fail-total (l.pack_key_id hash) _ (λ _ _.
          or_fail-total (l.pack_byte l.op_equalverify) _
            (λ _ _. or_fail-total (l.pack_byte l.op_checksig) _ (λ _ _. is_done)))))

  pay_to_script_hash-total : (hash : Bytes) → pay_to_script_hash l hash ≢ panic
  unfolding pay_to_script_hash
  pay_to_script_hash-total hash = or_fail-total (l.pack_byte l.op_hash160) _ (λ _ _.
      or_fail-total (l.pack_key_id hash) _
        (λ _ _. or_fail-total (l.pack_byte l.op_equal) _ (λ _ _. is_done)))

  address-total : (address : Bytes) → get_coin_base_script_by_address l address ≢ panic
  unfolding get_coin_base_script_by_address
  address-total address = or_fail-total (l.base58 address) _ (λ a _ e. ground (
    arith,
    pay_to_key_hash-total (drop 1 (take 21 a)),
    pay_to_script_hash-total (drop 1 (take 21 a)),
  ))

  wallet-total : (wallet : Bytes) → get_coin_base_script l wallet ≢ panic
  unfolding get_coin_base_script
  wallet-total wallet =
      if-total (length wallet == 66) _ _ (λ e. key-total wallet (ground arith))
        (λ _. address-total wallet)

  first-total : (t : CoinBaseTransaction) → generate_coin_b1 l t ≢ panic
  unfolding generate_coin_b1
  first-total t = or_fail-total (l.pack_int32 (pos 2)) _ (λ _ _.
      or_fail-total (l.pack_compact_size 1) _ (λ _ _.
        or_fail-total (l.set_hex (replicate 64 b'0')) _ (λ hash _.
          or_fail-total (l.pack_out_point hash 0xFFFFFFFF) _ (λ _ _.
            or_fail-total
              (l.pack_compact_size (length t.vin_script1 + 4 + 4 + length t.vin_script2)) _
              (λ _ _. is_done)))))

  witness_vout-total : (commitment : Bytes) → witness_vout l commitment ≢ panic
  unfolding witness_vout
  witness_vout-total commitment =
      if-total (length commitment == 0) _ _ (λ _. is_done)
        (λ _.
          or_fail-total (l.pack_int64 (pos 0)) _
            (λ _ _. or_fail-total (l.pack_script commitment) _ (λ _ _. is_done)))

  second-total : (t : CoinBaseTransaction) → generate_coin_b2 l t ≢ panic
  unfolding generate_coin_b2
  second-total t = or_fail-total (l.pack_uint32 0) _ (λ _ _.
      or_fail-total
        (l.pack_compact_size (if length t.default_witness_commitment == 0 then 1 else 2)) _
        (λ _ _. or_fail-total (l.pack_int64 t.reward_value) _ (λ _ _.
          or_fail-total (l.pack_script t.vout_script) _ (λ _ _.
            done-total (witness_vout l t.default_witness_commitment) _
              (witness_vout-total t.default_witness_commitment)
              (λ _. or_fail-total (l.pack_uint32 0) _ (λ _ _. is_done))))))

  generate-total : (t : CoinBaseTransaction) → generate_coin_b l t ≢ panic
  unfolding generate_coin_b
  generate-total t =
      done-total (generate_coin_b1 l t) _ (first-total t)
        (λ _. done-total (generate_coin_b2 l t) _ (second-total t) (λ _. is_done))

  pack_string-total : (s : Bytes) → pack_string l s ≢ panic
  unfolding pack_string
  pack_string-total s = or_fail-total (l.pack_compact_size (length s)) _ (λ _ _. is_done)

  -- `Initialize` panics for no wallet, flags, text and commitment.
  pub initialize-total :
      (now : ℤ) (wallet : Bytes) (b_time height : ℕ) (value : ℤ)
      (flags cb_extras commitment : Bytes)
      → initialize l now wallet b_time height value flags cb_extras commitment ≢ panic
  unfolding initialize
  initialize-total now wallet b_time height value flags cb_extras commitment =
      or_fail-total (decode flags) _ (λ _ _.
        done-total (pack_string l cb_extras) _ (pack_string-total cb_extras) (λ _.
          done-total (get_coin_base_script l wallet) _ (wallet-total wallet) (λ _.
            or_fail-total (decode commitment) _ (λ bytes _.
              if-total (not (length bytes == 38) && not (length bytes == 0)) _ _ (λ _. failed-total)
                (λ _. generate-total _)))))

-- ===== src/Bitcoin/Coinbase/Serialize.antt =====
-- The two parts of a coinbase transaction, with the extra nonces between them, against the bytes of
-- a whole transaction.
use btcpool.Common.{
  ℕ, suc, false, ◌+◌, ◌==◌, ◌≡◌, refl, ap, ◌∙◌, Option, some, List, [], ◌∷◌, ◌++◌, append_assoc,
  append-nil, length, length-append, replicate, if◌then◌else◌, ◌>>=◌, arith,
}
use btcpool.Common.Int.{ℤ, pos}
use btcpool.Common.Bytes.{Bytes}
use btcpool.Common.Result.{done, or_fail-elim, done-elim}
use btcpool.Bitcoin.Coinbase.{
  Library, CoinBaseTransaction, generate_coin_b, generate_coin_b1, generate_coin_b2, witness_vout,
}

pub record TxIn : Type 0 where
  pub prev_hash : Bytes
  pub prev_n : ℕ
  pub script : Bytes
  pub sequence : ℕ

pub record TxOut : Type 0 where
  pub value : ℤ
  pub script : Bytes

pub record Tx : Type 0 where
  pub version : ℤ
  pub vin : List TxIn
  pub vout : List TxOut
  pub lock_time : ℕ

module _ (l : Library) where
  abbrev pub pack_vin : List TxIn → Option Bytes
  pack_vin [] = some []
  pack_vin (i ∷ vin) = do
    hash ← l.set_hex i.prev_hash
    prev_out ← l.pack_out_point hash i.prev_n
    script ← l.pack_script i.script
    sequence ← l.pack_uint32 i.sequence
    rest ← pack_vin vin
    some (prev_out ++ script ++ sequence ++ rest)

  abbrev pub pack_vout : List TxOut → Option Bytes
  pack_vout [] = some []
  pack_vout (o ∷ vout) = do
    value ← l.pack_int64 o.value
    script ← l.pack_script o.script
    rest ← pack_vout vout
    some (value ++ script ++ rest)

  -- A transaction's bytes, without witnesses.
  abbrev pub serialize : Tx → Option Bytes
  serialize tx = do
    version ← l.pack_int32 tx.version
    vin_count ← l.pack_compact_size (length tx.vin)
    vin ← pack_vin tx.vin
    vout_count ← l.pack_compact_size (length tx.vout)
    vout ← pack_vout tx.vout
    lock_time ← l.pack_uint32 tx.lock_time
    some (version ++ vin_count ++ vin ++ vout_count ++ vout ++ lock_time)

  -- How `Pack` writes a script: its size, then its bytes.
  abbrev pub PacksScripts : Type 0
  PacksScripts =
      (s size : Bytes)
      → l.pack_compact_size (length s) ≡ some size
      → l.pack_script s ≡ some (size ++ s)

-- The outputs of a coinbase transaction: the reward, and the commitment where it is not empty.
abbrev pub coinbase_vout : ℤ → Bytes → Bytes → List TxOut
coinbase_vout value script [] = record { value = value; script = script } ∷ []
coinbase_vout value script (b ∷ commitment) =
    record { value = value; script = script }
    ∷ record { value = pos 0; script = b ∷ commitment }
    ∷ []

-- A coinbase transaction: one input, of no output that exists, whose script is free.
abbrev pub coinbase_tx : Bytes → ℤ → Bytes → Bytes → Tx
coinbase_tx vin_script value script commitment = record {
  version = pos 2;
  vin =
      record {
        prev_hash = replicate 64 b'0';
        prev_n = 0xFFFFFFFF;
        script = vin_script;
        sequence = 0;
      }
      ∷ [];
  vout = coinbase_vout value script commitment;
  lock_time = 0;
}

-- The length that the first part announces is that of the script with both extra nonces in it.
script_length :
    (v1 en1 en2 v2 : Bytes)
    → length en1 ≡ 4
    → length en2 ≡ 4
    → length v1 + 4 + 4 + length v2 ≡ length (v1 ++ en1 ++ en2 ++ v2)
script_length v1 en1 en2 v2 h k =
    rw (length-append (v1 ++ en1 ++ en2) v2, length-append (v1 ++ en1) en2, length-append v1 en1)
      (omega arith)

rejoin :
    (version count out size v1 en1 en2 v2 sequence vout_count vout : Bytes)
    → version
        ++ count
        ++ (out ++ (size ++ (v1 ++ en1 ++ en2 ++ v2)) ++ sequence ++ [])
        ++ vout_count
        ++ vout
        ++ sequence
      ≡ (version ++ count ++ out ++ size ++ v1)
        ++ en1
        ++ en2
        ++ (v2 ++ sequence ++ vout_count ++ vout ++ sequence)
rejoin version count out size v1 en1 en2 v2 sequence vout_count vout =
    simp (append_assoc, append-nil)

rejoin_vout :
    (s value script witness rest : Bytes)
    → s ++ value ++ script ++ witness ++ rest ≡ s ++ (value ++ script ++ witness) ++ rest
rejoin_vout s value script witness rest = simp (append_assoc)

module _ (l : Library) (t : CoinBaseTransaction) where
  -- What the two parts hold.
  abbrev First : Bytes → Bytes → Bytes → Bytes → Bytes → Bytes → Type 0
  First tx1 version vin_count hash prev_out size =
      (l.pack_int32 (pos 2) ≡ some version)
      × (l.pack_compact_size 1 ≡ some vin_count)
      × (l.set_hex (replicate 64 b'0') ≡ some hash)
      × (l.pack_out_point hash 0xFFFFFFFF ≡ some prev_out)
      × (l.pack_compact_size (length t.vin_script1 + 4 + 4 + length t.vin_script2) ≡ some size)
      × (tx1 ≡ version ++ vin_count ++ prev_out ++ size ++ t.vin_script1)

  generate_coin_b1-First :
      (tx1 : Bytes)
      → generate_coin_b1 l t ≡ done tx1
      → (version : Bytes) × (vin_count : Bytes) × (hash : Bytes) × (prev_out : Bytes)
        × (size : Bytes) × First tx1 version vin_count hash prev_out size
  unfolding generate_coin_b1
  generate_coin_b1-First tx1 e = or_fail-elim _ _ e (λ version f1 e1.
      or_fail-elim _ _ e1 (λ vin_count f2 e2. or_fail-elim _ _ e2 (λ hash f3 e3.
        or_fail-elim _ _ e3 (λ prev_out f4 e4.
          or_fail-elim _ _ e4
            (λ size f5 e5. (version, vin_count, hash, prev_out, size, (f1, f2, f3, f4, f5, cc)))))))

  abbrev Second : Bytes → Bytes → Bytes → Bytes → Bytes → Type 0
  Second tx2 sequence vout_count vout lock_time =
      (l.pack_uint32 0 ≡ some sequence)
      × (l.pack_compact_size
            (length (coinbase_vout t.reward_value t.vout_script t.default_witness_commitment))
          ≡ some vout_count)
      × (pack_vout l (coinbase_vout t.reward_value t.vout_script t.default_witness_commitment)
          ≡ some vout)
      × (l.pack_uint32 0 ≡ some lock_time)
      × (tx2 ≡ t.vin_script2 ++ sequence ++ vout_count ++ vout ++ lock_time)

  vout_length :
      (c : Bytes) {n : ℕ}
      → (if length c == 0 then 1 else 2) ≡ n
      → length (coinbase_vout t.reward_value t.vout_script c) ≡ n
  vout_length [] h = h
  vout_length (b ∷ c) h = ground arith

  vout_part :
      (value script witness : Bytes) (c : Bytes)
      → l.pack_int64 t.reward_value ≡ some value
      → l.pack_script t.vout_script ≡ some script
      → witness_vout l c ≡ done witness
      → pack_vout l (coinbase_vout t.reward_value t.vout_script c)
        ≡ some (value ++ script ++ witness)
  unfolding witness_vout
  vout_part value script witness [] f g e = rw (f, g) (ap some (ap (λ x. value ++ script ++ x) cc))
  vout_part value script witness (b ∷ c) f g e =
      or_fail-elim (l.pack_int64 (pos 0)) _ (rw (suc_not_zero (length c)) at e) (λ value2 f2 e2.
        or_fail-elim (l.pack_script (b ∷ c)) _ e2
          (λ script2 g2 e3. rw (f, g, f2, g2) (cc (append-nil (value2 ++ script2)))))
    where
      suc_not_zero : (n : ℕ) → (suc n == 0) ≡ false
      suc_not_zero n = ground arith

  generate_coin_b2-Second :
      (tx2 : Bytes)
      → generate_coin_b2 l t ≡ done tx2
      → (sequence : Bytes) × (vout_count : Bytes) × (vout : Bytes) × (lock_time : Bytes) × Second
          tx2 sequence vout_count vout lock_time
  unfolding generate_coin_b2
  generate_coin_b2-Second tx2 e = or_fail-elim _ _ e (λ sequence f1 e1.
      or_fail-elim _ _ e1 (λ vout_count f2 e2. or_fail-elim _ _ e2 (λ value f3 e3.
        or_fail-elim _ _ e3 (λ script f4 e4. done-elim _ _ e4 (λ witness f5 e5.
          or_fail-elim _ _ e5 (λ lock_time f6 e6. (
            sequence,
            vout_count,
            value ++ script ++ witness,
            lock_time,
            (
              f1,
              rw (vout_length t.default_witness_commitment refl) f2,
              vout_part value script witness t.default_witness_commitment f3 f4 f5,
              f6,
              cc (
                  rejoin_vout (t.vin_script2 ++ sequence ++ vout_count) value script witness
                    lock_time),
            ),
          )))))))

  -- Where `_generateCoinB` succeeds, its parts around two extra nonces are a whole transaction.
  pub generate_coin_b-serialize :
      {u : CoinBaseTransaction} (en1 en2 : Bytes)
      → PacksScripts l
      → generate_coin_b l t ≡ done u
      → length en1 ≡ 4
      → length en2 ≡ 4
      → serialize l (
          coinbase_tx
            (t.vin_script1 ++ en1 ++ en2 ++ t.vin_script2)
            t.reward_value
            t.vout_script
            t.default_witness_commitment)
        ≡ some (u.coin_base_tx1 ++ en1 ++ en2 ++ u.coin_base_tx2)
  unfolding generate_coin_b
  generate_coin_b-serialize {u} en1 en2 packs g h k =
      done-elim (generate_coin_b1 l t) _ g (λ tx1 e1 g1.
        done-elim (generate_coin_b2 l t) _ g1 (λ tx2 e2 g2.
          let (version, vin_count, hash, prev_out, size, (f1, f2, f3, f4, f5, f6)) =
            generate_coin_b1-First tx1 e1 in
          let (sequence, vout_count, vout, lock_time, (i1, i2, i3, i4, i5)) =
            generate_coin_b2-Second tx2 e2 in
          let script_eq =
            packs (t.vin_script1 ++ en1 ++ en2 ++ t.vin_script2) size
              (rw (← script_length t.vin_script1 en1 en2 t.vin_script2 h k) f5) in
          rw (f1, f2, f3, f4, script_eq, i1, i2, i3)
            (ap some (
              rejoin version vin_count prev_out size t.vin_script1 en1 en2 t.vin_script2 sequence
                vout_count vout
              ∙ cc))))

-- ===== src/Proxy/Work/Submitted.antt =====
-- The raw block that is submitted carries the header whose hash was tested.
use btcpool.Common.{
  ◌≡◌, refl, true, Option, some, List, [], ◌∷◌, ◌++◌, append_assoc, append-nil, map_all, ◌>>=◌,
  arith, Option-cases, inl, inr,
}
use btcpool.Common.Int.{ℤ, ltb_ℤ}
use btcpool.Common.Bytes.{Bytes}
use btcpool.Proxy.Work.{
  Block, BlockTemplateJob, BlockTemplate, Header, Packages, lookup, assemble, hash_diff,
  double_sha256_hash_verify, add_transactions, construct_raw_block_hex,
}

module _ (p : Packages) where
  -- The transaction of a name, as the template gives it.
  abbrev pub detail : List (Bytes × Bytes) → Bytes → Option p.Transaction
  detail details id = lookup id details >>= p.unpack_from_hex

  add_transactions-map_all :
      (ids : List Bytes) (details : List (Bytes × Bytes)) (vtx : List p.Transaction)
      {txs : List p.Transaction}
      → map_all (detail details) ids ≡ some txs
      → add_transactions p ids details vtx ≡ some (some (vtx ++ txs))
  unfolding add_transactions map_all
  add_transactions-map_all [] details vtx e = ground (arith, append-nil vtx)
  add_transactions-map_all (id ∷ ids) details vtx {txs} e =
      elim (Option-cases (detail details id)) [
        | inl f ↦ ground arith
        | inr (trx, f) ↦ elim (Option-cases (map_all (detail details) ids)) [
          | inl g ↦ ground arith
          | inr (rest, g) ↦ ground (
            arith,
            add_transactions-map_all ids details (vtx ++ trx ∷ []) g,
            append_assoc vtx (trx ∷ []) rest,
          )
        ]
      ]

  -- What an accepted block is: it can be assembled and packed, and its hash beats the difficulty.
  abbrev pub IsAccepted : Block → p.Transaction → Header → Bytes → ℤ → Type 0
  IsAccepted b cb_trx header packed d =
      (assemble p b ≡ some (cb_trx, header))
      × (p.pack_header header ≡ some packed)
      × (hash_diff p packed ≡ some d)
      × (ltb_ℤ b.difficulty d ≡ true)

  double_sha256_hash_verify-IsAccepted :
      (b : Block)
      → double_sha256_hash_verify p b ≡ some true
      → (cb_trx : p.Transaction) × (header : Header) × (packed : Bytes) × (d : ℤ) × IsAccepted b
          cb_trx header packed d
  unfolding double_sha256_hash_verify
  double_sha256_hash_verify-IsAccepted b v = elim (Option-cases (assemble p b)) [
    | inl e ↦ ground arith
    | inr ((cb_trx, header), e) ↦ elim (Option-cases (p.pack_header header)) [
      | inl f ↦ ground arith
      | inr (packed, f) ↦ elim (Option-cases (hash_diff p packed)) [
        | inl g ↦ ground arith
        | inr (d, g) ↦ (cb_trx, header, packed, d, (e, f, g, ground arith))
      ]
    ]
  ]

  -- Where `DoubleSha256HashVerify` accepts a block, and every transaction of the job is known and can
  -- be read, the block that `ConstructRawBlockHex` packs has the header whose hash was tested, the
  -- coinbase transaction first, and the job's transactions behind it in their order.
  pub construct_raw_block_hex-Verified :
      (b : Block) (job : BlockTemplateJob) (tpl : BlockTemplate) {txs : List p.Transaction}
      → double_sha256_hash_verify p b ≡ some true
      → map_all (detail tpl.tx_detail_map) job.tx_id_list ≡ some txs
      → (header : Header) × (cb_trx : p.Transaction) × (packed : Bytes) × (d : ℤ) × (p.pack_header
            header
          ≡ some packed)
        × (hash_diff p packed ≡ some d)
        × (ltb_ℤ b.difficulty d ≡ true)
        × (construct_raw_block_hex p b job tpl ≡ p.pack_block header (cb_trx ∷ txs))
  unfolding construct_raw_block_hex
  construct_raw_block_hex-Verified b job tpl {txs} v e =
      let (cb_trx, header, packed, d, (assembled, fits, hashed, beats)) =
        double_sha256_hash_verify-IsAccepted b v in
      let all = add_transactions-map_all job.tx_id_list tpl.tx_detail_map (cb_trx ∷ []) e in
      (header, cb_trx, packed, d, fits, hashed, beats, rw (assembled, all) refl)

-- ===== src/Payouts/Unlocker/Split.antt =====
-- What `unlockCandidates` makes of the candidates.
use mathlib.Core.List.{Perm, perm_middle}
use mathlib.Core.List.Perm
use btcpool.Common.{
  ◌≡◌, refl, Bool, true, false, Option, none, some, List, [], ◌∷◌, ◌++◌, map, All, arith, inl, inr,
  Option-cases, if◌then◌else◌,
}
use btcpool.Common.Int.{ℤ, ◌+ℤ◌}
use btcpool.Common.Bytes.{Bytes}
use btcpool.Storage.Keys.{BlockData}
use btcpool.Payouts.Rewards.{Config, handle_block}
use btcpool.Payouts.Unlocker.{
  Result, ok, err, panic, Services, NodeBlock, is_mature, mature, node_block, unlock_candidates,
  ◌>>=◌, pure, or_panic, or_fail, node_error, continue, place, place_as, Action,
}

-- A candidate is known by its round and nonce.
abbrev pub round_id : BlockData → ℤ × Bytes
round_id b = (b.round_height, b.nonce)

-- What a matured block brings: the value of its coinbase, and the fees unless they are kept.
abbrev pub revenue : Config → BlockData → Option ℤ
revenue c b = elim b.coin_base_value [
  | none ↦ none
  | some value ↦ elim b.blk_total_fee [
    | none ↦ none
    | some fee ↦ some (if c.keep_tx_fees then value else value +ℤ fee)
  ]
]

module _ (c : Config) (sv : Services) (s : sv.St) where
  -- The node's block at the height of `b`.
  abbrev pub NodeHas : BlockData → Bytes → NodeBlock → Type 0
  NodeHas b hash block =
      (sv.block_hash b.height s ≡ some hash) × (sv.block_by_hash hash s ≡ some (some block))

  abbrev pub IsMatured : BlockData → Type 0
  IsMatured b =
      (hash : Bytes) × (block : NodeBlock) × NodeHas b hash block
      × (is_mature block b ≡ true)
      × (b.orphan ≡ false)
      × (b.hash ≡ block.hash)
      × (b.reward ≡ revenue c b)

  abbrev pub IsOrphaned : BlockData → Type 0
  IsOrphaned b =
      (hash : Bytes) × (block : NodeBlock) × NodeHas b hash block
      × (is_mature block b ≡ false)
      × (b.orphan ≡ true)

module _ (c : Config) (prefix : Bytes) (sv : Services) where
  -- What a result says of the candidates: each is in one of the two lists, once; and the state is
  -- the same.
  abbrev pub Splits :
      List BlockData → sv.St → Result (List BlockData × List BlockData) × sv.St → Type 0
  Splits cs s (ok (ms, os), s') =
      Perm (map round_id (ms ++ os)) (map round_id cs)
      × All (IsMatured c sv s) ms
      × All (IsOrphaned c sv s) os
      × (s' ≡ s)
  Splits cs s (err e, s') = s' ≡ s
  Splits cs s (panic, s') = s' ≡ s

  mature_lem :
      (block : NodeBlock) (b m : BlockData)
      → mature c prefix sv block b ≡ some m
      → (m.orphan ≡ false)
        × (m.hash ≡ block.hash)
        × (m.reward ≡ revenue c m)
        × (m.height ≡ b.height)
        × (m.nonce ≡ b.nonce)
        × (m.round_height ≡ b.round_height)
  unfolding mature handle_block
  mature_lem block b m h = elim (Option-cases b.coin_base_value) [
    | inl e ↦ ground arith
    | inr (value, e) ↦ elim (Option-cases b.blk_total_fee) [
      | inl e' ↦ ground arith
      | inr (fee, e') ↦ ground arith
    ]
  ]

  add_matured :
      (b m : BlockData) (cs : List BlockData) (s : sv.St)
      (r : Result (List BlockData × List BlockData) × sv.St)
      → IsMatured c sv s m
      → round_id m ≡ round_id b
      → Splits cs s r
      → Splits (b ∷ cs) s (continue r (λ (ms, os). pure (m ∷ ms, os)))
  add_matured b m cs s (ok (ms, os), s') im e h = (rw e (Perm.cons _ h.0), (im, h.1), h.2, h.3)
  add_matured b m cs s (err e, s') im e' h = h
  add_matured b m cs s (panic, s') im e' h = h

  add_orphaned :
      (b : BlockData) (cs : List BlockData) (s : sv.St)
      (r : Result (List BlockData × List BlockData) × sv.St)
      → IsOrphaned c sv s (record b { orphan = true })
      → Splits cs s r
      → Splits (b ∷ cs) s (continue r (λ (ms, os). pure (ms, record b { orphan = true } ∷ os)))
  add_orphaned b cs s (ok (ms, os), s') io h =
      (Perm.trans (Perm.map round_id (perm_middle ms os)) (Perm.cons _ h.0), h.1, (io, h.2), h.3)
  add_orphaned b cs s (err e, s') io h = h
  add_orphaned b cs s (panic, s') io h = h

  place_as-Splits :
      (test : Bool) (b : BlockData) (hash : Bytes) (block : NodeBlock) (cs : List BlockData)
      (later : Action sv.St (List BlockData × List BlockData)) (s : sv.St)
      → NodeHas c sv s b hash block
      → is_mature block b ≡ test
      → Splits cs s (later s)
      → Splits (b ∷ cs) s (place_as c prefix sv test b later block s)
  unfolding place_as is_mature
  place_as-Splits false b hash block cs later s has e h =
      add_orphaned b cs s (later s) (hash, block, has, e, refl) h
  place_as-Splits true b hash block cs later s has e h = go (mature c prefix sv block b) refl
    where
      go :
          (o : Option BlockData)
          → mature c prefix sv block b ≡ o
          → Splits
              (b ∷ cs)
              s
              (continue (or_panic o s) (λ m. later >>= λ (ms, os). pure (m ∷ ms, os)))
      go none e' = refl
      go (some m) e' =
          let (orphan, same_hash, reward, height, nonce, round) = mature_lem block b m e' in
          add_matured b m cs s (later s)
            (hash, block, (rw height has.0, has.1), rw nonce e, orphan, same_hash, reward)
            (cc (round, nonce)) h

  -- `unlockCandidates` changes nothing, and where it returns its lists, each candidate stands in
  -- exactly one, with its round and nonce. A block is in the first list if its nonce is that of the
  -- node's block at its height: it has the node's hash, is no orphan, and its reward is the coinbase
  -- value, with the fees unless they are kept. In the other list the nonce is another, and the block
  -- is marked as an orphan.
  pub unlock_candidates-Splits :
      (cs : List BlockData) (s : sv.St) → Splits cs s (unlock_candidates c prefix sv cs s)
  unfolding unlock_candidates node_block place
  unlock_candidates-Splits [] s = (Perm.refl [], tt, tt, refl)
  unlock_candidates-Splits (b ∷ cs) s =
      by_hash (unlock_candidates-Splits cs s) (sv.block_hash b.height s) refl
    where
      later : Action sv.St (List BlockData × List BlockData)
      later = unlock_candidates c prefix sv cs

      by_block :
          Splits cs s (later s)
          → (hash : Bytes) → sv.block_hash b.height s ≡ some hash
          → (o : Option (Option NodeBlock)) → sv.block_by_hash hash s ≡ o
          → Splits (b ∷ cs) s (
              continue
                (continue (or_fail node_error (λ _. o) s) or_panic)
                (place c prefix sv b later))
      by_block ih hash e none e' = refl
      by_block ih hash e (some none) e' = refl
      by_block ih hash e (some (some block)) e' =
          place_as-Splits (is_mature block b) b hash block cs later s (e, e') refl ih

      by_hash :
          Splits cs s (later s)
          → (o : Option Bytes) → sv.block_hash b.height s ≡ o
          → Splits (b ∷ cs) s (
              continue
                (continue
                  (or_fail node_error (λ _. o) s)
                  (λ hash. or_fail node_error (sv.block_by_hash hash) >>= or_panic))
                (place c prefix sv b later))
      by_hash ih none e = refl
      by_hash ih (some hash) e = by_block ih hash e (sv.block_by_hash hash s) refl

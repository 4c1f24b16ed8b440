-- ===== src/Storage/Luck.antt =====
-- storage/redis.go: `CollectLuckStats`, for any arithmetic of float64.
pub mod Windows
pub mod Rows
use btcpool.Common.{
  ℕ, suc, ◌-◌, Bool, true, false, Option, none, some, List, [], ◌∷◌, ◌++◌, ltb, length, get_elem?,
  if◌then◌else◌,
}
use btcpool.Common.Int.{ℤ, pos, negsuc, ◌-ℤ◌, ltb_ℤ, wrap64}
use btcpool.Common.Bytes.{Bytes, codes}
use btcpool.Common.Decimal.{format_int}
use btcpool.Common.Float.{Float64}
use btcpool.Common.Result.{Result, panic, failed, done, ◌>>=◌}
use btcpool.Storage.Keys.{BlockData, str, format_key}
use btcpool.Storage.Rows.{convert_block_results}
use btcpool.Storage.Commands.{Cmd, zrev_range, Redis}
use btcpool.Storage.Reads.{or_panic}
use btcpool.Storage.Stats.{update_entry}
use btcpool.Storage.Collect.{rows_val}

abbrev last_index : List ℤ → ℕ
last_index windows = length windows - 1

-- What `calcLuck` counts, as numbers of Go.
pub record Luck (F : Type 0) : Type 0 where
  pub total : ℕ
  pub shares_diff : F
  pub uncles : F
  pub orphans : F

module _ (f : Float64) where
  open f use {Float}

  -- The zero values.
  abbrev pub no_luck : Luck Float
  no_luck = record {
    total = 0;
    shares_diff = f.of_int (pos 0);
    uncles = f.of_int (pos 0);
    orphans = f.of_int (pos 0);
  }

  -- One round of the loop, on its block.
  unfoldable pub count_block : BlockData → Luck Float → Luck Float
  count_block block l = record {
    total = suc l.total;
    shares_diff =
        f.add l.shares_diff (f.div (f.of_int block.total_shares) (f.of_int block.difficulty));
    uncles = if block.uncle then f.add l.uncles (f.of_int (pos 1)) else l.uncles;
    orphans = if block.orphan then f.add l.orphans (f.of_int (pos 1)) else l.orphans;
  }

  -- The loop from index `i`, which stops at the window.
  unfoldable pub luck_loop : ℤ → ℕ → List BlockData → Luck Float → Luck Float
  luck_loop max i [] l = l
  luck_loop max i (block ∷ blocks) l =
      let rest = luck_loop max (suc i) blocks (count_block block l) in
      if ltb_ℤ (wrap64 (max -ℤ pos 1)) (pos i) then l else rest

  -- The quotients by the number of blocks.
  unfoldable pub average : Luck Float → Luck Float
  average l =
      if ltb 0 l.total
      then (let n = f.of_int (pos l.total) in
          record l {
            shares_diff = f.div l.shares_diff n;
            uncles = f.div l.uncles n;
            orphans = f.div l.orphans n;
          })
      else l

  -- `calcLuck`
  unfoldable pub calc_luck : List BlockData → ℤ → Luck Float
  calc_luck blocks max = average (luck_loop max 0 blocks no_luck)

  -- The loop over the windows: a row under its number of blocks, up to a window that is not full.
  unfoldable pub luck_rows :
      List BlockData → List ℤ → List (Bytes × Luck Float) → List (Bytes × Luck Float)
  luck_rows blocks [] stats = stats
  luck_rows blocks (max ∷ windows) stats =
      let row = calc_luck blocks max in
      let stats' = update_entry (format_int (pos row.total)) row (λ _. row) stats in
      let rest = luck_rows blocks windows stats' in
      if ltb_ℤ (pos row.total) max then stats' else rest

  module _ (r : Redis) (prefix : Bytes) where
    open r use {Store, exec}

    -- `CollectLuckStats`; without a window, the last one is out of range.
    unfoldable pub collect_luck_stats : List ℤ → Store → Result (List (Bytes × Luck Float)) × Store
    collect_luck_stats windows s = elim (get_elem? windows (last_index windows)) [
      | none ↦ (panic, s)
      | some max ↦
          let (replies, s') =
            exec
              (zrev_range (format_key prefix (str (codes "blocks") ∷ str (codes "immature") ∷ []))
                  (negsuc 0)
                ∷ zrev_range (format_key prefix (str (codes "blocks") ∷ str (codes "matured") ∷ []))
                    (wrap64 (max -ℤ pos 1))
                ∷ [])
              s in
          (
            elim replies [
              | none ↦ failed
              | some cmds ↦ do
                blocks ← or_panic (
                    convert_block_results
                      (rows_val (get_elem? cmds 0) ++ rows_val (get_elem? cmds 1)))
                done (luck_rows blocks windows [])
            ],
            s',
          )
    ]

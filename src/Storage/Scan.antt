-- ===== src/Storage/Scan.antt =====
-- storage/redis.go: `GetPayees` and `FlushStaleStats`, whose loops run over the pages of SCAN. The
-- fuel is the number of pages; `stuck` says that it was not enough.
pub mod Ends
use btcpool.Common.{
  ℕ, zero, suc, Bool, true, false, Option, none, some, List, [], ◌∷◌, ◌++◌, get_elem?,
  if◌then◌else◌,
}
use btcpool.Common.Int.{ℤ, pos, ◌-ℤ◌, eq_ℤ, add64, wrap64}
use btcpool.Common.Bytes.{Bytes, codes, split, string_in_slice}
use btcpool.Storage.Keys.{str, format_key}
use btcpool.Storage.Commands.{Cmd, zrem_below, scan, Reply, int, page, Redis}

-- `strings.Split(row, ":")[2]`; `none` is a panic.
unfoldable pub login_of : Bytes → Option Bytes
login_of row = get_elem? (split row b':') 2

-- `payees[login] = struct{}{}` for the keys of a page.
unfoldable pub add_payees : List Bytes → List Bytes → Option (List Bytes)
add_payees [] payees = some payees
add_payees (row ∷ keys) payees = elim (login_of row) [
  | none ↦ none
  | some login ↦
      add_payees keys (if string_in_slice login payees then payees else payees ++ login ∷ [])
]

-- How a loop over pages ends.
pub data Payees : Type 0 where
  stuck panicked failed : Payees
  payees : List Bytes → Payees

-- What is left of a flush: nothing after a panic, the total and an error, or the total, the logins
-- that were met, and the store.
pub data Flush {ℓ} (Store : Type ℓ) : Type ℓ where
  stuck panicked : Flush Store
  halted : ℤ → Store → Flush Store
  flushed : ℤ → List Bytes → Store → Flush Store

module _ (r : Redis) (prefix : Bytes) where
  open r use {Store, call}

  -- The loop of `GetPayees` from a cursor.
  unfoldable pub payees_loop : ℕ → ℤ → List Bytes → Store → Payees
  payees_loop zero c found s = Payees.stuck
  payees_loop (suc fuel) c found s =
      let (reply, s') =
        call (scan c (format_key prefix (str (codes "miners") ∷ str (codes "*") ∷ []))) s in
      elim reply [
        | some (Reply.page c' keys) ↦ elim (add_payees keys found) [
          | none ↦ Payees.panicked
          | some found' ↦ elim (eq_ℤ c' (pos 0)) [
            | true ↦ payees found'
            | false ↦ payees_loop fuel c' found' s'
          ]
        ]
        | _ ↦ Payees.failed
      ]

  -- `GetPayees`
  unfoldable pub get_payees : ℕ → Store → Payees
  get_payees fuel s = payees_loop fuel (pos 0) [] s

  -- `ZRemRangeByScore` of a key, added to the total.
  unfoldable pub trim_set : Bytes → ℤ → ℤ → List Bytes → Store → Flush Store
  trim_set key bound total miners s =
      let (reply, s') = call (zrem_below key bound) s in
      elim reply [ some (Reply.int n) ↦ flushed (add64 total n) miners s' | _ ↦ halted total s' ]

  abbrev hashrate_of : Bytes → Bytes
  hashrate_of login = format_key prefix (str (codes "hashrate") ∷ str login ∷ [])

  -- The inner loop: each login that is new is trimmed.
  unfoldable pub flush_rows : ℤ → List Bytes → Flush Store → Flush Store
  flush_rows bound (row ∷ keys) (flushed total miners s) = elim (login_of row) [
    | none ↦ panicked
    | some login ↦ elim (string_in_slice login miners) [
      | true ↦ flush_rows bound keys (flushed total miners s)
      | false ↦ flush_rows bound keys (trim_set (hashrate_of login) bound total (login ∷ miners) s)
    ]
  ]
  flush_rows bound _ f = f

  -- The loop over the pages.
  unfoldable pub flush_loop : ℕ → ℤ → ℤ → Flush Store → Flush Store
  flush_loop zero bound c (flushed total miners s) = stuck
  flush_loop (suc fuel) bound c (flushed total miners s) =
      let (reply, s') =
        call (scan c (format_key prefix (str (codes "hashrate") ∷ str (codes "*") ∷ []))) s in
      elim reply [
        | some (Reply.page c' keys) ↦
            let f = flush_rows bound keys (flushed total miners s') in
            elim (eq_ℤ c' (pos 0)) [ true ↦ f | false ↦ flush_loop fuel bound c' f ]
        | _ ↦ halted total s'
      ]
  flush_loop fuel bound c f = f

  -- One set behind another.
  unfoldable pub trim_next : Bytes → ℤ → Flush Store → Flush Store
  trim_next key bound (flushed total miners s) =
      trim_set (format_key prefix (str key ∷ [])) bound total miners s
  trim_next key bound f = f

  -- `FlushStaleStats`, at a time in seconds.
  unfoldable pub flush_stale_stats : ℕ → ℤ → ℤ → ℤ → Store → Flush Store
  flush_stale_stats fuel now window large_window s =
      let bound = wrap64 (now -ℤ window) in
      flush_loop fuel (wrap64 (now -ℤ large_window)) (pos 0) (
        trim_next (codes "rejecthashrate") bound (
          trim_next (codes "invalidhashrate") bound
            (trim_next (codes "hashrate") bound (flushed (pos 0) [] s))))

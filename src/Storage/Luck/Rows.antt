-- ===== src/Storage/Luck/Rows.antt =====
-- The rows that `CollectLuckStats` of storage/redis.go gives, by their keys.
use btcpool.Common.{
  ℕ, ◌^◌, ◌<◌, ◌≤◌, ◌≡◌, refl, ◌∙◌, sym, false, some, List, [], ◌∷◌, length, map, arith, All,
  Bool-cases, inl, inr, if◌then◌else◌, after_if, subst,
}
use Prim.Native.Nat.{min}
use btcpool.Common.Int.{ℤ, pos, ltb_ℤ}
use btcpool.Common.Bytes.{Bytes, beq, eq_of_beq, beq_refl}
use btcpool.Common.Decimal.{format_int, parse_int-format_int}
use btcpool.Common.Float.{Float64}
use btcpool.Storage.Keys.{BlockData}
use btcpool.Storage.Stats.{update_entry}
use btcpool.Storage.Luck.{Luck, luck_rows}
use btcpool.Storage.Luck.Windows.{
  find_row, IsAscending, first_blocks, calc_luck-first_blocks, total-first_blocks,
}

abbrev key : ℕ → Bytes
key n = format_int (pos n)

key-injective : (m n : ℕ) → m < 2 ^ 63 → n < 2 ^ 63 → key m ≡ key n → m ≡ n
key-injective m n h k e =
    let read_m = parse_int-format_int (pos m) (omega arith, omega arith) in
    let read_n = parse_int-format_int (pos n) (omega arith, omega arith) in cc

module _ {ℓ} {A : Type ℓ} where
  find_row-same :
      (k : Bytes) (z a : A) (m : List (Bytes × A))
      → find_row k (update_entry k z (λ _. a) m) ≡ some a
  unfolding find_row update_entry
  find_row-same k z a [] = rw (beq_refl k) refl
  find_row-same k z a ((j, b) ∷ m) = elim (Bool-cases (beq j k)) [
    | inl e ↦ rw (e) (rw (e) refl)
    | inr e ↦ rw (e) (rw (e) (find_row-same k z a m))
  ]

  find_row-other :
      (k j : Bytes) (z a : A) (m : List (Bytes × A))
      → beq j k ≡ false
      → find_row k (update_entry j z (λ _. a) m) ≡ find_row k m
  unfolding find_row update_entry
  find_row-other k j z a [] h = rw (h) refl
  find_row-other k j z a ((i, b) ∷ m) h = elim (Bool-cases (beq i j)) [
    | inl e ↦ let apart : beq i k ≡ false = rw (eq_of_beq i j e) h in rw (e) (rw (apart) refl)
    | inr e ↦ elim (Bool-cases (beq i k)) [
      | inl g ↦ rw (e) (rw (g) refl)
      | inr g ↦ rw (e) (rw (g) (find_row-other k j z a m h))
    ]
  ]

module _ (f : Float64) (blocks : List BlockData) (few : length blocks < 2 ^ 63) where
  abbrev row : ℕ → Luck f.Float
  row n = first_blocks f blocks n

  -- The map with the row of a window in it.
  abbrev put_row : ℕ → List (Bytes × Luck f.Float) → List (Bytes × Luck f.Float)
  put_row n stats = update_entry (key n) (row n) (λ _. row n) stats

  luck_rows-next :
      (k : ℕ) (windows : List ℤ) (stats : List (Bytes × Luck f.Float))
      → k < 2 ^ 63
      → luck_rows f blocks (pos k ∷ windows) stats ≡ (
          if ltb_ℤ (pos (min k (length blocks))) (pos k)
          then put_row (min k (length blocks)) stats
          else luck_rows f blocks windows (put_row (min k (length blocks)) stats))
  unfolding luck_rows
  luck_rows-next k windows stats h =
      let total : (row (min k (length blocks))).total ≡ min k (length blocks) =
        total-first_blocks f (min k (length blocks)) blocks ∙ omega arith in
      rw (calc_luck-first_blocks f k blocks h, total) refl

  -- A row that is written already is written again with the same.
  find_row-put_row :
      (m n : ℕ) (stats : List (Bytes × Luck f.Float))
      → m < 2 ^ 63
      → n < 2 ^ 63
      → find_row (key n) stats ≡ some (row n)
      → find_row (key n) (put_row m stats) ≡ some (row n)
  find_row-put_row m n stats h k e = elim (Bool-cases (beq (key m) (key n))) [
    | inl g ↦
        let same : m ≡ n = key-injective m n h k (eq_of_beq (key m) (key n) g) in
        rw (same) (find_row-same (key n) (row n) (row n) stats)
    | inr g ↦ find_row-other (key n) (key m) (row m) (row m) stats g ∙ e
  ]

  luck_rows-keeps :
      (ks : List ℕ) (n : ℕ) (stats : List (Bytes × Luck f.Float))
      → n < 2 ^ 63
      → All (λ k. k < 2 ^ 63) ks
      → find_row (key n) stats ≡ some (row n)
      → find_row (key n) (luck_rows f blocks (map pos ks) stats) ≡ some (row n)
  luck_rows-keeps [] n stats h q e = unfold luck_rows in e
  luck_rows-keeps (k ∷ ks) n stats h (q, qs) e =
      let now = find_row-put_row (min k (length blocks)) n stats (omega arith) h e in
      rw (luck_rows-next k (map pos ks) stats q) (
        after_if (λ x. find_row (key n) x ≡ some (row n)) _ _ _ now
          (luck_rows-keeps ks n (put_row (min k (length blocks)) stats) h qs now))

  -- Every window is found under its number of blocks.
  abbrev pub HasRow : List (Bytes × Luck f.Float) → ℕ → Type 0
  HasRow stats k =
      find_row (format_int (pos (min k (length blocks)))) stats ≡ some (row (min k (length blocks)))

  -- A window that is not full has the row of all the blocks, as have those after it.
  larger-HasRow :
      (k : ℕ) (ks : List ℕ) (stats : List (Bytes × Luck f.Float))
      → length blocks < k
      → All (λ j. k ≤ j) ks
      → HasRow stats k
      → All (HasRow stats) ks
  larger-HasRow k [] stats h q e = tt
  larger-HasRow k (j ∷ ks) stats h (q, qs) e =
      let same : min j (length blocks) ≡ min k (length blocks) = omega arith in
      (rw (same) e, larger-HasRow k ks stats h qs e)

  -- For ascending windows, `CollectLuckStats` finds every window under its number of blocks, which is
  -- the window or that of all the blocks if there are fewer, with the averages over its first blocks.
  pub luck_rows-HasRow :
      (ks : List ℕ) (stats : List (Bytes × Luck f.Float))
      → All (λ k. k < 2 ^ 63) ks
      → IsAscending ks
      → All (HasRow (luck_rows f blocks (map pos ks) stats)) ks
  luck_rows-HasRow [] stats q a = tt
  luck_rows-HasRow (k ∷ ks) stats (q, qs) (a, rest) =
      let written =
        find_row-same (key (min k (length blocks))) (row (min k (length blocks)))
          (row (min k (length blocks))) stats in
      elim (Bool-cases (ltb_ℤ (pos (min k (length blocks))) (pos k))) [
        | inl e ↦
            subst (λ x. All (HasRow x) (k ∷ ks))
              (sym (luck_rows-next k (map pos ks) stats q ∙ rw (e) refl))
              (
                written,
                larger-HasRow k ks (put_row (min k (length blocks)) stats) (ground arith) a written,
              )
        | inr e ↦
            subst (λ x. All (HasRow x) (k ∷ ks))
              (sym (luck_rows-next k (map pos ks) stats q ∙ rw (e) refl))
              (
                luck_rows-keeps ks (min k (length blocks)) (put_row (min k (length blocks)) stats)
                    (omega arith) qs written,
                luck_rows-HasRow ks (put_row (min k (length blocks)) stats) qs rest,
              )
      ]

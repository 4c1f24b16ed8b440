-- ===== src/Storage/Scan/Ends.antt =====
-- The loops of `GetPayees` and `FlushStaleStats` in storage/redis.go, over a Redis whose cursor is 0
-- again after so many pages.
use btcpool.Common.{
  ℕ, zero, suc, ◌<◌, ◌≤◌, ◌≡◌, ◌≢◌, refl, Bool, true, false, Option, none, some, List, [], ◌∷◌, ◌⊎◌,
  inl, inr, arith, after_match,
}
use btcpool.Common.Int.{ℤ, pos, eq_ℤ}
use btcpool.Common.Bytes.{Bytes, codes, string_in_slice}
use btcpool.Storage.Keys.{str, format_key}
use btcpool.Storage.Commands.{zrem_below, scan, Reply, Redis}
use btcpool.Storage.Scan.{
  login_of, add_payees, Payees, payees_loop, get_payees, Flush, stuck, panicked, halted, flushed,
  trim_set, flush_rows, flush_loop, trim_next, flush_stale_stats,
}

after_page {ℓ κ} :
    {A : Type ℓ} (P : A → Type κ) (o : Option Reply) (f : ℤ → List Bytes → A) (z : A)
    → P z
    → ((c : ℤ) (keys : List Bytes) → o ≡ some (Reply.page c keys) → P (f c keys))
    → P (elim o [ some (Reply.page c keys) ↦ f c keys | _ ↦ z ])
after_page P none f z h k = h
after_page P (some (Reply.page c keys)) f z h k = k c keys refl
after_page P (some (Reply.int n)) f z h k = h
after_page P (some Reply.status) f z h k = h
after_page P (some (Reply.hash m)) f z h k = h
after_page P (some (Reply.rows m)) f z h k = h
after_page P (some (Reply.members m)) f z h k = h
after_page P (some (Reply.text m)) f z h k = h

after_int {ℓ κ} :
    {A : Type ℓ} (P : A → Type κ) (o : Option Reply) (f : ℤ → A) (z : A)
    → P z
    → ((n : ℤ) → P (f n))
    → P (elim o [ some (Reply.int n) ↦ f n | _ ↦ z ])
after_int P none f z h k = h
after_int P (some (Reply.page c keys)) f z h k = h
after_int P (some (Reply.int n)) f z h k = k n
after_int P (some Reply.status) f z h k = h
after_int P (some (Reply.hash m)) f z h k = h
after_int P (some (Reply.rows m)) f z h k = h
after_int P (some (Reply.members m)) f z h k = h
after_int P (some (Reply.text m)) f z h k = h

after_bool {ℓ κ} :
    {A : Type ℓ} (P : A → Type κ) (b : Bool) (x y : A)
    → (b ≡ true → P x)
    → (b ≡ false → P y)
    → P (elim b [ true ↦ x | false ↦ y ])
after_bool P true x y h k = h refl
after_bool P false x y h k = k refl

-- What Redis documents of an iteration: it has so many pages left at a cursor, a page that does not
-- end it leaves fewer, and the removal of members does not add any.
pub record Iteration (r : Redis) (pattern : Bytes) : Type 0 where
  pub left : r.Store → ℤ → ℕ
  pub shrinks :
      (c c' : ℤ) (keys : List Bytes) (s : r.Store)
      → (r.call (scan c pattern) s).0 ≡ some (Reply.page c' keys)
      → (eq_ℤ c' (pos 0) ≡ true) ⊎ (left (r.call (scan c pattern) s).1 c' < left s c)
  pub kept :
      (key : Bytes) (bound c : ℤ) (s : r.Store)
      → left (r.call (zrem_below key bound) s).1 c ≤ left s c

module _ (r : Redis) (prefix : Bytes)
    (i : Iteration r (format_key prefix (str (codes "hashrate") ∷ str (codes "*") ∷ []))) where
  -- A flush that is not stuck, with at most so many pages left at a cursor.
  Within : ℕ → ℤ → Flush r.Store → Type 0
  Within n c stuck = ⊥
  Within n c panicked = Unit
  Within n c (halted total s) = Unit
  Within n c (flushed total miners s) = i.left s c ≤ n

  trim_set-Within :
      (n : ℕ) (c : ℤ) (key : Bytes) (bound total : ℤ) (miners : List Bytes) (s : r.Store)
      → i.left s c ≤ n
      → Within n c (trim_set r prefix key bound total miners s)
  unfolding trim_set Within
  trim_set-Within n c key bound total miners s h =
      after_int (Within n c) (r.call (zrem_below key bound) s).0 _ _ tt
        (λ m. omega (arith, i.kept key bound c s))

  flush_rows-Within :
      (n : ℕ) (c bound : ℤ) (keys : List Bytes) (f : Flush r.Store)
      → Within n c f
      → Within n c (flush_rows r prefix bound keys f)
  unfolding flush_rows Within
  flush_rows-Within n c bound [] f h = h
  flush_rows-Within n c bound (row ∷ keys) stuck h = h
  flush_rows-Within n c bound (row ∷ keys) panicked h = h
  flush_rows-Within n c bound (row ∷ keys) (halted total s) h = h
  flush_rows-Within n c bound (row ∷ keys) (flushed total miners s) h =
      after_match (Within n c) (login_of row) _ _ tt (λ login.
        after_bool (Within n c) (string_in_slice login miners) _ _
          (λ _. flush_rows-Within n c bound keys (flushed total miners s) h)
          (λ _. flush_rows-Within n c bound keys _ (trim_set-Within n c _ bound total _ s h)))

  Within-more : (m n : ℕ) (c : ℤ) (f : Flush r.Store) → m ≤ n → Within m c f → Within n c f
  unfolding Within
  Within-more m n c stuck l h = h
  Within-more m n c panicked l h = h
  Within-more m n c (halted total s) l h = h
  Within-more m n c (flushed total miners s) l h = omega arith

  -- What is within so many pages is not stuck.
  Within-not_stuck : (n : ℕ) (c : ℤ) (f : Flush r.Store) → Within n c f → f ≢ stuck
  unfolding Within
  Within-not_stuck n c stuck h e = h
  Within-not_stuck n c panicked h e = cc
  Within-not_stuck n c (halted total s) h e = cc
  Within-not_stuck n c (flushed total miners s) h e = cc

  flush_loop-not_stuck :
      (fuel n : ℕ) (bound c : ℤ) (f : Flush r.Store)
      → n < fuel
      → Within n c f
      → flush_loop r prefix fuel bound c f ≢ stuck
  unfolding flush_loop Within
  flush_loop-not_stuck zero n bound c f l h = absurd (omega arith)
  flush_loop-not_stuck (suc fuel) n bound c stuck l h = absurd h
  flush_loop-not_stuck (suc fuel) n bound c panicked l h = λ e. cc
  flush_loop-not_stuck (suc fuel) n bound c (halted total s) l h = λ e. cc
  flush_loop-not_stuck (suc fuel) n bound c (flushed total miners s) l h =
      let q = scan c (format_key prefix (str (codes "hashrate") ∷ str (codes "*") ∷ [])) in
      after_page (λ x. x ≢ stuck) (r.call q s).0 _ _ (λ e. cc)
        (λ c' keys at_c.
          let rows' : (m : ℕ)
              → i.left (r.call q s).1 c' ≤ m
              → Within m c' (flush_rows r prefix bound keys (flushed total miners (r.call q s).1)) =
            λ m k. flush_rows-Within m c' bound keys _ k in
          after_bool (λ x. x ≢ stuck) (eq_ℤ c' (pos 0)) _ _
            (λ _. Within-not_stuck (i.left (r.call q s).1 c') c' _ (rows' _ (omega arith)))
            (λ more. elim (i.shrinks c c' keys s at_c) [
              | inl e ↦ absurd (ground arith)
              | inr less ↦
                  flush_loop-not_stuck fuel (i.left (r.call q s).1 c') bound c' _ (omega arith)
                    (rows' _ (omega arith))
            ]))

  trim_next-Within :
      (n : ℕ) (c : ℤ) (key : Bytes) (bound : ℤ) (f : Flush r.Store)
      → Within n c f
      → Within n c (trim_next r prefix key bound f)
  unfolding trim_next Within
  trim_next-Within n c key bound stuck h = h
  trim_next-Within n c key bound panicked h = h
  trim_next-Within n c key bound (halted total s) h = h
  trim_next-Within n c key bound (flushed total miners s) h =
      trim_set-Within n c _ bound total miners s h

  -- `FlushStaleStats` ends, with a result, an error or a panic, as soon as the fuel is more than the
  -- pages that an iteration of SCAN has at its start.
  pub flush_stale_stats-ends :
      (fuel : ℕ) (now window large_window : ℤ) (s : r.Store)
      → i.left s (pos 0) < fuel
      → flush_stale_stats r prefix fuel now window large_window s ≢ stuck
  unfolding flush_stale_stats Within
  flush_stale_stats-ends fuel now window large_window s h =
      flush_loop-not_stuck fuel (i.left s (pos 0)) _ (pos 0) _ h (
        trim_next-Within _ (pos 0) _ _ _ (
          trim_next-Within _ (pos 0) _ _ _
            (trim_next-Within (i.left s (pos 0)) (pos 0) _ _ _ (omega arith))))

module _ (r : Redis) (prefix : Bytes)
    (i : Iteration r (format_key prefix (str (codes "miners") ∷ str (codes "*") ∷ []))) where
  payees_loop-ends :
      (fuel : ℕ) (c : ℤ) (found : List Bytes) (s : r.Store)
      → i.left s c < fuel
      → payees_loop r prefix fuel c found s ≢ Payees.stuck
  unfolding payees_loop
  payees_loop-ends zero c found s l = absurd (omega arith)
  payees_loop-ends (suc fuel) c found s l =
      let q = scan c (format_key prefix (str (codes "miners") ∷ str (codes "*") ∷ [])) in
      after_page (λ x. x ≢ Payees.stuck) (r.call q s).0 _ _ (λ e. cc)
        (λ c' keys at_c.
          after_match (λ x. x ≢ Payees.stuck) (add_payees keys found) _ _ (λ e. cc)
            (λ found'.
              after_bool (λ x. x ≢ Payees.stuck) (eq_ℤ c' (pos 0)) _ _ (λ _ e. cc)
                (λ more. elim (i.shrinks c c' keys s at_c) [
                  | inl e ↦ absurd (ground arith)
                  | inr less ↦ payees_loop-ends fuel c' found' (r.call q s).1 (omega arith)
                ])))

  -- `GetPayees` ends, too, as soon as the fuel is more than the pages of an iteration.
  get_payees-ends :
      (fuel : ℕ) (s : r.Store) → i.left s (pos 0) < fuel → get_payees r prefix fuel s ≢ Payees.stuck
  unfolding get_payees
  get_payees-ends fuel s l = payees_loop-ends fuel (pos 0) [] s l

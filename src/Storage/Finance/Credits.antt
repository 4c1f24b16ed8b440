-- ===== src/Storage/Finance/Credits.antt =====
-- The immature credits that `WriteImmatureBlock` records in Redis are the ones that `WriteOrphan`
-- and `WriteMaturedBlock` take back.
use btcpool.Common.{
  ◌≡◌, refl, ap, append_assoc, sym, ◌∙◌, Bool, true, false, ◌&&◌, List, [], ◌∷◌, ◌++◌, map, All,
  arith, if◌then◌else◌, append-nil,
}
use btcpool.Common.Int.{
  ℤ, pos, IsInt64, ◌+ℤ◌, +ℤ_comm, zero_+ℤ, +ℤ_zero, int_laws, neg64, neg_ℤ, neg_parts, pos_part,
  neg_part, wrap64_fits, add64,
}
use btcpool.Common.Bytes.{Bytes, codes, beq, beq_refl}
use btcpool.Common.Maps.{IsMap, Fresh, AllFresh, AllFresh-nil, AllFresh-append}
use btcpool.Common.Decimal.{format_int, parse_int-format_int}
use btcpool.Storage.Keys.{BlockData}
use btcpool.Storage.Commands.{Cmd, increments, when, increments-append}
use btcpool.Storage.Finance.{
  finances_key, immature_credits_key, credit_immature, write_immature_block, take_back,
  write_orphan, queue_immature_block,
}
use btcpool.Storage.Finance.Loops.{
  sum, sum_credits, credit_immature-total_fits, take_back-total_fits,
  queue_immature_block-increments, queue_matured_block-increments, CreditsFit,
}

-- HSETNX: a field that the hash has keeps its value.
set_nx : Bytes → Bytes → List (Bytes × Bytes) → List (Bytes × Bytes)
set_nx f v [] = (f, v) ∷ []
set_nx f v ((g, w) ∷ h) = if beq g f then (g, w) ∷ h else (g, w) ∷ set_nx f v h

-- The hash `k` after the HSETNX commands of a queue.
pub recorded : Bytes → List Cmd → List (Bytes × Bytes) → List (Bytes × Bytes)
recorded k [] h = h
recorded k (Cmd.hset_nx j f v ∷ q) h = recorded k q (if beq j k then set_nx f v h else h)
recorded k (_ ∷ q) h = recorded k q h

recorded-append :
    (k : Bytes) (q r : List Cmd) (h : List (Bytes × Bytes))
    → recorded k (q ++ r) h ≡ recorded k r (recorded k q h)
unfolding recorded
recorded-append k [] r h = refl
recorded-append k (Cmd.hset_nx j f v ∷ q) r h = recorded-append k q r _
recorded-append k (_ ∷ q) r h = recorded-append k q r h

recorded-hset_nx :
    (k f v : Bytes) (q : List Cmd) (h : List (Bytes × Bytes))
    → recorded k (Cmd.hset_nx k f v ∷ q) h ≡ recorded k q (set_nx f v h)
unfolding recorded
recorded-hset_nx k f v q h = rw (beq_refl k) refl

set_nx-Fresh :
    (f v : Bytes) (h : List (Bytes × Bytes)) → Fresh f h → set_nx f v h ≡ h ++ (f, v) ∷ []
unfolding set_nx
set_nx-Fresh f v [] e = refl
set_nx-Fresh f v ((g, w) ∷ h) (e, es) = rw (e, set_nx-Fresh f v h es) refl

abbrev entry : Bytes × ℤ → Bytes × Bytes
entry (login, amount) = (login, format_int amount)

-- Every reward is an int64, and so is its negation.
abbrev pub RewardsFit : List (Bytes × ℤ) → Type 0
RewardsFit = All (λ r. IsInt64 r.1 × IsInt64 (neg_ℤ r.1))

module _ (prefix : Bytes) (block : BlockData) where
  abbrev credits_key : Bytes
  credits_key = immature_credits_key prefix block.height block.hash

  credit_immature-recorded :
      (total : ℤ) (rewards : List (Bytes × ℤ)) (h : List (Bytes × Bytes))
      → IsMap rewards
      → AllFresh rewards h
      → recorded credits_key (credit_immature prefix block total rewards).0 h
        ≡ h ++ map entry rewards
  unfolding recorded credit_immature
  credit_immature-recorded total [] h m e = sym (append-nil h)
  credit_immature-recorded total ((login, amount) ∷ rewards) h m e =
      let q = (credit_immature prefix block (add64 total amount) rewards).0 in
      let done = h ++ (login, format_int amount) ∷ [] in
      recorded-hset_nx credits_key login (format_int amount) q h
      ∙ ap (recorded credits_key q) (set_nx-Fresh login (format_int amount) h e.0)
      ∙ credit_immature-recorded (add64 total amount) rewards done m.1
          (AllFresh-append login (format_int amount) h rewards m.0 e.1)
      ∙ append_assoc h _ _

  queue_immature_block-recorded :
      (k : Bytes) (h : List (Bytes × Bytes)) → recorded k (queue_immature_block prefix block) h ≡ h
  unfolding recorded queue_immature_block
  queue_immature_block-recorded k h = ground arith

  -- `WriteImmatureBlock` records each reward as a decimal number under its login.
  write_immature_block-recorded :
      (rewards : List (Bytes × ℤ))
      → IsMap rewards
      → recorded credits_key (write_immature_block prefix block rewards) [] ≡ map entry rewards
  unfolding write_immature_block recorded
  write_immature_block-recorded rewards m = simp (
    recorded-append,
    queue_immature_block-recorded,
    credit_immature-recorded (pos 0) rewards [] m (AllFresh-nil Bytes rewards),
  )

sum_credits-entry :
    (rewards : List (Bytes × ℤ))
    → RewardsFit rewards
    → sum_credits (map entry rewards) ≡ sum rewards
unfolding sum_credits sum
sum_credits-entry [] h = refl
sum_credits-entry ((login, amount) ∷ rewards) h =
    rw (parse_int-format_int amount h.0.0, sum_credits-entry rewards h.1)

entry-CreditsFit :
    (rewards : List (Bytes × ℤ)) → RewardsFit rewards → CreditsFit (map entry rewards)
entry-CreditsFit [] h = tt
entry-CreditsFit ((login, amount) ∷ rewards) h =
    (rw (parse_int-format_int amount h.0.0) h.0.1, entry-CreditsFit rewards h.1)

cancel : (b : Bool) (n x y : ℤ) → x +ℤ y ≡ pos 0 → when b n +ℤ x +ℤ (when b (neg_ℤ n) +ℤ y) ≡ pos 0
unfolding when
cancel true n x y h = omega (int_laws, neg_parts n, ap pos_part h, ap neg_part h)
cancel false n x y h = simp zero_+ℤ h

module _ (prefix : Bytes) (p : Bytes → Bool) (f : Bytes) where
  -- What the two loops queue for the same rewards cancels out.
  take_back-credit_immature :
      (block : BlockData) (t t' : ℤ) (rewards : List (Bytes × ℤ))
      → RewardsFit rewards
      → increments p f (credit_immature prefix block t rewards).0
          +ℤ increments p f (take_back prefix t' (map entry rewards)).0
        ≡ pos 0
  unfolding credit_immature take_back increments neg64
  take_back-credit_immature block t t' [] h = omega int_laws
  take_back-credit_immature block t t' ((login, amount) ∷ rewards) h =
      rw (parse_int-format_int amount h.0.0, wrap64_fits (neg_ℤ amount) h.0.1)
        (cancel _ amount _ _
          (take_back-credit_immature block (add64 t amount) (add64 t' amount) rewards h.1))

  abbrev on_finances : Bool
  on_finances = p (finances_key prefix) && beq (codes "immature") f

  write_immature_block-increments :
      (block : BlockData) (rewards : List (Bytes × ℤ))
      → IsInt64 (sum rewards)
      → increments p f (write_immature_block prefix block rewards)
        ≡ when on_finances (sum rewards)
          +ℤ increments p f (credit_immature prefix block (pos 0) rewards).0
  unfolding write_immature_block increments
  write_immature_block-increments block rewards fits =
      simp
        (
          increments-append,
          queue_immature_block-increments prefix block,
          zero_+ℤ,
          +ℤ_zero,
          credit_immature-total_fits prefix block rewards fits,
        )
        (+ℤ_comm _ _)

  write_orphan-increments :
      (block : BlockData) (credits : List (Bytes × Bytes)) (n : ℤ)
      → sum_credits credits ≡ n
      → IsInt64 n
      → IsInt64 (neg_ℤ n)
      → increments p f (write_orphan prefix block credits)
        ≡ when on_finances (neg_ℤ n) +ℤ increments p f (take_back prefix (pos 0) credits).0
  unfolding write_orphan increments neg64
  write_orphan-increments block credits n same fits neg =
      simp
        (
          increments-append,
          queue_matured_block-increments prefix block,
          zero_+ℤ,
          +ℤ_zero,
          take_back-total_fits prefix credits (rw same fits),
          same,
          wrap64_fits _ neg,
        )
        (+ℤ_comm _ _)

  -- `WriteOrphan` on an immature block undoes `WriteImmatureBlock`: with the credits that the latter
  -- has recorded, in the hash of the orphan's height and hash, which was empty, every field of every
  -- key is raised by zero in all. The rewards are a map's; they, their sum and the negations fit an
  -- int64.
  pub write_orphan-write_immature_block :
      (block orphan : BlockData) (rewards : List (Bytes × ℤ))
      → IsMap rewards
      → RewardsFit rewards
      → IsInt64 (sum rewards)
      → IsInt64 (neg_ℤ (sum rewards))
      → orphan.round_height ≡ block.height
      → orphan.hash ≡ block.hash
      → let immature = write_immature_block prefix block rewards in
        let credits =
          recorded (immature_credits_key prefix orphan.round_height orphan.hash) immature [] in
        increments p f immature +ℤ increments p f (write_orphan prefix orphan credits) ≡ pos 0
  write_orphan-write_immature_block block orphan rewards m each fits neg h k =
      simp
        (
          h,
          k,
          write_immature_block-recorded prefix block rewards m,
          write_immature_block-increments block rewards fits,
          write_orphan-increments orphan (map entry rewards) (sum rewards)
              (sum_credits-entry rewards each) fits neg,
        )
        (cancel _ (sum rewards) _ _ (take_back-credit_immature block (pos 0) (pos 0) rewards each))

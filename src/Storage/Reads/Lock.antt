-- ===== src/Storage/Reads/Lock.antt =====
-- The lock of the payouts: what LockPayouts, UnlockPayouts and IsPayoutsLocked of storage/redis.go
-- promise, over what Redis documents of SETNX, GET and DEL.
use btcpool.Common.{
  ℕ, ◌+◌, ◌≡◌, ◌≢◌, refl, Bool, true, false, Option, none, some, List, [], ◌∷◌, arith,
  if◌then◌else◌, Bool-cases, ◌⊎◌, inl, inr, ◌∙◌,
}
use btcpool.Common.Int.{ℤ, pos, negsuc, eq_ℤ}
use btcpool.Common.Bytes.{Bytes}
use btcpool.Common.Result.{done, ◌>>=◌}
use btcpool.Storage.Commands.{set_nx, get, del, Reply, Redis}
use btcpool.Storage.Reads.{lock_key, lock_payouts, unlock_payouts, is_payouts_locked, text_of}

-- Whether the key of the lock is set. SETNX answers 1 only where it was not, and sets it; nothing
-- but DEL takes it away, and DEL answers after it did.
pub record Lock (r : Redis) (key : Bytes) : Type 0 where
  pub held : r.Store → Bool
  pub granted :
      (v : Bytes) (s : r.Store)
      → (r.call (set_nx key v) s).0 ≡ some (Reply.int (pos 1))
      → held s ≡ false
  pub taken :
      (v : Bytes) (s : r.Store)
      → (r.call (set_nx key v) s).0 ≡ some (Reply.int (pos 1))
      → held (r.call (set_nx key v) s).1 ≡ true
  pub stays : (v : Bytes) (s : r.Store) → held s ≡ true → held (r.call (set_nx key v) s).1 ≡ true
  pub shown :
      (t : Option Bytes) (s : r.Store)
      → (r.call (get key) s).0 ≡ some (Reply.text t)
      → held s ≡ elim t [ none ↦ false | some _ ↦ true ]
  pub dropped :
      (n : Reply) (s : r.Store)
      → (r.call (del key) s).0 ≡ some n
      → held (r.call (del key) s).1 ≡ false

-- The reply that grants the lock.
is_one :
    (o : Option Reply)
    → elim o [ none ↦ false | some (Reply.int n) ↦ eq_ℤ n (pos 1) | some _ ↦ false ] ≡ true
    → o ≡ some (Reply.int (pos 1))
is_one none e = absurd (ground arith)
is_one (some (Reply.int (pos n))) e = let one : n ≡ 1 = ground arith in rw (one) refl
is_one (some (Reply.int (negsuc n))) e = absurd (ground arith)
is_one (some (Reply.page c keys)) e = absurd (ground arith)
is_one (some Reply.status) e = absurd (ground arith)
is_one (some (Reply.hash m)) e = absurd (ground arith)
is_one (some (Reply.rows m)) e = absurd (ground arith)
is_one (some (Reply.members m)) e = absurd (ground arith)
is_one (some (Reply.text m)) e = absurd (ground arith)

text_shown :
    (o : Option Reply) (b : Bool)
    → (text_of o >>= λ t. done (elim t [ none ↦ false | some _ ↦ true ])) ≡ done b
    → (t : Option Bytes) × (o ≡ some (Reply.text t)) × (elim t [ none ↦ false | some _ ↦ true ] ≡ b)
text_shown (some (Reply.text t)) b e = (t, refl, cc)
text_shown none b e = absurd cc
text_shown (some (Reply.page c keys)) b e = absurd cc
text_shown (some (Reply.int n)) b e = absurd cc
text_shown (some Reply.status) b e = absurd cc
text_shown (some (Reply.hash m)) b e = absurd cc
text_shown (some (Reply.rows m)) b e = absurd cc
text_shown (some (Reply.members m)) b e = absurd cc

answered :
    (o : Option Reply) → elim o [ none ↦ false | some _ ↦ true ] ≡ true → (n : Reply) × (o ≡ some n)
answered none e = absurd cc
answered (some n) e = (n, refl)

module _ (r : Redis) (prefix : Bytes) where
  open r use {Store}

  -- How many of the calls get the lock, and the store behind them.
  unfoldable pub grants : List (Bytes × ℤ) → Store → ℕ × Store
  grants [] s = (0, s)
  grants ((login, amount) ∷ calls) s =
      let (ok, s') = lock_payouts r prefix login amount s in
      let (n, s'') = grants calls s' in ((if ok then 1 else 0) + n, s'')

module _ (r : Redis) (prefix : Bytes) (l : Lock r (lock_key r prefix)) where
  open r use {Store}

  lock_payouts-held :
      (login : Bytes) (amount : ℤ) (s : Store)
      → (lock_payouts r prefix login amount s).0 ≡ true
      → (l.held s ≡ false) × (l.held (lock_payouts r prefix login amount s).1 ≡ true)
  unfolding lock_payouts
  lock_payouts-held login amount s e = let one = is_one _ e in (l.granted _ s one, l.taken _ s one)

  lock_payouts-kept :
      (login : Bytes) (amount : ℤ) (s : Store)
      → l.held s ≡ true
      → l.held (lock_payouts r prefix login amount s).1 ≡ true
  unfolding lock_payouts
  lock_payouts-kept login amount s h = l.stays _ s h

  is_payouts_locked-held :
      (b : Bool) (s : Store) → is_payouts_locked r prefix s ≡ done b → l.held s ≡ b
  unfolding is_payouts_locked
  is_payouts_locked-held b s e = let (t, at_t, shows) = text_shown _ b e in l.shown t s at_t ∙ shows

  unlock_payouts-free :
      (s : Store)
      → (unlock_payouts r prefix s).0 ≡ true
      → l.held (unlock_payouts r prefix s).1 ≡ false
  unfolding unlock_payouts
  unlock_payouts-free s e = let (reply, at_reply) = answered _ e in l.dropped reply s at_reply

  grants-held :
      (calls : List (Bytes × ℤ)) (s : Store)
      → l.held s ≡ true
      → ((grants r prefix calls s).0 ≡ 0) × (l.held (grants r prefix calls s).1 ≡ true)
  unfolding grants
  grants-held [] s h = (refl, h)
  grants-held ((login, amount) ∷ calls) s h =
      elim (Bool-cases (lock_payouts r prefix login amount s).0) [
        | inl e ↦ absurd (let (free, _) = lock_payouts-held login amount s e in cc)
        | inr e ↦
            let (n, k) = grants-held calls _ (lock_payouts-kept login amount s h) in
            (rw (e) (omega arith), k)
      ]

  grants-Exclusive :
      (calls : List (Bytes × ℤ)) (s : Store)
      → ((grants r prefix calls s).0 ≡ 0)
        ⊎ (((grants r prefix calls s).0 ≡ 1) × (l.held (grants r prefix calls s).1 ≡ true))
  unfolding grants
  grants-Exclusive [] s = inl refl
  grants-Exclusive ((login, amount) ∷ calls) s =
      elim (Bool-cases (lock_payouts r prefix login amount s).0) [
        | inl e ↦
            let (n, k) = grants-held calls _ (lock_payouts-held login amount s e).1 in
            inr (rw (e) (omega arith), k)
        | inr e ↦ elim (grants-Exclusive calls (lock_payouts r prefix login amount s).1) [
          | inl n ↦ inl (rw (e) (omega arith))
          | inr (n, k) ↦ inr (rw (e) (omega arith), k)
        ]
      ]

  -- Of any number of calls of LockPayouts, with no other call between them, at most one gets the
  -- lock. Where one does, IsPayoutsLocked does not answer behind them that it is free, and behind a
  -- call of UnlockPayouts that succeeds, it does not answer that it is locked.
  pub lock_payouts-Exclusive :
      (calls : List (Bytes × ℤ)) (s : Store)
      → (((grants r prefix calls s).0 ≡ 0)
          ⊎ (((grants r prefix calls s).0 ≡ 1)
              × (is_payouts_locked r prefix (grants r prefix calls s).1 ≢ done false)))
        × (((unlock_payouts r prefix (grants r prefix calls s).1).0 ≡ false)
            ⊎ (is_payouts_locked r prefix (unlock_payouts r prefix (grants r prefix calls s).1).1
                ≢ done true))
  lock_payouts-Exclusive calls s = (
    elim (grants-Exclusive calls s) [
      | inl n ↦ inl n
      | inr (n, h) ↦ inr (n, λ e. let free = is_payouts_locked-held false _ e in cc)
    ],
    elim (Bool-cases (unlock_payouts r prefix (grants r prefix calls s).1).0) [
      | inr e ↦ inl e
      | inl e ↦ inr (λ f.
          let free = unlock_payouts-free _ e in let held = is_payouts_locked-held true _ f in cc)
    ],
  )

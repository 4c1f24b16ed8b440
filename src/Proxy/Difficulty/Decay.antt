-- ===== src/Proxy/Difficulty/Decay.antt =====
-- What the timer of `NewProxy` does to a session whose shares are not counted, as `shareCountInv` is
-- set to 0 and never changed.
use btcpool.Common.{
  ℕ, zero, suc, ◌*◌, ◌^◌, ◌<◌, ◌≤◌, ◌≡◌, refl, true, Option, none, some, List, [], ◌∷◌, arith, ◌⊎◌,
  inl, inr, map_all, ◌>>=◌, Option-cases,
}
use btcpool.Common.Int.{pos, wrap64_fits, ◌*ℤ◌}
use btcpool.Common.Bytes.{Bytes, codes}
use btcpool.Common.Float.{Float64}
use btcpool.Storage.Stats.{quot}
use btcpool.Proxy.Work.{Packages}
use btcpool.Proxy.Session.{Session}
use btcpool.Proxy.Stratum.{Client}
use btcpool.Proxy.Difficulty.{
  get_target_hex, scaled_target, update_session_diff, update_client_diff, update_all_session_diff,
  diff_ticks,
}
use btcpool.Proxy.Difficulty.Target.{ReadsBack, diff_of_target, positive_target}

-- A registered session without counted shares, whose target is that of the difficulty.
abbrev pub IsAt : (Bytes → Bytes) → ℕ → Client → Type 0
IsAt hexutil_encode d c =
    (c.registered ≡ true)
    × (get_target_hex hexutil_encode (pos d) ≡ some c.session.target)
    × (c.session.share_count_inv ≡ pos 0)

-- One of the sessions is.
abbrev pub HasAt : (Bytes → Bytes) → ℕ → List Client → Type 0
HasAt hexutil_encode d [] = ⊥
HasAt hexutil_encode d (c ∷ clients) = IsAt hexutil_encode d c ⊎ HasAt hexutil_encode d clients

-- A positive int64, as a float64, times 0.8 and cut, is smaller than it was.
abbrev pub Shrinks : Float64 → Type 0
Shrinks f =
    (d : ℕ)
    → 1 ≤ d
    → d < 2 ^ 63
    → (m : ℕ) × (m < d) × (f.to_int (f.mul (f.of_int (pos d)) (f.literal (codes "0.8"))) ≡ pos m)

module _ (f : Float64) (p : Packages) (hexutil_encode : Bytes → Bytes) (shrinks : Shrinks f)
    (inverse : ReadsBack p hexutil_encode) (e : ℕ) (expects : 2 ≤ e) (small : e < 2 ^ 62) where
  -- What a call that may panic leaves: nothing, or something at a lower difficulty.
  abbrev Lowers : {A : Type 0} → (ℕ → A → Type 0) → ℕ → Option A → Type 0
  Lowers {A} P d o = (o ≡ none) ⊎ ((m : ℕ) × (a : A) × (o ≡ some a) × (1 ≤ m) × (m < d) × P m a)

  scaled_target-Lowers :
      (d : ℕ) {t : Bytes}
      → 1 ≤ d
      → d < 2 ^ 63
      → get_target_hex hexutil_encode (pos d) ≡ some t
      → Lowers
          (λ m t'. get_target_hex hexutil_encode (pos m) ≡ some t')
          d
          (scaled_target f p hexutil_encode (codes "0.8") t)
  unfolding scaled_target get_target_hex
  scaled_target-Lowers d {t} h k g =
      let (m, l, product) = shrinks d h k in
      let diff = diff_of_target p hexutil_encode inverse d h k g in
      rw (diff, wrap64_fits (pos d) (omega arith, omega arith), product) (positive m l)
    where
      positive :
          (m : ℕ)
          → m < d
          → Lowers
              (λ m t'. get_target_hex hexutil_encode (pos m) ≡ some t')
              d
              (get_target_hex hexutil_encode (pos m))
      positive zero l = inl refl
      positive (suc m) l =
          let e' = positive_target p hexutil_encode inverse (suc m) (omega arith) in
          inr (suc m, _, e', omega arith, l, e')

  -- What holds of a call's result, at its lower difficulty, holds after the next step.
  then-Lowers :
      {A B : Type 0} {P : ℕ → A → Type 0} {Q : ℕ → B → Type 0} (d : ℕ) (o : Option A) (g : A → B)
      → Lowers P d o
      → ((m : ℕ) (a : A) → P m a → Q m (g a))
      → Lowers Q d (o >>= λ a. some (g a))
  then-Lowers d o g (inl n) k = inl (rw (n) refl)
  then-Lowers d o g (inr (m, a, s, h, l, q)) k = inr (m, g a, rw (s) refl, h, l, k m a q)

  -- A session without counted shares gets a target of 0.8 of its difficulty.
  pub lowered :
      (k : Session)
      → k.share_count_inv ≡ pos 0
      → update_session_diff f p hexutil_encode (pos e) k ≡ (
          scaled_target f p hexutil_encode (codes "0.8") k.target >>= λ t.
          some (record k { target = t }))
  unfolding update_session_diff quot ◌*ℤ◌
  lowered k uncounted =
      let product : pos e *ℤ pos 2 ≡ pos (e * 2) = ground arith in
      rw (product, wrap64_fits (pos (e * 2)) (omega arith, omega arith), uncounted) (ground arith)

  update_client_diff-Lowers :
      (d : ℕ) (c : Client)
      → 1 ≤ d
      → d < 2 ^ 63
      → IsAt hexutil_encode d c
      → Lowers (IsAt hexutil_encode) d (update_client_diff f p hexutil_encode (pos e) c)
  unfolding update_client_diff update_session_diff quot
  update_client_diff-Lowers d c h k (is_registered, at, uncounted) =
      let session =
        then-Lowers {Q = λ m k'. IsAt hexutil_encode m (record { session = k'; registered = true })}
          d _ _ (scaled_target-Lowers d h k at) (λ m t q. (refl, q, uncounted)) in
      rw (is_registered, lowered c.session uncounted) (then-Lowers d _ _ session (λ m k' q. q))

  update_all_session_diff-Lowers :
      (d : ℕ) (clients : List Client)
      → 1 ≤ d
      → d < 2 ^ 63
      → HasAt hexutil_encode d clients
      → Lowers (HasAt hexutil_encode) d (update_all_session_diff f p hexutil_encode (pos e) clients)
  unfolding update_all_session_diff map_all
  update_all_session_diff-Lowers d [] h k a = absurd a
  update_all_session_diff-Lowers d (c ∷ clients) h k (inl a) =
      elim (update_client_diff-Lowers d c h k a) [
        | inl n ↦ inl (rw (n) refl)
        | inr (m, c', s, h', l, q) ↦
            elim (Option-cases (update_all_session_diff f p hexutil_encode (pos e) clients)) [
              | inl n ↦ inl (rw (s, n) refl)
              | inr (clients', s') ↦ inr (m, c' ∷ clients', rw (s, s') refl, h', l, inl q)
            ]
      ]
  update_all_session_diff-Lowers d (c ∷ clients) h k (inr a) =
      elim (Option-cases (update_client_diff f p hexutil_encode (pos e) c)) [
        | inl n ↦ inl (rw (n) refl)
        | inr (c', s) ↦
            rw (s)
              (then-Lowers d _ _ (update_all_session_diff-Lowers d clients h k a) (λ m cs q. inr q))
      ]

  runs_out :
      (k d : ℕ) (clients : List Client)
      → 1 ≤ d
      → d ≤ k
      → d < 2 ^ 63
      → HasAt hexutil_encode d clients
      → (n : ℕ) × (n ≤ k) × (diff_ticks f p hexutil_encode n (pos e) clients ≡ none)
  unfolding diff_ticks
  runs_out zero d clients h l s a = absurd (omega arith)
  runs_out (suc k) d clients h l s a = elim (update_all_session_diff-Lowers d clients h s a) [
    | inl n ↦ (1, omega arith, rw (n) refl)
    | inr (m, clients', e', h', l', a') ↦
        let (n, few, stops) = runs_out k m clients' h' (omega arith) (omega arith) a' in
        (suc n, omega arith, rw (e') stops)
  ]

  -- UpdateAllSessionDiff lowers the difficulty of a registered session without counted shares at each
  -- tick, where two shares at least are expected, and panics after as many ticks at most as the
  -- difficulty is, whatever the other sessions are.
  pub diff_ticks-panics :
      (d : ℕ) (clients : List Client)
      → 1 ≤ d
      → d < 2 ^ 63
      → HasAt hexutil_encode d clients
      → (n : ℕ) × (n ≤ d) × (diff_ticks f p hexutil_encode n (pos e) clients ≡ none)
  diff_ticks-panics d clients h s a = runs_out d d clients h (omega arith) s a

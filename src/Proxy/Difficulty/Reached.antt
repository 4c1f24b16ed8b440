-- ===== src/Proxy/Difficulty/Reached.antt =====
-- The timer of `NewProxy` on the sessions of a listener.
use btcpool.Common.{
  ℕ, zero, suc, ◌^◌, ◌<◌, ◌≤◌, ◌≡◌, refl, subst, Bool, true, Option, none, some, List, [], ◌∷◌,
  arith, inl, inr, map_all, get_elem?, Option-cases,
}
use btcpool.Common.Int.{ℤ, pos}
use btcpool.Common.Bytes.{Bytes}
use btcpool.Common.Float.{Float64}
use btcpool.Storage.Commands.{Redis}
use btcpool.Policy.{Config}
use btcpool.Proxy.Work.{Packages, target_hex_to_diff, set_bytes}
use btcpool.Proxy.Miner.{World}
use btcpool.Proxy.Session.{Pool}
use btcpool.Proxy.Stratum.{StratumReq, Client, Connection, Listener}
use btcpool.Proxy.Stratum.Owners.{OwnsTag, All-get_elem?, Reached, Reachable-AllOwn}
use btcpool.Proxy.Difficulty.{
  get_target_hex, scaled_target, update_client_diff, update_all_session_diff, diff_ticks,
}
use btcpool.Proxy.Difficulty.Target.{ReadsBack}
use btcpool.Proxy.Difficulty.Decay.{IsAt, HasAt, Shrinks, lowered, diff_ticks-panics}

-- The clients of a listener's connections.
abbrev pub clients_of : List Connection → List Client
clients_of [] = []
clients_of (c ∷ cs) = c.client ∷ clients_of cs

at-HasAt :
    (hexutil_encode : Bytes → Bytes) (d i : ℕ) (cs : List Connection) {c : Connection}
    → get_elem? cs i ≡ some c
    → IsAt hexutil_encode d c.client
    → HasAt hexutil_encode d (clients_of cs)
at-HasAt hexutil_encode d i [] e h = absurd cc
at-HasAt hexutil_encode d zero (b ∷ cs) {c} e h =
    let same : c ≡ b = cc in inl (subst (λ c. IsAt hexutil_encode d c.client) same h)
at-HasAt hexutil_encode d (suc i) (b ∷ cs) e h = inr (at-HasAt hexutil_encode d i cs e h)

-- Where a call panics for one client, it does for all of them.
one_none :
    (f : Client → Option Client) (i : ℕ) (cs : List Connection) {c : Connection}
    → get_elem? cs i ≡ some c
    → f c.client ≡ none
    → map_all f (clients_of cs) ≡ none
unfolding map_all
one_none f i [] e h = absurd cc
one_none f zero (b ∷ cs) {c} e h = let same : c ≡ b = cc in ground arith
one_none f (suc i) (b ∷ cs) e h =
    let rest = one_none f i cs e h in
    elim (Option-cases (f b.client)) [ inl n ↦ rw (n) refl | inr (b', s) ↦ rw (s, rest) refl ]

module _ (f : Float64) (p : Packages) (hexutil_encode : Bytes → Bytes) (shrinks : Shrinks f)
    (inverse : ReadsBack p hexutil_encode) (empty : p.from_hex [] ≡ []) (e : ℕ) (expects : 2 ≤ e)
    (small : e < 2 ^ 62) where
  -- A session that never subscribed has no target, and no difficulty.
  no_target :
      (c : Client)
      → c.registered ≡ true
      → c.session.share_count_inv ≡ pos 0
      → c.session.target ≡ []
      → update_client_diff f p hexutil_encode (pos e) c ≡ none
  unfolding update_client_diff scaled_target target_hex_to_diff set_bytes
  no_target c h uncounted t =
      rw
        (
          h,
          lowered f p hexutil_encode shrinks inverse e expects small c.session uncounted,
          t,
          empty,
        )
        refl

  module _ (cfg : Config) (too_many : ℤ → ℤ → Bool) (r : Redis) (prefix : Bytes)
      (accepts : Bytes → World r → Bool) (valid_address : Bytes → Bool)
      (unmarshal : Bytes → Option StratumReq) (id : ℕ) (target : Bytes) where
    -- In every state that the listener reaches in which a connection is registered, the timer of
    -- UpdateAllSessionDiff, run without a break, panics after as many ticks at most as the server's
    -- difficulty is, where two shares at least are expected.
    pub diff_ticks_stop :
        (max_conn : ℕ) (pool : Pool r) (l : Listener r) (i d : ℕ) {c : Connection}
        → Reached cfg too_many p r prefix accepts valid_address unmarshal id target max_conn pool l
        → get_elem? l.connections i ≡ some c
        → c.client.registered ≡ true
        → 1 ≤ d
        → d < 2 ^ 63
        → get_target_hex hexutil_encode (pos d) ≡ some target
        → (n : ℕ) × (n ≤ d)
          × (diff_ticks f p hexutil_encode n (pos e) (clients_of l.connections) ≡ none)
    unfolding diff_ticks update_all_session_diff
    diff_ticks_stop max_conn pool l i d {c} reached at_i h k m g =
        let own =
          Reachable-AllOwn cfg too_many p r prefix accepts valid_address unmarshal id target
            max_conn pool l reached in
        let (_, _, uncounted, has) = All-get_elem? (OwnsTag id target) i l.connections at_i own in
        elim has [
          | inl t ↦ (
            1,
            k,
            rw
                (one_none (update_client_diff f p hexutil_encode (pos e)) i l.connections at_i
                  (no_target c.client h uncounted t))
                refl,
          )
          | inr t ↦
              diff_ticks-panics f p hexutil_encode shrinks inverse e expects small d
                (clients_of l.connections) k m
                (at-HasAt hexutil_encode d i l.connections at_i (h, rw (t) g, uncounted))
        ]

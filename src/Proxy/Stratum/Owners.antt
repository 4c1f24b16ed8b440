-- ===== src/Proxy/Stratum/Owners.antt =====
-- Each connection keeps the tag that it was given, in every state that the listener reaches, and has
-- no counted shares.
use btcpool.Common.{
  ℕ, zero, suc, ◌%◌, ◌^◌, ◌≡◌, refl, Bool, Option, some, List, [], ◌∷◌, inl, inr, get_elem?, All,
  All-append, arith, some-elim, some-subst, guard-elim, Bool-cases,
}
use btcpool.Common.Int.{ℤ}
use btcpool.Common.Bytes.{Bytes}
use btcpool.Storage.Commands.{Redis}
use btcpool.Policy.{Config, is_banned, apply_limit_policy}
use btcpool.Proxy.Work.{Packages}
use btcpool.Proxy.Miner.{World}
use btcpool.Proxy.Session.{Pool}
use btcpool.Proxy.Stratum.{
  StratumReq, Surroundings, Line, End, goes_on, left, flooded, broken, Connection, settle, set_at,
  Listener, new_session, handle_line, read_line, handle_tcp_client, give_tag, listen_tcp,
  push_failed, Step, arrives, reads, drops, Reachable, starts, goes,
}
use btcpool.Proxy.Stratum.Nonces.{IsOwn, line-Keeping}

All-set_at {ℓ κ} :
    {A : Type ℓ} (P : A → Type κ) (i : ℕ) (a : A) (xs : List A)
    → P a
    → All P xs
    → All P (set_at i a xs)
unfolding set_at
All-set_at P i a [] h k = tt
All-set_at P zero a (x ∷ xs) h (_, k) = (h, k)
All-set_at P (suc i) a (x ∷ xs) h (p, k) = (p, All-set_at P i a xs h k)

pub All-get_elem? {ℓ κ} :
    {A : Type ℓ} (P : A → Type κ) (i : ℕ) (xs : List A) {a : A}
    → get_elem? xs i ≡ some a
    → All P xs
    → P a
All-get_elem? P i [] e h = absurd cc
All-get_elem? P zero (x ∷ xs) e (p, h) = some-subst P e p
All-get_elem? P (suc i) (x ∷ xs) e (p, h) = All-get_elem? P i xs e h

-- A connection whose session has the tag that it was given, as a uint16.
abbrev pub OwnsTag : ℕ → Bytes → Connection → Type 0
OwnsTag id target c = IsOwn id target (c.tag % 2 ^ 16) c.client.session

settle-OwnsTag :
    (id : ℕ) (target : Bytes) (end : End) (c : Connection)
    → OwnsTag id target c
    → OwnsTag id target (settle end c)
unfolding settle
settle-OwnsTag id target goes_on c h = h
settle-OwnsTag id target left c h = h
settle-OwnsTag id target broken c h = h
settle-OwnsTag id target flooded c h = h

abbrev pub AllOwn : {r : Redis} → ℕ → Bytes → Listener r → Type 0
AllOwn id target l = All (OwnsTag id target) l.connections

module _ {r : Redis} (id : ℕ) (target : Bytes) where
  push_failed-AllOwn :
      (i : ℕ) (l : Listener r) {l' : Listener r}
      → push_failed i l ≡ some l'
      → AllOwn id target l
      → AllOwn id target l'
  unfolding push_failed
  push_failed-AllOwn i l e h = some-elim (get_elem? l.connections i) _ e (λ c f g.
      some-subst (AllOwn id target) g (
        All-set_at (OwnsTag id target) i _ l.connections
          (All-get_elem? (OwnsTag id target) i l.connections f h) h))

  give_tag-AllOwn :
      (ip : Bytes) (accept : List ℕ) (l : Listener r) {l' : Listener r}
      → l.accept ≡ accept
      → give_tag ip l ≡ some l'
      → AllOwn id target l
      → AllOwn id target l'
  unfolding give_tag new_session
  give_tag-AllOwn ip [] l f e h = absurd (ground arith)
  give_tag-AllOwn ip (tag ∷ rest) l f e h =
      some-subst (AllOwn id target) (rw (f, give_tag) at e)
        (All-append (OwnsTag id target) l.connections _ h ((refl, inl refl, refl, inl refl), tt))

  listen_tcp-AllOwn :
      (cfg : Config) (now : ℤ) (ip : Bytes) (l : Listener r) {l' : Listener r}
      → listen_tcp cfg now ip l ≡ some l'
      → AllOwn id target l
      → AllOwn id target l'
  unfolding listen_tcp
  listen_tcp-AllOwn cfg now ip l e h =
      let (banned, policy) = is_banned cfg now ip l.pool.policy in
      elim (Bool-cases banned) [
        | inl b ↦ some-subst (AllOwn id target) (rw (b, listen_tcp) at e) h
        | inr b ↦
            let (admitted, policy') = apply_limit_policy cfg now ip policy in
            elim (Bool-cases admitted) [
              | inl a ↦ give_tag-AllOwn ip l.accept _ refl (rw (b, a, listen_tcp) at e) h
              | inr a ↦ some-subst (AllOwn id target) (rw (b, a, listen_tcp) at e) h
            ]
      ]

module _ (cfg : Config) (too_many : ℤ → ℤ → Bool) (p : Packages) (r : Redis) (prefix : Bytes)
    (accepts : Bytes → World r → Bool) (valid_address : Bytes → Bool)
    (unmarshal : Bytes → Option StratumReq) (id : ℕ) (target : Bytes) where
  read_line-AllOwn :
      (i : ℕ) (e : Surroundings) (text : Line) (c : Connection) (l : Listener r) {l' : Listener r}
      → get_elem? l.connections i ≡ some c
      → read_line cfg too_many p r prefix accepts valid_address unmarshal id target e i text c l
        ≡ some l'
      → AllOwn id target l
      → AllOwn id target l'
  unfolding read_line
  read_line-AllOwn i e text c l f g h =
      some-elim
        (handle_line cfg too_many p r prefix accepts valid_address unmarshal id target e text
          c.client l.pool)
        _ g
        (λ (end, client, pool) f' g'. some-subst (AllOwn id target) g' (
          All-set_at (OwnsTag id target) i _ l.connections
            (settle-OwnsTag id target end (record c { client = client })
              (line-Keeping id target cfg too_many p r prefix accepts valid_address unmarshal
                (c.tag % 2 ^ 16) e text c.client l.pool f'
                (All-get_elem? (OwnsTag id target) i l.connections f h)))
            h))

  Step-AllOwn :
      {l l' : Listener r}
      → Step cfg too_many p r prefix accepts valid_address unmarshal id target l l'
      → AllOwn id target l
      → AllOwn id target l'
  unfolding handle_tcp_client
  Step-AllOwn {l} (arrives now ip e) h = listen_tcp-AllOwn id target cfg now ip l e h
  Step-AllOwn {l} (reads e i text f) h =
      some-elim (get_elem? l.connections i) _ f
        (λ c at_i f'. guard-elim c.handled _ f' (λ k g. read_line-AllOwn i e text c l at_i g h))
  Step-AllOwn {l} (drops i e) h = push_failed-AllOwn id target i l e h

  abbrev pub Reached : ℕ → Pool r → Listener r → Type 0
  Reached max_conn pool l =
      Reachable cfg too_many p r prefix accepts valid_address unmarshal id target max_conn pool l

  pub Reachable-AllOwn :
      (max_conn : ℕ) (pool : Pool r) (l : Listener r) → Reached max_conn pool l → AllOwn id target l
  Reachable-AllOwn max_conn pool l starts = tt
  Reachable-AllOwn max_conn pool l (goes before s) =
      Step-AllOwn s (Reachable-AllOwn max_conn pool _ before)

-- ===== src/Proxy/Stratum/Distinct.antt =====
-- Two connections that are read never have the same extra nonce, and a connection waits for a tag
-- only while all of them are in use.
use btcpool.Common.{
  ℕ, zero, suc, ◌+◌, ◌%◌, ◌^◌, ◌<◌, ◌≤◌, ◌≡◌, ◌≢◌, refl, ◌∙◌, sym, ap, Bool, true, Option, some,
  List, [], ◌∷◌, ◌++◌, ◌⊎◌, inl, inr, if◌then◌else◌, ◌==◌, get_elem?, arith, Bool-cases, length,
}
use btcpool.Common.Int.{ℤ}
use btcpool.Common.Bytes.{Bytes}
use btcpool.Storage.Commands.{Redis}
use btcpool.Policy.{Config, is_banned, apply_limit_policy}
use btcpool.Proxy.Work.{Packages}
use btcpool.Proxy.Miner.{World}
use btcpool.Proxy.Session.{Pool, extra_nonce1_of}
use btcpool.Proxy.Session.Nonce.{extra_nonce1_of-injective}
use btcpool.Proxy.Stratum.{
  StratumReq, Connection, Listener, all_tags, range_from, new_connection, give_tag, listen_tcp,
}
use btcpool.Proxy.Stratum.Tags.{
  count, weigh, weigh-append, count-range_from, in_range, held_of, held, held-append, IsShared,
  Reachable-IsShared,
}
use btcpool.Proxy.Stratum.Owners.{OwnsTag, All-get_elem?, Reached, Reachable-AllOwn}

-- A tag that a connection holds is counted, and so is one that two connections hold.
held-once :
    (cs : List Connection) (i : ℕ) {a : Connection}
    → get_elem? cs i ≡ some a
    → a.handled ≡ true
    → 1 ≤ count a.tag (held cs)
held-once [] i e h = absurd cc
held-once (c ∷ cs) zero {a} e h =
    let same : c ≡ a = cc in
    ground (arith, weigh-append (λ x. if x == a.tag then 1 else 0) (held_of c) (held cs))
held-once (c ∷ cs) (suc i) {a} e h = omega (
  arith,
  weigh-append (λ x. if x == a.tag then 1 else 0) (held_of c) (held cs),
  held-once cs i e h,
)

held-twice :
    (cs : List Connection) (i j : ℕ) {a b : Connection}
    → get_elem? cs i ≡ some a
    → get_elem? cs j ≡ some b
    → i < j
    → a.handled ≡ true
    → b.handled ≡ true
    → a.tag ≡ b.tag
    → 2 ≤ count a.tag (held cs)
held-twice [] i j e f l h k t = absurd cc
held-twice (c ∷ cs) zero zero e f l h k t = absurd (omega arith)
held-twice (c ∷ cs) zero (suc j) {a} {b} e f l h k t =
    let same : c ≡ a = cc in
    ground (
      arith,
      weigh-append (λ x. if x == a.tag then 1 else 0) (held_of c) (held cs),
      held-once cs j f k,
    )
held-twice (c ∷ cs) (suc i) zero e f l h k t = absurd (omega arith)
held-twice (c ∷ cs) (suc i) (suc j) {a} {b} e f l h k t = omega (
  arith,
  weigh-append (λ x. if x == a.tag then 1 else 0) (held_of c) (held cs),
  held-twice cs i j e f (omega arith) h k t,
)

nonce_of :
    (id : ℕ) (target : Bytes) (c : Connection)
    → OwnsTag id target c
    → c.client.session.extra_nonce1 ≢ []
    → c.client.session.extra_nonce1 ≡ extra_nonce1_of id (c.tag % 2 ^ 16)
nonce_of id target c (_, inl e, _, _) n = absurd (n e)
nonce_of id target c (_, inr e, _, _) n = e

weigh-length : (xs : List ℕ) → weigh (λ x. 1) xs ≡ length xs
weigh-length [] = refl
weigh-length (x ∷ xs) = omega (arith, weigh-length xs)

length-range_from : (i n : ℕ) → length (range_from i n) ≡ n
length-range_from i zero = refl
length-range_from i (suc n) = ap suc (length-range_from (i + 1) n)

module _ {r : Redis} where
  twice_held :
      (max_conn : ℕ) (l : Listener r) (i j : ℕ) {a b : Connection}
      → get_elem? l.connections i ≡ some a
      → get_elem? l.connections j ≡ some b
      → a.handled ≡ true
      → b.handled ≡ true
      → i < j
      → max_conn ≤ 2 ^ 16
      → IsShared max_conn l
      → a.tag % 2 ^ 16 ≢ b.tag % 2 ^ 16
  unfolding all_tags
  twice_held max_conn l i j {a} {b} at_i at_j h k ij m shared e = ground (
    arith,
    shared (λ x. if x == a.tag then 1 else 0),
    shared (λ x. if x == b.tag then 1 else 0),
    count-range_from a.tag 0 max_conn,
    in_range a.tag 0 max_conn,
    in_range b.tag 0 max_conn,
    held-once l.connections i at_i h,
    held-once l.connections j at_j k,
    held-twice l.connections i j at_i at_j ij h k,
  )

  accept_left :
      (max_conn : ℕ) (l : Listener r)
      → IsShared max_conn l
      → length (held l.connections) < max_conn
      → (tag : ℕ) × (rest : List ℕ) × (l.accept ≡ tag ∷ rest)
  unfolding all_tags
  accept_left max_conn l shared h = nonempty l.accept room
    where
      room : 0 < length l.accept
      room = omega (
        arith,
        shared (λ x. 1),
        weigh-length l.accept,
        weigh-length (held l.connections),
        weigh-length (range_from 0 max_conn),
        length-range_from 0 max_conn,
      )

      nonempty : (xs : List ℕ) → 0 < length xs → (tag : ℕ) × (rest : List ℕ) × (xs ≡ tag ∷ rest)
      nonempty [] k = absurd (omega arith)
      nonempty (x ∷ xs) k = (x, xs, refl)

  -- The connections are as they were, or one more is read.
  abbrev pub Served : Listener r → Listener r → Type 0
  Served l l' =
      (l'.connections ≡ l.connections)
      ⊎ (length (held l'.connections) ≡ length (held l.connections) + 1)

  give_tag-Served :
      (ip : Bytes) (l : Listener r) (tag : ℕ) (rest : List ℕ)
      → l.accept ≡ tag ∷ rest
      → (l' : Listener r) × (give_tag ip l ≡ some l')
        × (length (held l'.connections) ≡ length (held l.connections) + 1)
  unfolding give_tag
  give_tag-Served ip l tag rest e = (
    record l { accept = rest; connections = l.connections ++ new_connection ip tag ∷ [] },
    rw (e, give_tag) refl,
    omega (
      arith,
      weigh-length (held l.connections),
      weigh-length (held (l.connections ++ new_connection ip tag ∷ [])),
      held-append l.connections (new_connection ip tag ∷ []) (λ x. 1),
    ),
  )

  listen_tcp-Served :
      (cfg : Config) (now : ℤ) (ip : Bytes) (l : Listener r)
      → (tag : ℕ) × (rest : List ℕ) × (l.accept ≡ tag ∷ rest)
      → (l' : Listener r) × (listen_tcp cfg now ip l ≡ some l') × Served l l'
  unfolding listen_tcp
  listen_tcp-Served cfg now ip l (tag, rest, e) =
      let (banned, policy) = is_banned cfg now ip l.pool.policy in
      elim (Bool-cases banned) [
        | inl b ↦ (
          record l { pool = record l.pool { policy = policy } },
          rw (b, listen_tcp) refl,
          inl refl,
        )
        | inr b ↦
            let (admitted, policy') = apply_limit_policy cfg now ip policy in
            elim (Bool-cases admitted) [
              | inl a ↦
                  let (l', g, more) =
                    give_tag-Served ip (record l { pool = record l.pool { policy = policy' } }) tag
                      rest e in
                  (l', rw (b, a, listen_tcp) g, inr more)
              | inr a ↦ (
                record l { pool = record l.pool { policy = policy' } },
                rw (b, a, listen_tcp) refl,
                inl refl,
              )
            ]
      ]

module _ (cfg : Config) (too_many : ℤ → ℤ → Bool) (p : Packages) (r : Redis) (prefix : Bytes)
    (accepts : Bytes → World r → Bool) (valid_address : Bytes → Bool)
    (unmarshal : Bytes → Option StratumReq) (id : ℕ) (target : Bytes) where
  -- In no state that the listener reaches do two connections that are read, each after
  -- mining.subscribe, have the same extra nonce, as long as there are at most 65536 tags and the
  -- server's identifier is a uint16.
  pub extra_nonces_differ :
      (max_conn : ℕ) (pool : Pool r) (l : Listener r) (i j : ℕ) {a b : Connection}
      → Reached cfg too_many p r prefix accepts valid_address unmarshal id target max_conn pool l
      → max_conn ≤ 2 ^ 16
      → id < 2 ^ 16
      → i < j
      → get_elem? l.connections i ≡ some a
      → get_elem? l.connections j ≡ some b
      → a.handled ≡ true
      → b.handled ≡ true
      → a.client.session.extra_nonce1 ≢ []
      → b.client.session.extra_nonce1 ≢ []
      → a.client.session.extra_nonce1 ≢ b.client.session.extra_nonce1
  extra_nonces_differ max_conn pool l i j {a} {b} reached m d ij at_i at_j h k na nb e =
      let own =
        Reachable-AllOwn cfg too_many p r prefix accepts valid_address unmarshal id target max_conn
          pool l reached in
      let e1 =
        nonce_of id target a (All-get_elem? (OwnsTag id target) i l.connections at_i own) na in
      let e2 =
        nonce_of id target b (All-get_elem? (OwnsTag id target) j l.connections at_j own) nb in
      let (_, same) =
        extra_nonce1_of-injective id id (a.tag % 2 ^ 16) (b.tag % 2 ^ 16) d d (omega arith)
          (omega arith) (sym e1 ∙ e ∙ e2) in
      twice_held max_conn l i j at_i at_j h k ij m
        (Reachable-IsShared cfg too_many p r prefix accepts valid_address unmarshal id target
          max_conn pool l reached)
        same

  -- In every state that the listener reaches in which not all of its tags are held by connections
  -- that are read, the next connection does not wait: `ListenTCP` refuses it, or gives it a tag and
  -- has it read.
  pub listen_tcp-goes_on :
      (max_conn : ℕ) (pool : Pool r) (l : Listener r) (now : ℤ) (ip : Bytes)
      → Reached cfg too_many p r prefix accepts valid_address unmarshal id target max_conn pool l
      → length (held l.connections) < max_conn
      → (l' : Listener r) × (listen_tcp cfg now ip l ≡ some l') × Served l l'
  listen_tcp-goes_on max_conn pool l now ip reached h = listen_tcp-Served cfg now ip l (
      accept_left max_conn l
        (Reachable-IsShared cfg too_many p r prefix accepts valid_address unmarshal id target
          max_conn pool l reached)
        h)

-- ===== src/Proxy/Stratum/Tags.antt =====
-- Every tag is either in the channel or held by one connection that is read.
use btcpool.Common.{
  ℕ, zero, suc, ◌+◌, ◌<◌, ◌≤◌, ◌≡◌, refl, Bool, true, false, Option, some, List, [], ◌∷◌, ◌++◌,
  subst, ◌==◌, if◌then◌else◌, get_elem?, arith, Bool-cases, inl, inr, some-elim, some-subst,
  guard-elim,
}
use btcpool.Common.Int.{ℤ}
use btcpool.Common.Bytes.{Bytes}
use btcpool.Storage.Commands.{Redis}
use btcpool.Policy.{Config, is_banned, apply_limit_policy}
use btcpool.Proxy.Work.{Packages}
use btcpool.Proxy.Miner.{World}
use btcpool.Proxy.Session.{Pool}
use btcpool.Proxy.Stratum.{
  StratumReq, Surroundings, Line, End, goes_on, left, flooded, broken, Connection, settle, freed,
  set_at, Listener, range_from, all_tags, handle_line, read_line, handle_tcp_client, give_tag,
  listen_tcp, push_failed, Step, arrives, reads, drops, Reachable, starts, goes,
}

-- The sum of what each number weighs.
abbrev pub weigh : (ℕ → ℕ) → List ℕ → ℕ
weigh w [] = 0
weigh w (x ∷ xs) = w x + weigh w xs

pub weigh-append : (w : ℕ → ℕ) (xs ys : List ℕ) → weigh w (xs ++ ys) ≡ weigh w xs + weigh w ys
weigh-append w [] ys = omega arith
weigh-append w (x ∷ xs) ys = omega (arith, weigh-append w xs ys)

-- How often a number stands in a list.
abbrev pub count : ℕ → List ℕ → ℕ
count t = weigh (λ x. if x == t then 1 else 0)

-- No tag is twice among the first ones.
count-below : (t i n : ℕ) → t < i → count t (range_from i n) ≡ 0
count-below t i zero h = refl
count-below t i (suc n) h = ground (arith, count-below t (i + 1) n)

pub count-range_from : (t i n : ℕ) → count t (range_from i n) ≤ 1
count-range_from t i zero = omega arith
count-range_from t i (suc n) = ground (arith, count-range_from t (i + 1) n, count-below t (i + 1) n)

pub in_range : (t i n : ℕ) → i + n ≤ t → count t (range_from i n) ≡ 0
in_range t i zero h = refl
in_range t i (suc n) h = ground (arith, in_range t (i + 1) n)

abbrev pub held_of : Connection → List ℕ
held_of c = if c.handled then c.tag ∷ [] else []

abbrev pub held : List Connection → List ℕ
held [] = []
held (c ∷ cs) = held_of c ++ held cs

pub held-append :
    (cs ds : List Connection) (w : ℕ → ℕ)
    → weigh w (held (cs ++ ds)) ≡ weigh w (held cs) + weigh w (held ds)
held-append [] ds w = omega arith
held-append (c ∷ cs) ds w = omega (
  arith,
  weigh-append w (held_of c) (held (cs ++ ds)),
  weigh-append w (held_of c) (held cs),
  held-append cs ds w,
)

held-set_at :
    (w : ℕ → ℕ) (i : ℕ) (c c' : Connection) (cs : List Connection)
    → get_elem? cs i ≡ some c
    → weigh w (held (set_at i c' cs)) + weigh w (held_of c)
      ≡ weigh w (held cs) + weigh w (held_of c')
unfolding set_at
held-set_at w i c c' [] e = absurd cc
held-set_at w zero c c' (x ∷ cs) e =
    let same : x ≡ c = ground arith in
    rw (same)
      (omega (arith, weigh-append w (held_of c) (held cs), weigh-append w (held_of c') (held cs)))
held-set_at w (suc i) c c' (x ∷ cs) e = omega (
  arith,
  weigh-append w (held_of x) (held cs),
  weigh-append w (held_of x) (held (set_at i c' cs)),
  held-set_at w i c c' cs e,
)

settle-freed :
    (w : ℕ → ℕ) (end : End) (c : Connection)
    → c.handled ≡ true
    → weigh w (held_of (settle end c)) + weigh w (freed end c.tag) ≡ weigh w (c.tag ∷ [])
unfolding settle freed
settle-freed w goes_on c h = ground arith
settle-freed w left c h = ground arith
settle-freed w broken c h = ground arith
settle-freed w flooded c h = ground arith

module _ {r : Redis} where
  -- The tags in the channel and those held are the first tags, each once: they weigh the same,
  -- whatever a tag weighs.
  abbrev pub IsShared : ℕ → Listener r → Type 0
  IsShared max_conn l =
      (w : ℕ → ℕ) → weigh w l.accept + weigh w (held l.connections) ≡ weigh w (all_tags max_conn)

  push_failed-IsShared :
      (max_conn i : ℕ) (l : Listener r) {l' : Listener r}
      → push_failed i l ≡ some l'
      → IsShared max_conn l
      → IsShared max_conn l'
  unfolding push_failed
  push_failed-IsShared max_conn i l e h = some-elim (get_elem? l.connections i) _ e (λ c f g.
      some-subst (IsShared max_conn) g (λ w. omega (
        arith,
        held-set_at w i c (record c { client = record c.client { registered = false } })
            l.connections f,
        h w,
      )))

  give_tag-IsShared :
      (max_conn : ℕ) (ip : Bytes) (accept : List ℕ) (l : Listener r) {l' : Listener r}
      → l.accept ≡ accept
      → give_tag ip l ≡ some l'
      → IsShared max_conn l
      → IsShared max_conn l'
  unfolding give_tag
  give_tag-IsShared max_conn ip [] l f e h = absurd (ground arith)
  give_tag-IsShared max_conn ip (tag ∷ rest) l f e h =
      some-subst (IsShared max_conn) (rw (f, give_tag) at e) (λ w.
        let had =
          subst (λ a. weigh w a + weigh w (held l.connections) ≡ weigh w (all_tags max_conn)) f
            (h w) in
        omega (arith, held-append l.connections _ w))

  listen_tcp-IsShared :
      (cfg : Config) (max_conn : ℕ) (now : ℤ) (ip : Bytes) (l : Listener r) {l' : Listener r}
      → listen_tcp cfg now ip l ≡ some l'
      → IsShared max_conn l
      → IsShared max_conn l'
  unfolding listen_tcp
  listen_tcp-IsShared cfg max_conn now ip l e h =
      let (banned, policy) = is_banned cfg now ip l.pool.policy in
      elim (Bool-cases banned) [
        | inl b ↦ some-subst (IsShared max_conn) (rw (b, listen_tcp) at e) h
        | inr b ↦
            let (admitted, policy') = apply_limit_policy cfg now ip policy in
            elim (Bool-cases admitted) [
              | inl a ↦ give_tag-IsShared max_conn ip l.accept _ refl (rw (b, a, listen_tcp) at e) h
              | inr a ↦ some-subst (IsShared max_conn) (rw (b, a, listen_tcp) at e) h
            ]
      ]

module _ (cfg : Config) (too_many : ℤ → ℤ → Bool) (p : Packages) (r : Redis) (prefix : Bytes)
    (accepts : Bytes → World r → Bool) (valid_address : Bytes → Bool)
    (unmarshal : Bytes → Option StratumReq) (id : ℕ) (target : Bytes) where
  read_line-IsShared :
      (max_conn i : ℕ) (e : Surroundings) (text : Line) (c : Connection) (l : Listener r)
      {l' : Listener r}
      → get_elem? l.connections i ≡ some c
      → c.handled ≡ true
      → read_line cfg too_many p r prefix accepts valid_address unmarshal id target e i text c l
        ≡ some l'
      → IsShared max_conn l
      → IsShared max_conn l'
  unfolding read_line
  read_line-IsShared max_conn i e text c l f k g h =
      some-elim
        (handle_line cfg too_many p r prefix accepts valid_address unmarshal id target e text
          c.client l.pool)
        _ g
        (λ (end, client, pool) _ g'. some-subst (IsShared max_conn) g' (λ w.
          let c' = record c { client = client } in
          let moved = held-set_at w i c (settle end c') l.connections f in
          ground (
            arith,
            h w,
            moved,
            weigh-append w l.accept (freed end c.tag),
            settle-freed w end c' k,
          )))

  Step-IsShared :
      (max_conn : ℕ) {l l' : Listener r}
      → Step cfg too_many p r prefix accepts valid_address unmarshal id target l l'
      → IsShared max_conn l
      → IsShared max_conn l'
  unfolding handle_tcp_client
  Step-IsShared max_conn {l} (arrives now ip e) h = listen_tcp-IsShared cfg max_conn now ip l e h
  Step-IsShared max_conn {l} (reads e i text f) h =
      some-elim (get_elem? l.connections i) _ f (λ c at_i f'.
        guard-elim c.handled _ f' (λ k g. read_line-IsShared max_conn i e text c l at_i k g h))
  Step-IsShared max_conn {l} (drops i e) h = push_failed-IsShared max_conn i l e h

  -- In every state that the listener reaches, each of the first tags is in the channel or held by a
  -- connection that is read, and exactly once in all.
  pub Reachable-IsShared :
      (max_conn : ℕ) (pool : Pool r) (l : Listener r)
      → Reachable cfg too_many p r prefix accepts valid_address unmarshal id target max_conn pool l
      → IsShared max_conn l
  Reachable-IsShared max_conn pool l starts w = omega arith
  Reachable-IsShared max_conn pool l (goes before s) w =
      Step-IsShared max_conn s (Reachable-IsShared max_conn pool _ before) w

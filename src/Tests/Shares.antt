-- ===== src/Tests/Shares.antt =====
-- Shares at a Redis server that holds one sorted set.
use btcpool.Common.{◌≡◌, refl, Option, none, some, List, [], ◌∷◌, map, if◌then◌else◌, arith}
use btcpool.Common.Int.{ℤ, pos, ltb_ℤ}
use btcpool.Common.Bytes.{Bytes, codes, beq, join_with}
use btcpool.Storage.Keys.{format_key}
use btcpool.Storage.Rows.{Z}
use btcpool.Storage.Commands.{Cmd, Reply, Redis}
use btcpool.Storage.Shares.{exists, pow_key, write_share, write_block}
use btcpool.Storage.Shares.Replay.{Avoids, SortedSet, write_share-known, write_share_replay}

abbrev pub prefix : Bytes
prefix = codes "btc"

-- The scores of the members of the set of seen shares.
abbrev pub Seen : Type 0
Seen = Bytes → Option ℤ

abbrev pub answer : Cmd → Seen → Option Reply × Seen
answer (Cmd.zadd k z) s =
    if beq k (pow_key prefix)
    then (
      some (Reply.int (elim (s z.member) [ none ↦ pos 1 | some _ ↦ pos 0 ])),
      λ m. if beq z.member m then some z.score else s m,
    )
    else (some (Reply.int (pos 1)), s)
answer (Cmd.zrem_below k b) s =
    if beq k (pow_key prefix)
    then (
      some (Reply.int (pos 0)),
      λ m. elim (s m) [ none ↦ none | some x ↦ if ltb_ℤ x b then none else some x ],
    )
    else (some (Reply.int (pos 0)), s)
answer _ s = (some Reply.status, s)

abbrev pub server : Redis
server = record { Store = Seen; call = answer; exec = λ q s. (some (map (λ _. Reply.status) q), s) }

pub known_reply :
    (z : Z) (x : ℤ) (s : Seen)
    → s z.member ≡ some x
    → (answer (Cmd.zadd (pow_key prefix) z) s).0 ≡ some (Reply.int (pos 0))
unfolding format_key
known_reply z x s h = rw h refl

pub new_reply :
    (z : Z) (s : Seen)
    → s z.member ≡ none
    → (answer (Cmd.zadd (pow_key prefix) z) s).0 ≡ some (Reply.int (pos 1))
unfolding format_key
new_reply z s h = rw h refl

pub zadd_score :
    (z : Z) (m : Bytes) (s : Seen)
    → (answer (Cmd.zadd (pow_key prefix) z) s).1 m ≡ (if beq z.member m then some z.score else s m)
unfolding format_key
zadd_score z m s = refl

pub zrem_below_score :
    (b : ℤ) (m : Bytes) (s : Seen)
    → (answer (Cmd.zrem_below (pow_key prefix) b) s).1 m
      ≡ elim (s m) [ none ↦ none | some x ↦ if ltb_ℤ x b then none else some x ]
unfolding format_key
zrem_below_score b m s = refl

pub other_call :
    (q : Cmd) (m : Bytes) (s : Seen) → Avoids (pow_key prefix) q → (answer q s).1 m ≡ s m
other_call (Cmd.zadd k z) m s h = rw h refl
other_call (Cmd.zrem_below k b) m s h = rw h refl
other_call (Cmd.hset _ _ _) m s h = refl
other_call (Cmd.hset_nx _ _ _) m s h = refl
other_call (Cmd.hdel _ _) m s h = refl
other_call (Cmd.hincr_by _ _ _) m s h = refl
other_call (Cmd.hget_all_map _) m s h = refl
other_call (Cmd.zrem _ _) m s h = refl
other_call (Cmd.zincr_by _ _ _) m s h = refl
other_call (Cmd.expire _ _) m s h = refl
other_call (Cmd.rename _ _) m s h = refl
other_call (Cmd.del _) m s h = refl
other_call (Cmd.hget _ _) m s h = refl
other_call (Cmd.zrange _) m s h = refl
other_call (Cmd.zrev_range _ _) m s h = refl
other_call (Cmd.zrange_by_score _ _) m s h = refl
other_call (Cmd.zcard _) m s h = refl
other_call (Cmd.smembers _) m s h = refl
other_call (Cmd.exists _) m s h = refl
other_call (Cmd.set_nx _ _) m s h = refl
other_call (Cmd.get _) m s h = refl
other_call (Cmd.scan _ _) m s h = refl

abbrev pub seen_set : SortedSet server (pow_key prefix)
seen_set = record {
  score = λ m s. s m;
  zadd_known = known_reply;
  zadd_new = new_reply;
  score-zadd = zadd_score;
  score-zrem_below = zrem_below_score;
  score-call = other_call;
  score-exec = λ q m s h. refl;
}

abbrev pub nothing_seen : Seen
nothing_seen _ = none

abbrev nonces : List Bytes
nonces = codes "1a2b3c4d" ∷ codes "00010001" ∷ codes "0000002a" ∷ []

write_share-known_example :
    seen_set.score
      (join_with b':' nonces)
      (write_share server prefix 1700000000000
        (codes "alice")
        (codes "rig")
        nonces
        (pos 4)
        800000
        (pos 600)
        nothing_seen).1
    ≡ some (pos 800000)
write_share-known_example =
    write_share-known server prefix seen_set 1700000000000 (codes "alice") (codes "rig") nonces
      (pos 4) 800000 (pos 600) nothing_seen

write_share_replay_example :
    let s' =
      (write_share server prefix 1700000000000
        (codes "alice")
        (codes "rig")
        nonces
        (pos 4)
        800000
        (pos 600)
        nothing_seen).1 in
    ((write_share server prefix 1700000000500
        (codes "bob")
        (codes "rig")
        nonces
        (pos 4)
        800001
        (pos 600)
        s').0
      ≡ exists)
    × ((write_block server prefix 1700000000500
          (codes "bob")
          (codes "rig")
          nonces
          (pos 4)
          (pos 8)
          800001
          (pos 625000000)
          (pos 7)
          (pos 600)
          s').0
        ≡ exists)
write_share_replay_example =
    write_share_replay server prefix seen_set 1700000000000 1700000000500 (codes "alice")
      (codes "rig") (codes "bob") (codes "rig") nonces (pos 4) (pos 4) 800000 800001 (pos 600)
      (pos 8) (pos 625000000) (pos 7) nothing_seen (omega arith) (omega arith) (omega arith)

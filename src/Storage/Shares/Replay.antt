-- ===== src/Storage/Shares/Replay.antt =====
-- A share that was stored is recognised when it comes again: what `checkPoWExist` needs of Redis is
-- stated as laws of the sorted set of seen shares.
use btcpool.Common.{
  ℕ, ◌+◌, ◌-◌, ◌%◌, ◌^◌, ◌≤◌, ◌<◌, ◌≡◌, Bool, true, false, Option, none, some, List, All, arith,
  if◌then◌else◌,
}
use btcpool.Common.Int.{ℤ, pos, ltb_ℤ}
use btcpool.Common.Bytes.{Bytes, beq, beq_refl, beq-append, join_with}
use btcpool.Storage.Keys.{format_key}
use btcpool.Storage.Rows.{Z}
use btcpool.Storage.Commands.{Cmd, zadd, zrem_below, Reply, Redis}
use btcpool.Storage.Shares.{
  Outcome, failed, exists, stored, pow_key, invalid_share, queue_share, share_queue,
  check_pow_exist, write_share, write_block,
}

-- That a command writes nothing at the key `k`.
abbrev pub Avoids : Bytes → Cmd → Type 0
Avoids k (Cmd.hset j _ _) = beq j k ≡ false
Avoids k (Cmd.hset_nx j _ _) = beq j k ≡ false
Avoids k (Cmd.hdel j _) = beq j k ≡ false
Avoids k (Cmd.hincr_by j _ _) = beq j k ≡ false
Avoids k (Cmd.hget_all_map j) = Unit
Avoids k (Cmd.zadd j _) = beq j k ≡ false
Avoids k (Cmd.zrem j _) = beq j k ≡ false
Avoids k (Cmd.zincr_by j _ _) = beq j k ≡ false
Avoids k (Cmd.zrem_below j _) = beq j k ≡ false
Avoids k (Cmd.expire j _) = beq j k ≡ false
Avoids k (Cmd.rename i j) = (beq i k ≡ false) × (beq j k ≡ false)
Avoids k (Cmd.del j) = beq j k ≡ false
Avoids k (Cmd.set_nx j _) = beq j k ≡ false
Avoids k (Cmd.hget _ _) = Unit
Avoids k (Cmd.zrange _) = Unit
Avoids k (Cmd.zrev_range _ _) = Unit
Avoids k (Cmd.zrange_by_score _ _) = Unit
Avoids k (Cmd.zcard _) = Unit
Avoids k (Cmd.smembers _) = Unit
Avoids k (Cmd.exists _) = Unit
Avoids k (Cmd.get _) = Unit
Avoids k (Cmd.scan _ _) = Unit

-- What Redis documents of a sorted set at the key `k`, of which `score` gives the members' scores,
-- as long as the server answers.
pub record SortedSet (r : Redis) (k : Bytes) : Type 0 where
  pub score : Bytes → r.Store → Option ℤ
  -- ZADD replies with the number of members that are new, and sets the score.
  pub zadd_known :
      (z : Z) (x : ℤ) (s : r.Store)
      → score z.member s ≡ some x
      → (r.call (zadd k z) s).0 ≡ some (Reply.int (pos 0))
  pub zadd_new :
      (z : Z) (s : r.Store)
      → score z.member s ≡ none
      → (r.call (zadd k z) s).0 ≡ some (Reply.int (pos 1))
  pub score-zadd :
      (z : Z) (m : Bytes) (s : r.Store)
      → score m (r.call (zadd k z) s).1 ≡ (if beq z.member m then some z.score else score m s)
  -- ZREMRANGEBYSCORE removes the members below the bound and no others.
  pub score-zrem_below :
      (b : ℤ) (m : Bytes) (s : r.Store)
      → score m (r.call (zrem_below k b) s).1
        ≡ elim (score m s) [ none ↦ none | some x ↦ if ltb_ℤ x b then none else some x ]
  -- A command or a transaction on other keys leaves the set alone.
  pub score-call :
      (q : Cmd) (m : Bytes) (s : r.Store) → Avoids k q → score m (r.call q s).1 ≡ score m s
  pub score-exec :
      (q : List Cmd) (m : Bytes) (s : r.Store)
      → All (Avoids k) q
      → score m (r.exec q s).1 ≡ score m s

-- The keys of `WriteShare` are not that of the seen shares.
share_queue-Avoids :
    (prefix : Bytes) (ms : ℕ) (login id : Bytes) (diff window : ℤ)
    → All (Avoids (pow_key prefix)) (share_queue prefix ms login id diff window)
unfolding share_queue queue_share format_key
share_queue-Avoids prefix ms login id diff window = (
  beq-append prefix _ _,
  (
    beq-append prefix _ _,
    (
      beq-append prefix _ _,
      (beq-append prefix _ _, (beq-append prefix _ _, (beq-append prefix _ _, tt))),
    ),
  ),
)

pub invalid_share-Avoids :
    (prefix : Bytes) (ms ts : ℕ) (login id : Bytes) (diff : ℤ)
    → Avoids (pow_key prefix) (invalid_share prefix ms ts login id diff)
unfolding invalid_share format_key
invalid_share-Avoids prefix ms ts login id diff = beq-append prefix _ _

module _ (r : Redis) (prefix : Bytes) (set : SortedSet r (pow_key prefix)) where
  -- After the test the share is known, at its height.
  check_pow_exist-known :
      (height : ℕ) (params : List Bytes) (s : r.Store)
      → set.score (join_with b':' params) (check_pow_exist r prefix height params s).1
        ≡ some (pos height)
  unfolding check_pow_exist
  check_pow_exist-known height params s = rw (set.score-zadd, beq_refl (join_with b':' params))

  -- A share that is known is still known behind the flush, if it is at most three blocks old.
  flush_keeps :
      (height old : ℕ) (m : Bytes) (s : r.Store)
      → 3 ≤ height
      → height < 2 ^ 64
      → height ≤ old + 3
      → set.score m s ≡ some (pos old)
      → let bound = pos ((height + 2 ^ 64 - 3) % 2 ^ 64) in
        set.score m (r.call (zrem_below (pow_key prefix) bound) s).1 ≡ some (pos old)
  flush_keeps height old m s lo hi near known = rw (set.score-zrem_below, known) (ground arith)

  pub check_pow_exist-exists :
      (height old : ℕ) (params : List Bytes) (s : r.Store)
      → 3 ≤ height
      → height < 2 ^ 64
      → height ≤ old + 3
      → set.score (join_with b':' params) s ≡ some (pos old)
      → (check_pow_exist r prefix height params s).0 ≡ some true
  unfolding check_pow_exist
  check_pow_exist-exists height old params s lo hi near known = rw (
      set.zadd_known (record { score = pos height; member = join_with b':' params }) (pos old) _
        (flush_keeps height old _ s lo hi near known))

  flush_none :
      (bound : ℤ) (m : Bytes) (s : r.Store)
      → set.score m s ≡ none
      → set.score m (r.call (zrem_below (pow_key prefix) bound) s).1 ≡ none
  flush_none bound m s new = rw (set.score-zrem_below, new)

  check_pow_exist-new :
      (height : ℕ) (params : List Bytes) (s : r.Store)
      → set.score (join_with b':' params) s ≡ none
      → (check_pow_exist r prefix height params s).0 ≡ some false
  unfolding check_pow_exist
  check_pow_exist-new height params s new = rw (
      set.zadd_new (record { score = pos height; member = join_with b':' params }) _
        (flush_none (pos ((height + 2 ^ 64 - 3) % 2 ^ 64)) _ s new))

  -- Where Redis carries out the two commands of `checkPoWExist` as a sorted set does, the share is
  -- known at its height after `WriteShare`: where it was known before, where it is stored, and where
  -- its transaction fails and nothing is credited.
  pub write_share-known :
      (ms : ℕ) (login id : Bytes) (params : List Bytes) (diff : ℤ) (height : ℕ) (window : ℤ)
      (s : r.Store)
      → set.score
          (join_with b':' params)
          (write_share r prefix ms login id params diff height window s).1
        ≡ some (pos height)
  unfolding write_share
  write_share-known ms login id params diff height window s =
      go (check_pow_exist r prefix height params s).0
    where
      s1 : r.Store
      s1 = (check_pow_exist r prefix height params s).1

      known : set.score (join_with b':' params) s1 ≡ some (pos height)
      known = check_pow_exist-known height params s

      queue : List Cmd
      queue = share_queue prefix ms login id diff window

      go :
          (exist : Option Bool)
          → set.score (join_with b':' params) (
              (elim exist as (λ _. Outcome × r.Store) [
                | none ↦ (failed, s1)
                | some true ↦ (exists, s1)
                | some false ↦ (
                  elim (r.exec queue s1).0 [ none ↦ failed | some _ ↦ stored ],
                  (r.exec queue s1).1,
                )
              ]).1)
            ≡ some (pos height)
      go none = known
      go (some true) = known
      go (some false) =
          rw (set.score-exec queue _ s1 (share_queue-Avoids prefix ms login id diff window)) known

  pub write_share-exists :
      (ms : ℕ) (login id : Bytes) (params : List Bytes) (diff : ℤ) (height : ℕ) (window : ℤ)
      (s : r.Store)
      → (check_pow_exist r prefix height params s).0 ≡ some true
      → (write_share r prefix ms login id params diff height window s).0 ≡ exists
  unfolding write_share
  write_share-exists ms login id params diff height window s e = rw (e, write_share)

  write_block-exists :
      (ms : ℕ) (login id : Bytes) (params : List Bytes) (diff round_diff : ℤ) (height : ℕ)
      (value fee window : ℤ) (s : r.Store)
      → (check_pow_exist r prefix height params s).0 ≡ some true
      → (write_block r prefix ms login id params diff round_diff height value fee window s).0
        ≡ exists
  unfolding write_block
  write_block-exists ms login id params diff round_diff height value fee window s e =
      rw (e, write_block)

  -- A share that was handed to `WriteShare` is refused when it comes again for a block at most three
  -- above (heights from 3 on), whether it comes as a share or as a block, from whatever miner.
  pub write_share_replay :
      (ms ms' : ℕ) (login id login' id' : Bytes) (params : List Bytes) (diff diff' : ℤ)
      (height height' : ℕ) (window : ℤ) (round_diff value fee : ℤ) (s : r.Store)
      → 3 ≤ height'
      → height' < 2 ^ 64
      → height' ≤ height + 3
      → let s' = (write_share r prefix ms login id params diff height window s).1 in
        ((write_share r prefix ms' login' id' params diff' height' window s').0 ≡ exists)
        × ((write_block r prefix ms' login' id' params diff' round_diff height' value fee window
              s').0
            ≡ exists)
  write_share_replay ms ms' login id login' id' params diff diff' height height' window round_diff
        value fee s lo hi near =
      let known =
        check_pow_exist-exists height' height params _ lo hi near
          (write_share-known ms login id params diff height window s) in
      (
        write_share-exists ms' login' id' params diff' height' window _ known,
        write_block-exists ms' login' id' params diff' round_diff height' value fee window _ known,
      )

  -- A share that Redis does not know is stored, if its transaction is answered.
  pub write_share_new :
      (ms : ℕ) (login id : Bytes) (params : List Bytes) (diff : ℤ) (height : ℕ) (window : ℤ)
      (s : r.Store) {replies : List Reply}
      → set.score (join_with b':' params) s ≡ none
      → (r.exec
          (share_queue prefix ms login id diff window)
          (check_pow_exist r prefix height params s).1).0
        ≡ some replies
      → (write_share r prefix ms login id params diff height window s).0 ≡ stored
  unfolding write_share
  write_share_new ms login id params diff height window s new done =
      rw (check_pow_exist-new height params s new, write_share) (rw (done, write_share))

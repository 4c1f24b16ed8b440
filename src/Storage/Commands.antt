-- ===== src/Storage/Commands.antt =====
-- The Redis commands that storage/redis.go sends, and the server as an interface: Redis is a
-- service, of which the pool knows only how it answers.
use btcpool.Common.{
  ◌≡◌, refl, sym, Bool, true, false, ◌&&◌, Option, List, [], ◌∷◌, ◌++◌, if◌then◌else◌, arith,
}
use btcpool.Common.Int.{ℤ, pos, ◌+ℤ◌, +ℤ_assoc, zero_+ℤ, int_laws, neg_ℤ}
use btcpool.Common.Bytes.{Bytes, beq}
use btcpool.Storage.Rows.{Z}

pub data Cmd : Type 0 where
  hset : Bytes → Bytes → Bytes → Cmd
  hset_nx : Bytes → Bytes → Bytes → Cmd
  hdel : Bytes → Bytes → Cmd
  hincr_by : Bytes → Bytes → ℤ → Cmd
  hget_all_map : Bytes → Cmd
  zadd : Bytes → Z → Cmd
  zrem : Bytes → Bytes → Cmd
  zincr_by : Bytes → ℤ → Bytes → Cmd
  -- `ZREMRANGEBYSCORE key -inf (bound`: the scores below the bound
  zrem_below : Bytes → ℤ → Cmd
  expire : Bytes → ℤ → Cmd
  rename : Bytes → Bytes → Cmd
  hget : Bytes → Bytes → Cmd
  -- `ZRANGE key 0 -1 WITHSCORES`
  zrange : Bytes → Cmd
  -- `ZREVRANGE key 0 last WITHSCORES`
  zrev_range : Bytes → ℤ → Cmd
  -- `ZRANGEBYSCORE key 0 max WITHSCORES`
  zrange_by_score : Bytes → ℤ → Cmd
  zcard : Bytes → Cmd
  smembers : Bytes → Cmd
  exists : Bytes → Cmd
  set_nx : Bytes → Bytes → Cmd
  get : Bytes → Cmd
  -- `SCAN cursor MATCH pattern COUNT 100`
  scan : ℤ → Bytes → Cmd
  del : Bytes → Cmd

pub data Reply : Type 0 where
  int : ℤ → Reply
  status : Reply
  hash : List (Bytes × Bytes) → Reply
  rows : List Z → Reply
  members : List Bytes → Reply
  -- `none` is nil
  text : Option Bytes → Reply
  page : ℤ → List Bytes → Reply

-- A call changes the store and replies, or it fails; `exec` is one MULTI ... EXEC.
pub record Redis : Type 1 where
  pub Store : Type 0
  pub call : Cmd → Store → Option Reply × Store
  pub exec : List Cmd → Store → Option (List Reply) × Store

-- `n` where the test holds, and nothing elsewhere.
unfoldable pub when : Bool → ℤ → ℤ
when b n = if b then n else pos 0

pub when-zero : (b : Bool) → when b (pos 0) ≡ pos 0
unfolding when
when-zero b = ground arith

pub when-false : (n : ℤ) → when false n ≡ pos 0
unfolding when
when-false n = refl

pub when-+ℤ : (b : Bool) (m n : ℤ) → when b (m +ℤ n) ≡ when b m +ℤ when b n
unfolding when
when-+ℤ true m n = refl
when-+ℤ false m n = omega int_laws

-- By how much a queue of commands raises the field `f` of the hashes whose key passes the test.
unfoldable pub increments : (Bytes → Bool) → Bytes → List Cmd → ℤ
increments p f [] = pos 0
increments p f (Cmd.hincr_by k g n ∷ q) = when (p k && beq g f) n +ℤ increments p f q
increments p f (_ ∷ q) = increments p f q

-- A queue raises a field by what its parts do.
pub increments-append :
    (p : Bytes → Bool) (f : Bytes) (q r : List Cmd)
    → increments p f (q ++ r) ≡ increments p f q +ℤ increments p f r
unfolding increments
increments-append p f [] r = sym (zero_+ℤ (increments p f r))
increments-append p f (Cmd.hincr_by k g n ∷ q) r = simp (increments-append p f q r, +ℤ_assoc)
increments-append p f (_ ∷ q) r = increments-append p f q r

pub when-neg : (b : Bool) (n : ℤ) → when b (neg_ℤ n) ≡ neg_ℤ (when b n)
unfolding when
when-neg true n = refl
when-neg false n = refl

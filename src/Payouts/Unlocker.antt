-- ===== src/Payouts/Unlocker.antt =====
-- payouts/unlocker.go: the sessions of the block unlocker, as actions on the state of the node and
-- of Redis, which are parameters. A session stops at the first error; a panic ends the process.
pub mod Split
pub mod Halt
use btcpool.Common.{
  ℕ, zero, suc, ◌+◌, ◌-◌, ◌%◌, ◌^◌, Bool, true, false, ◌&&◌, Option, none, some, List, [], ◌∷◌, map,
  ltb, length, if◌then◌else◌,
}
use btcpool.Common.Int.{ℤ, pos, ◌-ℤ◌}
use btcpool.Common.Bytes.{Bytes, beq}
use btcpool.Common.Hex.{hex8, lower}
use btcpool.Storage.Keys.{BlockData}
use btcpool.Storage.Commands.{Cmd}
use btcpool.Storage.Finance.{
  immature_credits_key, write_immature_block, write_matured_block, write_orphan,
  write_pending_orphans,
}
use btcpool.Payouts.Rewards.{Config, Round, handle_block, calculate_rewards}

pub data Failure : Type 0 where
  node_error backend_error : Failure

pub data Result (A : Type 0) : Type 0 where
  ok : A → Result A
  err : Failure → Result A
  panic : Result A

abbrev pub Action : Type 0 → Type 0 → Type 0
Action St A = St → Result A × St

-- The rest of an action behind its first step.
abbrev pub continue : {St A B : Type 0} → Result A × St → (A → Action St B) → Result B × St
continue (ok a, s) f = f a s
continue (err e, s) f = (err e, s)
continue (panic, s) f = (panic, s)

infixl 5 ◌>>=◌ ◌>>◌
abbrev pub ◌>>=◌ : {St A B : Type 0} → Action St A → (A → Action St B) → Action St B
◌>>=◌ m f s = continue (m s) f

abbrev pub ◌>>◌ : {St A B : Type 0} → Action St A → Action St B → Action St B
m >> k = m >>= λ _. k

abbrev pub pure : {St A : Type 0} → A → Action St A
pure a s = (ok a, s)

abbrev pub or_fail : {St A : Type 0} → Failure → (St → Option A) → Action St A
or_fail e f s = (elim (f s) [ none ↦ err e | some a ↦ ok a ], s)

abbrev pub or_panic : {St A : Type 0} → Option A → Action St A
or_panic o s = (elim o [ none ↦ panic | some a ↦ ok a ], s)

-- The part of `rpc.GetBlockReply` that is read.
pub record NodeBlock : Type 0 where
  pub nonce : ℕ
  pub hash : Bytes

-- The node and the backend: reads that may fail, and transactions.
pub record Services : Type 1 where
  pub St : Type 0
  -- the height of the node's block template, a uint32
  pub pending_height : St → Option ℕ
  pub block_hash : ℤ → St → Option Bytes
  -- the inner `none` is a reply without a result, a nil block
  pub block_by_hash : Bytes → St → Option (Option NodeBlock)
  pub candidates : ℤ → St → Option (List BlockData)
  pub immature_blocks : ℤ → St → Option (List BlockData)
  pub round_shares : ℤ → Bytes → St → Option (List (Bytes × ℤ))
  -- whether WATCH of a key succeeds, and HGETALL of it
  pub watch : Bytes → St → Bool
  pub hget_all_map : Bytes → St → Option (List (Bytes × Bytes))
  pub now : St → ℤ
  -- whether the transaction was carried out
  pub exec : List Cmd → St → Bool × St

-- `strings.EqualFold` on ASCII.
pub equal_fold : Bytes → Bytes → Bool
equal_fold s t = beq (map lower s) (map lower t)

-- Whether the node's block at the candidate's height has its nonce.
pub is_mature : NodeBlock → BlockData → Bool
is_mature block candidate =
    ltb 0 (length candidate.nonce) && equal_fold candidate.nonce (hex8 block.nonce)

module _ (c : Config) (prefix : Bytes) (sv : Services) where
  open sv use {St}

  abbrev run_tx : List Cmd → Action St (Unit {0})
  run_tx q s = let (done, s') = sv.exec q s in (if done then ok tt else err backend_error, s')

  -- The node's block at the height of a candidate; a nil block is a panic, as its nonce is read.
  pub node_block : BlockData → Action St NodeBlock
  node_block candidate = do
    hash ← or_fail node_error (sv.block_hash candidate.height)
    block ← or_fail node_error (sv.block_by_hash hash)
    or_panic block

  -- A matured candidate; the log line takes ten bytes of its hash, and panics if it is shorter.
  pub mature : NodeBlock → BlockData → Option BlockData
  mature block candidate =
      if ltb (length block.hash) 10 then none else handle_block c block.hash candidate

  -- One round of the loop of `unlockCandidates`, before what the later rounds give; the test is
  -- whether the candidate is mature.
  pub place_as :
      Bool
      → BlockData
      → Action St (List BlockData × List BlockData)
      → NodeBlock
      → Action St (List BlockData × List BlockData)
  place_as true candidate later block = do
    m ← or_panic (mature block candidate)
    (ms, os) ← later
    pure (m ∷ ms, os)
  place_as false candidate later block = do
    (ms, os) ← later
    pure (ms, record candidate { orphan = true } ∷ os)

  pub place :
      BlockData
      → Action St (List BlockData × List BlockData)
      → NodeBlock
      → Action St (List BlockData × List BlockData)
  place candidate later block = place_as (is_mature block candidate) candidate later block

  -- `unlockCandidates`: the matured and the orphaned blocks, in order.
  pub unlock_candidates : List BlockData → Action St (List BlockData × List BlockData)
  unlock_candidates [] = pure ([], [])
  unlock_candidates (candidate ∷ rest) =
      let later = unlock_candidates rest in node_block candidate >>= place candidate later

  -- `int64(current.Height - 1)`, with the subtraction in uint32.
  unfoldable pub current_height : Action St ℤ
  current_height = do
    h ← or_fail node_error sv.pending_height
    pure (pos ((h + 2 ^ 32 - 1) % 2 ^ 32))

  -- The immature credits of a block, under WATCH. Only the error of WATCH is tested: an HGETALL that
  -- fails gives an empty map.
  pub immature_credits : BlockData → Action St (List (Bytes × Bytes))
  immature_credits block s =
      let credit_key = immature_credits_key prefix block.round_height block.hash in
      (
        if sv.watch credit_key s
            then ok (elim (sv.hget_all_map credit_key s) [ none ↦ [] | some m ↦ m ])
            else err backend_error,
        s,
      )

  pub round_of : BlockData → Action St Round
  round_of block = do
    -- the reward is read before the shares
    or_panic block.reward
    shares ← or_fail backend_error (sv.round_shares block.round_height block.nonce)
    or_panic (calculate_rewards c block shares)

  pub credit_immature_blocks : List BlockData → Action St (Unit {0})
  credit_immature_blocks [] = pure tt
  credit_immature_blocks (block ∷ blocks) =
      let later = credit_immature_blocks blocks in
      do round ← round_of block; run_tx (write_immature_block prefix block round.rewards); later

  pub credit_matured_blocks : List BlockData → Action St (Unit {0})
  credit_matured_blocks [] = pure tt
  credit_matured_blocks (block ∷ blocks) =
      let later = credit_matured_blocks blocks in
      do
        round ← round_of block
        credits ← immature_credits block
        queue ← λ s. or_panic (write_matured_block prefix (sv.now s) block credits round.rewards) s
        run_tx queue
        later

  pub drop_orphans : List BlockData → Action St (Unit {0})
  drop_orphans [] = pure tt
  drop_orphans (block ∷ blocks) =
      let later = drop_orphans blocks in
      do credits ← immature_credits block; run_tx (write_orphan prefix block credits); later

  -- The body of `unlockPendingBlocks`.
  unfoldable pub pending_session : Action St (Unit {0})
  pending_session = do
    height ← current_height
    candidates ← or_fail backend_error (sv.candidates (height -ℤ c.immature_depth))
    elim candidates [
      | [] ↦ pure tt
      | b ∷ bs ↦ (do
        (matured, orphaned) ← unlock_candidates (b ∷ bs)
        run_tx (write_pending_orphans prefix orphaned)
        credit_immature_blocks matured)
    ]

  -- The body of `unlockAndCreditMiners`.
  pub credit_session : Action St (Unit {0})
  credit_session = do
    height ← current_height
    immature ← or_fail backend_error (sv.immature_blocks (height -ℤ c.depth))
    elim immature [
      | [] ↦ pure tt
      | b ∷ bs ↦ (do
        (matured, orphaned) ← unlock_candidates (b ∷ bs)
        drop_orphans orphaned
        credit_matured_blocks matured)
    ]

-- The fields of `BlockUnlocker` that change; `lastFail` is set with `halt`, and only logged.
pub record BlockUnlocker : Type 0 where
  pub halt : Bool
  pub last_fail : Option Failure

-- Every error halts the unlocker; `none` is the end of the process by a panic.
pub settle : BlockUnlocker → Result (Unit {0}) → Option BlockUnlocker
settle u (ok _) = some u
settle u (err e) = some (record { halt = true; last_fail = some e })
settle u panic = none

pub guarded : {St : Type 0} → Action St (Unit {0}) → BlockUnlocker → St → Option BlockUnlocker × St
guarded session u s = if u.halt then (some u, s) else (let (r, s') = session s in (settle u r, s'))

-- A process that has ended does nothing more.
abbrev pub next :
    {St : Type 0}
    → Option BlockUnlocker × St
    → (BlockUnlocker → St → Option BlockUnlocker × St)
    → Option BlockUnlocker × St
next (none, s) f = (none, s)
next (some u, s) f = f u s

module _ (c : Config) (prefix : Bytes) (sv : Services) where
  pub unlock_pending_blocks : BlockUnlocker → sv.St → Option BlockUnlocker × sv.St
  unlock_pending_blocks = guarded (pending_session c prefix sv)

  pub unlock_and_credit_miners : BlockUnlocker → sv.St → Option BlockUnlocker × sv.St
  unlock_and_credit_miners = guarded (credit_session c prefix sv)

  -- One tick of the timer in `Start`.
  pub tick : BlockUnlocker → sv.St → Option BlockUnlocker × sv.St
  tick u s = next (unlock_pending_blocks u s) unlock_and_credit_miners

  -- The loop of `Start` for a number of ticks.
  pub ticks : ℕ → BlockUnlocker → sv.St → Option BlockUnlocker × sv.St
  ticks zero u s = (some u, s)
  ticks (suc n) u s = next (tick u s) (ticks n)

-- ===== src/Storage/Shares.antt =====
-- storage/redis.go: shares and block candidates, and the test for a share that was seen before.
-- Redis is a parameter; the milliseconds that `MakeTimestamp` gives are an argument.
pub mod Replay
use btcpool.Common.{
  ℕ, zero, ◌+◌, ◌-◌, ◌/◌, ◌%◌, ◌^◌, Bool, true, false, Option, none, some, List, [], ◌∷◌, ◌++◌,
  get_elem?,
}
use btcpool.Common.Int.{ℤ, pos, add64}
use btcpool.Common.Bytes.{Bytes, codes, join_with}
use btcpool.Common.Decimal.{format_int, parse_int}
use btcpool.Storage.Keys.{Arg, str, int64, join, format_key, format_round}
use btcpool.Storage.Rows.{Z}
use btcpool.Storage.Commands.{
  Cmd, hset, hdel, hincr_by, hget_all_map, zadd, zincr_by, zrem_below, expire, rename, Reply, Redis,
}

-- What the caller sees: an error, a share that exists, a share that is stored, or a panic.
pub data Outcome : Type 0 where
  failed exists stored panic : Outcome

module _ (prefix : Bytes) where
  abbrev pub pow_key : Bytes
  pow_key = format_key prefix (str (codes "pow") ∷ [])

  abbrev pub round_current_key : Bytes
  round_current_key = format_key prefix (str (codes "shares") ∷ str (codes "roundCurrent") ∷ [])

  abbrev pub stats_key : Bytes
  stats_key = format_key prefix (str (codes "stats") ∷ [])

  -- The helper `writeShare`.
  pub queue_share : ℕ → ℕ → Bytes → Bytes → ℤ → ℤ → List Cmd
  queue_share ms ts login id diff window =
      hincr_by round_current_key login diff
      ∷ zadd (format_key prefix (str (codes "hashrate") ∷ [])) (record {
        score = pos ts;
        member = join (int64 diff ∷ str login ∷ str id ∷ int64 (pos ms) ∷ []);
      })
      ∷ zadd (format_key prefix (str (codes "hashrate") ∷ str login ∷ []))
          (record { score = pos ts; member = join (int64 diff ∷ str id ∷ int64 (pos ms) ∷ []) })
      ∷ expire (format_key prefix (str (codes "hashrate") ∷ str login ∷ [])) window
      ∷ hset (format_key prefix (str (codes "miners") ∷ str login ∷ [])) (codes "lastShare")
          (format_int (pos ts))
      ∷ []

  -- The queue of `WriteShare`.
  pub share_queue : ℕ → Bytes → Bytes → ℤ → ℤ → List Cmd
  share_queue ms login id diff window =
      queue_share ms (ms / 1000) login id diff window
      ++ hincr_by stats_key (codes "roundShares") diff ∷ []

  -- The queue of `WriteBlock`; `nonce` is `params[0]`.
  pub block_queue : ℕ → Bytes → Bytes → Bytes → ℤ → ℕ → ℤ → List Cmd
  block_queue ms login id nonce diff height window =
      queue_share ms (ms / 1000) login id diff window
      ++ hset stats_key (codes "lastBlockFound") (format_int (pos (ms / 1000)))
        ∷ hdel stats_key (codes "roundShares")
        ∷ zincr_by (format_key prefix (str (codes "finders") ∷ [])) (pos 1) login
        ∷ hincr_by (format_key prefix (str (codes "miners") ∷ str login ∷ [])) (codes "blocksFound")
            (pos 1)
        ∷ rename round_current_key (format_round prefix (pos height) nonce)
        ∷ hget_all_map (format_round prefix (pos height) nonce)
        ∷ []

  pub invalid_share : ℕ → ℕ → Bytes → Bytes → ℤ → Cmd
  invalid_share ms ts login id diff =
      zadd (format_key prefix (str (codes "invalidhashrate") ∷ [])) (record {
        score = pos ts;
        member = join (int64 diff ∷ str login ∷ str id ∷ int64 (pos ms) ∷ []);
      })

  pub reject_share : ℕ → ℕ → Bytes → Bytes → ℤ → Cmd
  reject_share ms ts login id diff =
      zadd (format_key prefix (str (codes "rejecthashrate") ∷ [])) (record {
        score = pos ts;
        member = join (int64 diff ∷ str login ∷ str id ∷ int64 (pos ms) ∷ []);
      })

-- The sum of the shares of a round, over the reply to HGETALL.
pub total_of : ℤ → List (Bytes × Bytes) → ℤ
total_of total [] = total
total_of total ((_, v) ∷ shares) = total_of (add64 total (parse_int v).0) shares

-- The member that `WriteBlock` adds to the candidates.
unfoldable pub candidate_row : List Bytes → ℤ → ℤ → ℤ → ℤ → ℤ → Bytes
candidate_row params ts round_diff total_shares coin_base_value blk_total_fee = join (
    str (join_with b':' params)
    ∷ int64 ts
    ∷ int64 round_diff
    ∷ int64 total_shares
    ∷ int64 coin_base_value
    ∷ int64 blk_total_fee
    ∷ [])

module _ (r : Redis) (prefix : Bytes) where
  open r use {Store, call, exec}

  -- `checkPoWExist`: `none` is an error. The bound `height-3` is computed in uint64.
  pub check_pow_exist : ℕ → List Bytes → Store → Option Bool × Store
  check_pow_exist height params s =
      let pow = pow_key prefix in
      let (_, s1) = call (zrem_below pow (pos ((height + 2 ^ 64 - 3) % 2 ^ 64))) s in
      let (reply, s2) =
        call (zadd pow (record { score = pos height; member = join_with b':' params })) s1 in
      (
        elim reply [
          | some (Reply.int (pos zero)) ↦ some true
          | some (Reply.int _) ↦ some false
          | _ ↦ none
        ],
        s2,
      )

  pub write_share : ℕ → Bytes → Bytes → List Bytes → ℤ → ℕ → ℤ → Store → Outcome × Store
  write_share ms login id params diff height window s =
      let (exist, s1) = check_pow_exist height params s in
      elim exist [
        | none ↦ (failed, s1)
        | some true ↦ (exists, s1)
        | some false ↦
            let (reply, s2) = exec (share_queue prefix ms login id diff window) s1 in
            (elim reply [ none ↦ failed | some _ ↦ stored ], s2)
      ]

  -- The end of `WriteBlock`, from the replies to its transaction.
  pub add_candidate : ℕ → List Bytes → ℤ → ℕ → ℤ → ℤ → List Reply → Store → Outcome × Store
  add_candidate ms params round_diff height coin_base_value blk_total_fee cmds s =
      elim (get_elem? cmds 10) [
        | some (Reply.hash shares) ↦
            let row =
              candidate_row params (pos (ms / 1000)) round_diff (total_of (pos 0) shares)
                coin_base_value blk_total_fee in
            let (reply, s') =
              call
                (zadd (format_key prefix (str (codes "blocks") ∷ str (codes "candidates") ∷ []))
                  (record { score = pos height; member = row }))
                s in
            (elim reply [ none ↦ failed | some _ ↦ stored ], s')
        | _ ↦ (panic, s)
      ]

  pub write_block : ℕ → Bytes → Bytes → List Bytes → ℤ → ℤ → ℕ → ℤ → ℤ → ℤ → Store → Outcome × Store
  write_block ms login id params diff round_diff height coin_base_value blk_total_fee window s =
      let (exist, s1) = check_pow_exist height params s in
      elim exist [
        | none ↦ (failed, s1)
        | some true ↦ (exists, s1)
        | some false ↦ elim (get_elem? params 0) [
          | none ↦ (panic, s1)
          | some nonce ↦
              let (reply, s2) = exec (block_queue prefix ms login id nonce diff height window) s1 in
              elim reply [
                | none ↦ (failed, s2)
                | some cmds ↦
                    add_candidate ms params round_diff height coin_base_value blk_total_fee cmds s2
              ]
        ]
      ]

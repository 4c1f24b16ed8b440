-- ===== src/Proxy/Session/Effect.antt =====
-- What mining.submit does to Redis and the node.
use btcpool.Common.{ℕ, ◌≡◌, Bool, true, Option, some, List, [], ◌∷◌, ◌⊎◌}
use btcpool.Common.Int.{ℤ}
use btcpool.Common.Bytes.{Bytes}
use btcpool.Storage.Commands.{Redis}
use btcpool.Policy.{Config}
use btcpool.Proxy.Work.{Packages, BlockTemplate, target_hex_to_diff}
use btcpool.Proxy.Miner.{World}
use btcpool.Proxy.Miner.Sends.{SendsBlock}
use btcpool.Proxy.Session.{submission_of, Session, Pool, Response, nonce_pattern}

module _ (c : Config) (too_many : ℤ → ℤ → Bool) (p : Packages) (r : Redis) (prefix : Bytes)
    (accepts : Bytes → World r → Bool) where
  -- The parameters are five, with nonces and a time of eight hexadecimal digits in lower case; there
  -- is a template; the session's target is no 0; and the node is sent nothing, or one block that the
  -- share makes.
  abbrev pub Comes :
      ℕ → ℤ → Session → List Bytes → Option BlockTemplate → World r → World r → Type 0
  Comes ms window cs params tpl w w' =
      (worker job e_nonce2 n_time nonce : Bytes) × (t : BlockTemplate) × (diff : ℤ) × (params
        ≡ worker ∷ job ∷ e_nonce2 ∷ n_time ∷ nonce ∷ [])
      × (nonce_pattern e_nonce2 ≡ true)
      × (nonce_pattern n_time ≡ true)
      × (nonce_pattern nonce ≡ true)
      × (tpl ≡ some t)
      × (target_hex_to_diff p cs.target ≡ some diff)
      × ((w'.submitted ≡ w.submitted)
          ⊎ SendsBlock p r prefix accepts (submission_of ms window cs diff) t job e_nonce2 n_time
              nonce w w')

  -- What a submission does to Redis and the node: nothing, or what a well formed one may do.
  abbrev pub Touches :
      ℕ → ℤ → Session → List Bytes → Option BlockTemplate → Pool r → Response × Pool r → Type 0
  Touches ms window cs params tpl s o =
      (o.1.world ≡ s.world) ⊎ Comes ms window cs params tpl s.world o.1.world

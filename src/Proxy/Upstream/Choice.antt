-- ===== src/Proxy/Upstream/Choice.antt =====
-- Which node `checkUpstreams` chooses.
use btcpool.Common.{
  ℕ, suc, ◌+◌, ◌≡◌, refl, ap, ◌∙◌, Bool, true, false, ◌⊎◌, inl, inr, Option, some, List, [], ◌∷◌,
  get_elem?, take, All, map, arith,
}
use btcpool.Common.Bytes.{Bytes}
use btcpool.Common.Result.{Result, panic, failed, done}
use btcpool.Rpc.{RpcClient, Node, found, check}
use btcpool.Proxy.Upstream.{ProxyServer, rpc, choose, checked, check_loop, check_upstreams}

found-healthy : (x : Result Bytes × RpcClient) → (found x).0 ≡ some true → (found x).1.sick ≡ false
unfolding found
found-healthy (panic, r) e = absurd cc
found-healthy (failed, r) e = absurd cc
found-healthy (done _, r) e = ground arith

choose_kept : (i : ℕ) (b : Bool) (c : ℕ) → choose i b (c, true) ≡ (c, true)
unfolding choose
choose_kept i b c = ground arith

module _ {ℓ} {Json : Type ℓ} (unmarshal : Json → Option Bytes) (network : Bytes → Node Json) where
  abbrev pub IsUnhealthy : RpcClient → Type 0
  IsUnhealthy r = (checked unmarshal network r).0 ≡ some false

  abbrev pub Returns : RpcClient → Type 0
  Returns r = (healthy : Bool) × ((checked unmarshal network r).0 ≡ some healthy)

  checked-healthy :
      (r : RpcClient)
      → (checked unmarshal network r).0 ≡ some true
      → (checked unmarshal network r).1.sick ≡ false
  unfolding check
  checked-healthy r e = found-healthy _ e

  abbrev after : RpcClient → RpcClient
  after r = (checked unmarshal network r).1

  check_loop_kept :
      (i c : ℕ) (upstreams : List RpcClient)
      → All Returns upstreams
      → check_loop unmarshal network i upstreams (c, true) ≡ some ((c, true), map after upstreams)
  unfolding check_loop choose
  check_loop_kept i c [] h = refl
  check_loop_kept i c (r ∷ upstreams) ((b, e), h) =
      rw (e) (rw (choose_kept i b c, check_loop_kept (i + 1) c upstreams h) refl)

  -- Its check finds it healthy.
  abbrev pub IsHealthy : RpcClient → Type 0
  IsHealthy r = (checked unmarshal network r).0 ≡ some true

  -- The choice among clients whose first has index `i`: none is healthy and the candidate stays, or
  -- it is one that its check finds healthy, behind none that is.
  abbrev Chosen : ℕ → ℕ → List RpcClient → ℕ × Bool → Type 0
  Chosen i c upstreams chosen =
      ((chosen ≡ (c, false)) × All IsUnhealthy upstreams)
      ⊎ ((k : ℕ) × (r : RpcClient) × (chosen ≡ (i + k, true))
          × (get_elem? upstreams k ≡ some r)
          × (get_elem? (map after upstreams) k ≡ some (after r))
          × IsHealthy r
          × All IsUnhealthy (take k upstreams))

  later :
      (i c : ℕ) (r : RpcClient) (upstreams : List RpcClient) (chosen : ℕ × Bool)
      → IsUnhealthy r
      → Chosen (i + 1) c upstreams chosen
      → Chosen i c (r ∷ upstreams) chosen
  later i c r upstreams chosen e (inl (p, u)) = inl (p, (e, u))
  later i c r upstreams chosen e (inr (k, r', p, q, q', s, u)) =
      inr (suc k, r', p ∙ ap (λ n. (n, true)) (omega arith), q, q', s, (e, u))

  check_loop-Chosen :
      (i c : ℕ) (upstreams : List RpcClient)
      → All Returns upstreams
      → (chosen : ℕ × Bool) × (check_loop unmarshal network i upstreams (c, false)
          ≡ some (chosen, map after upstreams))
        × Chosen i c upstreams chosen
  unfolding check_loop choose
  check_loop-Chosen i c [] h = ((c, false), refl, inl (refl, tt))
  check_loop-Chosen i c (r ∷ upstreams) ((true, e), h) = (
    (i, true),
    rw (e) (rw (check_loop_kept (i + 1) i upstreams h) refl),
    inr (0, r, ap (λ n. (n, true)) (omega arith), refl, refl, e, tt),
  )
  check_loop-Chosen i c (r ∷ upstreams) ((false, e), h) =
      let (chosen, f, g) = check_loop-Chosen (i + 1) c upstreams h in
      (chosen, rw (e) (rw (f) refl), later i c r upstreams chosen e g)

  -- The client was at this place, was found healthy by its check, behind none that was, and this is
  -- what the check made of it.
  abbrev pub IsFirstHealthy : List RpcClient → ℕ → RpcClient → Type 0
  IsFirstHealthy upstreams k r =
      (old : RpcClient) × (get_elem? upstreams k ≡ some old)
      × IsHealthy old
      × (after old ≡ r)
      × (r.sick ≡ false)
      × All IsUnhealthy (take k upstreams)

  settled :
      (first : RpcClient) (others : List RpcClient) (upstreams : List RpcClient) (chosen : ℕ × Bool)
      → upstreams ≡ first ∷ others
      → Chosen 0 0 upstreams chosen
      → (r : RpcClient) × (get_elem? (map after upstreams) chosen.0 ≡ some r)
        × (((chosen.0 ≡ 0) × All IsUnhealthy upstreams) ⊎ IsFirstHealthy upstreams chosen.0 r)
  settled first others upstreams chosen e (inl (p, u)) =
      (after first, rw (p, e) refl, inl (ap (λ x. x.0) p, u))
  settled first others upstreams chosen e (inr (k, r, p, q, q', healthy, u)) =
      let same : chosen.0 ≡ k = ap (λ x. x.0) p ∙ omega arith in
      (
        after r,
        rw (same) q',
        inr (r, rw (same) q, healthy, refl, checked-healthy r healthy, rw (same) u),
      )

  -- Where no check panics and there is a client, `checkUpstreams` ends with a client to use. Either no
  -- check of a client gives true and it is the first of all; or its own check gives true, the checks
  -- of all before it give false, and it is the client as its check left it, which is not sick.
  pub check_upstreams_first :
      (s : ProxyServer) (first : RpcClient) (others : List RpcClient)
      → s.upstreams ≡ first ∷ others
      → All Returns s.upstreams
      → (s' : ProxyServer) × (r : RpcClient) × (check_upstreams unmarshal network s ≡ some s')
        × (rpc s' ≡ some r)
        × (((s'.upstream ≡ 0) × All IsUnhealthy s.upstreams)
            ⊎ IsFirstHealthy s.upstreams s'.upstream r)
  unfolding check_upstreams rpc
  check_upstreams_first s first others e h =
      let (chosen, f, g) = check_loop-Chosen 0 0 s.upstreams h in
      let (r, found_at, chosen_by) = settled first others s.upstreams chosen e g in
      (
        record s { upstream = chosen.0; upstreams = map after s.upstreams },
        r,
        rw (f) refl,
        found_at,
        chosen_by,
      )

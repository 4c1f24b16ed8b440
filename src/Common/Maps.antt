-- ===== src/Common/Maps.antt =====
-- A Go map from strings, as the list of its entries: what it means that no key comes twice.
use btcpool.Common.{◌≡◌, false, List, [], ◌∷◌, ◌++◌, All, All-append}
use btcpool.Common.Bytes.{Bytes, beq}

module _ {ℓ} {A : Type ℓ} where
  abbrev pub IsMap : List (Bytes × A) → Type 0
  IsMap [] = Unit
  IsMap ((k, _) ∷ m) = All (λ s. beq k s.0 ≡ false) m × IsMap m

  -- No entry has the key.
  abbrev pub Fresh : Bytes → List (Bytes × A) → Type 0
  Fresh k = All (λ r. beq r.0 k ≡ false)

-- The keys of one map are fresh for another.
abbrev pub AllFresh {ℓ κ} : {A : Type ℓ} {B : Type κ} → List (Bytes × A) → List (Bytes × B) → Type 0
AllFresh rest done = All (λ s. Fresh s.0 done) rest

-- Where nothing is done, every key is fresh.
pub AllFresh-nil {ℓ κ} :
    {A : Type ℓ} (B : Type κ) (rest : List (Bytes × A)) → AllFresh {B = B} rest []
AllFresh-nil B [] = tt
AllFresh-nil B (_ ∷ rest) = (tt, AllFresh-nil B rest)

-- The keys stay fresh when an entry with yet another one is done.
pub AllFresh-append {ℓ κ} :
    {A : Type ℓ} {B : Type κ} (k : Bytes) (v : B) (done : List (Bytes × B))
    (rest : List (Bytes × A))
    → All (λ s. beq k s.0 ≡ false) rest
    → AllFresh rest done
    → AllFresh rest (done ++ (k, v) ∷ [])
AllFresh-append k v done [] h f = tt
AllFresh-append k v done ((l, _) ∷ rest) h f = (
  All-append (λ r. beq r.0 l ≡ false) done _ f.0 (h.0, tt),
  AllFresh-append k v done rest h.1 f.1,
)

-- ===== src/Common/Result.antt =====
-- The end of a Go call that can fail or panic. An error's text is not kept.
use btcpool.Common.{
  subst, Option, none, some, ◌≡◌, ◌≢◌, ◌⊎◌, inl, inr, refl, Bool, true, false, if◌then◌else◌,
}

pub data Result {ℓ} (A : Type ℓ) : Type ℓ where
  panic failed : Result A
  done : A → Result A

infixl 5 ◌>>=◌
abbrev pub ◌>>=◌ {ℓ κ} : {A : Type ℓ} {B : Type κ} → Result A → (A → Result B) → Result B
panic >>= f = panic
failed >>= f = failed
done a >>= f = f a

-- `none` is an error.
abbrev pub or_fail {ℓ} : {A : Type ℓ} → Option A → Result A
or_fail none = failed
or_fail (some a) = done a

-- `none` is a panic.
abbrev pub or_panic {ℓ} : {A : Type ℓ} → Option A → Result A
or_panic none = panic
or_panic (some a) = done a

-- Where a call is done, each of its steps was.
pub or_fail-elim {ℓ κ ι} :
    {A : Type ℓ} {B : Type κ} {C : Type ι} (o : Option A) (f : A → Result B) {b : B}
    → (or_fail o >>= f) ≡ done b
    → ((a : A) → o ≡ some a → f a ≡ done b → C)
    → C
or_fail-elim none f h k = absurd cc
or_fail-elim (some a) f h k = k a refl h

pub done-elim {ℓ κ ι} :
    {A : Type ℓ} {B : Type κ} {C : Type ι} (m : Result A) (f : A → Result B) {b : B}
    → (m >>= f) ≡ done b
    → ((a : A) → m ≡ done a → f a ≡ done b → C)
    → C
done-elim panic f h k = absurd cc
done-elim failed f h k = absurd cc
done-elim (done a) f h k = k a refl h

-- A call panics only where one of its steps does.
pub or_fail-total {ℓ κ} :
    {A : Type ℓ} {B : Type κ} (o : Option A) (f : A → Result B)
    → ((a : A) → o ≡ some a → f a ≢ panic)
    → (or_fail o >>= f) ≢ panic
or_fail-total none f k e = cc
or_fail-total (some a) f k e = k a refl e

pub done-total {ℓ κ} :
    {A : Type ℓ} {B : Type κ} (m : Result A) (f : A → Result B)
    → m ≢ panic
    → ((a : A) → f a ≢ panic)
    → (m >>= f) ≢ panic
done-total panic f h k e = h refl
done-total failed f h k e = cc
done-total (done a) f h k e = k a e

pub if-total {ℓ} :
    {A : Type ℓ} (b : Bool) (x y : Result A)
    → (b ≡ true → x ≢ panic)
    → (b ≡ false → y ≢ panic)
    → (if b then x else y) ≢ panic
if-total true x y h k = h refl
if-total false x y h k = k refl

pub failed-total {ℓ} : {A : Type ℓ} → ◌≢◌ {A = Result A} failed panic
failed-total e = cc

pub is_done {ℓ} : {A : Type ℓ} {a : A} → done a ≢ panic
is_done e = cc

-- What holds of a result holds of the result under another name.
pub done-subst {ℓ κ} :
    {A : Type ℓ} (P : A → Type κ) {a b : A} → ◌≡◌ {A = Result A} (done a) (done b) → P a → P b
done-subst P {a} {b} e h = let same : a ≡ b = cc in subst P same h

pub unless-done {ℓ} :
    {A : Type ℓ} (b : Bool) (x : Result A) {a : A} → (if b then failed else x) ≡ done a → x ≡ done a
unless-done true x e = absurd cc
unless-done false x e = e

pub Result-cases {ℓ} :
    {A : Type ℓ} (m : Result A) → (m ≡ panic) ⊎ (m ≡ failed) ⊎ ((a : A) × (m ≡ done a))
Result-cases panic = inl refl
Result-cases failed = inr (inl refl)
Result-cases (done a) = inr (inr (a, refl))

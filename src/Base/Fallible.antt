-- ===== src/Base/Fallible.antt =====
-- Go functions that return a value or an error.
use mathlib.Core.Path.{◌≡◌, refl, ap}
use mathlib.Core.Option.{Option, none, some}

pub data Result {ℓ κ} (E : Type ℓ) (A : Type κ) : Type (ℓ ⊔ κ) where
  ok : A → Result E A
  err : E → Result E A

infixl 5 ◌>>=◌
abbrev pub ◌>>=◌ {ℓ κ μ} :
    {E : Type ℓ} {A : Type κ} {B : Type μ} → Result E A → (A → Result E B) → Result E B
ok x >>= next = next x
err failure >>= next = err failure

-- A value that may be missing, with the error that then is returned.
abbrev pub need {ℓ κ} : {E : Type ℓ} {A : Type κ} → Option A → E → Result E A
need none e = err e
need (some x) e = ok x

module _ {ℓ κ} {E : Type ℓ} {A : Type κ} where
  pub need-eq-ok : (o : Option A) (e : E) {x : A} → need o e ≡ ok x → o ≡ some x
  need-eq-ok none e h = cc
  need-eq-ok (some y) e h = ap some (ap (λ r. elim r [ ok z ↦ z | err f ↦ y ]) h)

  -- A chain succeeds if both of its parts do.
  pub >>=-eq-ok {μ} :
      {B : Type μ} (first : Result E A) (next : A → Result E B) {y : B}
      → (first >>= next) ≡ ok y
      → (x : A) × (first ≡ ok x) × (next x ≡ ok y)
  >>=-eq-ok (ok x) next done = (x, refl, done)
  >>=-eq-ok (err failure) next done = cc

  pub ok-injective : (x y : A) → ◌≡◌ {A = Result E A} (ok x) (ok y) → x ≡ y
  ok-injective x y same = ap (λ r. elim r [ ok z ↦ z | err failure ↦ x ]) same

-- ===== src/Base/Outcome.antt =====
-- Go code that may panic: an index or a slice out of range, or an explicit `panic`.
use mathlib.Core.Path.{◌≡◌, refl}

pub data Go {ℓ} (A : Type ℓ) : Type ℓ where
  ret : A → Go A
  panics : Go A

infixl 5 ◌>>=◌
abbrev pub ◌>>=◌ {ℓ κ} : {A : Type ℓ} {B : Type κ} (m : Go A) (next : A → Go B) → Go B
ret x >>= next = next x
panics >>= next = panics

module _ {ℓ} {A : Type ℓ} where
  -- The code does not panic, and what it returns satisfies the postcondition.
  abbrev pub Ensures : (A → Type 0) → Go A → Type 0
  Ensures P (ret x) = P x
  Ensures P panics = ⊥

  -- The value that code returns when it satisfies a postcondition.
  pub Ensures-ret : (P : A → Type 0) (m : Go A) → Ensures P m → (x : A) × (m ≡ ret x) × P x
  Ensures-ret P (ret x) holds = (x, refl, holds)
  Ensures-ret P panics holds = elim holds [ ]

module _ {ℓ κ} {A : Type ℓ} {B : Type κ} (P : A → Type 0) (Q : B → Type 0) where
  pub Ensures-bind :
      (m : Go A) (next : A → Go B)
      → Ensures P m
      → ((x : A) → P x → Ensures Q (next x))
      → Ensures Q (m >>= next)
  Ensures-bind (ret x) next holds rest = rest x holds
  Ensures-bind panics next holds rest = elim holds [ ]

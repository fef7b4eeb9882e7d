-- ===== src/Base/Lists.antt =====
-- Lists measured and indexed by native numbers, with membership and distinctness by recursion.
use Prim.Native.Nat.{ℕ, zero, suc, ◌+◌, ◌≤◌}
use mathlib.Core.Path.{◌≡◌, refl, ap, sym, ◌∙◌, subst}
use mathlib.Core.Logic.{◌≢◌, ◌⊎◌, inl, inr}
use mathlib.Core.List.{List, [], ◌∷◌, ◌++◌, map}
use native.Mathlib.Omega.{arith}

module _ {ℓ} {A : Type ℓ} where
  abbrev pub length : List A → ℕ
  length [] = 0
  length (x ∷ xs) = suc (length xs)

  abbrev pub get_or : List A → ℕ → A → A
  get_or [] i d = d
  get_or (x ∷ xs) zero d = x
  get_or (x ∷ xs) (suc i) d = get_or xs i d

  abbrev pub take : ℕ → List A → List A
  take zero xs = []
  take (suc n) [] = []
  take (suc n) (x ∷ xs) = x ∷ take n xs

  abbrev pub drop : ℕ → List A → List A
  drop zero xs = xs
  drop (suc n) [] = []
  drop (suc n) (x ∷ xs) = drop n xs

  abbrev pub All : (A → Type 0) → List A → Type 0
  All P [] = Unit
  All P (x ∷ xs) = P x × All P xs

module _ {A : Type 0} where
  abbrev pub In : A → List A → Type 0
  In a [] = ⊥
  In a (x ∷ xs) = (a ≡ x) ⊎ In a xs

  -- No element occurs twice.
  abbrev pub Distinct : List A → Type 0
  Distinct [] = Unit
  Distinct (x ∷ xs) = (¬ In x xs) × Distinct xs

module _ {ℓ} {A : Type ℓ} where
  pub length-append : (xs ys : List A) → length (xs ++ ys) ≡ length xs + length ys
  length-append [] ys = omega arith
  length-append (x ∷ xs) ys = omega (arith, length-append xs ys)

module _ {A : Type 0} where
  -- A list without one occurrence of a member.
  split_member :
      (x : A) (ys : List A)
      → In x ys
      → (zs : List A) × (length ys ≡ suc (length zs)) × ((t : A) → In t ys → t ≢ x → In t zs)
  split_member x [] h = elim h [ ]
  split_member x (y ∷ ys) (inl e) = (ys, refl, keep)
    where
      keep : (t : A) → (t ≡ y) ⊎ In t ys → t ≢ x → In t ys
      keep t (inl p) ne = absurd (ne (p ∙ sym e))
      keep t (inr p) ne = p
  split_member x (y ∷ ys) (inr h) =
      let (zs, len, sub) = split_member x ys h in (y ∷ zs, omega arith, keep zs sub)
    where
      keep :
          (zs : List A)
          → ((t : A) → In t ys → t ≢ x → In t zs)
          → (t : A) → (t ≡ y) ⊎ In t ys
          → t ≢ x
          → (t ≡ y) ⊎ In t zs
      keep zs sub t (inl p) ne = inl p
      keep zs sub t (inr p) ne = inr (sub t p ne)

  -- Distinct elements of a list are at most as many as the list is long.
  pub length_of_subset :
      (xs ys : List A) → Distinct xs → ((t : A) → In t xs → In t ys) → length xs ≤ length ys
  length_of_subset [] ys d sub = omega arith
  length_of_subset (x ∷ xs) ys d sub =
      let (zs, len, keep) = split_member x ys (sub x (inl refl)) in
      let shorter : length xs ≤ length zs =
        length_of_subset xs zs d.1
          (λ t h. keep t (sub t (inr h)) (λ e. d.0 (subst (λ u. In u xs) e h))) in
      omega arith

  pub In-append_left : (t : A) (xs ys : List A) → In t xs → In t (xs ++ ys)
  In-append_left t [] ys h = elim h [ ]
  In-append_left t (x ∷ xs) ys (inl e) = inl e
  In-append_left t (x ∷ xs) ys (inr h) = inr (In-append_left t xs ys h)

  pub In-append_right : (t : A) (xs ys : List A) → In t ys → In t (xs ++ ys)
  In-append_right t [] ys h = h
  In-append_right t (x ∷ xs) ys h = inr (In-append_right t xs ys h)

  pub In-append_cases : (t : A) (xs ys : List A) → In t (xs ++ ys) → In t xs ⊎ In t ys
  In-append_cases t [] ys h = inr h
  In-append_cases t (x ∷ xs) ys (inl e) = inl (inl e)
  In-append_cases t (x ∷ xs) ys (inr h) = elim (In-append_cases t xs ys h) [
    | inl p ↦ inl (inr p)
    | inr p ↦ inr p
  ]

  pub All-In : (P : A → Type 0) (t : A) (xs : List A) → All P xs → In t xs → P t
  All-In P t [] a h = elim h [ ]
  All-In P t (x ∷ xs) a (inl e) = subst P (sym e) a.0
  All-In P t (x ∷ xs) a (inr h) = All-In P t xs a.1 h

  pub append-Distinct :
      (xs ys : List A)
      → Distinct xs
      → Distinct ys
      → ((t : A) → In t xs → ¬ In t ys)
      → Distinct (xs ++ ys)
  append-Distinct [] ys dx dy apart = dy
  append-Distinct (x ∷ xs) ys dx dy apart = (
    λ h. elim (In-append_cases x xs ys h) [ inl p ↦ dx.0 p | inr p ↦ apart x (inl refl) p ],
    append-Distinct xs ys dx.1 dy (λ t h. apart t (inr h)),
  )

  pub In-map : {B : Type 0} (f : A → B) (t : A) (xs : List A) → In t xs → In (f t) (map f xs)
  In-map f t [] h = elim h [ ]
  In-map f t (x ∷ xs) (inl e) = inl (ap f e)
  In-map f t (x ∷ xs) (inr h) = inr (In-map f t xs h)

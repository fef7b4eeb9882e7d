-- ===== src/Dict.antt =====
-- Go's maps as association lists with one entry for each key. The order of iteration, which Go
-- leaves open, is that of the list.
use jiejie_masque_unified.Base.{
  ◌≡◌, ◌≢◌, refl, ap, inl, inr, Option, none, some, List, [], ◌∷◌, map, In, Distinct, Comparable,
  ◌==◌, beq_refl, beq-ne, beq-cases, Bool-cases, if◌then◌else◌, arith,
}

abbrev pub Dict : Type 0 → Type 0 → Type 0
Dict K V = List (K × V)

abbrev pub keys : {K V : Type 0} → Dict K V → List K
keys = map (λ e. e.0)

module _ {K V : Type 0} ⦃e : Comparable K⦄ where
  unfoldable pub get : K → Dict K V → Option V
  get k [] = none
  get k ((j, v) ∷ t) = if j == k then some v else get k t

  unfoldable pub delete : K → Dict K V → Dict K V
  delete k [] = []
  delete k ((j, v) ∷ t) = let rest = delete k t in if j == k then rest else (j, v) ∷ rest

  -- `m[k] = v`
  unfoldable pub put : K → V → Dict K V → Dict K V
  put k v t = (k, v) ∷ delete k t

  pub get-delete :
      (k j : K) (t : Dict K V) → get j (delete k t) ≡ (if k == j then none else get j t)
  unfolding get delete
  get-delete k j [] = ground arith
  get-delete k j ((i, v) ∷ t) =
      ground (arith, e.equals_iff i k, e.equals_iff i j, e.equals_iff k j, get-delete k j t)

  pub get-put :
      (k j : K) (v : V) (t : Dict K V) → get j (put k v t) ≡ (if k == j then some v else get j t)
  unfolding get put
  get-put k j v t = ground (arith, get-delete k j t)

  pub keys-delete : (k j : K) (t : Dict K V) → In j (keys (delete k t)) → In j (keys t) × (j ≢ k)
  unfolding delete
  keys-delete k j [] h = elim h [ ]
  keys-delete k j ((i, v) ∷ t) h = ground (arith, e.equals_iff i k, keys-delete k j t)

  pub delete-Distinct : (k : K) (t : Dict K V) → Distinct (keys t) → Distinct (keys (delete k t))
  unfolding delete
  delete-Distinct k [] d = tt
  delete-Distinct k ((i, v) ∷ t) d = elim (Bool-cases (i == k)) [
    | inl p ↦ rw p (delete-Distinct k t d.1)
    | inr p ↦ rw p (λ h. d.0 (keys-delete k i t h).0, delete-Distinct k t d.1)
  ]

  pub put-Distinct :
      (k : K) (v : V) (t : Dict K V) → Distinct (keys t) → Distinct (keys (put k v t))
  unfolding put
  put-Distinct k v t d = (λ h. (keys-delete k k t h).1 refl, delete-Distinct k t d)

  pub get-In : (k : K) (v : V) (t : Dict K V) → get k t ≡ some v → In (k, v) t
  unfolding get
  get-In k v [] h = cc
  get-In k v ((j, w) ∷ t) h = elim (beq-cases j k) [
    | inl (p, q) ↦ inl (ground arith)
    | inr (p, q) ↦ inr (get-In k v t (ground arith))
  ]

  pub In-key : (k : K) (v : V) (t : Dict K V) → In (k, v) t → In k (keys t)
  In-key k v [] h = elim h [ ]
  In-key k v ((j, w) ∷ t) (inl h) = inl (ap (λ p. p.0) h)
  In-key k v ((j, w) ∷ t) (inr h) = inr (In-key k v t h)

  pub In-get : (k : K) (v : V) (t : Dict K V) → Distinct (keys t) → In (k, v) t → get k t ≡ some v
  unfolding get
  In-get k v [] d h = elim h [ ]
  In-get k v ((j, w) ∷ t) d (inl h) = ground (arith, beq_refl k)
  In-get k v ((j, w) ∷ t) d (inr h) =
      rw (beq-ne j k (λ p. d.0 (rw p (In-key k v t h)))) (In-get k v t d.1 h)

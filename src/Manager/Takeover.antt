-- ===== src/Manager/Takeover.antt =====
-- internal/connectip/session/manager.go, Replace: which sessions a registration replaces, and what
-- the tables hold after it.
use jiejie_masque_unified.Base.{
  ℕ, ◌≡◌, ◌≢◌, refl, ap, sym, subst, ◌⊎◌, inl, inr, Bool, true, false, not, ◌&&◌, none, some, List,
  [], ◌∷◌, In, Distinct, ◌==◌, nat_eq, string_eq, Option-cases, beq-cases, arith,
}
use jiejie_masque_unified.Net.{Addr, addr_eq}
use jiejie_masque_unified.Manager.{
  Manager, Heap, lookup_locked, add_unseen, ok, err, owned, ◌>>=◌, same_identity, claim_address,
  claim_addresses,
}
use jiejie_masque_unified.Manager.Snapshot.{add_unseen_iff, add_unseen-Distinct}

module _ (h : Heap) (s : ℕ) where
  -- Another session of the same identity.
  abbrev pub IsRival : ℕ → Type 0
  IsRival t = (t ≢ s) × ((h t).identity ≡ (h s).identity)

  abbrev rival_test : ℕ → Bool
  rival_test t = not (t == s) && (h t).identity == (h s).identity

  IsRival-cases :
      (t : ℕ) → ((rival_test t ≡ true) × IsRival t) ⊎ ((rival_test t ≡ false) × (¬ IsRival t))
  IsRival-cases t = ground (arith, string_eq.equals_iff (h t).identity (h s).identity)

  pub same_identity_sound :
      (t : ℕ) (cs old : List ℕ) → In t (same_identity h s cs old) → In t old ⊎ (In t cs × IsRival t)
  unfolding same_identity
  same_identity_sound t [] old p = inl p
  same_identity_sound t (c ∷ cs) old p = elim (IsRival-cases c) [
    | inl (e, rival) ↦
        elim (same_identity_sound t cs (add_unseen c old) (rw (e, same_identity) at p)) [
          | inl q ↦ elim ((add_unseen_iff c t old).0 q) [
            | inl same ↦ inr (inl same, subst IsRival (sym same) rival)
            | inr r ↦ inl r
          ]
          | inr q ↦ inr (inr q.0, q.1)
        ]
    | inr (e, _) ↦ elim (same_identity_sound t cs old (rw (e, same_identity) at p)) [
      | inl q ↦ inl q
      | inr q ↦ inr (inr q.0, q.1)
    ]
  ]

  pub same_identity_complete :
      (t : ℕ) (cs old : List ℕ) → In t old ⊎ (In t cs × IsRival t) → In t (same_identity h s cs old)
  unfolding same_identity
  same_identity_complete t [] old (inl p) = p
  same_identity_complete t [] old (inr p) = elim p.0 [ ]
  same_identity_complete t (c ∷ cs) old p = elim (IsRival-cases c) [
    | inl (e, rival) ↦
        rw (e, same_identity) (same_identity_complete t cs (add_unseen c old) (taken p))
    | inr (e, other) ↦ rw (e, same_identity) (same_identity_complete t cs old (passed other p))
  ]
    where
      taken :
          In t old ⊎ ((t ≡ c) ⊎ In t cs) × IsRival t → In t (add_unseen c old) ⊎ In t cs × IsRival t
      taken (inl q) = inl ((add_unseen_iff c t old).1 (inr q))
      taken (inr (inl q, r)) = inl ((add_unseen_iff c t old).1 (inl q))
      taken (inr (inr q, r)) = inr (q, r)

      passed :
          (¬ IsRival c)
          → In t old ⊎ ((t ≡ c) ⊎ In t cs) × IsRival t
          → In t old ⊎ In t cs × IsRival t
      passed other (inl q) = inl q
      passed other (inr (inl q, r)) = absurd (other (subst IsRival q r))
      passed other (inr (inr q, r)) = inr (q, r)

  pub same_identity-Distinct :
      (cs old : List ℕ) → Distinct old → Distinct (same_identity h s cs old)
  unfolding same_identity
  same_identity-Distinct [] old d = d
  same_identity-Distinct (c ∷ cs) old d = ground (
    arith,
    same_identity-Distinct cs old,
    same_identity-Distinct cs (add_unseen c old),
    add_unseen-Distinct c old,
  )

add_unseen-member : (s : ℕ) (xs : List ℕ) → In s xs → add_unseen s xs ≡ xs
unfolding add_unseen
add_unseen-member s [] p = elim p [ ]
add_unseen-member s (x ∷ xs) p = ground (arith, add_unseen-member s xs)

module _ (h : Heap) (m : Manager) (s : ℕ) where
  -- The address is free, or owned by the session itself or another one of its identity.
  abbrev pub IsClaimable : Addr → Type 0
  IsClaimable ip = (t : ℕ) → lookup_locked ip m ≡ some t → (h t).identity ≡ (h s).identity

  -- The address is owned by a session of another identity.
  abbrev pub IsForeign : Addr → Type 0
  IsForeign ip = (t : ℕ) × (lookup_locked ip m ≡ some t) × ((h t).identity ≢ (h s).identity)

  claim_both :
      (ip : Addr) (ips : List Addr)
      → IsClaimable ip
      → ((j : Addr) → In j ips → IsClaimable j)
      → (j : Addr) → In j (ip ∷ ips)
      → IsClaimable j
  claim_both ip ips free all_free j (inl e) = subst IsClaimable (sym e) free
  claim_both ip ips free all_free j (inr p) = all_free j p

  module _ (old : List ℕ)
      (complete : (j : Addr) (t : ℕ) → lookup_locked j m ≡ some t → IsRival h s t → In t old) where
    abbrev Claimed : Addr → Type 0
    Claimed ip =
        ((claim_address h m s ip old ≡ ok old) × IsClaimable ip)
        ⊎ ((claim_address h m s ip old ≡ err (owned ip)) × IsForeign ip)

    claim_free : (ip : Addr) → lookup_locked ip m ≡ none → Claimed ip
    unfolding claim_address
    claim_free ip e = inl (rw (e, claim_address), λ t f. absurd (ground arith))

    IsClaimable-by :
        (ip : Addr) (t : ℕ)
        → lookup_locked ip m ≡ some t
        → (h t).identity ≡ (h s).identity
        → IsClaimable ip
    IsClaimable-by ip t e same u f =
        let p : t ≡ u = ground arith in subst (λ v. (h v).identity ≡ (h s).identity) p same

    claim_owned : (ip : Addr) (t : ℕ) → lookup_locked ip m ≡ some t → Claimed ip
    unfolding claim_address
    claim_owned ip t e = elim (beq-cases t s) [
      | inl (p, same) ↦
          inl (rw (e, claim_address, p), IsClaimable-by ip t e (ap (λ u. (h u).identity) same))
      | inr (p, other) ↦ elim (beq-cases (h t).identity (h s).identity) [
        | inl (q, same) ↦ inl (
          rw (e, claim_address, p, q)
              (ap ok (add_unseen-member t old (complete ip t e (other, same)))),
          IsClaimable-by ip t e same,
        )
        | inr (q, differ) ↦ inr (rw (e, claim_address, p, q), (t, e, differ))
      ]
    ]

    claim_address_cases : (ip : Addr) → Claimed ip
    claim_address_cases ip = elim (Option-cases (lookup_locked ip m)) [
      | inl e ↦ claim_free ip e
      | inr (t, e) ↦ claim_owned ip t e
    ]

    -- The second loop fails at the first foreign address, or changes nothing.
    pub claim_addresses_cases :
        (ips : List Addr)
        → ((claim_addresses h m s ips old ≡ ok old) × ((ip : Addr) → In ip ips → IsClaimable ip))
          ⊎ ((ip : Addr) × (claim_addresses h m s ips old ≡ err (owned ip))
              × In ip ips
              × IsForeign ip)
    unfolding claim_addresses
    claim_addresses_cases [] = inl (refl, λ ip p. elim p [ ])
    claim_addresses_cases (ip ∷ ips) = elim (claim_address_cases ip) [
      | inr (e, foreign) ↦ inr (ip, rw e, inl refl, foreign)
      | inl (e, free) ↦ elim (claim_addresses_cases ips) [
        | inl (f, all_free) ↦ inl (rw (e, ◌>>=◌) f, claim_both ip ips free all_free)
        | inr (j, f, p, foreign) ↦ inr (j, rw (e, ◌>>=◌) f, inr p, foreign)
      ]
    ]

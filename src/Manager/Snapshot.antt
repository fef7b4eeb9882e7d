-- ===== src/Manager/Snapshot.antt =====
-- internal/connectip/session/manager.go, snapshotLocked and countLocked: the sessions that they list
-- are those that a lookup finds, each once.
use jiejie_masque_unified.Base.{
  ℕ, ◌≡◌, refl, ap, ◌⊎◌, inl, inr, ◌↔◌, true, false, some, List, [], ◌∷◌, length, All-In, In,
  Distinct, nat_eq, arith,
}
use jiejie_masque_unified.Net.{Addr, addr_eq, zero_addr, ip4, ip6, is4, is6}
use jiejie_masque_unified.Dict.{Dict, keys, get-In, In-get, In-key}
use jiejie_masque_unified.Manager.{
  Manager, lookup_locked, member, add_unseen, collect, snapshot_locked, count_locked,
}
use jiejie_masque_unified.Manager.Tables.{IsTables}

pub member_iff : (t : ℕ) (xs : List ℕ) → (member t xs ≡ true) ↔ In t xs
member_iff t [] = (λ h. cc, λ h. absurd h)
member_iff t (x ∷ xs) = (λ h. ground (arith, member_iff t xs), λ h. ground (arith, member_iff t xs))

pub add_unseen_iff : (s t : ℕ) (xs : List ℕ) → In t (add_unseen s xs) ↔ ((t ≡ s) ⊎ In t xs)
unfolding add_unseen
add_unseen_iff s t [] = (λ h. h, λ h. h)
add_unseen_iff s t (x ∷ xs) =
    (λ h. ground (arith, add_unseen_iff s t xs), λ h. ground (arith, add_unseen_iff s t xs))

pub add_unseen-Distinct : (s : ℕ) (xs : List ℕ) → Distinct xs → Distinct (add_unseen s xs)
unfolding add_unseen
add_unseen-Distinct s [] d = (λ h. h, tt)
add_unseen-Distinct s (x ∷ xs) d = ground (arith, add_unseen-Distinct s xs, add_unseen_iff s x xs)

abbrev Listed : ℕ → Dict Addr ℕ → Type 0
Listed t table = (j : Addr) × In (j, t) table

collect-In :
    (t : ℕ) (seen : List ℕ) (table : Dict Addr ℕ)
    → In t (collect seen table)
    → In t seen ⊎ Listed t table
unfolding collect
collect-In t seen [] h = inl h
collect-In t seen ((j, s) ∷ table) h = elim (collect-In t (add_unseen s seen) table h) [
  | inl p ↦ elim ((add_unseen_iff s t seen).0 p) [
    | inl e ↦ inr (j, inl (ap (λ u. (j, u)) e))
    | inr q ↦ inl q
  ]
  | inr (i, p) ↦ inr (i, inr p)
]

In-collect :
    (t : ℕ) (seen : List ℕ) (table : Dict Addr ℕ)
    → In t seen ⊎ Listed t table
    → In t (collect seen table)
unfolding collect
In-collect t seen [] (inl h) = h
In-collect t seen [] (inr (i, h)) = elim h [ ]
In-collect t seen ((j, s) ∷ table) (inl h) =
    In-collect t (add_unseen s seen) table (inl ((add_unseen_iff s t seen).1 (inr h)))
In-collect t seen ((j, s) ∷ table) (inr (i, inl e)) =
    In-collect t (add_unseen s seen) table
      (inl ((add_unseen_iff s t seen).1 (inl (ap (λ p. p.1) e))))
In-collect t seen ((j, s) ∷ table) (inr (i, inr h)) =
    In-collect t (add_unseen s seen) table (inr (i, h))

collect-Distinct :
    (seen : List ℕ) (table : Dict Addr ℕ) → Distinct seen → Distinct (collect seen table)
unfolding collect
collect-Distinct seen [] d = d
collect-Distinct seen ((j, s) ∷ table) d =
    collect-Distinct (add_unseen s seen) table (add_unseen-Distinct s seen d)

pub snapshot_locked-Distinct : (m : Manager) → Distinct (snapshot_locked m)
unfolding snapshot_locked
snapshot_locked-Distinct m =
    collect-Distinct (collect [] m.sessions4) m.sessions6 (collect-Distinct [] m.sessions4 tt)

-- A lookup finds the session at some address.
abbrev pub IsRegistered : Manager → ℕ → Type 0
IsRegistered m t = (j : Addr) × (lookup_locked j m ≡ some t)

lookup-Listed :
    (m : Manager) (j : Addr) (t : ℕ)
    → lookup_locked j m ≡ some t
    → In (j, t) m.sessions4 ⊎ In (j, t) m.sessions6
unfolding lookup_locked
lookup-Listed m (ip4 a) t h = inl (get-In (ip4 a) t m.sessions4 h)
lookup-Listed m (ip6 a z) t h = inr (get-In (ip6 a z) t m.sessions6 h)
lookup-Listed m zero_addr t h = cc

Listed-lookup4 :
    (m : Manager) (j : Addr) (t : ℕ)
    → IsTables m
    → In (j, t) m.sessions4
    → lookup_locked j m ≡ some t
unfolding lookup_locked
Listed-lookup4 m j t tables h =
    rw (All-In (λ a. is4 a ≡ true) j (keys m.sessions4) tables.family4 (In-key j t m.sessions4 h))
      (In-get j t m.sessions4 tables.distinct4 h)

is6_not4 : (a : Addr) → is6 a ≡ true → is4 a ≡ false
is6_not4 a h = ground arith

Listed-lookup6 :
    (m : Manager) (j : Addr) (t : ℕ)
    → IsTables m
    → In (j, t) m.sessions6
    → lookup_locked j m ≡ some t
unfolding lookup_locked
Listed-lookup6 m j t tables h =
    let six : is6 j ≡ true =
      All-In (λ a. is6 a ≡ true) j (keys m.sessions6) tables.family6 (In-key j t m.sessions6 h) in
    rw (six, is6_not4 j six) (In-get j t m.sessions6 tables.distinct6 h)

snapshot-IsRegistered :
    (m : Manager) (t : ℕ) → IsTables m → In t (snapshot_locked m) → IsRegistered m t
unfolding snapshot_locked
snapshot-IsRegistered m t tables h = elim (collect-In t (collect [] m.sessions4) m.sessions6 h) [
  | inl p ↦ elim (collect-In t [] m.sessions4 p) [
    | inl q ↦ elim q [ ]
    | inr (j, q) ↦ (j, Listed-lookup4 m j t tables q)
  ]
  | inr (j, q) ↦ (j, Listed-lookup6 m j t tables q)
]

IsRegistered-snapshot : (m : Manager) (t : ℕ) → IsRegistered m t → In t (snapshot_locked m)
unfolding snapshot_locked
IsRegistered-snapshot m t (j, e) =
    In-collect t (collect [] m.sessions4) m.sessions6 (elim (lookup-Listed m j t e) [
      | inl p ↦ inl (In-collect t [] m.sessions4 (inr (j, p)))
      | inr p ↦ inr (j, p)
    ])

-- In tables of the right shape, the snapshot lists exactly the sessions that a lookup finds.
pub snapshot_locked_iff :
    (m : Manager) (t : ℕ) → IsTables m → In t (snapshot_locked m) ↔ IsRegistered m t
snapshot_locked_iff m t tables = (snapshot-IsRegistered m t tables, IsRegistered-snapshot m t)

pub count-length : (m : Manager) → count_locked m ≡ length (snapshot_locked m)
unfolding count_locked snapshot_locked
count-length m = refl

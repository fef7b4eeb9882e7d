-- ===== src/Manager/Tables.antt =====
-- internal/connectip/session/manager.go: what each write to the two tables does to a lookup, and the
-- shape of the tables that the writes keep.
use jiejie_masque_unified.Base.{
  ℕ, ◌≡◌, refl, ap, ◌∙◌, inl, inr, Bool, true, false, Option, none, some, List, [], ◌∷◌, All, In,
  Distinct, ◌==◌, nat_eq, Bool-cases, Option-cases, beq-cases, if◌then◌else◌, arith,
}
use jiejie_masque_unified.Net.{Addr, addr_eq, addr_beq_iff, is_valid, is4, is6}
use jiejie_masque_unified.Dict.{
  Dict, keys, put, delete, get-put, get-delete, put-Distinct, delete-Distinct,
}
use jiejie_masque_unified.Session.{among}
use jiejie_masque_unified.Session.Construction.{among_iff}
use jiejie_masque_unified.Manager.{
  Manager, lookup_locked, map_address_locked, unmap_address, evict_addresses, map_all, member,
}

-- Each table has one entry for a key, and keys of its family.
pub record IsTables (m : Manager) : Type 0 where
  pub distinct4 : Distinct (keys m.sessions4)
  pub distinct6 : Distinct (keys m.sessions6)
  pub family4 : All (λ a. is4 a ≡ true) (keys m.sessions4)
  pub family6 : All (λ a. is6 a ≡ true) (keys m.sessions6)

All-delete :
    (P : Addr → Type 0) (k : Addr) (t : Dict Addr ℕ) → All P (keys t) → All P (keys (delete k t))
unfolding delete
All-delete P k [] h = tt
All-delete P k ((j, v) ∷ t) h = elim (Bool-cases (j == k)) [
  | inl p ↦ rw p (All-delete P k t h.1)
  | inr p ↦ rw p (h.0, All-delete P k t h.1)
]

valid_is6 : (a : Addr) → is_valid a ≡ true → is4 a ≡ false → is6 a ≡ true
valid_is6 a v h = ground arith

module _ (m : Manager) where
  lookup-map_address :
      (i j : Addr) (s : ℕ)
      → is_valid i ≡ true
      → lookup_locked j (map_address_locked i s m) ≡ (if i == j then some s else lookup_locked j m)
  unfolding lookup_locked map_address_locked
  lookup-map_address i j s v =
      ground (arith, get-put i j s m.sessions4, get-put i j s m.sessions6, addr_beq_iff i j)

  lookup-unmap_address :
      (i j : Addr)
      → lookup_locked j (unmap_address i m) ≡ (if i == j then none else lookup_locked j m)
  unfolding lookup_locked unmap_address
  lookup-unmap_address i j =
      ground (arith, get-delete i j m.sessions4, get-delete i j m.sessions6, addr_beq_iff i j)

  map_address-IsTables :
      (i : Addr) (s : ℕ) → is_valid i ≡ true → IsTables m → IsTables (map_address_locked i s m)
  unfolding map_address_locked put
  map_address-IsTables i s v t = elim (Bool-cases (is4 i)) [
    | inl p ↦
        rw (p, map_address_locked)
          (record {
            distinct4 = put-Distinct i s m.sessions4 t.distinct4;
            distinct6 = t.distinct6;
            family4 = (p, All-delete (λ a. is4 a ≡ true) i m.sessions4 t.family4);
            family6 = t.family6;
          })
    | inr p ↦
        rw (p, map_address_locked)
          (record {
            distinct4 = t.distinct4;
            distinct6 = put-Distinct i s m.sessions6 t.distinct6;
            family4 = t.family4;
            family6 = (valid_is6 i v p, All-delete (λ a. is6 a ≡ true) i m.sessions6 t.family6);
          })
  ]

  unmap_address-IsTables : (i : Addr) → IsTables m → IsTables (unmap_address i m)
  unfolding unmap_address
  unmap_address-IsTables i t = elim (Bool-cases (is4 i)) [
    | inl p ↦
        rw (p, unmap_address)
          (record {
            distinct4 = delete-Distinct i m.sessions4 t.distinct4;
            distinct6 = t.distinct6;
            family4 = All-delete (λ a. is4 a ≡ true) i m.sessions4 t.family4;
            family6 = t.family6;
          })
    | inr p ↦
        rw (p, unmap_address)
          (record {
            distinct4 = t.distinct4;
            distinct6 = delete-Distinct i m.sessions6 t.distinct6;
            family4 = t.family4;
            family6 = All-delete (λ a. is6 a ≡ true) i m.sessions6 t.family6;
          })
  ]

-- An owner, unless it is the session `s`, or one of the list.
abbrev pub without : ℕ → Option ℕ → Option ℕ
without s none = none
without s (some t) = if t == s then none else some t

abbrev pub without_all : List ℕ → Option ℕ → Option ℕ
without_all old none = none
without_all old (some t) = if member t old then none else some t

-- Eviction removes `s` from the addresses of the list and changes no other lookup.
evict_lookup :
    (s : ℕ) (ips : List Addr) (r : Bool) (m : Manager) (j : Addr)
    → lookup_locked j (evict_addresses s ips r m).0
      ≡ (if among ips j then without s (lookup_locked j m) else lookup_locked j m)
unfolding evict_addresses among
evict_lookup s [] r m j = refl
evict_lookup s (i ∷ ips) r m j = elim (Option-cases (lookup_locked i m)) [
  | inl e ↦ ground (arith, addr_beq_iff i j, evict_lookup s ips r m j)
  | inr (t, e) ↦ ground (
    arith,
    addr_beq_iff i j,
    evict_lookup s ips r m j,
    evict_lookup s ips true (unmap_address i m) j,
    lookup-unmap_address m i j,
  )
]

-- An eviction from all of the session's addresses leaves nothing of it.
pub evict_lookup_owned :
    (s : ℕ) (ips : List Addr) (r : Bool) (m : Manager) (j : Addr)
    → (lookup_locked j m ≡ some s → In j ips)
    → lookup_locked j (evict_addresses s ips r m).0 ≡ without s (lookup_locked j m)
evict_lookup_owned s ips r m j h = elim (Bool-cases (among ips j)) [
  | inl p ↦ rw (evict_lookup s ips r m j, p)
  | inr p ↦ rw (evict_lookup s ips r m j, p) (absent p (lookup_locked j m) refl)
]
  where
    absent : among ips j ≡ false → (o : Option ℕ) → lookup_locked j m ≡ o → o ≡ without s o
    absent p none e = refl
    absent p (some t) e = elim (beq-cases t s) [
      | inl (q, same) ↦
          let found : among ips j ≡ true = (among_iff ips j).1 (h (e ∙ ap some same)) in
          absurd (ground arith)
      | inr (q, _) ↦ rw q
    ]

pub evict_addresses-IsTables :
    (s : ℕ) (ips : List Addr) (r : Bool) (m : Manager)
    → IsTables m
    → IsTables (evict_addresses s ips r m).0
unfolding evict_addresses
evict_addresses-IsTables s [] r m t = t
evict_addresses-IsTables s (i ∷ ips) r m t = elim (Option-cases (lookup_locked i m)) [
  | inl e ↦ rw (e, evict_addresses) (evict_addresses-IsTables s ips r m t)
  | inr (u, e) ↦ elim (Bool-cases (u == s)) [
    | inl p ↦
        rw (e, p, evict_addresses)
          (evict_addresses-IsTables s ips true (unmap_address i m) (unmap_address-IsTables m i t))
    | inr p ↦ rw (e, p, evict_addresses) (evict_addresses-IsTables s ips r m t)
  ]
]

pub map_all_lookup :
    (s : ℕ) (ips : List Addr) (m : Manager) (j : Addr)
    → All (λ a. is_valid a ≡ true) ips
    → lookup_locked j (map_all s ips m) ≡ (if among ips j then some s else lookup_locked j m)
unfolding map_all among
map_all_lookup s [] m j v = refl
map_all_lookup s (i ∷ ips) m j v =
    ground
      (arith, map_all_lookup s ips (map_address_locked i s m) j v.1, lookup-map_address m i j s v.0)

pub map_all-IsTables :
    (s : ℕ) (ips : List Addr) (m : Manager)
    → All (λ a. is_valid a ≡ true) ips
    → IsTables m
    → IsTables (map_all s ips m)
unfolding map_all
map_all-IsTables s [] m v t = t
map_all-IsTables s (i ∷ ips) m v t =
    map_all-IsTables s ips (map_address_locked i s m) v.1 (map_address-IsTables m i s v.0 t)

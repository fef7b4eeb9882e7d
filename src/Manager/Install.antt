-- ===== src/Manager/Install.antt =====
-- internal/connectip/session/manager.go, Replace: what the tables hold after its writes.
use jiejie_masque_unified.Base.{
  ℕ, ◌+◌, ◌≡◌, refl, ap, sym, ◌∙◌, Bool, true, false, Option, none, some, List, [], ◌∷◌, All, In,
  nat_eq, string_eq, beq_refl, ◌%◌, ◌^◌, if◌then◌else◌, arith,
}
use jiejie_masque_unified.Net.{Addr, addr_eq, is_valid}
use jiejie_masque_unified.Session.{Session, among}
use jiejie_masque_unified.Manager.{
  Manager, Heap, World, lookup_locked, map_address_locked, unmap_address, evict_addresses,
  evict_all, map_all, install,
}
use jiejie_masque_unified.Manager.Tables.{
  IsTables, without, without_all, evict_lookup_owned, evict_addresses-IsTables, map_all_lookup,
  map_all-IsTables,
}

-- Every entry is an address of the session that it leads to.
abbrev pub IsOwned : Heap → Manager → Type 0
IsOwned h m = (j : Addr) (t : ℕ) → lookup_locked j m ≡ some t → In j (h t).client_ips

pub without-some : (s t : ℕ) (o : Option ℕ) → without s o ≡ some t → o ≡ some t
without-some s t none e = cc
without-some s t (some u) e = ground arith

without_all-without :
    (s : ℕ) (old : List ℕ) (o : Option ℕ) → without_all old (without s o) ≡ without_all (s ∷ old) o
without_all-without s old none = refl
without_all-without s old (some u) = ground arith

module _ (h : Heap) where
  pub evict-IsOwned :
      (s : ℕ) (m : Manager) → IsOwned h m → IsOwned h (evict_addresses s (h s).client_ips false m).0
  evict-IsOwned s m o j t e = o j t (
      without-some s t (lookup_locked j m)
        (sym (evict_lookup_owned s (h s).client_ips false m j (o j s)) ∙ e))

  -- Without the replaced sessions every lookup is as before, or finds nothing.
  pub evict_all_lookup :
      (old : List ℕ) (m : Manager) (j : Addr)
      → IsOwned h m
      → lookup_locked j (evict_all h old m) ≡ without_all old (lookup_locked j m)
  unfolding evict_all
  evict_all_lookup [] m j o = without_none (lookup_locked j m)
    where
      without_none : (x : Option ℕ) → x ≡ without_all [] x
      without_none none = refl
      without_none (some t) = refl
  evict_all_lookup (s ∷ old) m j o =
      evict_all_lookup old (evict_addresses s (h s).client_ips false m).0 j (evict-IsOwned s m o)
      ∙ ap (without_all old) (evict_lookup_owned s (h s).client_ips false m j (o j s))
      ∙ without_all-without s old (lookup_locked j m)

  evict_all-IsTables : (old : List ℕ) (m : Manager) → IsTables m → IsTables (evict_all h old m)
  unfolding evict_all
  evict_all-IsTables [] m t = t
  evict_all-IsTables (s ∷ old) m t =
      evict_all-IsTables old (evict_addresses s (h s).client_ips false m).0
        (evict_addresses-IsTables s (h s).client_ips false m t)

lookup-generation :
    (j : Addr) (g : ℕ) (m : Manager)
    → lookup_locked j (record m { next_generation = g }) ≡ lookup_locked j m
unfolding lookup_locked
lookup-generation j g m = refl

renumber-IsTables : (g : ℕ) (m : Manager) → IsTables m → IsTables (record m { next_generation = g })
renumber-IsTables g m t = record {
  distinct4 = t.distinct4;
  distinct6 = t.distinct6;
  family4 = t.family4;
  family6 = t.family6;
}

-- The limit is never written.
map_address-max :
    (i : Addr) (s : ℕ) (m : Manager) → (map_address_locked i s m).max_sessions ≡ m.max_sessions
unfolding map_address_locked
map_address-max i s m = ground arith

map_all-max :
    (s : ℕ) (ips : List Addr) (m : Manager) → (map_all s ips m).max_sessions ≡ m.max_sessions
unfolding map_all
map_all-max s [] m = refl
map_all-max s (i ∷ ips) m = map_all-max s ips (map_address_locked i s m) ∙ map_address-max i s m

unmap_address-max : (i : Addr) (m : Manager) → (unmap_address i m).max_sessions ≡ m.max_sessions
unfolding unmap_address
unmap_address-max i m = ground arith

pub evict_addresses-max :
    (s : ℕ) (ips : List Addr) (r : Bool) (m : Manager)
    → (evict_addresses s ips r m).0.max_sessions ≡ m.max_sessions
unfolding evict_addresses
evict_addresses-max s [] r m = refl
evict_addresses-max s (i ∷ ips) r m = ground (
  arith,
  evict_addresses-max s ips r m,
  evict_addresses-max s ips true (unmap_address i m),
  unmap_address-max i m,
)

evict_all-max :
    (h : Heap) (old : List ℕ) (m : Manager) → (evict_all h old m).max_sessions ≡ m.max_sessions
unfolding evict_all
evict_all-max h [] m = refl
evict_all-max h (s ∷ old) m =
    evict_all-max h old (evict_addresses s (h s).client_ips false m).0
    ∙ evict_addresses-max s (h s).client_ips false m

unmap_address-generation :
    (i : Addr) (m : Manager) → (unmap_address i m).next_generation ≡ m.next_generation
unfolding unmap_address
unmap_address-generation i m = ground arith

evict_addresses-generation :
    (s : ℕ) (ips : List Addr) (r : Bool) (m : Manager)
    → (evict_addresses s ips r m).0.next_generation ≡ m.next_generation
unfolding evict_addresses
evict_addresses-generation s [] r m = refl
evict_addresses-generation s (i ∷ ips) r m = ground (
  arith,
  evict_addresses-generation s ips r m,
  evict_addresses-generation s ips true (unmap_address i m),
  unmap_address-generation i m,
)

evict_all-generation :
    (h : Heap) (old : List ℕ) (m : Manager)
    → (evict_all h old m).next_generation ≡ m.next_generation
unfolding evict_all
evict_all-generation h [] m = refl
evict_all-generation h (s ∷ old) m =
    evict_all-generation h old (evict_addresses s (h s).client_ips false m).0
    ∙ evict_addresses-generation s (h s).client_ips false m

-- The session with the next generation, linked to the registry.
abbrev pub registered_session : World → ℕ → Session
registered_session w s = record (w.heap s) {
  generation = (w.registry.next_generation + 1) % 2 ^ 64;
  manager = true;
}

module _ (s : ℕ) (old : List ℕ) (w : World) where
  pub install_session : (install s old w).heap s ≡ registered_session w s
  unfolding install
  install_session = rw (beq_refl s) (
      ap (λ g. record (w.heap s) { generation = (g + 1) % 2 ^ 64; manager = true })
        (evict_all-generation w.heap old w.registry))

  -- After the writes the session has its addresses, the replaced sessions have none, and every other
  -- lookup is as before.
  pub install_lookup :
      (j : Addr)
      → All (λ a. is_valid a ≡ true) (w.heap s).client_ips
      → IsOwned w.heap w.registry
      → lookup_locked j (install s old w).registry ≡ (
          if among (w.heap s).client_ips j
          then some s
          else without_all old (lookup_locked j w.registry))
  unfolding install
  install_lookup j v o =
      map_all_lookup s (w.heap s).client_ips _ j v
      ∙ ap (if◌then◌else◌ (among (w.heap s).client_ips j) (some s)) (
          lookup-generation j _ (evict_all w.heap old w.registry)
          ∙ evict_all_lookup w.heap old w.registry j o)

  pub install-IsTables :
      All (λ a. is_valid a ≡ true) (w.heap s).client_ips
      → IsTables w.registry
      → IsTables (install s old w).registry
  unfolding install
  install-IsTables v t = map_all-IsTables s (w.heap s).client_ips _ v (
      renumber-IsTables _ (evict_all w.heap old w.registry)
        (evict_all-IsTables w.heap old w.registry t))

  pub install-max : (install s old w).registry.max_sessions ≡ w.registry.max_sessions
  unfolding install
  install-max = map_all-max s (w.heap s).client_ips _ ∙ evict_all-max w.heap old w.registry

-- ===== src/Manager/Closing.antt =====
-- internal/connectip/session/manager.go, Close and RemoveIfCurrent: what they take out of the tables,
-- and what they leave alone.
use jiejie_masque_unified.Base.{
  ℕ, ◌≤◌, ◌≡◌, refl, sym, ◌∙◌, inl, inr, false, some, List, [], ◌∷◌, length_of_subset, In, nat_eq,
  string_eq, nat_beq_iff, Bool-cases, arith,
}
use jiejie_masque_unified.Net.{Addr, addr_eq}
use jiejie_masque_unified.Session.{Session}
use jiejie_masque_unified.Manager.{
  Manager, Heap, World, update, lookup_locked, evict_addresses, count_locked, snapshot_locked,
  evict_session, remove_if_current, shut_connection, notify, close, close_all,
}
use jiejie_masque_unified.Manager.Tables.{
  IsTables, without, evict_lookup_owned, evict_addresses-IsTables,
}
use jiejie_masque_unified.Manager.Snapshot.{
  IsRegistered, snapshot_locked_iff, snapshot_locked-Distinct, count-length,
}
use jiejie_masque_unified.Manager.Install.{
  IsOwned, without-some, evict-IsOwned, evict_addresses-max,
}
use jiejie_masque_unified.Manager.Invariant.{IsConsistent}

-- Two heaps agree on the addresses and the identities of all sessions.
pub record SameSessions (h k : Heap) : Type 0 where
  pub same_ips : (t : ℕ) → (k t).client_ips ≡ (h t).client_ips
  pub same_names : (t : ℕ) → (k t).identity ≡ (h t).identity

pub reheap-IsConsistent :
    (w : World) (k : Heap)
    → SameSessions w.heap k
    → IsConsistent w
    → IsConsistent (record w { heap = k })
reheap-IsConsistent w k same c = record {
  tables = c.tables;
  owned_by = λ j t e. rw (same.same_ips t) (c.owned_by j t e);
  single = λ t u p q e. c.single t u p q (sym (same.same_names t) ∙ e ∙ same.same_names u);
  within = c.within;
}

module _ (s : ℕ) (w : World) where
  abbrev evicted : Manager
  evicted = (evict_addresses s (w.heap s).client_ips false w.registry).0

  -- RemoveIfCurrent takes out the entries of the session and no other.
  pub evict_session_lookup :
      (j : Addr)
      → IsOwned w.heap w.registry
      → lookup_locked j (evict_session s w).0.registry ≡ without s (lookup_locked j w.registry)
  unfolding evict_session
  evict_session_lookup j o = evict_lookup_owned s (w.heap s).client_ips false w.registry j (o j s)

  evicted-IsRegistered :
      IsOwned w.heap w.registry → (t : ℕ) → IsRegistered evicted t → IsRegistered w.registry t
  evicted-IsRegistered o t (j, e) = (
    j,
    without-some s t (lookup_locked j w.registry)
        (sym (evict_lookup_owned s (w.heap s).client_ips false w.registry j (o j s)) ∙ e),
  )

  pub evict_session-IsConsistent : IsConsistent w → IsConsistent (evict_session s w).0
  unfolding evict_session
  evict_session-IsConsistent c = record {
    tables = tables';
    owned_by = evict-IsOwned w.heap s w.registry c.owned_by;
    single = λ t u p q e.
        c.single t u (evicted-IsRegistered c.owned_by t p) (evicted-IsRegistered c.owned_by u q) e;
    within =
        rw (evict_addresses-max s (w.heap s).client_ips false w.registry) (ground (arith, fewer));
  }
    where
      tables' : IsTables evicted
      tables' = evict_addresses-IsTables s (w.heap s).client_ips false w.registry c.tables

      inside : (t : ℕ) → In t (snapshot_locked evicted) → In t (snapshot_locked w.registry)
      inside t p =
          (snapshot_locked_iff w.registry t c.tables).1
            (evicted-IsRegistered c.owned_by t ((snapshot_locked_iff evicted t tables').0 p))

      fewer : count_locked evicted ≤ count_locked w.registry
      fewer = omega (
        arith,
        count-length evicted,
        count-length w.registry,
        length_of_subset (snapshot_locked evicted) (snapshot_locked w.registry)
            (snapshot_locked-Distinct evicted) inside,
      )

-- An update of one session that keeps its addresses and its identity.
pub update-same :
    (h : Heap) (s : ℕ) (x : Session)
    → x.client_ips ≡ (h s).client_ips
    → x.identity ≡ (h s).identity
    → SameSessions h (update h s x)
update-same h s x p q = record {
  same_ips = λ t. ground (arith, nat_beq_iff s t);
  same_names = λ t. ground (arith, nat_beq_iff s t);
}

pub shut_connection-IsConsistent :
    (s : ℕ) (w : World) → IsConsistent w → IsConsistent (shut_connection s w)
unfolding shut_connection
shut_connection-IsConsistent s w c = reheap-IsConsistent w _ (update-same w.heap s _ refl refl) c

pub notify-IsConsistent : (s : ℕ) (w : World) → IsConsistent w → IsConsistent (notify s w)
unfolding notify
notify-IsConsistent s w c = elim (Bool-cases (w.heap s).on_close) [
  | inl p ↦ rw (p, notify) (reheap-IsConsistent w _ (update-same w.heap s _ refl refl) c)
  | inr p ↦ rw (p, notify) c
]

pub remove_if_current-IsConsistent :
    (s : ℕ) (w : World) → IsConsistent w → IsConsistent (remove_if_current (some s) w).0
unfolding remove_if_current
remove_if_current-IsConsistent s w c = elim (Bool-cases (w.heap s).removed) [
  | inl p ↦ rw (p, remove_if_current) c
  | inr p ↦
      rw (p, remove_if_current)
        (evict_session-IsConsistent s _
          (reheap-IsConsistent w _ (update-same w.heap s _ refl refl) c))
]

-- Close of any session keeps a consistent registry consistent.
pub close-IsConsistent : (s : ℕ) (w : World) → IsConsistent w → IsConsistent (close s w)
unfolding close
close-IsConsistent s w c = elim (Bool-cases (w.heap s).closed) [
  | inl p ↦ rw (p, close) c
  | inr p ↦
      rw (p, close)
        (notify-IsConsistent s _ (elim (Bool-cases (shut.heap s).manager) [
          | inl q ↦
              rw q (remove_if_current-IsConsistent s shut (shut_connection-IsConsistent s w c))
          | inr q ↦ rw q (shut_connection-IsConsistent s w c)
        ]))
]
  where
    shut : World
    shut = shut_connection s w

pub close_all-IsConsistent :
    (xs : List ℕ) (w : World) → IsConsistent w → IsConsistent (close_all xs w)
unfolding close_all
close_all-IsConsistent [] w c = c
close_all-IsConsistent (s ∷ xs) w c =
    close_all-IsConsistent xs (close s w) (close-IsConsistent s w c)

-- ===== src/Manager/Shutdown.antt =====
-- cmd/jiejie-masque/main.go, the end of serveConnectIPArgs: every session of a snapshot is closed.
use jiejie_masque_unified.Base.{
  ℕ, ◌↔◌, ◌≡◌, ◌≢◌, refl, ap, sym, subst, ◌∙◌, inl, inr, true, false, Option, none, some, List, [],
  ◌∷◌, In, Distinct, nat_eq, nat_beq_iff, beq-ne, beq_refl, Option-cases, arith,
}
use jiejie_masque_unified.Net.{Addr}
use jiejie_masque_unified.Session.{Session}
use jiejie_masque_unified.Manager.{
  World, lookup, lookup_locked, snapshot, snapshot_locked, close, close_all,
}
use jiejie_masque_unified.Manager.Tables.{without}
use jiejie_masque_unified.Manager.Snapshot.{
  IsRegistered, snapshot_locked_iff, snapshot_locked-Distinct,
}
use jiejie_masque_unified.Manager.Install.{without-some}
use jiejie_masque_unified.Manager.Invariant.{IsConsistent}
use jiejie_masque_unified.Manager.Closing.{close-IsConsistent}
use jiejie_masque_unified.Manager.Effects.{shut_session, close_heap, close_lookup}

unfoldable pub shut_down : World → World
shut_down w = close_all (snapshot w) w

-- A session that is registered and has not been closed.
abbrev pub IsLive : Session → Type 0
IsLive x = (x.closed ≡ false) × (x.manager ≡ true) × (x.removed ≡ false)

-- Exactly the listed sessions can be registered, and they are live.
record IsListed (xs : List ℕ) (w : World) : Type 0 where
  consistent : IsConsistent w
  distinct : Distinct xs
  all : (t : ℕ) → IsRegistered w.registry t → In t xs
  live : (t : ℕ) → In t xs → IsLive (w.heap t)

without-ne : (s t : ℕ) (o : Option ℕ) → without s o ≡ some t → t ≢ s
without-ne s t none e = cc
without-ne s t (some u) e = λ q. ground (arith, nat_beq_iff u s)

close_other : (s t : ℕ) (w : World) → t ≢ s → (close s w).heap t ≡ w.heap t
close_other s t w n = close_heap s w t ∙ rw (beq-ne s t (λ e. n (sym e))) refl

close_self : (s t : ℕ) (w : World) → t ≡ s → (close s w).heap t ≡ shut_session (w.heap t)
close_self s t w e =
    subst (λ u. (close s w).heap u ≡ shut_session (w.heap u)) (sym e)
      (close_heap s w s ∙ rw (beq_refl s) refl)

module _ (s : ℕ) (xs : List ℕ) (w : World) (h : IsListed (s ∷ xs) w) where
  close_live_lookup :
      (j : Addr) → lookup_locked j (close s w).registry ≡ without s (lookup_locked j w.registry)
  close_live_lookup j =
      ground (arith, close_lookup s w j h.consistent.owned_by, h.live s (inl refl))

  close-IsListed : IsListed xs (close s w)
  close-IsListed = record {
    consistent = close-IsConsistent s w h.consistent;
    distinct = h.distinct.1;
    all = λ t p. remains t p.0 (sym (close_live_lookup p.0) ∙ p.1);
    live = λ t p.
        subst IsLive (sym (close_other s t w (λ e. h.distinct.0 (subst (λ u. In u xs) e p))))
          (h.live t (inr p));
  }
    where
      remains : (t : ℕ) (j : Addr) → without s (lookup_locked j w.registry) ≡ some t → In t xs
      remains t j e = elim (h.all t (j, without-some s t _ e)) [
        | inl q ↦ absurd (without-ne s t _ e q)
        | inr p ↦ p
      ]

close_all-empty :
    (xs : List ℕ) (w : World)
    → IsListed xs w
    → (j : Addr) → lookup_locked j (close_all xs w).registry ≡ none
unfolding close_all
close_all-empty [] w h j = elim (Option-cases (lookup_locked j w.registry)) [
  | inl e ↦ e
  | inr (t, e) ↦ absurd (h.all t (j, e))
]
close_all-empty (s ∷ xs) w h j = close_all-empty xs (close s w) (close-IsListed s xs w h) j

close_all-others :
    (xs : List ℕ) (w : World) (t : ℕ) → (¬ In t xs) → (close_all xs w).heap t ≡ w.heap t
unfolding close_all
close_all-others [] w t n = refl
close_all-others (s ∷ xs) w t n =
    close_all-others xs (close s w) t (λ p. n (inr p)) ∙ close_other s t w (λ e. n (inl e))

close_all-shut :
    (xs : List ℕ) (w : World) (t : ℕ)
    → Distinct xs
    → In t xs
    → (close_all xs w).heap t ≡ shut_session (w.heap t)
unfolding close_all
close_all-shut [] w t d p = elim p [ ]
close_all-shut (s ∷ xs) w t d (inl e) =
    close_all-others xs (close s w) t (λ q. d.0 (subst (λ u. In u xs) e q)) ∙ close_self s t w e
close_all-shut (s ∷ xs) w t d (inr p) =
    close_all-shut xs (close s w) t d.1 p
    ∙ ap shut_session (close_other s t w (λ e. d.0 (subst (λ u. In u xs) e p)))

-- On a consistent registry whose sessions have not been closed, closing a snapshot leaves no address
-- in the registry, has shut every session that was registered once, and has touched no other.
pub shut_down-empty :
    (w : World)
    → IsConsistent w
    → ((t : ℕ) → IsRegistered w.registry t → IsLive (w.heap t))
    → ((j : Addr) → lookup j (shut_down w) ≡ none)
      × ((t : ℕ) → IsRegistered w.registry t → (shut_down w).heap t ≡ shut_session (w.heap t))
      × ((t : ℕ) → (¬ IsRegistered w.registry t) → (shut_down w).heap t ≡ w.heap t)
unfolding shut_down lookup snapshot snapshot_locked
shut_down-empty w c live = (
  close_all-empty (snapshot_locked w.registry) w listed,
  λ t p.
      close_all-shut (snapshot_locked w.registry) w t (snapshot_locked-Distinct w.registry)
        ((listed_iff t).1 p),
  λ t n. close_all-others (snapshot_locked w.registry) w t (λ p. n ((listed_iff t).0 p)),
)
  where
    listed_iff : (t : ℕ) → In t (snapshot_locked w.registry) ↔ IsRegistered w.registry t
    listed_iff t = snapshot_locked_iff w.registry t c.tables

    listed : IsListed (snapshot_locked w.registry) w
    listed = record {
      consistent = c;
      distinct = snapshot_locked-Distinct w.registry;
      all = λ t p. (listed_iff t).1 p;
      live = λ t p. live t ((listed_iff t).0 p);
    }

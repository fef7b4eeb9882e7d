-- ===== src/Manager/Replacement.antt =====
-- internal/connectip/session/manager.go, Replace as a whole, with the closing of the replaced
-- sessions after the lock is released.
use jiejie_masque_unified.Base.{
  ℕ, ◌≡◌, ◌≢◌, refl, ap, sym, subst, ◌∙◌, ◌⊎◌, inl, inr, ◌↔◌, true, false, Option, none, some, List,
  [], ◌∷◌, All, In, Distinct, nat_eq, Bool-cases, beq-cases, beq-ne, if◌then◌else◌, arith,
}
use jiejie_masque_unified.Net.{Addr, addr_eq, is_valid}
use jiejie_masque_unified.Session.{among}
use jiejie_masque_unified.Manager.{
  World, lookup_locked, snapshot_locked, member, at_capacity, close, close_all, install, replace,
  ok, err, ReplaceError, missing, owned, exhausted,
}
use jiejie_masque_unified.Manager.Tables.{without, without_all}
use jiejie_masque_unified.Manager.Snapshot.{IsRegistered, member_iff}
use jiejie_masque_unified.Manager.Takeover.{IsForeign, same_identity-Distinct}
use jiejie_masque_unified.Manager.Install.{
  install_lookup, install_session, registered_session, install-max,
}
use jiejie_masque_unified.Manager.Invariant.{
  IsConsistent, IsReplaced, rivals, rivals_iff, register_cases, register-IsConsistent,
  install-found,
}
use jiejie_masque_unified.Manager.Closing.{close-IsConsistent, close_all-IsConsistent}
use jiejie_masque_unified.Manager.Effects.{shut_session, close_heap, close_lookup, close-max}

without_absent : (t : ℕ) (o : Option ℕ) → o ≢ some t → without t o ≡ o
without_absent t none h = refl
without_absent t (some u) h = elim (beq-cases u t) [
  | inl (_, e) ↦ absurd (h (ap some e))
  | inr (p, _) ↦ rw p
]

-- Closing sessions that no lookup finds changes no lookup.
close_unregistered :
    (t : ℕ) (w : World)
    → IsConsistent w
    → (¬ IsRegistered w.registry t)
    → (j : Addr) → lookup_locked j (close t w).registry ≡ lookup_locked j w.registry
close_unregistered t w c absent j =
    close_lookup t w j c.owned_by
    ∙ ground (arith, without_absent t (lookup_locked j w.registry) (λ e. absent (j, e)))

close_all_lookup :
    (xs : List ℕ) (w : World)
    → IsConsistent w
    → ((t : ℕ) → In t xs → ¬ IsRegistered w.registry t)
    → (j : Addr) → lookup_locked j (close_all xs w).registry ≡ lookup_locked j w.registry
unfolding close_all
close_all_lookup [] w c absent j = refl
close_all_lookup (x ∷ xs) w c absent j =
    close_all_lookup xs (close x w) (close-IsConsistent x w c)
      (λ t p r.
        absent t (inr p) (r.0, sym (close_unregistered x w c (absent x (inl refl)) r.0) ∙ r.1))
      j
    ∙ close_unregistered x w c (absent x (inl refl)) j

close_other : (x : ℕ) (w : World) (t : ℕ) → t ≢ x → (close x w).heap t ≡ w.heap t
close_other x w t ne = close_heap x w t ∙ rw (beq-ne x t (λ e. ne (sym e)))

-- Distinct open sessions are each closed once, and no other session is touched.
close_all_heap :
    (xs : List ℕ) (w : World) (t : ℕ)
    → Distinct xs
    → (close_all xs w).heap t ≡ (if member t xs then shut_session (w.heap t) else w.heap t)
unfolding close_all
close_all_heap [] w t d = refl
close_all_heap (x ∷ xs) w t d = close_all_heap xs (close x w) t d.1 ∙ elim (beq-cases x t) [
  | inl (p, e) ↦ rw (p, not_again e, close_heap x w t, p) (ap (λ u. shut_session (w.heap u)) e)
  | inr (p, e) ↦ rw (p, close_other x w t (λ q. e (sym q)))
]
  where
    not_again : x ≡ t → member t xs ≡ false
    not_again e = elim (Bool-cases (member t xs)) [
      | inl q ↦ absurd (d.0 (subst (λ u. In u xs) (sym e) ((member_iff t xs).0 q)))
      | inr q ↦ q
    ]

close_all-max :
    (xs : List ℕ) (w : World) → (close_all xs w).registry.max_sessions ≡ w.registry.max_sessions
unfolding close_all
close_all-max [] w = refl
close_all-max (x ∷ xs) w = close_all-max xs (close x w) ∙ close-max x w

-- Why Replace refuses a session that has a connection.
abbrev pub Refused : World → ℕ → ReplaceError → Type 0
Refused w s missing = ⊥
Refused w s (owned ip) = In ip (w.heap s).client_ips × IsForeign w.heap w.registry s ip
Refused w s exhausted = at_capacity w.registry (rivals w s) ≡ true

-- A replacement of the sessions `old`, from the world `w` to `w'`.
pub record TakesOver (w : World) (s : ℕ) (old : List ℕ) (w' : World) : Type 0 where
  pub distinct : Distinct old
  pub replaced : (t : ℕ) → In t old ↔ IsReplaced w s t
  pub lookups :
      (j : Addr)
      → lookup_locked j w'.registry ≡ (
          if among (w.heap s).client_ips j
          then some s
          else without_all old (lookup_locked j w.registry))
  pub closes : (t : ℕ) → In t old → w'.heap t ≡ shut_session (w.heap t)
  pub others : (t : ℕ) → (¬ In t old) → t ≢ s → w'.heap t ≡ w.heap t
  pub itself : w'.heap s ≡ registered_session w s
  pub limit : w'.registry.max_sessions ≡ w.registry.max_sessions
  pub consistent : IsConsistent w'

module _ (w : World) (s : ℕ) (c : IsConsistent w)
    (v : All (λ a. is_valid a ≡ true) (w.heap s).client_ips) where
  install_other : (t : ℕ) → t ≢ s → (install s (rivals w s) w).heap t ≡ w.heap t
  unfolding install
  install_other t ne = rw (beq-ne s t (λ e. ne (sym e)))

  takes_over :
      IsConsistent (install s (rivals w s) w)
      → TakesOver w s (rivals w s) (close_all (rivals w s) (install s (rivals w s) w))
  takes_over c' = record {
    distinct = distinct';
    replaced = rivals_iff w s c.tables;
    lookups = λ j.
        close_all_lookup (rivals w s) after c' gone j
        ∙ install_lookup s (rivals w s) w j v c.owned_by;
    closes = λ t p.
        close_all_heap (rivals w s) after t distinct'
        ∙ rw ((member_iff t (rivals w s)).1 p) (ap shut_session (install_other t (rival_ne t p)));
    others =
        λ t p ne. close_all_heap (rivals w s) after t distinct' ∙ kept t p ∙ install_other t ne;
    itself =
        close_all_heap (rivals w s) after s distinct'
        ∙ kept s (λ p. rival_ne s p refl)
        ∙ install_session s (rivals w s) w;
    limit = close_all-max (rivals w s) after ∙ install-max s (rivals w s) w;
    consistent = close_all-IsConsistent (rivals w s) after c';
  }
    where
      after : World
      after = install s (rivals w s) w

      distinct' : Distinct (rivals w s)
      distinct' = same_identity-Distinct w.heap s (snapshot_locked w.registry) [] tt

      rival_ne : (t : ℕ) → In t (rivals w s) → t ≢ s
      rival_ne t p = ((rivals_iff w s c.tables t).0 p).1.0

      gone : (t : ℕ) → In t (rivals w s) → ¬ IsRegistered after.registry t
      gone t p (j, e) = elim (install-found s (rivals w s) w j t v c.owned_by e) [
        | inl (_, q) ↦ rival_ne t p q
        | inr (_, q) ↦ q p
      ]

      kept :
          (t : ℕ)
          → (¬ In t (rivals w s))
          → (if member t (rivals w s) then shut_session (after.heap t) else after.heap t)
            ≡ after.heap t
      kept t p = elim (Bool-cases (member t (rivals w s))) [
        | inl q ↦ absurd (p ((member_iff t (rivals w s)).0 q))
        | inr q ↦ rw q
      ]

  -- On a consistent registry, Replace of a session with a connection and valid addresses either takes
  -- over: it returns the other registered sessions of the same identity, each once, closes these and
  -- touches no further session, gives the session the next generation and its addresses, takes all entries of the replaced
  -- sessions out, leaves every other lookup as it was, and keeps the registry consistent. Or it
  -- fails and changes nothing: an address of the session is owned by another identity, or the
  -- capacity is used up by the sessions that would stay.
  pub replace_cases :
      (w.heap s).conn ≡ true
      → ((old : List ℕ) × (w' : World) × (replace (some s) w ≡ (ok old, w')) × TakesOver w s old w')
        ⊎ ((e : ReplaceError) × (replace (some s) w ≡ (err e, w)) × Refused w s e)
  unfolding replace
  replace_cases connected = elim (register_cases w s c.tables) [
    | inl (f, _, _) ↦ inl (
      rivals w s,
      close_all (rivals w s) (install s (rivals w s) w),
      rw (connected, f, replace),
      takes_over (register-IsConsistent w s c v (rivals w s) (install s (rivals w s) w) f),
    )
    | inr (inl (ip, f, p, foreign)) ↦ inr (owned ip, rw (connected, f, replace), (p, foreign))
    | inr (inr (f, _, full)) ↦ inr (exhausted, rw (connected, f, replace), full)
  ]

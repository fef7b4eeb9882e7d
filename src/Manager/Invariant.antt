-- ===== src/Manager/Invariant.antt =====
-- internal/connectip/session/manager.go: the invariant of the registry, and that a registration under
-- the lock keeps it.
use jiejie_masque_unified.Base.{
  ℕ, suc, ◌+◌, ◌≤◌, ◌≡◌, ap, sym, subst, ◌∙◌, ◌⊎◌, inl, inr, ◌↔◌, true, false, Option, none, some,
  List, [], ◌∷◌, ◌++◌, length, length-append, length_of_subset, append-Distinct, In-append_cases,
  All, In, Distinct, nat_eq, string_eq, Bool-cases, beq-cases, arith,
}
use jiejie_masque_unified.Net.{Addr, addr_eq, is_valid}
use jiejie_masque_unified.Dict.{get}
use jiejie_masque_unified.Session.{among}
use jiejie_masque_unified.Session.Construction.{among_iff}
use jiejie_masque_unified.Manager.{
  Heap, World, lookup_locked, member, count_locked, snapshot_locked, collect, ok, err, owned,
  exhausted, ◌>>=◌, same_identity, at_capacity, install, register, new_manager,
}
use jiejie_masque_unified.Manager.Tables.{IsTables, without_all}
use jiejie_masque_unified.Manager.Snapshot.{
  IsRegistered, snapshot_locked_iff, snapshot_locked-Distinct, count-length, member_iff,
}
use jiejie_masque_unified.Manager.Takeover.{
  IsRival, IsClaimable, IsForeign, same_identity_sound, same_identity_complete,
  same_identity-Distinct, claim_addresses_cases,
}
use jiejie_masque_unified.Manager.Install.{IsOwned, install_lookup, install-IsTables, install-max}

-- The tables are well shaped; an entry is an address of the session that it leads to; an identity has
-- one session at most; the sessions are no more than the limit, if there is one.
pub record IsConsistent (w : World) : Type 0 where
  pub tables : IsTables w.registry
  pub owned_by : IsOwned w.heap w.registry
  pub single :
      (s t : ℕ)
      → IsRegistered w.registry s
      → IsRegistered w.registry t
      → (w.heap s).identity ≡ (w.heap t).identity
      → s ≡ t
  pub within : (w.registry.max_sessions ≡ 0) ⊎ (count_locked w.registry ≤ w.registry.max_sessions)

-- The sessions that a registration of `s` replaces.
abbrev pub rivals : World → ℕ → List ℕ
rivals w s = same_identity w.heap s (snapshot_locked w.registry) []

abbrev pub IsReplaced : World → ℕ → ℕ → Type 0
IsReplaced w s t = IsRegistered w.registry t × IsRival w.heap s t

module _ (w : World) (s : ℕ) (tables : IsTables w.registry) where
  rivals_sound : (t : ℕ) → In t (rivals w s) → IsReplaced w s t
  rivals_sound t p = elim (same_identity_sound w.heap s t (snapshot_locked w.registry) [] p) [
    | inl q ↦ elim q [ ]
    | inr q ↦ ((snapshot_locked_iff w.registry t tables).0 q.0, q.1)
  ]

  rivals_complete : (t : ℕ) → IsReplaced w s t → In t (rivals w s)
  rivals_complete t r =
      same_identity_complete w.heap s t (snapshot_locked w.registry) []
        (inr ((snapshot_locked_iff w.registry t tables).1 r.0, r.1))

  pub rivals_iff : (t : ℕ) → In t (rivals w s) ↔ IsReplaced w s t
  rivals_iff t = (rivals_sound t, rivals_complete t)

  abbrev pub AllClaimable : Type 0
  AllClaimable = (ip : Addr) → In ip (w.heap s).client_ips → IsClaimable w.heap w.registry s ip

  -- What the code under the lock does, on every branch.
  pub register_cases :
      ((register s w ≡ ok (rivals w s, install s (rivals w s) w))
        × AllClaimable
        × (at_capacity w.registry (rivals w s) ≡ false))
      ⊎ ((ip : Addr) × (register s w ≡ err (owned ip))
          × In ip (w.heap s).client_ips
          × IsForeign w.heap w.registry s ip)
      ⊎ ((register s w ≡ err exhausted)
          × AllClaimable
          × (at_capacity w.registry (rivals w s) ≡ true))
  unfolding register
  register_cases =
      elim (claim_addresses_cases w.heap w.registry s (rivals w s)
        (λ j t e r. rivals_complete t ((j, e), r)) (w.heap s).client_ips) [
          | inr (ip, e, p, foreign) ↦ inr (inl (ip, rw (e, ◌>>=◌), p, foreign))
          | inl (e, free) ↦ elim (Bool-cases (at_capacity w.registry (rivals w s))) [
            | inl full ↦ inr (inr (rw (e, ◌>>=◌, full), free, full))
            | inr room ↦ inl (rw (e, ◌>>=◌, room), free, room)
          ]
        ]

module _ (s : ℕ) (old : List ℕ) (w : World) where
  pub install-ips : (t : ℕ) → ((install s old w).heap t).client_ips ≡ (w.heap t).client_ips
  unfolding install
  install-ips t = ground arith

  pub install-identity : (t : ℕ) → ((install s old w).heap t).identity ≡ (w.heap t).identity
  unfolding install
  install-identity t = ground arith

  pub kept : (o : Option ℕ) (t : ℕ) → without_all old o ≡ some t → (o ≡ some t) × (¬ In t old)
  kept none t e = cc
  kept (some u) t e = elim (Bool-cases (member u old)) [
    | inl p ↦ absurd (ground arith)
    | inr p ↦
        let same : u ≡ t = ground arith in
        (ap some same, λ q. absurd (ground (arith, member_iff t old)))
  ]

  -- What a lookup finds after the writes: the session itself at its addresses, or one that was there
  -- and is not replaced.
  pub install-found :
      (j : Addr) (t : ℕ)
      → All (λ a. is_valid a ≡ true) (w.heap s).client_ips
      → IsOwned w.heap w.registry
      → lookup_locked j (install s old w).registry ≡ some t
      → (In j (w.heap s).client_ips × (t ≡ s))
        ⊎ ((lookup_locked j w.registry ≡ some t) × (¬ In t old))
  install-found j t v o e = elim (Bool-cases (among (w.heap s).client_ips j)) [
    | inl p ↦
        inl ((among_iff (w.heap s).client_ips j).0 p, ground (arith, install_lookup s old w j v o))
    | inr p ↦
        inr (kept (lookup_locked j w.registry) t (ground (arith, install_lookup s old w j v o)))
  ]

module _ (w : World) (s : ℕ) (c : IsConsistent w)
    (v : All (λ a. is_valid a ≡ true) (w.heap s).client_ips) where
  abbrev after : World
  after = install s (rivals w s) w

  found :
      (t : ℕ)
      → IsRegistered after.registry t
      → (t ≡ s) ⊎ (IsRegistered w.registry t × (¬ In t (rivals w s)))
  found t (j, e) = elim (install-found s (rivals w s) w j t v c.owned_by e) [
    | inl (_, p) ↦ inl p
    | inr (p, q) ↦ inr ((j, p), q)
  ]

  after-IsOwned : IsOwned after.heap after.registry
  after-IsOwned j t e =
      rw (install-ips s (rivals w s) w t)
        (elim (install-found s (rivals w s) w j t v c.owned_by e) [
          | inl (p, q) ↦ subst (λ u. In j (w.heap u).client_ips) (sym q) p
          | inr (p, q) ↦ c.owned_by j t p
        ])

  -- A session that is kept has another identity than `s`, or is `s`.
  alone :
      (t : ℕ)
      → IsRegistered w.registry t
      → (¬ In t (rivals w s))
      → (w.heap t).identity ≡ (w.heap s).identity
      → t ≡ s
  alone t r p e = elim (beq-cases t s) [
    | inl (_, q) ↦ q
    | inr (_, q) ↦ absurd (p ((rivals_iff w s c.tables t).1 (r, (q, e))))
  ]

  after-single :
      (t u : ℕ)
      → IsRegistered after.registry t
      → IsRegistered after.registry u
      → (w.heap t).identity ≡ (w.heap u).identity
      → t ≡ u
  after-single t u p q e = elim (found t p) [
    | inl t_is ↦ elim (found u q) [
      | inl u_is ↦ t_is ∙ sym u_is
      | inr (r, k) ↦ t_is ∙ sym (alone u r k (sym e ∙ ap (λ x. (w.heap x).identity) t_is))
    ]
    | inr (r, k) ↦ elim (found u q) [
      | inl u_is ↦ alone t r k (e ∙ ap (λ x. (w.heap x).identity) u_is) ∙ sym u_is
      | inr (r', k') ↦ c.single t u r r' e
    ]
  ]

  -- The kept sessions, the new one and the replaced ones are distinct.
  count_after : count_locked after.registry + length (rivals w s) ≤ suc (count_locked w.registry)
  count_after = omega (
    arith,
    count-length after.registry,
    count-length w.registry,
    length-append (snapshot_locked after.registry) (rivals w s),
    length_of_subset (snapshot_locked after.registry ++ rivals w s) (s ∷ snapshot_locked w.registry)
        apart inside,
  )
    where
      listed :
          (t : ℕ)
          → In t (snapshot_locked after.registry)
          → (t ≡ s) ⊎ (IsRegistered w.registry t × (¬ In t (rivals w s)))
      listed t p = found t (
          (snapshot_locked_iff after.registry t (install-IsTables s (rivals w s) w v c.tables)).0 p)

      disjoint : (t : ℕ) → In t (snapshot_locked after.registry) → ¬ In t (rivals w s)
      disjoint t p q = elim (listed t p) [
        | inl e ↦ ((rivals_iff w s c.tables t).0 q).1.0 e
        | inr r ↦ r.1 q
      ]

      apart : Distinct (snapshot_locked after.registry ++ rivals w s)
      apart =
          append-Distinct (snapshot_locked after.registry) (rivals w s)
            (snapshot_locked-Distinct after.registry)
            (same_identity-Distinct w.heap s (snapshot_locked w.registry) [] tt) disjoint

      inside :
          (t : ℕ)
          → In t (snapshot_locked after.registry ++ rivals w s)
          → In t (s ∷ snapshot_locked w.registry)
      inside t p = elim (In-append_cases t (snapshot_locked after.registry) (rivals w s) p) [
        | inl q ↦ elim (listed t q) [
          | inl e ↦ inl e
          | inr r ↦ inr ((snapshot_locked_iff w.registry t c.tables).1 r.0)
        ]
        | inr q ↦
            inr ((snapshot_locked_iff w.registry t c.tables).1 ((rivals_iff w s c.tables t).0 q).0)
      ]

  after-IsConsistent : at_capacity w.registry (rivals w s) ≡ false → IsConsistent after
  unfolding at_capacity
  after-IsConsistent room = record {
    tables = install-IsTables s (rivals w s) w v c.tables;
    owned_by = after-IsOwned;
    single = λ t u p q e.
        after-single t u p q
          (sym (install-identity s (rivals w s) w t) ∙ e ∙ install-identity s (rivals w s) w u);
    within = rw (install-max s (rivals w s) w) (ground (arith, count_after));
  }

  -- On a consistent registry, if the part of Replace under the lock accepts a session with valid
  -- addresses, then the registry after it is consistent: its tables have the right shape, each entry
  -- is an address of the session that it leads to, no two registered sessions have one identity, and
  -- the registered sessions are no more than the limit, if there is one.
  pub register-IsConsistent :
      (old : List ℕ) (w' : World) → register s w ≡ ok (old, w') → IsConsistent w'
  register-IsConsistent old w' e = elim (register_cases w s c.tables) [
    | inl (f, _, room) ↦ subst IsConsistent (same_world f) (after-IsConsistent room)
    | inr (inl (ip, f, _, _)) ↦ absurd (ground arith)
    | inr (inr (f, _, _)) ↦ absurd (ground arith)
  ]
    where
      same_world : register s w ≡ ok (rivals w s, after) → after ≡ w'
      same_world f = ap (λ r. elim r [ ok p ↦ p.1 | err x ↦ after ]) (sym f ∙ e)

-- A new manager has no sessions.
pub new_manager-IsConsistent :
    (h : Heap) (limit : Option ℕ) → IsConsistent (record { heap = h; registry = new_manager limit })
unfolding new_manager lookup_locked get count_locked collect
new_manager-IsConsistent h limit = record {
  tables = record { distinct4 = tt; distinct6 = tt; family4 = tt; family6 = tt };
  owned_by = λ j t e. absurd (ground arith);
  single = λ s t p q e. absurd (no_session p.0 p.1);
  within = ground arith;
}
  where
    no_session : (j : Addr) {t : ℕ} → lookup_locked j (new_manager limit) ≡ some t → ⊥
    no_session j e = ground arith

-- ===== src/System.antt =====
-- internal/connectip/config, internal/connectip/session and cmd/jiejie-masque/main.go together: the
-- registry of a server whose sessions belong to the clients of a resolved configuration.
pub mod Counting
pub mod Tests
use jiejie_masque_unified.Base.{
  ℕ, suc, ◌+◌, ◌≤◌, ◌<◌, ◌≡◌, ◌≢◌, refl, ap, sym, subst, ◌∙◌, ◌⊎◌, inl, inr, ◌↔◌, ◌==◌, nat_eq,
  string_eq, not, Bool, true, false, Option, none, some, List, [], ◌∷◌, ◌++◌, map, length,
  length-append, length_of_subset, All, In, In-append_left, In-append_right, In-map, Distinct,
  String, Bool-cases, beq-cases, ltb, leb, ◌&&◌, if◌then◌else◌, arith,
}
use jiejie_masque_unified.Net.{Addr, is_valid}
use jiejie_masque_unified.Session.{Session, among}
use jiejie_masque_unified.Manager.Tables.{without_all}
use jiejie_masque_unified.Manager.{
  Manager, World, Heap, lookup_locked, member, count_locked, snapshot_locked, at_capacity, replace,
  Result, ok, err, ReplaceError, missing, owned, exhausted,
}
use jiejie_masque_unified.Manager.Snapshot.{
  IsRegistered, snapshot_locked_iff, snapshot_locked-Distinct, count-length, member_iff,
}
use jiejie_masque_unified.Manager.Invariant.{IsConsistent, rivals, rivals_iff, kept}
use jiejie_masque_unified.Manager.Replacement.{Refused, TakesOver, replace_cases}
use jiejie_masque_unified.Config.{ResolvedClient, addresses}
use jiejie_masque_unified.Config.Resolution.{tunnel_of}
use jiejie_masque_unified.Config.Distinctness.{all_addresses, all_keys}
use jiejie_masque_unified.System.Counting.{
  In-all_addresses, Distinct-append_right, Distinct-append_apart, owner_unique, others, others_iff,
  In-map-source, map-Distinct, others-Distinct, length-map, length-all_keys,
}

-- The session carries the key and the addresses of a client.
pub record BelongsTo (w : World) (t : ℕ) (r : ResolvedClient) : Type 0 where
  pub named : (w.heap t).identity ≡ r.public_key
  pub addressed : (w.heap t).client_ips ≡ addresses (tunnel_of r)

-- Every registered session belongs to one of the clients.
abbrev pub ServesClients : World → List ResolvedClient → Type 0
ServesClients w rs =
    (t : ℕ) → IsRegistered w.registry t → (r : ResolvedClient) × In r rs × BelongsTo w t r

-- A server whose registry serves the clients of a resolution, up to their number, and a session that
-- is not registered yet and belongs to one of the clients.
pub record IsServing (w : World) (rs : List ResolvedClient) : Type 0 where
  pub consistent : IsConsistent w
  pub serves : ServesClients w rs
  pub addresses_distinct : Distinct (all_addresses rs)
  pub keys_distinct : Distinct (all_keys rs)
  pub limit : w.registry.max_sessions ≡ length rs

module _ (w : World) (rs : List ResolvedClient) (v : IsServing w rs) (s : ℕ) (r : ResolvedClient)
    (known : In r rs) (mine : BelongsTo w s r) (new : ¬ IsRegistered w.registry s) where
  name : ℕ → String
  name t = (w.heap t).identity

  stay : List ℕ
  unfolding others
  stay = others (rivals w s) (snapshot_locked w.registry)

  -- The sessions that stay and the new one have different names, all of them keys of clients.
  staying : length stay + 1 ≤ length rs
  unfolding stay name
  staying = omega (
    arith,
    length-map name stay,
    length-all_keys rs,
    length_of_subset (name s ∷ map name stay) (all_keys rs)
        (
          apart,
          map-Distinct name stay
              (others-Distinct (rivals w s) (snapshot_locked w.registry)
                (snapshot_locked-Distinct w.registry))
              single,
        )
        inside,
  )
    where
      registered : (t : ℕ) → In t stay → IsRegistered w.registry t × (¬ In t (rivals w s))
      registered t p =
          let (q, n) = (others_iff (rivals w s) t (snapshot_locked w.registry)).0 p in
          ((snapshot_locked_iff w.registry t v.consistent.tables).0 q, n)

      single : (t u : ℕ) → In t stay → In u stay → name t ≡ name u → t ≡ u
      single t u p q e = v.consistent.single t u (registered t p).0 (registered u q).0 e

      apart : ¬ In (name s) (map name stay)
      apart h =
          let (u, p, e) = In-map-source name stay (name s) h in
          let (q, n) = registered u p in
          n (
            (rivals_iff w s v.consistent.tables u).1
              (q, (λ same. new (subst (IsRegistered w.registry) same q), sym e)))

      key_of : (t : ℕ) (x : ResolvedClient) → In x rs → BelongsTo w t x → In (name t) (all_keys rs)
      key_of t x p b = rw b.named (In-map (λ y. y.public_key) x rs p)

      inside : (k : String) → In k (name s ∷ map name stay) → In k (all_keys rs)
      inside k (inl e) = rw e (key_of s r known mine)
      inside k (inr h) =
          let (u, p, e) = In-map-source name stay k h in
          let (x, q, b) = v.serves u (registered u p).0 in rw e (key_of u x q b)

  counted : count_locked w.registry ≤ length stay + length (rivals w s)
  unfolding stay
  counted = omega (
    arith,
    count-length w.registry,
    length-append stay (rivals w s),
    length_of_subset (snapshot_locked w.registry) (stay ++ rivals w s)
        (snapshot_locked-Distinct w.registry) inside,
  )
    where
      inside : (t : ℕ) → In t (snapshot_locked w.registry) → In t (stay ++ rivals w s)
      inside t p = elim (Bool-cases (member t (rivals w s))) [
        | inl q ↦ In-append_right t stay (rivals w s) ((member_iff t (rivals w s)).0 q)
        | inr q ↦ In-append_left t stay (rivals w s) (
            (others_iff (rivals w s) t (snapshot_locked w.registry)).1
              (p, λ h. absurd (ground (arith, (member_iff t (rivals w s)).1 h))))
      ]

  has_room : at_capacity w.registry (rivals w s) ≡ false
  unfolding at_capacity
  has_room = ground (arith, staying, counted, v.limit)

  not_foreign :
      (ip : Addr) (t : ℕ)
      → In ip (w.heap s).client_ips
      → lookup_locked ip w.registry ≡ some t
      → (w.heap t).identity ≡ (w.heap s).identity
  not_foreign ip t p e =
      let (x, q, b) = v.serves t (ip, e) in
      let same =
        owner_unique ip rs r x v.addresses_distinct known q (subst (In ip) mine.addressed p)
          (subst (In ip) b.addressed (v.consistent.owned_by ip t e)) in
      b.named ∙ ap (λ y. y.public_key) (sym same) ∙ sym mine.named

  never-Refused : (e : ReplaceError) → ¬ Refused w s e
  never-Refused missing h = h
  never-Refused (owned ip) h = h.1.2 (not_foreign ip h.1.0 h.0 h.1.1)
  never-Refused exhausted h = absurd (ground (arith, has_room))

  -- Replace never refuses a client: on a consistent registry whose sessions belong to clients with
  -- distinct keys and addresses, with the number of clients as the limit, a new session of a client
  -- with a connection and valid addresses takes over.
  pub client_admitted :
      All (λ a. is_valid a ≡ true) (w.heap s).client_ips
      → (w.heap s).conn ≡ true
      → (old : List ℕ) × (w' : World) × (replace (some s) w ≡ (ok old, w')) × TakesOver w s old w'
  client_admitted valid connected = elim (replace_cases w s v.consistent valid connected) [
    | inl done ↦ done
    | inr (e, _, refused) ↦ absurd (never-Refused e refused)
  ]

  -- On a consistent registry whose sessions belong to clients with distinct keys and addresses, with
  -- the number of clients as the limit, a takeover by a new session of a client leaves a consistent
  -- registry, with the same limit, whose sessions all belong to the clients.
  pub takeover-IsServing : (old : List ℕ) (w' : World) → TakesOver w s old w' → IsServing w' rs
  takeover-IsServing old w' t = record {
    consistent = t.consistent;
    serves = λ u p. elim (beq-cases u s) [
      | inl (_, e) ↦ (r, known, moved u s (ap w'.heap e ∙ t.itself) refl refl mine)
      | inr (_, ne) ↦ before u ne p
    ];
    addresses_distinct = v.addresses_distinct;
    keys_distinct = v.keys_distinct;
    limit = t.limit ∙ v.limit;
  }
    where
      moved :
          (u x : ℕ) {y : Session}
          → w'.heap u ≡ y
          → y.identity ≡ (w.heap x).identity
          → y.client_ips ≡ (w.heap x).client_ips
          → {z : ResolvedClient} → BelongsTo w x z
          → BelongsTo w' u z
      moved u x e f g b = record {
        named = ap (λ y. y.identity) e ∙ f ∙ b.named;
        addressed = ap (λ y. y.client_ips) e ∙ g ∙ b.addressed;
      }

      stays :
          (u : ℕ)
          → u ≢ s
          → (o : Option ℕ) (b : Bool) → (if b then some s else without_all old o) ≡ some u
          → (o ≡ some u) × (¬ In u old)
      stays u ne o true e = absurd (ne (ground arith))
      stays u ne o false e = kept s old w o u e

      before :
          (u : ℕ)
          → u ≢ s
          → IsRegistered w'.registry u
          → (x : ResolvedClient) × In x rs × BelongsTo w' u x
      before u ne (j, e) =
          let (f, n) =
            stays u ne (lookup_locked j w.registry) (among (w.heap s).client_ips j)
              (sym (t.lookups j) ∙ e) in
          let (x, q, b) = v.serves u (j, f) in (x, q, moved u u (t.others u n ne) refl refl b)

-- ===== src/Handler/Lifetime.antt =====
-- cmd/jiejie-masque/main.go: the registry over the lifetime of a server, whose requests and closings
-- come one after another in any order.
use jiejie_masque_unified.Base.{
  ℕ, ◌≡◌, refl, ap, sym, subst, ◌∙◌, inl, inr, nat_eq, Bool, Option, none, some, List, [], Distinct,
  panics, length, Go, ret, beq-cases, if◌then◌else◌, arith,
}
use jiejie_masque_unified.Net.{zero_addr, ip4, ip6}
use jiejie_masque_unified.Dict.{get}
use jiejie_masque_unified.Auth.{Crypto}
use jiejie_masque_unified.Session.{Session}
use jiejie_masque_unified.Manager.{Heap, World, new_manager, lookup_locked, close}
use jiejie_masque_unified.Manager.Snapshot.{IsRegistered}
use jiejie_masque_unified.Manager.Tables.{without}
use jiejie_masque_unified.Manager.Effects.{shut_session, close_heap, close_lookup, close-max}
use jiejie_masque_unified.Manager.Closing.{close-IsConsistent}
use jiejie_masque_unified.Manager.Invariant.{new_manager-IsConsistent}
use jiejie_masque_unified.Config.{
  Config, Library, ResolvedClient, TunnelAddresses, resolved_clients, ok,
}
use jiejie_masque_unified.Config.Distinctness.{
  all_addresses, all_keys, IsResolution, resolved_clients-IsResolution,
}
use jiejie_masque_unified.System.{IsServing}
use jiejie_masque_unified.Handler.{Request, Services, Answer, by_key, handle_request}
use jiejie_masque_unified.Handler.Admission.{handle_request_cases}

-- The worlds that a server reaches from its new registry, by requests, each with a new pointer for the
-- session that it may make, and by closings of sessions.
pub data Life (k : Crypto) (server : TunnelAddresses) (advertise : Bool) (rs : List ResolvedClient)
    : World → Type 0 where
  started :
      (heap : Heap)
      → Life k server advertise rs
          (record { heap = heap; registry = new_manager (some (length rs)) })
  requested :
      (e : Services) (r : Request) (s : ℕ) (w w' : World) (a : Answer)
      → Life k server advertise rs w
      → ¬ IsRegistered w.registry s
      → handle_request k e server advertise (by_key rs []) r s w ≡ ret (a, w')
      → Life k server advertise rs w'
  closed :
      (t : ℕ) (w : World) → Life k server advertise rs w → Life k server advertise rs (close t w)

shut_session-same :
    (x : Session)
    → ((shut_session x).identity ≡ x.identity) × ((shut_session x).client_ips ≡ x.client_ips)
shut_session-same x = ground arith

close-same :
    (t u : ℕ) (w : World)
    → (((close t w).heap u).identity ≡ (w.heap u).identity)
      × (((close t w).heap u).client_ips ≡ (w.heap u).client_ips)
close-same t u w = elim (beq-cases t u) [
  | inl (p, e) ↦
      let (name, ips) = shut_session-same (w.heap t) in
      let after : (close t w).heap u ≡ shut_session (w.heap t) = close_heap t w u ∙ rw p refl in
      (
        ap (λ x. x.identity) after ∙ name ∙ ap (λ v. (w.heap v).identity) e,
        ap (λ x. x.client_ips) after ∙ ips ∙ ap (λ v. (w.heap v).client_ips) e,
      )
  | inr (p, ne) ↦
      let after : (close t w).heap u ≡ w.heap u = close_heap t w u ∙ rw p refl in
      (ap (λ x. x.identity) after, ap (λ x. x.client_ips) after)
]

without-some :
    (t u : ℕ) (b : Bool) (o : Option ℕ) → (if b then without t o else o) ≡ some u → o ≡ some u
without-some t u b none h = ground arith
without-some t u b (some v) h = ground arith

module _ (rs : List ResolvedClient) where
  close-registered :
      (t u : ℕ) (w : World)
      → IsServing w rs
      → IsRegistered (close t w).registry u
      → IsRegistered w.registry u
  close-registered t u w v (j, h) =
      (j, without-some t u _ _ (sym (close_lookup t w j v.consistent.owned_by) ∙ h))

  close-IsServing : (t : ℕ) (w : World) → IsServing w rs → IsServing (close t w) rs
  close-IsServing t w v = record {
    consistent = close-IsConsistent t w v.consistent;
    serves = λ u p.
        let (r, known, mine) = v.serves u (close-registered t u w v p) in
        let (name, ips) = close-same t u w in
        (r, known, record { named = name ∙ mine.named; addressed = ips ∙ mine.addressed });
    addresses_distinct = v.addresses_distinct;
    keys_distinct = v.keys_distinct;
    limit = close-max t w ∙ v.limit;
  }

  new-IsServing :
      (heap : Heap)
      → Distinct (all_addresses rs)
      → Distinct (all_keys rs)
      → IsServing (record { heap = heap; registry = new_manager (some (length rs)) }) rs
  unfolding new_manager lookup_locked get
  new-IsServing heap addresses_distinct keys_distinct = record {
    consistent = new_manager-IsConsistent heap (some (length rs));
    serves = λ t p. absurd (nobody t p);
    addresses_distinct = addresses_distinct;
    keys_distinct = keys_distinct;
    limit = refl;
  }
    where
      nobody : (t : ℕ) → IsRegistered (new_manager (some (length rs))) t → ⊥
      nobody t (zero_addr, h) = cc
      nobody t (ip4 a, h) = cc
      nobody t (ip6 a z, h) = cc

world_of : World → Go (Answer × World) → World
world_of w (ret (a, w')) = w'
world_of w panics = w

-- With the clients that the configuration resolves to, in every world that a server reaches from its
-- new registry by requests and closings, one after another in any order, where a request's session
-- has a new pointer, the registry is consistent, its limit is the number of clients, and each
-- registered session has the key and the addresses of a client.
pub Life-IsServing :
    (l : Library) (c : Config) (rs : List ResolvedClient) (k : Crypto) (server : TunnelAddresses)
    (advertise : Bool) (w : World)
    → resolved_clients l c ≡ ok rs
    → Life k server advertise rs w
    → IsServing w rs
unfolding world_of
Life-IsServing l c rs k server advertise w h life = go w life
  where
    v : IsResolution l c rs
    v = resolved_clients-IsResolution l c rs h

    go : (w : World) → Life k server advertise rs w → IsServing w rs
    go _ (started heap) = new-IsServing rs heap v.addresses_distinct v.keys_distinct
    go _ (closed t w life) = close-IsServing rs t w (go w life)
    go _ (requested e r s w w' a life new answer) =
        elim (handle_request_cases l c rs v w (go w life) s new k e server advertise r) [
          | inl (b, same, why) ↦
              subst (λ x. IsServing x rs) (ap (world_of w) (sym same ∙ answer)) (go w life)
          | inr admission ↦
              subst (λ x. IsServing x rs) (ap (world_of w) (sym admission.answer ∙ answer))
                admission.serving_after
        ]

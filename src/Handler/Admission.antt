-- ===== src/Handler/Admission.antt =====
-- cmd/jiejie-masque/main.go, handleRequest: who gets a session.
use jiejie_masque_unified.Base.{
  ℕ, ◌≡◌, ◌≢◌, refl, ap, sym, subst, ◌∙◌, ◌⊎◌, inl, inr, Bool, true, false, some, List, [], ◌∷◌, In,
  All, String, string_eq, nat_eq, beq-cases, beq_refl, Bool-cases, Option-cases, Go, ret, arith,
}
use jiejie_masque_unified.Base.Fallible.{ok, err}
use jiejie_masque_unified.Net.{is_valid}
use jiejie_masque_unified.Dict.{Dict, get, put, get-put}
use jiejie_masque_unified.Auth.{Crypto, Certificate, public_key_bytes}
use jiejie_masque_unified.Session.{Session}
use jiejie_masque_unified.Session.Construction.{accepted}
use jiejie_masque_unified.Manager.{World, update}
use jiejie_masque_unified.Manager.Snapshot.{IsRegistered}
use jiejie_masque_unified.Manager.Invariant.{IsConsistent}
use jiejie_masque_unified.Manager.Replacement.{TakesOver}
use jiejie_masque_unified.Config.{
  Library, Config, Client, ResolvedClient, TunnelAddresses, prefixes, addresses,
}
use jiejie_masque_unified.Config.Prefixes.{IsClientOf, IsClientOf-IsAddressSet}
use jiejie_masque_unified.Config.Resolution.{tunnel_of, valid_addresses}
use jiejie_masque_unified.Config.Distinctness.{AllResolved, IsResolution}
use jiejie_masque_unified.Datapath.{connect_ip_routes, protocol_for_parse}
use jiejie_masque_unified.System.{IsServing, BelongsTo, client_admitted, takeover-IsServing}
use jiejie_masque_unified.Handler.{
  by_key, client_of, request_template, Services, Request, authorize, client_addresses, settle,
  register_session, establish, Answer, http_error, tunnel_failed, connection_closed, established,
  handle_request,
}

by_key-In :
    (k : String) (cl : ResolvedClient) (rs : List ResolvedClient) (t : Dict String ResolvedClient)
    → get k (by_key rs t) ≡ some cl
    → (In cl rs × (cl.public_key ≡ k)) ⊎ (get k t ≡ some cl)
unfolding by_key
by_key-In k cl [] t h = inr h
by_key-In k cl (r ∷ rs) t h = elim (by_key-In k cl rs (put r.public_key r t) h) [
  | inl (p, e) ↦ inl (inr p, e)
  | inr e ↦ elim (beq-cases r.public_key k) [
    | inl (q, same) ↦ inl (ground (arith, get-put r.public_key k r t))
    | inr (q, _) ↦ inr (ground (arith, get-put r.public_key k r t))
  ]
]

pub client_of-In :
    (c : Crypto) (rs : List ResolvedClient) (certs : List Certificate) (cl : ResolvedClient)
    → client_of c (by_key rs []) certs ≡ some cl
    → (cert : Certificate) × (certs ≡ cert ∷ [])
      × In cl rs
      × (cl.public_key ≡ public_key_bytes c cert)
unfolding client_of get
client_of-In c rs [] cl h = cc
client_of-In c rs (cert ∷ []) cl h = elim (by_key-In (public_key_bytes c cert) cl rs [] h) [
  | inl (p, e) ↦ (cert, refl, p, e)
  | inr e ↦ cc
]
client_of-In c rs (cert ∷ other ∷ rest) cl h = cc

AllResolved-client :
    (l : Library) (server : TunnelAddresses) (cls : List Client) (rs : List ResolvedClient)
    → AllResolved l server cls rs
    → (r : ResolvedClient) → In r rs
    → IsClientOf server (tunnel_of r)
AllResolved-client l server [] [] h r p = elim p [ ]
AllResolved-client l server [] (x ∷ rs) h r p = elim h [ ]
AllResolved-client l server (cl ∷ cls) [] h r p = elim p [ ]
AllResolved-client l server (cl ∷ cls) (x ∷ rs) h r (inl e) = rw e h.0.placed
AllResolved-client l server (cl ∷ cls) (x ∷ rs) h r (inr p) =
    AllResolved-client l server cls rs h.1 r p

-- A session object at a pointer that the registry does not have.
module _ (w : World) (s : ℕ) (x : Session) (new : ¬ IsRegistered w.registry s) where
  abbrev pub placed : World
  placed = record w { heap = update w.heap s x }

  untouched : (t : ℕ) → IsRegistered w.registry t → placed.heap t ≡ w.heap t
  untouched t p = elim (beq-cases s t) [
    | inl (_, e) ↦ absurd (new (subst (IsRegistered w.registry) (sym e) p))
    | inr (q, _) ↦ rw q refl
  ]

  placed-IsConsistent : IsConsistent w → IsConsistent placed
  placed-IsConsistent c = record {
    tables = c.tables;
    owned_by = λ j t e. rw (untouched t (j, e)) (c.owned_by j t e);
    single = λ t u p q e.
        c.single t u p q
          (sym (ap (λ y. y.identity) (untouched t p)) ∙ e ∙ ap (λ y. y.identity) (untouched u q));
    within = c.within;
  }

  pub placed-IsServing : (rs : List ResolvedClient) → IsServing w rs → IsServing placed rs
  placed-IsServing rs v = record {
    consistent = placed-IsConsistent v.consistent;
    serves = λ t p.
        let (r, q, b) = v.serves t p in
        (
          r,
          q,
          record {
            named = ap (λ y. y.identity) (untouched t p) ∙ b.named;
            addressed = ap (λ y. y.client_ips) (untouched t p) ∙ b.addressed;
          },
        );
    addresses_distinct = v.addresses_distinct;
    keys_distinct = v.keys_distinct;
    limit = v.limit;
  }

-- The tests before Proxy end with a status, or with the client of the request's certificate.
authorize_cases :
    (c : Crypto) (e : Services) (table : Dict String ResolvedClient) (r : Request)
    → ((n : ℕ) × (authorize c e table r ≡ err n) × (n ≢ 409))
      ⊎ ((cl : ResolvedClient) × (certs : List Certificate) × (authorize c e table r ≡ ok cl)
          × (r.tls ≡ some certs)
          × (client_of c table certs ≡ some cl))
unfolding authorize
authorize_cases c e table r = elim (Option-cases (protocol_for_parse r.proto)) [
  | inl p ↦ inl (501, rw (p, authorize) refl, omega arith)
  | inr (protocol, p) ↦ elim (Option-cases r.tls) [
    | inl q ↦ inl (401, rw (p, q, authorize) refl, omega arith)
    | inr (certs, q) ↦ elim (Option-cases (client_of c table certs)) [
      | inl f ↦ inl (401, rw (p, q, f, authorize) refl, omega arith)
      | inr (cl, f) ↦ elim (Option-cases (request_template e r.host)) [
        | inl g ↦ inl (400, rw (p, q, f, g, authorize) refl, omega arith)
        | inr (template, g) ↦ elim (Bool-cases (e.parse_request protocol template)) [
          | inl h ↦ inr (cl, certs, rw (p, q, f, g, h, authorize) refl, q, f)
          | inr h ↦ inl (400, rw (p, q, f, g, h, authorize) refl, omega arith)
        ]
      ]
    ]
  ]
]

module _ (l : Library) (c : Config) (rs : List ResolvedClient) (v : IsResolution l c rs) (w : World)
    (serving : IsServing w rs) (s : ℕ) (new : ¬ IsRegistered w.registry s) where
  placed_of : (cl : ResolvedClient) → In cl rs → IsClientOf v.server (tunnel_of cl)
  placed_of = AllResolved-client l v.server c.clients rs v.clients

  belongs :
      (cl : ResolvedClient) (x : Session)
      → x.client_ips ≡ addresses (client_addresses cl)
      → x.identity ≡ cl.public_key
      → BelongsTo (placed w s x new) s cl
  belongs cl x ips name =
      let at_s : (placed w s x new).heap s ≡ x = rw (beq_refl s) refl in
      record {
        named = ap (λ y. y.identity) at_s ∙ name;
        addressed = ap (λ y. y.client_ips) at_s ∙ ips;
      }

  -- A client's session that is made and handed to Replace is taken.
  registers :
      (cl : ResolvedClient) (x : Session)
      → In cl rs
      → x.client_ips ≡ addresses (client_addresses cl)
      → x.identity ≡ cl.public_key
      → x.conn ≡ true
      → (old : List ℕ) × (w' : World) × (register_session s w x ≡ (established old, w'))
        × TakesOver (placed w s x new) s old w'
        × IsServing w' rs
  unfolding register_session settle
  registers cl x known ips name conn =
      let at_s : (placed w s x new).heap s ≡ x = rw (beq_refl s) refl in
      let mine = belongs cl x ips name in
      let here = placed-IsServing w s x new rs serving in
      let valid : All (λ a. is_valid a ≡ true) ((placed w s x new).heap s).client_ips =
        subst (All (λ a. is_valid a ≡ true)) (sym (ap (λ y. y.client_ips) at_s ∙ ips))
          (valid_addresses v.server (tunnel_of cl) (placed_of cl known)) in
      let (old, w', e, t) =
        client_admitted (placed w s x new) rs here s cl known mine new valid
          (ap (λ y. y.conn) at_s ∙ conn) in
      (
        old,
        w',
        ap (settle s) e,
        t,
        takeover-IsServing (placed w s x new) rs here s cl known mine new old w' t,
      )

  -- A session of a client of the resolution whose key the request's only certificate has.
  pub record IsAdmission (k : Crypto) (r : Request) (out : Go (Answer × World)) : Type 0 where
    pub client : ResolvedClient
    pub cert : Certificate
    pub session : Session
    pub old : List ℕ
    pub world : World
    pub known : In client rs
    pub presented : r.tls ≡ some (cert ∷ [])
    pub same_key : client.public_key ≡ public_key_bytes k cert
    pub answer : out ≡ ret (established old, world)
    pub taken : TakesOver (placed w s session new) s old world
    pub itself : BelongsTo (placed w s session new) s client
    pub serving_after : IsServing world rs

  module _ (k : Crypto) (e : Services) (server : TunnelAddresses) (advertise : Bool)
      (r : Request) where
    -- Why there is no session.
    abbrev pub IsRefusal : Answer → Type 0
    IsRefusal (http_error n) = (authorize k e (by_key rs []) r ≡ err n) × (n ≢ 409)
    IsRefusal tunnel_failed = e.proxy ≡ false
    IsRefusal connection_closed =
        (cl : ResolvedClient) × (authorize k e (by_key rs []) r ≡ ok cl)
        × ((e.assign_addresses (prefixes (client_addresses cl)) ≡ false)
            ⊎ (e.advertise_route (connect_ip_routes (client_addresses cl) server advertise)
                ≡ false))
    IsRefusal (established old) = ⊥

    Handled : Go (Answer × World) → Type 0
    Handled out = ((a : Answer) × (out ≡ ret (a, w)) × IsRefusal a) ⊎ IsAdmission k r out

    establish_cases :
        (cl : ResolvedClient) (cert : Certificate)
        → authorize k e (by_key rs []) r ≡ ok cl
        → r.tls ≡ some (cert ∷ [])
        → In cl rs
        → cl.public_key ≡ public_key_bytes k cert
        → Handled (establish e server advertise cl s w)
    unfolding Handled establish
    establish_cases cl cert ok_cl tls known same = elim (Bool-cases e.proxy) [
      | inr p ↦ inl (tunnel_failed, rw (p, establish) refl, p)
      | inl p ↦ elim (Bool-cases (e.assign_addresses (prefixes (client_addresses cl)))) [
        | inr q ↦ inl (connection_closed, rw (p, q, establish) refl, (cl, ok_cl, inl q))
        | inl q ↦
            elim (Bool-cases
              (e.advertise_route (connect_ip_routes (client_addresses cl) server advertise))) [
                | inr t ↦ inl (connection_closed, rw (p, q, t, establish) refl, (cl, ok_cl, inr t))
                | inl t ↦
                    let (x, made, ips, name, conn) =
                      accepted cl.public_key true false (addresses (client_addresses cl))
                        (IsClientOf-IsAddressSet v.server (tunnel_of cl) (placed_of cl known)) in
                    let (old, w', f, taken, after) = registers cl x known ips name conn in
                    inr (record {
                      client = cl;
                      cert = cert;
                      session = x;
                      old = old;
                      world = w';
                      known = known;
                      presented = tls;
                      same_key = same;
                      answer = rw (p, q, t, made, f, establish) refl;
                      taken = taken;
                      itself = belongs cl x ips name;
                      serving_after = after;
                    })
              ]
      ]
    ]

    -- On a server whose registry serves the clients of a resolved configuration, a request ends in one
    -- of two ways, never in a panic, where the session that it may make is new to the registry. It is
    -- refused for a reason, with an error status other than 409, or because Proxy, AssignAddresses or
    -- AdvertiseRoute fails, and the registry and the sessions are as before. Or a session is
    -- established for the client whose key the request's only certificate has, with this client's
    -- addresses, and the registry still serves the clients.
    pub handle_request_cases :
        ((a : Answer) × (handle_request k e server advertise (by_key rs []) r s w ≡ ret (a, w))
          × IsRefusal a)
        ⊎ IsAdmission k r (handle_request k e server advertise (by_key rs []) r s w)
    unfolding handle_request Handled
    handle_request_cases = elim (authorize_cases k e (by_key rs []) r) [
      | inl (n, h, ne) ↦ inl (http_error n, rw (h, handle_request) refl, (h, ne))
      | inr (cl, certs, h, tls, found) ↦
          let (cert, one, known, same) = client_of-In k rs certs cl found in
          rw (h, handle_request) (establish_cases cl cert h (tls ∙ ap (λ x. some x) one) known same)
    ]

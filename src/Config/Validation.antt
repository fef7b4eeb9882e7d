-- ===== src/Config/Validation.antt =====
-- internal/connectip/config/config.go, Validate and Load: what a loaded configuration satisfies.
use jiejie_masque_unified.Base.{
  ◌≡◌, refl, sym, subst, ◌⊎◌, inl, inr, ◌↔◌, ◌==◌, nat_eq, string_eq, true, false, some, List,
  String, Bool-cases, Option-cases, arith,
}
use jiejie_masque_unified.Base.Fallible.{>>=-eq-ok, ok-injective}
use jiejie_masque_unified.Net.{prefix_is_valid}
use jiejie_masque_unified.Config.{
  Config, ResolvedClient, Library, TunnelAddresses, ConfigError, Result, ok, err, ◌>>=◌,
  server_addresses, is_usable_global_ipv6_tunnel_prefix, resolved_clients,
}
use jiejie_masque_unified.Config.Load.{
  known_controller, check_route, validate, Reader, NextDocument, end_of_file, another, broken,
  with_default, load,
}

-- What Validate checks.
pub record IsValid (l : Library) (c : Config) : Type 0 where
  pub listens : (c.listen == "") ≡ false
  pub certified : ((c.tls.cert == "") ≡ false) × ((c.tls.key == "") ≡ false)
  pub controlled : known_controller c.quic.congestion_controller ≡ true
  pub routed :
      (c.server.advertise_ipv6_default_route ≡ false)
      ⊎ ((a : TunnelAddresses) × (server_addresses l c ≡ ok a)
          × (prefix_is_valid a.ipv6 ≡ true)
          × (is_usable_global_ipv6_tunnel_prefix a.ipv6 ≡ true))
  pub resolves : (rs : List ResolvedClient) × (resolved_clients l c ≡ ok rs)

check_route-ok :
    (l : Library) (c : Config) (u : Unit {0})
    → check_route l c ≡ ok u
    → (c.server.advertise_ipv6_default_route ≡ false)
      ⊎ ((a : TunnelAddresses) × (server_addresses l c ≡ ok a)
          × (prefix_is_valid a.ipv6 ≡ true)
          × (is_usable_global_ipv6_tunnel_prefix a.ipv6 ≡ true))
unfolding check_route
check_route-ok l c u h =
    by_server (server_addresses l c) refl (Bool-cases c.server.advertise_ipv6_default_route)
  where
    by_server :
        (r : Result ConfigError TunnelAddresses)
        → server_addresses l c ≡ r
        → (c.server.advertise_ipv6_default_route ≡ true)
          ⊎ (c.server.advertise_ipv6_default_route ≡ false)
        → (c.server.advertise_ipv6_default_route ≡ false)
          ⊎ ((a : TunnelAddresses) × (server_addresses l c ≡ ok a)
              × (prefix_is_valid a.ipv6 ≡ true)
              × (is_usable_global_ipv6_tunnel_prefix a.ipv6 ≡ true))
    by_server r e (inr q) = inl q
    by_server (err x) e (inl q) = absurd (ground arith)
    by_server (ok a) e (inl q) = inr (a, e, ground arith, ground arith)

ok_route : (l : Library) (c : Config) → IsValid l c → check_route l c ≡ ok tt
unfolding check_route
ok_route l c v = ground arith

validate-IsValid : (l : Library) (c : Config) (u : Unit {0}) → validate l c ≡ ok u → IsValid l c
unfolding validate
validate-IsValid l c u h = by_parts (check_route l c) refl (resolved_clients l c) refl
  where
    by_parts :
        (r : Result ConfigError (Unit {0}))
        → check_route l c ≡ r
        → (q : Result ConfigError (List ResolvedClient)) → resolved_clients l c ≡ q
        → IsValid l c
    by_parts (err x) e q f = absurd (ground arith)
    by_parts (ok d) e (err x) f = absurd (ground arith)
    by_parts (ok d) e (ok rs) f = record {
      listens = ground arith;
      certified = (ground arith, ground arith);
      controlled = ground arith;
      routed = check_route-ok l c d e;
      resolves = (rs, f);
    }

IsValid-validate : (l : Library) (c : Config) → IsValid l c → validate l c ≡ ok tt
unfolding validate
IsValid-validate l c v = ground (arith, ok_route l c v)

-- Validate accepts exactly the configurations with a listen address, a certificate and a key, a known
-- congestion controller and clients that resolve, in which an advertised IPv6 default route comes
-- with a usable global IPv6 prefix of the server.
pub validate_iff : (l : Library) (c : Config) → (validate l c ≡ ok tt) ↔ IsValid l c
validate_iff l c = (validate-IsValid l c tt, IsValid-validate l c)

-- The controller of a loaded configuration.
abbrev pub IsChosen : String → Type 0
IsChosen name = ((name == "") ≡ false) × (known_controller name ≡ true)

with_default-IsChosen :
    (l : Library) (c : Config)
    → IsValid l (with_default c)
    → IsChosen (with_default c).quic.congestion_controller
unfolding with_default
with_default-IsChosen l c v = (
  elim (Bool-cases (c.quic.congestion_controller == "")) [
    | inl e ↦ rw (e, with_default)
    | inr e ↦ rw (e, with_default) e
  ],
  v.controlled,
)

-- The configuration is the first and only document of the file.
pub record IsDocument (r : Reader) (path : String) (d : Config) : Type 0 where
  pub text : String
  pub readable : r.read_file path ≡ some text
  pub decodable : r.decode text ≡ some d
  pub alone : r.decode_next text ≡ end_of_file

module _ (l : Library) (r : Reader) (path : String) (c : Config) where
  abbrev Loaded : Type 0
  Loaded =
      IsValid l c
      × IsChosen c.quic.congestion_controller
      × ((d : Config) × IsDocument r path d × (c ≡ with_default d))

  loaded_document :
      (d : Config)
      → IsDocument r path d
      → (validate l (with_default d) >>= λ done. ok (with_default d)) ≡ ok c
      → Loaded
  loaded_document d doc h =
      let (u, e, h1) = >>=-eq-ok (validate l (with_default d)) _ h in
      let valid = validate-IsValid l (with_default d) u e in
      let same : with_default d ≡ c = ok-injective (with_default d) c h1 in
      (
        subst (IsValid l) same valid,
        subst (λ x. IsChosen x.quic.congestion_controller) same (with_default-IsChosen l d valid),
        (d, doc, sym same),
      )

  -- A configuration that Load returns is valid, names one of the controllers explicitly, and is the
  -- only document of its file, changed in nothing but an empty controller, which becomes CUBIC.
  pub load-IsValid :
      load l r path ≡ ok c
      → IsValid l c
        × IsChosen c.quic.congestion_controller
        × ((d : Config) × IsDocument r path d × (c ≡ with_default d))
  unfolding load
  load-IsValid h = elim (Option-cases (r.read_file path)) [
    | inl e ↦ absurd (ground arith)
    | inr (b, e) ↦ elim (Option-cases (r.decode b)) [
      | inl f ↦ absurd (ground arith)
      | inr (d, f) ↦ by_end b d e f (r.decode_next b) refl
    ]
  ]
    where
      by_end :
          (b : String) (d : Config)
          → r.read_file path ≡ some b
          → r.decode b ≡ some d
          → (n : NextDocument) → r.decode_next b ≡ n
          → Loaded
      by_end b d e f another g = absurd (ground arith)
      by_end b d e f broken g = absurd (ground arith)
      by_end b d e f end_of_file g =
          loaded_document d (record { text = b; readable = e; decodable = f; alone = g })
            (ground arith)

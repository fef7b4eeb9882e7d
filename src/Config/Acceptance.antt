-- ===== src/Config/Acceptance.antt =====
-- internal/connectip/config/config.go, Validate and Load, against a description of what they accept that
-- uses none of their own tests.
use jiejie_masque_unified.Base.{
  ◌≡◌, ◌≢◌, ap, sym, subst, ◌∙◌, ◌⊎◌, inl, inr, ◌↔◌, ◌==◌, nat_eq, string_eq, true, false, List,
  String, arith,
}
use jiejie_masque_unified.Net.{addr_eq}
use jiejie_masque_unified.Config.{
  Config, ResolvedClient, Library, TunnelAddresses, ok, server_addresses, resolved_clients,
}
use jiejie_masque_unified.Config.Load.{known_controller, validate, Reader, with_default, load}
use jiejie_masque_unified.Config.Prefixes.{server_addresses-IsServer}
use jiejie_masque_unified.Config.Validation.{IsValid, validate_iff, IsDocument, load-IsValid}
use jiejie_masque_unified.Config.Disjoint.{unzoned}
use jiejie_masque_unified.Config.Usable.{IsUsable, accepted-IsUsable, IsUsable-usable}

-- The names of congestion controllers.
abbrev pub IsNamed : String → Type 0
IsNamed name = (name ≡ "default") ⊎ (name ≡ "cubic") ⊎ (name ≡ "bbr")

-- A listen address, a certificate and a key are given; the controller is empty or one of the three; an
-- advertised IPv6 default route comes with a usable prefix of the server; and the clients resolve.
pub record IsAccepted (l : Library) (c : Config) : Type 0 where
  pub listens : c.listen ≢ ""
  pub certified : c.tls.cert ≢ ""
  pub keyed : c.tls.key ≢ ""
  pub controlled : (c.quic.congestion_controller ≡ "") ⊎ IsNamed c.quic.congestion_controller
  pub routed :
      (c.server.advertise_ipv6_default_route ≡ false)
      ⊎ ((a : TunnelAddresses) × (server_addresses l c ≡ ok a) × IsUsable a.ipv6)
  pub resolves : (rs : List ResolvedClient) × (resolved_clients l c ≡ ok rs)

known_controller_iff :
    (name : String) → (known_controller name ≡ true) ↔ ((name ≡ "") ⊎ IsNamed name)
unfolding known_controller
known_controller_iff name = (
  λ h. ground (
    arith,
    string_eq.equals_iff name "",
    string_eq.equals_iff name "default",
    string_eq.equals_iff name "cubic",
    string_eq.equals_iff name "bbr",
  ),
  λ h. ground (
    arith,
    string_eq.equals_iff name "",
    string_eq.equals_iff name "default",
    string_eq.equals_iff name "cubic",
    string_eq.equals_iff name "bbr",
  ),
)

is_empty_iff : (s : String) → ((s == "") ≡ false) ↔ (s ≢ "")
is_empty_iff s =
    (λ h. ground (arith, string_eq.equals_iff s ""), λ h. ground (arith, string_eq.equals_iff s ""))

module _ (l : Library) (c : Config) where
  IsValid-IsAccepted : IsValid l c → IsAccepted l c
  IsValid-IsAccepted v = record {
    listens = (is_empty_iff c.listen).0 v.listens;
    certified = (is_empty_iff c.tls.cert).0 v.certified.0;
    keyed = (is_empty_iff c.tls.key).0 v.certified.1;
    controlled = (known_controller_iff c.quic.congestion_controller).0 v.controlled;
    routed = elim v.routed [
      | inl quiet ↦ inl quiet
      | inr (a, e, valid, usable) ↦ inr (
        a,
        e,
        accepted-IsUsable a.ipv6
            (unzoned a.ipv6 (server_addresses-IsServer l c a e).optional6 valid) usable,
      )
    ];
    resolves = v.resolves;
  }

  IsAccepted-IsValid : IsAccepted l c → IsValid l c
  IsAccepted-IsValid v = record {
    listens = (is_empty_iff c.listen).1 v.listens;
    certified = ((is_empty_iff c.tls.cert).1 v.certified, (is_empty_iff c.tls.key).1 v.keyed);
    controlled = (known_controller_iff c.quic.congestion_controller).1 v.controlled;
    routed = elim v.routed [
      | inl quiet ↦ inl quiet
      | inr (a, e, usable) ↦ inr (a, e, usable.there, IsUsable-usable a.ipv6 usable)
    ];
    resolves = v.resolves;
  }

  pub validate-IsAccepted : (validate l c ≡ ok tt) ↔ IsAccepted l c
  validate-IsAccepted = (
    λ h. IsValid-IsAccepted ((validate_iff l c).0 h),
    λ h. (validate_iff l c).1 (IsAccepted-IsValid h),
  )

-- What Load makes of the document `d`: nothing but the controller may differ, and that only where the
-- document has none, and then it is CUBIC.
pub record IsDefaulted (d c : Config) : Type 0 where
  pub listen : c.listen ≡ d.listen
  pub tls : c.tls ≡ d.tls
  pub clients : c.clients ≡ d.clients
  pub server : c.server ≡ d.server
  pub controller :
      ((d.quic.congestion_controller ≡ "") × (c.quic.congestion_controller ≡ "cubic"))
      ⊎ ((d.quic.congestion_controller ≢ "")
          × (c.quic.congestion_controller ≡ d.quic.congestion_controller))

with_default-IsDefaulted : (d : Config) → IsDefaulted d (with_default d)
unfolding with_default
with_default-IsDefaulted d = record {
  listen = ground arith;
  tls = ground arith;
  clients = ground arith;
  server = ground arith;
  controller = ground (arith, string_eq.equals_iff d.quic.congestion_controller "");
}

defaulted_name :
    (d : Config)
    → (d.quic.congestion_controller ≡ "")
    → with_default d ≡ record d { quic = record { congestion_controller = "cubic" } }
unfolding with_default
defaulted_name d e = ground (arith, string_eq.equals_iff d.quic.congestion_controller "")

kept_name : (d : Config) → (d.quic.congestion_controller ≢ "") → with_default d ≡ d
unfolding with_default
kept_name d e = ground (arith, string_eq.equals_iff d.quic.congestion_controller "")

-- Two configurations with the same fields.
same_config :
    (d c : Config)
    → c.listen ≡ d.listen
    → c.tls ≡ d.tls
    → c.clients ≡ d.clients
    → c.server ≡ d.server
    → c.quic.congestion_controller ≡ d.quic.congestion_controller
    → d ≡ c
same_config d c e f g h k = cc

IsDefaulted-eq : (d c : Config) → IsDefaulted d c → with_default d ≡ c
IsDefaulted-eq d c h = elim h.controller [
  | inl (none, cubic) ↦
      defaulted_name d none
      ∙ same_config (record d { quic = record { congestion_controller = "cubic" } }) c h.listen
          h.tls h.clients h.server cubic
  | inr (some', same) ↦ kept_name d some' ∙ same_config d c h.listen h.tls h.clients h.server same
]

-- The file holds one document, and the configuration is this one with its controller made explicit,
-- and is accepted.
pub record IsLoaded (l : Library) (r : Reader) (path : String) (c : Config) : Type 0 where
  pub document : Config
  pub read : IsDocument r path document
  pub defaulted : IsDefaulted document c
  pub accepted : IsAccepted l c

IsLoaded-IsNamed :
    (l : Library) (r : Reader) (path : String) (c : Config)
    → IsLoaded l r path c
    → IsNamed c.quic.congestion_controller
IsLoaded-IsNamed l r path c h = elim h.defaulted.controller [
  | inl (none, cubic) ↦ inr (inl cubic)
  | inr (some', same) ↦ elim h.accepted.controlled [
    | inl empty ↦ absurd (some' (sym same ∙ empty))
    | inr named ↦ named
  ]
]

module _ (l : Library) (r : Reader) (path : String) (c : Config) where
  load_complete : IsLoaded l r path c → load l r path ≡ ok c
  unfolding load
  load_complete h =
      let valid =
        subst (λ e. validate l e ≡ ok tt) (sym (IsDefaulted-eq h.document c h.defaulted))
          ((validate-IsAccepted l c).1 h.accepted) in
      rw (h.read.readable, h.read.decodable, h.read.alone, valid, load)
        (ap ok (IsDefaulted-eq h.document c h.defaulted))

  load_sound : load l r path ≡ ok c → IsLoaded l r path c
  load_sound h =
      let (valid, chosen, found) = load-IsValid l r path c h in
      let (d, doc, same) = found in
      record {
        document = d;
        read = doc;
        defaulted = subst (IsDefaulted d) (sym same) (with_default-IsDefaulted d);
        accepted = IsValid-IsAccepted l c valid;
      }

  -- Load returns exactly the accepted configurations that come from the only document of a readable
  -- file: listen address, TLS, clients and server are the document's, an empty controller has become
  -- "cubic" and any other is kept. So a loaded configuration names "default", "cubic" or "bbr".
  pub load-IsLoaded :
      ((load l r path ≡ ok c) ↔ IsLoaded l r path c)
      × (load l r path ≡ ok c → IsNamed c.quic.congestion_controller)
  load-IsLoaded = ((load_sound, load_complete), λ h. IsLoaded-IsNamed l r path c (load_sound h))

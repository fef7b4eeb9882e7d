-- ===== src/Handler.antt =====
-- cmd/jiejie-masque/main.go: the check of a connection's certificate and handleRequest. What
-- net/url, uritemplate and connect-ip-go answer are inputs.
pub mod Admission
pub mod Authentication
pub mod Lifetime
pub mod Tests
use Prim.Native.String.{◌++◌ as concat}
use jiejie_masque_unified.Base.{
  ℕ, ◌==◌, nat_eq, string_eq, not, ◌&&◌, ◌||◌, Bool, true, false, Option, none, some, List, [], ◌∷◌,
  String, length, Go, ret, panics, ◌>>=◌, if◌then◌else◌,
}
use jiejie_masque_unified.Base.Fallible.{Result, ok, err}
use jiejie_masque_unified.Net.{Prefix}
use jiejie_masque_unified.Dict.{Dict, get, put}
use jiejie_masque_unified.Auth.{Crypto, Certificate, public_key_bytes}
use jiejie_masque_unified.Session.{Session, new_with_addresses}
use jiejie_masque_unified.Manager.{World, ReplaceError, update, replace, close}
use jiejie_masque_unified.Config.{ResolvedClient, TunnelAddresses, prefixes, addresses}
use jiejie_masque_unified.Datapath.{IpRoute, connect_ip_routes, protocol_for_parse}

-- The loop that fills byKey.
unfoldable pub by_key :
    List ResolvedClient → Dict String ResolvedClient → Dict String ResolvedClient
by_key [] table = table
by_key (cl ∷ clients) table = by_key clients (put cl.public_key cl table)

-- The client of the one certificate of a peer.
unfoldable pub client_of :
    Crypto → Dict String ResolvedClient → List Certificate → Option ResolvedClient
client_of c table [] = none
client_of c table (cert ∷ []) = get (public_key_bytes c cert) table
client_of c table (cert ∷ other ∷ rest) = none

-- VerifyConnection: whether it returns no error.
unfoldable pub verify_connection : Crypto → Dict String ResolvedClient → List Certificate → Bool
verify_connection c table certs = elim (client_of c table certs) [ none ↦ false | some cl ↦ true ]

-- A parsed URL: whether it has user information, its host, and the host without the port.
pub record Url : Type 0 where
  pub user : Bool
  pub host : String
  pub hostname : String

-- `tls` is none where the request has no TLS state.
pub record Request : Type 0 where
  pub proto : String
  pub tls : Option (List Certificate)
  pub host : String

-- The environment: neturl.Parse and uritemplate.New on strings, ParseRequest on the protocol and the
-- template, and whether Proxy, AssignAddresses and AdvertiseRoute work.
pub record Services : Type 0 where
  pub parse_url : String → Option Url
  pub new_template : String → Option String
  pub parse_request : String → String → Bool
  pub proxy : Bool
  pub assign_addresses : List Prefix → Bool
  pub advertise_route : List IpRoute → Bool

unfoldable pub malformed : String → Url → Bool
malformed host u = u.user || not (u.host == host) || u.hostname == ""

unfoldable pub request_template : Services → String → Option String
request_template e host = if host == "" then none else elim (e.parse_url (concat "https://" host)) [
  | none ↦ none
  | some u ↦
      if malformed host u
      then none
      else e.new_template (concat (concat "https://" host) "/connect-ip")
]

-- What the client gets: an HTTP error, the end of a connection that could not be set up, or a session
-- and the sessions that it replaced.
pub data Answer : Type 0 where
  http_error : ℕ → Answer
  tunnel_failed : Answer
  connection_closed : Answer
  established : List ℕ → Answer

-- The tests before Proxy: a status, or the client.
unfoldable pub authorize :
    Crypto → Services → Dict String ResolvedClient → Request → Result ℕ ResolvedClient
authorize c e table r = elim (protocol_for_parse r.proto) [
  | none ↦ err 501
  | some protocol ↦ elim r.tls [
    | none ↦ err 401
    | some certs ↦ elim (client_of c table certs) [
      | none ↦ err 401
      | some cl ↦ elim (request_template e r.host) [
        | none ↦ err 400
        | some template ↦ if e.parse_request protocol template then ok cl else err 400
      ]
    ]
  ]
]

abbrev pub client_addresses : ResolvedClient → TunnelAddresses
client_addresses cl = record { ipv4 = cl.tunnel_ipv4; ipv6 = cl.tunnel_ipv6 }

-- What follows Replace: a session that is refused is closed.
unfoldable pub settle : ℕ → Result ReplaceError (List ℕ) × World → Answer × World
settle s (err e, w) = (http_error 409, close s w)
settle s (ok old, w) = (established old, w)

-- Replace of a new session, with the pointer `s`.
unfoldable pub register_session : ℕ → World → Session → Answer × World
register_session s w session =
    settle s (replace (some s) (record w { heap = update w.heap s session }))

-- From Proxy to Replace.
unfoldable pub establish :
    Services → TunnelAddresses → Bool → ResolvedClient → ℕ → World → Go (Answer × World)
establish e server advertise cl s w =
    if not e.proxy
    then ret (tunnel_failed, w)
    else if not (e.assign_addresses (prefixes (client_addresses cl)))
    then ret (connection_closed, w)
    else if not (e.advertise_route (connect_ip_routes (client_addresses cl) server advertise))
    then ret (connection_closed, w)
    else (do
      session ← new_with_addresses (addresses (client_addresses cl)) cl.public_key true false
      ret (register_session s w session))

-- handleRequest up to the point where it waits for the session to end; it then closes the session.
unfoldable pub handle_request :
    Crypto
    → Services
    → TunnelAddresses
    → Bool
    → Dict String ResolvedClient
    → Request
    → ℕ
    → World
    → Go (Answer × World)
handle_request c e server advertise table r s w = elim (authorize c e table r) [
  | err status ↦ ret (http_error status, w)
  | ok cl ↦ establish e server advertise cl s w
]

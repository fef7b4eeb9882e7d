-- ===== src/Serve.antt =====
-- cmd/jiejie-masque/main.go, serveConnectIPArgs from the path of the configuration on, and
-- check_config.go. The kernel is that of Tunnel.antt; sockets, QUIC, certificates, and how the server
-- comes to its end are inputs.
pub mod Cleanup
pub mod Startup
pub mod Tests
use jiejie_masque_unified.Base.{
  ℕ, not, ◌==◌, nat_eq, string_eq, ◌||◌, Bool, true, false, Option, none, some, List, [], ◌∷◌,
  String, length, if◌then◌else◌,
}
use jiejie_masque_unified.Base.Fallible.{need}
use jiejie_masque_unified.Auth.{Bytes, PublicKey, ecdsa, other_key}
use jiejie_masque_unified.Config.{
  Config, ConfigError, ResolvedClient, TunnelAddresses, Library, prefixes, server_addresses,
  resolved_clients, Result, ok, err, ◌>>=◌,
}
use jiejie_masque_unified.Config.Load.{Reader, load}
use jiejie_masque_unified.Manager.{Manager, World, new_manager}
use jiejie_masque_unified.Manager.Shutdown.{shut_down}
use jiejie_masque_unified.Tunnel.{
  Event, close_fd, Kernel, TunError, Device, ignore, open_tun, configure_addresses,
}

-- An error of ServeListener: the three that tell of a closed server, or another.
pub data ServeFailure : Type 0 where
  http_server_closed quic_server_closed net_closed other_failure : ServeFailure

unfoldable pub is_server_closed : ServeFailure → Bool
is_server_closed other_failure = false
is_server_closed _ = true

-- What the `select` gets; none is a nil error.
pub data Stop : Type 0 where
  signalled : Stop
  serve_ended : Option ServeFailure → Stop
  fatal : Stop

pub data ServeError : Type 0 where
  config_failed : ConfigError → ServeError
  key_pair_failed : ServeError
  tun_failed configure_failed : TunError → ServeError
  listen_failed quic_failed : ServeError
  server_failed : ServeFailure → ServeError
  infrastructure_failed : ServeError

-- The environment. LoadX509KeyPair gives the chain of certificates; `requests` is what the requests
-- have made of the registry when the server stops, and `shuts_down` is whether Shutdown ends in time.
pub record Network : Type 0 where
  pub load_key_pair : String → String → Option (List Bytes)
  pub parse_certificate : Bytes → Option PublicKey
  pub read_file : String → Option Bytes
  pub has_pem_block : Bytes → Bool
  pub listen_packet : String → Bool
  pub listen_quic : Bool
  pub requests : Manager → World
  pub stop : Stop
  pub shuts_down : Bool

-- What is done to the sockets and the server.
pub data NetEvent : Type 0 where
  packet_opened packet_closed : NetEvent
  transport_made transport_closed : NetEvent
  listener_opened listener_closed : NetEvent
  server_shut_down server_closed : NetEvent

-- What a run comes to: the history of the kernel and the log, the last first in both, and the sessions
-- when it ends, if the server has run.
pub record Run : Type 0 where
  pub result : Result ServeError (Unit {0})
  pub history : List Event
  pub log : List NetEvent
  pub world : Option World

-- `runErr` after the `select`.
unfoldable pub run_error : Stop → Result ServeError (Unit {0})
run_error signalled = ok tt
run_error (serve_ended none) = ok tt
run_error (serve_ended (some failure)) =
    if is_server_closed failure then ok tt else err (server_failed failure)
run_error fatal = err infrastructure_failed

abbrev pub failed : ServeError → List Event → List NetEvent → Run
failed e t log = record { result = err e; history = t; log = log; world = none }

-- What is known before the device is opened.
pub record Plan : Type 0 where
  pub config : Config
  pub server : TunnelAddresses
  pub clients : List ResolvedClient

unfoldable pub plan : Library → Reader → String → Result ConfigError Plan
plan l r path = do
  c ← load l r path
  server ← server_addresses l c
  clients ← resolved_clients l c
  ok (record { config = c; server = server; clients = clients })

unfoldable pub shut_server : Network → List NetEvent → List NetEvent
shut_server n log =
    if n.shuts_down then server_shut_down ∷ log else server_closed ∷ server_shut_down ∷ log

-- From the QUIC listener on. The transport is a value on the socket; its Close and the listener's are
-- deferred once the listener is there, the transport's last, which so comes first.
unfoldable pub serve_quic : Network → Plan → List Event → List NetEvent → Run
serve_quic n p t log =
    if not n.listen_quic then failed quic_failed t (transport_made ∷ log) else record {
      result = run_error n.stop;
      history = t;
      log =
          listener_closed
          ∷ transport_closed
          ∷ shut_server n (listener_opened ∷ transport_made ∷ log);
      world = some (shut_down (n.requests (new_manager (some (length p.clients)))));
    }

abbrev pub close_packet : Run → Run
close_packet run = record run { log = packet_closed ∷ run.log }

unfoldable pub serve_packets : Network → Plan → List Event → Run
serve_packets n p t =
    if not (n.listen_packet p.config.listen)
    then failed listen_failed t []
    else close_packet (serve_quic n p t (packet_opened ∷ []))

module _ (k : Kernel) (n : Network) (p : Plan) where
  abbrev pub after_configure : Result TunError (Unit {0}) × List Event → Run
  after_configure (err e, t) = failed (configure_failed e) t []
  after_configure (ok u, t) = serve_packets n p t

  -- The deferred tun.Close.
  abbrev pub close_device : Device → Run → Run
  close_device d run = record run { history = ignore k (close_fd d.file) run.history }

  abbrev pub after_open : Result TunError Device × List Event → Run
  after_open (err e, t) = failed (tun_failed e) t []
  after_open (ok d, t) =
      close_device d (after_configure (configure_addresses k d (prefixes p.server) t))

  unfoldable pub serve_plan : List Event → Run
  serve_plan t = elim (n.load_key_pair p.config.tls.cert p.config.tls.key) [
    | none ↦ failed key_pair_failed t []
    | some chain ↦ after_open (open_tun k "masque0" 1280 t)
  ]

module _ (l : Library) (r : Reader) (k : Kernel) (n : Network) where
  abbrev pub serve_planned : Result ConfigError Plan → List Event → Run
  serve_planned (err e) t = failed (config_failed e) t []
  serve_planned (ok p) t = serve_plan k n p t

  unfoldable pub serve : String → List Event → Run
  serve path t = serve_planned (plan l r path) t

-- check_config.go
pub data CheckConfigError : Type 0 where
  bad_config : ConfigError → CheckConfigError
  bad_key_pair empty_chain bad_certificate not_p256 unreadable_certificate not_pem :
      CheckConfigError

abbrev pub is_p256 : PublicKey → Bool
is_p256 (ecdsa p256 x y) = p256
is_p256 other_key = false

abbrev pub as_check : {A : Type 0} → Result ConfigError A → Result CheckConfigError A
as_check (ok x) = ok x
as_check (err e) = err (bad_config e)

abbrev pub leaf : List Bytes → Option Bytes
leaf [] = none
leaf (der ∷ rest) = some der

abbrev pub require_p256 : PublicKey → Result CheckConfigError (Unit {0})
require_p256 public_key = if not (is_p256 public_key) then err not_p256 else ok tt

unfoldable pub check_config :
    Library → Reader → Network → String → Result CheckConfigError (Unit {0})
check_config l r n path = do
  c ← as_check (load l r path)
  chain ← need (n.load_key_pair c.tls.cert c.tls.key) bad_key_pair
  der ← need (leaf chain) empty_chain
  public_key ← need (n.parse_certificate der) bad_certificate
  p256 ← require_p256 public_key
  cert_pem ← need (n.read_file c.tls.cert) unreadable_certificate
  if not (n.has_pem_block cert_pem) then err not_pem else ok tt

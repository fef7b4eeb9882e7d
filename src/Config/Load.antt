-- ===== src/Config/Load.antt =====
-- internal/connectip/config/config.go: Validate and Load.
use jiejie_masque_unified.Base.{
  ◌==◌, string_eq, not, ◌||◌, Bool, Option, none, some, String, if◌then◌else◌,
}
use jiejie_masque_unified.Net.{prefix_is_valid}
use jiejie_masque_unified.Config.{
  Config, ConfigError, unreadable, undecodable, several_documents, fields_required, bad_controller,
  route_without_ipv6, route_not_global, Library, Result, ok, err, ◌>>=◌, server_addresses,
  is_usable_global_ipv6_tunnel_prefix, resolved_clients,
}

-- The `switch` of Validate.
unfoldable pub known_controller : String → Bool
known_controller name = name == "" || name == "default" || name == "cubic" || name == "bbr"

unfoldable pub check_route : Library → Config → Result ConfigError (Unit {0})
check_route l c =
    if c.server.advertise_ipv6_default_route
    then (do
      addresses ← server_addresses l c
      if not (prefix_is_valid addresses.ipv6)
          then err route_without_ipv6
          else if not (is_usable_global_ipv6_tunnel_prefix addresses.ipv6)
          then err route_not_global
          else ok tt)
    else ok tt

unfoldable pub validate : Library → Config → Result ConfigError (Unit {0})
validate l c =
    if c.listen == "" || c.tls.cert == "" || c.tls.key == ""
    then err fields_required
    else if not (known_controller c.quic.congestion_controller)
    then err bad_controller
    else (do done ← check_route l c; clients ← resolved_clients l c; ok done)

-- What the decoder gives after the first document.
pub data NextDocument : Type 0 where
  end_of_file : NextDocument
  another : NextDocument
  broken : NextDocument

-- A file, and a decoder that refuses unknown fields.
pub record Reader : Type 0 where
  pub read_file : String → Option String
  pub decode : String → Option Config
  pub decode_next : String → NextDocument

unfoldable pub with_default : Config → Config
with_default c =
    if c.quic.congestion_controller == ""
    then record c { quic = record { congestion_controller = "cubic" } }
    else c

unfoldable pub load : Library → Reader → String → Result ConfigError Config
load l r path = elim (r.read_file path) [
  | none ↦ err unreadable
  | some b ↦ elim (r.decode b) [
    | none ↦ err undecodable
    | some c ↦ elim (r.decode_next b) [
      | another ↦ err several_documents
      | broken ↦ err undecodable
      | end_of_file ↦ do done ← validate l (with_default c); ok (with_default c)
    ]
  ]
]

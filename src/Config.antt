-- ===== src/Config.antt =====
-- internal/connectip/config/config.go. Reading the file, the YAML decoder and netip.ParsePrefix are
-- parameters; what follows them is modelled.
pub mod Prefixes
pub mod Resolution
pub mod Distinctness
pub mod Load
pub mod Validation
pub mod Disjoint
pub mod Usable
pub mod Acceptance
pub mod Tests
use jiejie_masque_unified.Base.{
  ℕ, ◌+◌, ◌*◌, ◌^◌, ◌==◌, nat_eq, string_eq, ltb, not, ◌&&◌, ◌||◌, Bool, true, false, Option, none,
  some, List, [], ◌∷◌, ◌++◌, map, String, length, if◌then◌else◌,
}
pub use jiejie_masque_unified.Base.Fallible.{Result, ok, err, ◌>>=◌}
use jiejie_masque_unified.Net.{
  Addr, addr_eq, zero_addr, ip6, is_valid, is4, is6, is4in6, zone, is_loopback, is_multicast,
  is_link_local_unicast, is_private, is_unspecified, is_global_unicast, Prefix, zero_prefix,
  prefix_of, prefix_is_valid, bits, contains,
}
use jiejie_masque_unified.Dict.{Dict, get, put}
use jiejie_masque_unified.Auth.{Crypto, KeyError, validate_public_key_string}
use jiejie_masque_unified.Session.{among}

pub record Client : Type 0 where
  pub public_key : String
  pub tunnel_ipv4 : String
  pub tunnel_ipv6 : String

pub record ResolvedClient : Type 0 where
  pub public_key : String
  pub tunnel_ipv4 : Prefix
  pub tunnel_ipv6 : Prefix

pub record Server : Type 0 where
  pub tunnel_ipv4 : String
  pub tunnel_ipv6 : String
  pub advertise_ipv6_default_route : Bool

pub record Tls : Type 0 where
  pub cert : String
  pub key : String

pub record Quic : Type 0 where
  pub congestion_controller : String

pub record Config : Type 0 where
  pub listen : String
  pub tls : Tls
  pub quic : Quic
  pub clients : List Client
  pub server : Server

pub record TunnelAddresses : Type 0 where
  pub ipv4 : Prefix
  pub ipv6 : Prefix

unfoldable pub prefixes : TunnelAddresses → List Prefix
prefixes a =
    let v6 = if prefix_is_valid a.ipv6 then a.ipv6 ∷ [] else [] in
    if prefix_is_valid a.ipv4 then a.ipv4 ∷ v6 else v6

unfoldable pub addresses : TunnelAddresses → List Addr
unfolding prefixes
addresses a = map (λ p. p.addr) (prefixes a)

-- The errors, one for each message.
pub data ConfigError : Type 0 where
  unreadable undecodable several_documents : ConfigError
  fields_required bad_controller : ConfigError
  invalid reserved : String → ConfigError
  no_server_address route_without_ipv6 route_not_global : ConfigError
  no_clients not_32 not_128 no_client_address ipv4_outside ipv6_outside : ConfigError
  duplicate_address : Addr → ConfigError
  no_public_key : ConfigError
  bad_public_key : KeyError → ConfigError
  key_reused : ConfigError

-- What the package calls: netip.ParsePrefix, and the cryptography of auth.
pub record Library : Type 0 where
  pub parse_prefix : String → Option Prefix
  pub crypto : Crypto

-- The families are 4 and 6.
unfoldable pub wrong_family : ℕ → Prefix → Bool
wrong_family family p =
    not (prefix_is_valid p)
    || (family == 4 && (not (is4 p.addr) || ltb 32 (bits p)))
    || (family == 6 && (not (is6 p.addr) || ltb 128 (bits p)))

unfoldable pub is_reserved : Addr → Bool
is_reserved a =
    is_unspecified a || is_multicast a || is_loopback a || is4in6 a || not (zone a == "")

unfoldable pub check_prefix : Prefix → ℕ → String → Result ConfigError Prefix
check_prefix p family field =
    if wrong_family family p
    then err (invalid field)
    else if is_reserved p.addr
    then err (reserved field)
    else ok p

unfoldable pub optional_prefix : Library → String → ℕ → String → Result ConfigError Prefix
optional_prefix l value family field =
    if value == "" then ok zero_prefix else elim (l.parse_prefix value) [
      | none ↦ err (invalid field)
      | some p ↦ check_prefix p family field
    ]

unfoldable pub server_addresses : Library → Config → Result ConfigError TunnelAddresses
server_addresses l c = do
  v4 ← optional_prefix l c.server.tunnel_ipv4 4 "server.tunnel_ipv4"
  v6 ← optional_prefix l c.server.tunnel_ipv6 6 "server.tunnel_ipv6"
  if not (prefix_is_valid v4) && not (prefix_is_valid v6)
      then err no_server_address
      else ok (record { ipv4 = v4; ipv6 = v6 })

-- 100::/64, 2001:2::/48, 2001:db8::/32 and 3fff::/20.
abbrev pub special_prefixes : List Prefix
special_prefixes =
    prefix_of (ip6 (0x100 * 2 ^ 112) "") 64
    ∷ prefix_of (ip6 (0x20010002 * 2 ^ 96) "") 48
    ∷ prefix_of (ip6 (0x20010db8 * 2 ^ 96) "") 32
    ∷ prefix_of (ip6 (0x3fff * 2 ^ 112) "") 20
    ∷ []

unfoldable pub overlaps_none : Prefix → List Prefix → Bool
overlaps_none p [] = true
overlaps_none p (r ∷ rest) =
    if contains p r.addr || contains r p.addr then false else overlaps_none p rest

unfoldable pub is_usable_global_ipv6_tunnel_prefix : Prefix → Bool
is_usable_global_ipv6_tunnel_prefix p =
    if not (prefix_is_valid p) || not (is6 p.addr) || is4in6 p.addr
    then false
    else if not (is_global_unicast p.addr)
        || is_private p.addr
        || is_link_local_unicast p.addr
        || is_multicast p.addr
        || is_loopback p.addr
        || is_unspecified p.addr
    then false
    else overlaps_none p special_prefixes

unfoldable pub addr_or_zero : Prefix → Addr
addr_or_zero p = if prefix_is_valid p then p.addr else zero_addr

-- The client's prefix of a family is not in the server's network, or is the server's address.
unfoldable pub outside : Prefix → Prefix → Bool
outside server p =
    prefix_is_valid p
    && (not (prefix_is_valid server) || not (contains server p.addr) || p.addr == server.addr)

-- `seenIP` as the set of its keys, and `seenKeyIP`.
pub record Seen : Type 0 where
  pub ips : List Addr
  pub keys : Dict String Addr

-- The loop over the two addresses of a client.
unfoldable pub mark_seen : List Addr → List Addr → Result ConfigError (List Addr)
mark_seen [] seen = ok seen
mark_seen (ip ∷ ips) seen = do
  seen' ←
      (if not (is_valid ip)
        then ok seen
        else if among seen ip
        then err (duplicate_address ip)
        else ok (ip ∷ seen))
  mark_seen ips seen'

-- A prefix of a client is a single address.
unfoldable pub host_only : Prefix → ℕ → ConfigError → Result ConfigError Prefix
host_only p n e = if prefix_is_valid p && not (bits p == n) then err e else ok p

-- The tests of a client's two prefixes together.
unfoldable pub place_client : TunnelAddresses → Prefix → Prefix → Result ConfigError TunnelAddresses
place_client server v4 v6 =
    if not (prefix_is_valid v4) && not (prefix_is_valid v6)
    then err no_client_address
    else if outside server.ipv4 v4
    then err ipv4_outside
    else if outside server.ipv6 v6
    then err ipv6_outside
    else ok (record { ipv4 = v4; ipv6 = v6 })

unfoldable pub client_prefixes :
    Library → TunnelAddresses → Client → Result ConfigError TunnelAddresses
client_prefixes l server cl = do
  p4 ← optional_prefix l cl.tunnel_ipv4 4 "client tunnel_ipv4"
  v4 ← host_only p4 32 not_32
  p6 ← optional_prefix l cl.tunnel_ipv6 6 "client tunnel_ipv6"
  v6 ← host_only p6 128 not_128
  place_client server v4 v6

unfoldable pub primary_address : TunnelAddresses → Addr
primary_address a = let v4 = addr_or_zero a.ipv4 in if not (is_valid v4) then a.ipv6.addr else v4

-- The tests of a client's key.
unfoldable pub claim_key :
    Library → String → Addr → Dict String Addr → Result ConfigError (Dict String Addr)
claim_key l key primary keys =
    if key == "" then err no_public_key else elim (validate_public_key_string l.crypto key) [
      | err e ↦ err (bad_public_key e)
      | ok _ ↦ elim (get key keys) [
        | none ↦ ok (put key primary keys)
        | some previous ↦
            if not (previous == primary) then err key_reused else ok (put key primary keys)
      ]
    ]

-- One round of the loop of ResolvedClients.
unfoldable pub resolve_client :
    Library → TunnelAddresses → Client → Seen → Result ConfigError (ResolvedClient × Seen)
resolve_client l server cl seen = do
  a ← client_prefixes l server cl
  ips ← mark_seen (addr_or_zero a.ipv4 ∷ addr_or_zero a.ipv6 ∷ []) seen.ips
  keys ← claim_key l cl.public_key (primary_address a) seen.keys
  ok (
    record { public_key = cl.public_key; tunnel_ipv4 = a.ipv4; tunnel_ipv6 = a.ipv6 },
    record { ips = ips; keys = keys },
  )

unfoldable pub resolve_all :
    Library → TunnelAddresses → List Client → Seen → Result ConfigError (List ResolvedClient)
resolve_all l server [] seen = ok []
resolve_all l server (cl ∷ clients) seen = do
  (r, seen') ← resolve_client l server cl seen
  rest ← resolve_all l server clients seen'
  ok (r ∷ rest)

unfoldable pub resolved_clients : Library → Config → Result ConfigError (List ResolvedClient)
resolved_clients l c = do
  server ← server_addresses l c
  if length c.clients == 0
      then err no_clients
      else resolve_all l server c.clients (record { ips = []; keys = [] })

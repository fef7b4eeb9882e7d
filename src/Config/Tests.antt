-- ===== src/Config/Tests.antt =====
-- A server with two clients, one of them dual-stack, and the theorems at it. The library here knows
-- the prefixes of that configuration and takes a key to be 65 bytes, told apart by the last.
use jiejie_masque_unified.Base.{
  inl, inr, false, ℕ, zero, suc, ◌+◌, ◌*◌, ◌^◌, ◌≡◌, refl, ◌↔◌, ◌==◌, nat_eq, string_eq, true, none,
  some, List, [], ◌∷◌, if◌then◌else◌,
}
use jiejie_masque_unified.Net.{
  zero_addr, ip4, ip6, prefix_of, contains, is_unspecified, is_multicast, is_loopback,
  is_global_unicast, is_link_local_unicast, is_private,
}
use jiejie_masque_unified.Dict.{get, put, delete}
use jiejie_masque_unified.Session.{among}
use jiejie_masque_unified.Auth.{Bytes, Crypto, validate_public_key_string}
use jiejie_masque_unified.Config.{
  Client, ResolvedClient, Config, Library, ok, err, prefixes, addresses, wrong_family, is_reserved,
  check_prefix, optional_prefix, server_addresses, overlaps_none,
  is_usable_global_ipv6_tunnel_prefix, addr_or_zero, outside, mark_seen, host_only, place_client,
  client_prefixes, primary_address, claim_key, resolve_client, resolve_all, resolved_clients,
  duplicate_address,
}
use jiejie_masque_unified.Config.Distinctness.{IsResolution, resolved_clients-IsResolution}
use jiejie_masque_unified.Config.Load.{
  known_controller, check_route, validate, end_of_file, Reader, with_default, load,
}
use jiejie_masque_unified.Config.Disjoint.{advertised-Disjoint}
use jiejie_masque_unified.Config.Acceptance.{IsLoaded, IsNamed, load-IsLoaded}
use jiejie_masque_unified.Config.Validation.{
  IsValid, IsChosen, IsDocument, validate_iff, load-IsValid,
}

program : Unit {0}
unfolding contains is_unspecified is_multicast is_loopback is_global_unicast is_link_local_unicast
    is_private get put delete among validate_public_key_string prefixes addresses wrong_family
    is_reserved check_prefix optional_prefix server_addresses overlaps_none
    is_usable_global_ipv6_tunnel_prefix addr_or_zero outside mark_seen host_only place_client
    client_prefixes primary_address claim_key resolve_client resolve_all resolved_clients
    known_controller check_route validate with_default load
program = tt

abbrev pub zeros : ℕ → Bytes
zeros zero = []
zeros (suc n) = 0 ∷ zeros n

abbrev pub crypto : Crypto
crypto = record {
  decode_string = λ s. if s == "bad" then none else some (4 ∷ zeros 64);
  encode_to_string = λ b. "key";
  marshal = λ x y. 4 ∷ x ∷ y ∷ [];
  unmarshal = λ b. some (1, 2);
  sum256 = λ b. b;
  hex_encode = λ b. "";
}

abbrev pub library : Library
library = record {
  parse_prefix = λ s.
      if s == "10.200.0.1/24"
      then some (prefix_of (ip4 0x0ac80001) 24)
      else if s == "10.200.0.2/32"
      then some (prefix_of (ip4 0x0ac80002) 32)
      else if s == "10.200.0.3/32"
      then some (prefix_of (ip4 0x0ac80003) 32)
      else if s == "2602:fb91::1/64"
      then some (prefix_of (ip6 (0x2602fb91 * 2 ^ 96 + 1) "") 64)
      else if s == "2602:fb91::2/128"
      then some (prefix_of (ip6 (0x2602fb91 * 2 ^ 96 + 2) "") 128)
      else none;
  crypto = crypto;
}

abbrev pub config_of : List Client → Config
config_of clients = record {
  listen = ":443";
  tls = record { cert = "server.crt"; key = "server.key" };
  quic = record { congestion_controller = "" };
  clients = clients;
  server = record {
    tunnel_ipv4 = "10.200.0.1/24";
    tunnel_ipv6 = "2602:fb91::1/64";
    advertise_ipv6_default_route = true;
  };
}

abbrev client_a : Client
client_a = record {
  public_key = "a";
  tunnel_ipv4 = "10.200.0.2/32";
  tunnel_ipv6 = "2602:fb91::2/128";
}

abbrev client_b : Client
client_b = record { public_key = "b"; tunnel_ipv4 = "10.200.0.3/32"; tunnel_ipv6 = "" }

abbrev pub config : Config
config = config_of (client_a ∷ client_b ∷ [])

abbrev pub resolved_a : ResolvedClient
resolved_a = record {
  public_key = "a";
  tunnel_ipv4 = prefix_of (ip4 0x0ac80002) 32;
  tunnel_ipv6 = prefix_of (ip6 (0x2602fb91 * 2 ^ 96 + 2) "") 128;
}

abbrev pub resolved_b : ResolvedClient
resolved_b = record {
  public_key = "b";
  tunnel_ipv4 = prefix_of (ip4 0x0ac80003) 32;
  tunnel_ipv6 = record { addr = zero_addr; bits_plus_one = 0 };
}

pub resolves : resolved_clients library config ≡ ok (resolved_a ∷ resolved_b ∷ [])
unfolding program
resolves = refl

shared_address :
    resolved_clients library (config_of (client_b ∷ record client_b { public_key = "c" } ∷ []))
    ≡ err (duplicate_address (ip4 0x0ac80003))
unfolding program
shared_address = refl

resolved_clients-IsResolution_example : IsResolution library config (resolved_a ∷ resolved_b ∷ [])
resolved_clients-IsResolution_example =
    resolved_clients-IsResolution library config (resolved_a ∷ resolved_b ∷ []) resolves

validate_exactly : (validate library config ≡ ok tt) ↔ IsValid library config
validate_exactly = validate_iff library config

abbrev pub reader : Reader
reader = record {
  read_file = λ path. some path;
  decode = λ text. some config;
  decode_next = λ text. end_of_file;
}

pub loads :
    load library reader "server.yaml"
    ≡ ok (record config { quic = record { congestion_controller = "cubic" } })
unfolding program
loads = refl

reads_file :
    IsValid library (with_default config)
    × IsChosen (with_default config).quic.congestion_controller
    × ((d : Config) × IsDocument reader "server.yaml" d × (with_default config ≡ with_default d))
unfolding program
reads_file = load-IsValid library reader "server.yaml" (with_default config) loads

load-IsLoaded_example :
    ((load library reader "server.yaml" ≡ ok (with_default config))
      ↔ IsLoaded library reader "server.yaml" (with_default config))
    × (load library reader "server.yaml" ≡ ok (with_default config)
        → IsNamed (with_default config).quic.congestion_controller)
load-IsLoaded_example = load-IsLoaded library reader "server.yaml" (with_default config)

validates : validate library config ≡ ok tt
unfolding program
validates = refl

served :
    server_addresses library config
    ≡ ok (record {
      ipv4 = prefix_of (ip4 0x0ac80001) 24;
      ipv6 = prefix_of (ip6 (0x2602fb91 * 2 ^ 96 + 1) "") 64;
    })
unfolding program
served = refl

inside :
    contains (prefix_of (ip6 (0x2602fb91 * 2 ^ 96 + 1) "") 64) (ip6 (0x2602fb91 * 2 ^ 96 + 5) "")
    ≡ true
unfolding program
inside = refl

advertised-Disjoint_example :
    contains (prefix_of (ip6 (0x20010db8 * 2 ^ 96) "") 32) (ip6 (0x2602fb91 * 2 ^ 96 + 5) "")
    ≡ false
advertised-Disjoint_example =
    advertised-Disjoint library config
      (record {
        ipv4 = prefix_of (ip4 0x0ac80001) 24;
        ipv6 = prefix_of (ip6 (0x2602fb91 * 2 ^ 96 + 1) "") 64;
      })
      (prefix_of (ip6 (0x20010db8 * 2 ^ 96) "") 32) (ip6 (0x2602fb91 * 2 ^ 96 + 5) "") validates
      refl served (inr (inr (inl refl))) inside

-- ===== src/ClientConfig/Tests.antt =====
-- The server of Config/Tests.antt with the key of Keygen/Tests.antt, and the theorems at them.
use mathlib.Core.Option.{some-injective}
use jiejie_masque_unified.Base.{
  ◌≡◌, refl, ap, sym, subst, nat_eq, string_eq, true, none, some, [], ◌∷◌,
}
use jiejie_masque_unified.Base.Fallible.{ok, err}
use jiejie_masque_unified.Auth.{Bytes, ecdsa, validate_public_key_string}
use jiejie_masque_unified.Net.{
  contains, is_unspecified, is_multicast, is_loopback, is_global_unicast, is_link_local_unicast,
  is_private,
}
use jiejie_masque_unified.Dict.{get, put, delete}
use jiejie_masque_unified.Session.{among}
use jiejie_masque_unified.Config.{
  Library, ResolvedClient, prefixes, addresses, wrong_family, is_reserved, check_prefix,
  optional_prefix, server_addresses, overlaps_none, is_usable_global_ipv6_tunnel_prefix,
  addr_or_zero, outside, mark_seen, host_only, place_client, client_prefixes, primary_address,
  claim_key, resolve_client, resolve_all, resolved_clients,
}
use jiejie_masque_unified.Config.Load.{known_controller, check_route, validate, with_default, load}
use jiejie_masque_unified.Config.Tests.{library, reader, resolved_a}
use jiejie_masque_unified.Keygen.{generate_client_key}
use jiejie_masque_unified.Keygen.Tests.{crypto, private_key, generator}
use jiejie_masque_unified.ClientConfig.{
  KeyFormats, Options, pos, negsuc, Tools, missing_options, check_options, check_curve,
  parse_client_private_key_der, parse_client_private_key, encode_client_auth_public_key,
  client_public_key_from_private_key, canonical_client_private_key,
  encode_server_endpoint_public_key, select_mihomo_client, first_certificate,
  decode_first_certificate, node_of, server_public_key, mihomo_node,
}
use jiejie_masque_unified.ClientConfig.Keys.{IsStandard, generate_client_key-public_key}
use jiejie_masque_unified.ClientConfig.Selection.{IsNodeFor, mihomo_node-IsNodeFor}

program : Unit {0}
unfolding contains is_unspecified is_multicast is_loopback is_global_unicast is_link_local_unicast
    is_private get put delete among validate_public_key_string prefixes addresses wrong_family
    is_reserved check_prefix optional_prefix server_addresses overlaps_none
    is_usable_global_ipv6_tunnel_prefix addr_or_zero outside mark_seen host_only place_client
    client_prefixes primary_address claim_key resolve_client resolve_all resolved_clients
    known_controller check_route validate with_default load check_options check_curve
    parse_client_private_key_der parse_client_private_key encode_client_auth_public_key
    canonical_client_private_key encode_server_endpoint_public_key select_mihomo_client
    first_certificate decode_first_certificate server_public_key mihomo_node
program = tt

abbrev formats : KeyFormats
formats = record {
  parse_ec_private_key = λ b. some private_key;
  parse_pkcs8_private_key = λ b. none;
  marshal_ec_private_key = λ k. some (1 ∷ []);
  marshal_pkix_public_key = λ k. some (3 ∷ 3 ∷ []);
  p256_name = "P-256";
  p256_bit_size = 256;
}

standard : IsStandard crypto generator formats
standard = record {
  decodes_private = λ key der e f.
      subst (λ d. crypto.decode_string (crypto.encode_to_string d) ≡ some d) (some-injective _ _ f)
        refl;
  decodes_public = λ key e. refl;
  parses = λ key der e f. e;
  generates = λ key e. sym (ap (λ k. k.curve) (some-injective _ _ e));
  uncompressed = λ key e. (refl, refl);
  unmarshals = λ key e. ap (λ k. some (k.x, k.y)) (some-injective _ _ e);
}

generate_client_key-public_key_example :
    (client_public_key_from_private_key formats crypto "secret" ≡ ok "a")
    × ((b : Bytes) × (validate_public_key_string crypto "a" ≡ ok b))
unfolding generate_client_key
generate_client_key-public_key_example =
    generate_client_key-public_key crypto generator formats standard "secret" "a" refl

abbrev tools : Tools
tools = record {
  parse_flags = λ defaults args.
      some (record defaults {
        config = "server.yaml";
        server = "example.org";
        private_key = "secret";
      });
  read_file = λ path. some (9 ∷ 2 ∷ []);
  pem_decode = λ b. some (record { block_type = "CERTIFICATE"; bytes = 2 ∷ [] });
  parse_certificate = λ b. some (ecdsa true 3 4);
  prefix_string = λ p. "prefix";
  marshal_yaml = λ n. some (1 ∷ []);
  write_out = λ b. true;
}

abbrev keyed : Library
keyed = record library { crypto = crypto }

abbrev options : Options
options = record {
  config = "server.yaml";
  server = "example.org";
  port = pos 443;
  private_key = "secret";
  name = "MASQUE";
  sni = "";
}

no_port : check_options (record options { port = negsuc 0 }) ≡ err missing_options
unfolding check_options
no_port = refl

made :
    mihomo_node keyed reader formats tools options
    ≡ ok (node_of tools options "secret" "a" resolved_a)
unfolding program
made = refl

mihomo_node-IsNodeFor_example :
    (cl : ResolvedClient) × IsNodeFor keyed reader formats tools options
      (node_of tools options "secret" "a" resolved_a)
      cl
mihomo_node-IsNodeFor_example = mihomo_node-IsNodeFor keyed reader formats tools options _ made

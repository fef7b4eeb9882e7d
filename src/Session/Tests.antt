-- ===== src/Session/Tests.antt =====
-- Sessions built by internal/connectip/session/manager.go, and the theorems at them.
use jiejie_masque_unified.Base.{◌≡◌, refl, ◌⊎◌, ◌↔◌, true, false, List, [], ◌∷◌, In, panics}
use jiejie_masque_unified.Net.{Addr, ip4, ip6}
use jiejie_masque_unified.Session.{
  Session, among, owns_address, place_address, place_addresses, initial, new_with_addresses,
  new_session,
}
use jiejie_masque_unified.Session.Construction.{
  IsAddressSet, built, new_with_addresses_cases, owns_address_iff,
}

program : Unit {0}
unfolding among owns_address place_address place_addresses initial new_with_addresses new_session
program = tt

abbrev both : List Addr
both = ip6 0xfd000200000000000000000000000002 "" ∷ ip4 0x0ac80002 ∷ []

two_of_a_kind : new_with_addresses (ip4 1 ∷ ip4 2 ∷ []) "a" true false ≡ panics
unfolding program
two_of_a_kind = refl

mapped : new_session (ip6 0xffff0a000001 "") "a" true false ≡ panics
unfolding program
mapped = refl

new_with_addresses_cases_example :
    (IsAddressSet both × (new_with_addresses both "a" true false ≡ built "a" true false both))
    ⊎ ((¬ IsAddressSet both) × (new_with_addresses both "a" true false ≡ panics))
new_with_addresses_cases_example = new_with_addresses_cases "a" true false both

abbrev plain : Session
plain = record {
  generation = 0;
  client_ip = ip4 1;
  client_ips = both;
  client_ipv4 = ip4 0x0ac80002;
  client_ipv6 = ip6 0xfd000200000000000000000000000002 "";
  identity = "a";
  conn = true;
  on_close = false;
  manager = false;
  closed = false;
  removed = false;
  cancels = 0;
  conn_closes = 0;
  callbacks = 0;
}

owned : (owns_address plain (ip4 0x0ac80002) ≡ true) ↔ In (ip4 0x0ac80002) both
owned = owns_address_iff plain (ip4 0x0ac80002)

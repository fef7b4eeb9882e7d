-- ===== src/Health/Tests.antt =====
-- The interface of Tunnel/Tests.antt as package net tells of it, and the theorems at it.
use mathlib.Core.Option.{some-injective}
use jiejie_masque_unified.Base.{
  ◌%◌, ap, ap₂, ◌≡◌, ◌↔◌, refl, ◌==◌, inl, sym, nat_eq, string_eq, true, Option, none, some, List,
  [], ◌∷◌, String, if◌then◌else◌, arith,
}
use jiejie_masque_unified.Base.Fallible.{ok, err}
use jiejie_masque_unified.Net.{ip4, prefix_of, big_endian_from}
use jiejie_masque_unified.Config.{prefixes}
use jiejie_masque_unified.Config.Tests.{library, config}
use jiejie_masque_unified.Datapath.Tests.{server, served}
use jiejie_masque_unified.Tunnel.{
  choose, choose_all, choose_prefixes, cidr_mask, set_up, call, ignore, then_close, with_socket,
  set_addr, set_mtu, bring_up, configure_interface, configure_ipv6, configure_ipv4,
  configure_chosen, configure_addresses,
}
use jiejie_masque_unified.Tunnel.Setup.{interface}
use jiejie_masque_unified.Tunnel.Tests.{kernel, device, history, configured}
use jiejie_masque_unified.Health.{
  NetAddr, ip_net, NetInterface, missing_address, addr_from_slice, byte_ones, mask_ones, mask_size,
  prefix_in_family, parsed_prefix, bit_len, normalize_interface_prefix, same_prefix, matches_prefix,
  has_prefix, check_addresses, check_found, check_interface,
}
use jiejie_masque_unified.Health.Masks.{to16}
use jiejie_masque_unified.Health.Check.{IsHealthy, check_interface_iff}
use jiejie_masque_unified.Health.Configured.{Tells, configured-check_interface}

program : Unit {0}
unfolding big_endian_from addr_from_slice byte_ones mask_ones mask_size prefix_in_family
    parsed_prefix bit_len normalize_interface_prefix same_prefix matches_prefix has_prefix
    check_addresses check_found check_interface
program = tt

-- The address of the interface as 16 bytes.
abbrev mapped : NetAddr
mapped =
    ip_net (0 ∷ 0 ∷ 0 ∷ 0 ∷ 0 ∷ 0 ∷ 0 ∷ 0 ∷ 0 ∷ 0 ∷ 255 ∷ 255 ∷ 10 ∷ 200 ∷ 0 ∷ 1 ∷ [])
      (255 ∷ 255 ∷ 255 ∷ 0 ∷ [])

abbrev with_addrs : List NetAddr → NetInterface
with_addrs addrs = record { up = true; mtu = 1280; addrs = some addrs }

abbrev named : List NetAddr → String → Option NetInterface
named addrs name = if name == "masque0" then some (with_addrs addrs) else none

unmapped :
    check_interface (named (mapped ∷ [])) "masque0" (prefix_of (ip4 0x0ac80001) 24) 1280 ≡ ok tt
unfolding program
unmapped = refl

-- A mask with a hole counts as no mask.
hole :
    check_interface
      (named (ip_net (10 ∷ 200 ∷ 0 ∷ 1 ∷ []) (255 ∷ 0 ∷ 255 ∷ 0 ∷ []) ∷ []))
      "masque0"
      (prefix_of (ip4 0x0ac80001) 0)
      1280
    ≡ err missing_address
unfolding program
hole = refl

found_exactly :
    (check_interface (named (mapped ∷ [])) "masque0" (prefix_of (ip4 0x0ac80001) 24) 1280 ≡ ok tt)
    ↔ ((i : NetInterface) × (named (mapped ∷ []) "masque0" ≡ some i)
        × IsHealthy i (prefix_of (ip4 0x0ac80001) 24) 1280)
found_exactly =
    check_interface_iff (named (mapped ∷ [])) "masque0" (prefix_of (ip4 0x0ac80001) 24) 1280

told : Tells (interface "masque0" history) (with_addrs (mapped ∷ []))
unfolding history interface choose choose_all choose_prefixes cidr_mask set_up call ignore
    then_close with_socket set_addr set_mtu bring_up configure_interface configure_ipv6
    configure_ipv4 configure_chosen configure_addresses prefixes
told = record {
  up_told = λ f e. ap (λ g. g % 2 == 1) (some-injective _ _ e);
  mtu_told = λ m e. some-injective _ _ e;
  ipv4_told = λ a m e f. (
    mapped ∷ [],
    refl,
    inl (sym (ap₂ (λ b n. ip_net (to16 b) n) (some-injective _ _ e) (some-injective _ _ f))),
  );
}

configured-check_interface_example :
    check_interface (named (mapped ∷ [])) "masque0" (prefix_of (ip4 0x0ac80001) 24) 1280 ≡ ok tt
configured-check_interface_example =
    configured-check_interface library config server kernel device [] served 0x0ac80001 24 history
      (named (mapped ∷ [])) (with_addrs (mapped ∷ [])) refl (omega arith) (omega arith) configured
      refl told

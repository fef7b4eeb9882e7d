-- ===== src/Health.antt =====
-- internal/connectip/tunnel/health_linux.go: whether an interface is as configured. What package net
-- tells of the interface is an input.
pub mod Masks
pub mod Check
pub mod Configured
pub mod Tests
use jiejie_masque_unified.Base.{
  ℕ, ◌+◌, ◌*◌, ◌==◌, nat_eq, not, ltb, ◌||◌, ◌&&◌, Bool, true, false, Option, none, some, List, [],
  ◌∷◌, String, length, if◌then◌else◌,
}
use jiejie_masque_unified.Base.Fallible.{Result, ok, err}
use jiejie_masque_unified.Net.{
  Addr, addr_eq, zero_addr, ip4, ip6, is4, is6, unmap, big_endian_from, Prefix, prefix_of,
}

-- The two kinds of net.Addr that the code takes, with their bytes, and any other.
pub data NetAddr : Type 0 where
  ip_net : List ℕ → List ℕ → NetAddr
  ip_addr : List ℕ → NetAddr
  other_addr : NetAddr

-- netip.AddrFromSlice
unfoldable pub addr_from_slice : List ℕ → Option Addr
addr_from_slice b =
    if length b == 4
    then some (ip4 (big_endian_from 0 b))
    else if length b == 16
    then some (ip6 (big_endian_from 0 b) "")
    else none

-- The leading ones of a byte that has nothing but zeros behind them.
unfoldable pub byte_ones : ℕ → Option ℕ
byte_ones v =
    if v == 0
    then some 0
    else if v == 0x80
    then some 1
    else if v == 0xc0
    then some 2
    else if v == 0xe0
    then some 3
    else if v == 0xf0
    then some 4
    else if v == 0xf8
    then some 5
    else if v == 0xfc
    then some 6
    else if v == 0xfe
    then some 7
    else none

abbrev pub all_zero : List ℕ → Bool
all_zero [] = true
all_zero (v ∷ rest) = v == 0 && all_zero rest

abbrev pub add_byte : Option ℕ → Option ℕ
add_byte none = none
add_byte (some n) = some (n + 8)

-- The ones of a canonical mask.
unfoldable pub mask_ones : List ℕ → Option ℕ
mask_ones [] = some 0
mask_ones (v ∷ rest) =
    let more = mask_ones rest in
    if v == 0xff then add_byte more else if all_zero rest then byte_ones v else none

-- net.IPMask.Size: the ones and the width, or two zeros.
unfoldable pub mask_size : List ℕ → ℕ × ℕ
mask_size mask = elim (mask_ones mask) [ none ↦ (0, 0) | some ones ↦ (ones, length mask * 8) ]

-- The end of normalizeInterfacePrefix; a width of 0 says that there is no mask.
unfoldable pub prefix_in_family : Addr → ℕ → ℕ → Option Prefix
prefix_in_family a ones width =
    if is4 a
    then (if ltb 32 ones || (not (width == 0) && not (width == 32))
        then none
        else some (prefix_of a ones))
    else if not (is6 a) || ltb 128 ones || (not (width == 0) && not (width == 128))
    then none
    else some (prefix_of a ones)

unfoldable pub parsed_prefix : List ℕ → ℕ → ℕ → Option Prefix
parsed_prefix ip ones width = elim (addr_from_slice ip) [
  | none ↦ none
  | some a ↦ prefix_in_family (unmap a) ones width
]

unfoldable pub bit_len : Addr → ℕ
bit_len a = if is4 a then 32 else 128

unfoldable pub normalize_interface_prefix : NetAddr → Option Prefix
normalize_interface_prefix (ip_net ip mask) =
    let (ones, width) = mask_size mask in
    if width == 32 || width == 128 then parsed_prefix ip ones width else none
normalize_interface_prefix (ip_addr ip) = elim (addr_from_slice ip) [
  | none ↦ none
  | some a ↦ parsed_prefix ip (bit_len a) 0
]
normalize_interface_prefix other_addr = none

-- What net.InterfaceByName gives; the addresses are none where reading them fails.
pub record NetInterface : Type 0 where
  pub up : Bool
  pub mtu : ℕ
  pub addrs : Option (List NetAddr)

pub data CheckError : Type 0 where
  missing down mtu_mismatch unreadable missing_address : CheckError

unfoldable pub same_prefix : Prefix → Prefix → Bool
same_prefix p expected =
    (p.addr == expected.addr && p.bits_plus_one == expected.bits_plus_one)
    || (p.addr == expected.addr && p.bits_plus_one == expected.bits_plus_one)

-- One address of the loop.
unfoldable pub matches_prefix : NetAddr → Prefix → Bool
matches_prefix a expected = elim (normalize_interface_prefix a) [
  | none ↦ false
  | some p ↦ same_prefix p expected
]

unfoldable pub has_prefix : List NetAddr → Prefix → Bool
has_prefix [] expected = false
has_prefix (a ∷ rest) expected =
    if matches_prefix a expected then true else has_prefix rest expected

unfoldable pub check_addresses : Option (List NetAddr) → Prefix → Result CheckError (Unit {0})
check_addresses none expected = err unreadable
check_addresses (some addrs) expected =
    if has_prefix addrs expected then ok tt else err missing_address

unfoldable pub check_found : NetInterface → Prefix → ℕ → Result CheckError (Unit {0})
check_found i expected mtu =
    if not i.up
    then err down
    else if not (i.mtu == mtu)
    then err mtu_mismatch
    else check_addresses i.addrs expected

unfoldable pub check_interface :
    (String → Option NetInterface) → String → Prefix → ℕ → Result CheckError (Unit {0})
check_interface by_name name expected mtu = elim (by_name name) [
  | none ↦ err missing
  | some i ↦ check_found i expected mtu
]

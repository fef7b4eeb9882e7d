-- ===== src/Net/Address.antt =====
-- netip.Addr: the zero Addr, an IPv4 address of 32 bits, or an IPv6 address of 128 bits with a zone.
use jiejie_masque_unified.Base.{
  ℕ, ◌+◌, ◌-◌, ◌*◌, ◌/◌, ◌%◌, ◌^◌, ◌≡◌, refl, ◌↔◌, String, Bool, true, false, not, ◌&&◌, ◌||◌,
  Comparable, ◌==◌, nat_beq_iff, string_eq, nat_eq, if◌then◌else◌, arith, beq_refl,
}

pub data Addr : Type 0 where
  zero_addr : Addr
  ip4 : ℕ → Addr
  ip6 : ℕ → String → Addr

abbrev pub addr_beq : Addr → Addr → Bool
addr_beq zero_addr zero_addr = true
addr_beq (ip4 a) (ip4 b) = a == b
addr_beq (ip6 a z) (ip6 b y) = a == b && z == y
addr_beq _ _ = false

addr_beq_refl : (a : Addr) → addr_beq a a ≡ true
addr_beq_refl zero_addr = refl
addr_beq_refl (ip4 a) = beq_refl a
addr_beq_refl (ip6 a z) = ground (arith, beq_refl a, beq_refl z)

addr_beq-eq : (a b : Addr) → addr_beq a b ≡ true → a ≡ b
addr_beq-eq zero_addr zero_addr h = refl
addr_beq-eq (ip4 a) (ip4 b) h = ground (arith, nat_beq_iff a b)
addr_beq-eq (ip6 a z) (ip6 b y) h = ground (arith, nat_beq_iff a b, string_eq.equals_iff z y)
addr_beq-eq _ _ h = cc

pub addr_beq_iff : (a b : Addr) → (addr_beq a b ≡ true) ↔ (a ≡ b)
addr_beq_iff a b = (addr_beq-eq a b, λ p. subst_beq p)
  where
    subst_beq : a ≡ b → addr_beq a b ≡ true
    subst_beq p = rw (← p) (addr_beq_refl a)

instance abbrev pub addr_eq : Comparable Addr
addr_eq = record { equals = addr_beq; equals_iff = addr_beq_iff }

abbrev pub is_valid : Addr → Bool
is_valid zero_addr = false
is_valid _ = true

abbrev pub is4 : Addr → Bool
is4 (ip4 a) = true
is4 _ = false

-- An IPv4-mapped address counts as IPv6.
abbrev pub is6 : Addr → Bool
is6 (ip6 a z) = true
is6 _ = false

abbrev pub is4in6 : Addr → Bool
is4in6 (ip6 a z) = a / 2 ^ 32 == 0xffff
is4in6 _ = false

abbrev pub zone : Addr → String
zone (ip6 a z) = z
zone _ = ""

abbrev pub unmap : Addr → Addr
unmap (ip6 a z) = if a / 2 ^ 32 == 0xffff then ip4 (a % 2 ^ 32) else ip6 a z
unmap a = a

-- The classes by leading bits; a mapped address has the class of its IPv4 address.
abbrev pub loopback_bits : Addr → Bool
loopback_bits (ip4 a) = a / 2 ^ 24 == 127
loopback_bits (ip6 a z) = a == 1
loopback_bits zero_addr = false

unfoldable pub is_loopback : Addr → Bool
is_loopback a = loopback_bits (unmap a)

abbrev pub multicast_bits : Addr → Bool
multicast_bits (ip4 a) = a / 2 ^ 28 == 0xe
multicast_bits (ip6 a z) = a / 2 ^ 120 == 0xff
multicast_bits zero_addr = false

unfoldable pub is_multicast : Addr → Bool
is_multicast a = multicast_bits (unmap a)

abbrev pub link_local_bits : Addr → Bool
link_local_bits (ip4 a) = a / 2 ^ 16 == 169 * 2 ^ 8 + 254
link_local_bits (ip6 a z) = a / 2 ^ 118 == 0x3fa
link_local_bits zero_addr = false

unfoldable pub is_link_local_unicast : Addr → Bool
is_link_local_unicast a = link_local_bits (unmap a)

abbrev pub private_bits : Addr → Bool
private_bits (ip4 a) =
    a / 2 ^ 24 == 10 || a / 2 ^ 20 == 172 * 2 ^ 4 + 1 || a / 2 ^ 16 == 192 * 2 ^ 8 + 168
private_bits (ip6 a z) = a / 2 ^ 121 == 0x7e
private_bits zero_addr = false

unfoldable pub is_private : Addr → Bool
is_private a = private_bits (unmap a)

unfoldable pub is_unspecified : Addr → Bool
is_unspecified a = a == ip4 0 || a == ip6 0 ""

unfoldable pub is_global_unicast : Addr → Bool
is_global_unicast a =
    is_valid a
    && not (unmap a == ip4 0)
    && not (unmap a == ip4 (2 ^ 32 - 1))
    && not (a == ip6 0 "")
    && not (is_loopback a)
    && not (is_multicast a)
    && not (is_link_local_unicast a)

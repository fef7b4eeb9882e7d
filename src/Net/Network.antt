-- ===== src/Net/Network.antt =====
-- netip.Prefix: an address and a length, or the zero Prefix.
use jiejie_masque_unified.Base.{
  ℕ, suc, ◌-◌, ◌/◌, ◌^◌, Bool, false, ◌&&◌, ◌==◌, string_eq, nat_eq, ltb,
}
use jiejie_masque_unified.Net.Address.{Addr, zero_addr, ip4, ip6, zone}

-- `bits_plus_one` is 0 in an invalid prefix.
pub record Prefix : Type 0 where
  pub addr : Addr
  pub bits_plus_one : ℕ

abbrev pub zero_prefix : Prefix
zero_prefix = record { addr = zero_addr; bits_plus_one = 0 }

abbrev pub prefix_of : Addr → ℕ → Prefix
prefix_of a n = record { addr = a; bits_plus_one = suc n }

abbrev pub prefix_is_valid : Prefix → Bool
prefix_is_valid p = ltb 0 p.bits_plus_one

-- On an invalid prefix, where Go's Bits is -1, this is 0: the program reads it of valid ones only.
abbrev pub bits : Prefix → ℕ
bits p = p.bits_plus_one - 1

abbrev pub same_leading : ℕ → Addr → Addr → Bool
same_leading n (ip4 a) (ip4 b) = a / 2 ^ (32 - n) == b / 2 ^ (32 - n)
same_leading n (ip6 a z) (ip6 b y) = a / 2 ^ (128 - n) == b / 2 ^ (128 - n)
same_leading n _ _ = false

unfoldable pub contains : Prefix → Addr → Bool
contains p a = prefix_is_valid p && zone a == "" && same_leading (bits p) p.addr a

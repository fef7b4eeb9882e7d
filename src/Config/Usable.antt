-- ===== src/Config/Usable.antt =====
-- internal/connectip/config/config.go, isUsableGlobalIPv6TunnelPrefix, against a description of such
-- prefixes by the bits of their addresses.
use jiejie_masque_unified.Base.{
  ◌-◌, Bool, ℕ, ◌/◌, ◌^◌, ◌≡◌, ◌≢◌, refl, ap, sym, subst, inl, inr, ◌==◌, nat_eq, string_eq,
  beq_refl, true, false, differ, List, [], ◌∷◌, In, arith,
}
use jiejie_masque_unified.Net.{
  Addr, addr_eq, zero_addr, ip4, ip6, zone, is_unspecified, is_multicast, is_loopback,
  is_global_unicast, is_link_local_unicast, is_private, Prefix, prefix_is_valid, contains,
}
use jiejie_masque_unified.Config.{
  special_prefixes, overlaps_none, is_usable_global_ipv6_tunnel_prefix,
}
use jiejie_masque_unified.Config.Disjoint.{usable-Disjoint}

-- A prefix of a global IPv6 address: not IPv4-mapped, not ::, not ::1, not in fc00::/7, fe80::/10 or
-- ff00::/8, and with no address in one of the special ranges.
pub record IsUsable (p : Prefix) : Type 0 where
  pub there : prefix_is_valid p ≡ true
  pub value : ℕ
  pub six : p.addr ≡ ip6 value ""
  pub unmapped : value / 2 ^ 32 ≢ 0xffff
  pub specified : value ≢ 0
  pub elsewhere : value ≢ 1
  pub public : value / 2 ^ 121 ≢ 0x7e
  pub global : value / 2 ^ 118 ≢ 0x3fa
  pub unicast : value / 2 ^ 120 ≢ 0xff
  pub apart :
      (q : Prefix) (x : Addr) → In q special_prefixes → contains p x ≡ true → contains q x ≡ false

-- The tests before the loop, on an address without a zone.
abbrev Ordinary : ℕ → Type 0
Ordinary v =
    (v / 2 ^ 32 ≢ 0xffff)
    × (v ≢ 0)
    × (v ≢ 1)
    × (v / 2 ^ 121 ≢ 0x7e)
    × (v / 2 ^ 118 ≢ 0x3fa)
    × (v / 2 ^ 120 ≢ 0xff)

module _ (n v : ℕ) where
  abbrev at : Prefix
  at = record { addr = ip6 v ""; bits_plus_one = n }

  usable_bits :
      is_usable_global_ipv6_tunnel_prefix at ≡ true → (prefix_is_valid at ≡ true) × Ordinary v
  unfolding is_usable_global_ipv6_tunnel_prefix is_global_unicast is_private is_link_local_unicast
      is_multicast is_loopback is_unspecified
  usable_bits h = ground arith

  bits_usable :
      prefix_is_valid at ≡ true
      → Ordinary v
      → overlaps_none at special_prefixes ≡ true
      → is_usable_global_ipv6_tunnel_prefix at ≡ true
  unfolding is_usable_global_ipv6_tunnel_prefix is_global_unicast is_private is_link_local_unicast
      is_multicast is_loopback is_unspecified
  bits_usable valid ordinary none = ground arith

apart-overlaps_none :
    (p : Prefix) (ranges : List Prefix)
    → ((q : Prefix) → In q ranges → (contains p q.addr ≡ false) × (contains q p.addr ≡ false))
    → overlaps_none p ranges ≡ true
unfolding overlaps_none
apart-overlaps_none p [] h = refl
apart-overlaps_none p (r ∷ rest) h =
    rw ((h r (inl refl)).0, (h r (inl refl)).1, apart-overlaps_none p rest (λ q i. h q (inr i)))
      refl

special_prefixes-contains : (q : Prefix) → In q special_prefixes → contains q q.addr ≡ true
unfolding contains
special_prefixes-contains q (inl e) = rw e refl
special_prefixes-contains q (inr (inl e)) = rw e refl
special_prefixes-contains q (inr (inr (inl e))) = rw e refl
special_prefixes-contains q (inr (inr (inr (inl e)))) = rw e refl
special_prefixes-contains q (inr (inr (inr (inr e)))) = absurd e

contains-own : (n v : ℕ) → prefix_is_valid (at n v) ≡ true → contains (at n v) (ip6 v "") ≡ true
unfolding contains
contains-own n v h = rw (h, beq_refl (v / 2 ^ (128 - (n - 1)))) refl

not_true : (b : Bool) → ¬ (b ≡ true) → b ≡ false
not_true true h = absurd (h refl)
not_true false h = refl

IsUsable-apart : (n v : ℕ) → IsUsable (at n v) → overlaps_none (at n v) special_prefixes ≡ true
IsUsable-apart n v u = apart-overlaps_none (at n v) special_prefixes (λ q i. (
  not_true (contains (at n v) q.addr)
      (λ shared. differ (special_prefixes-contains q i) (u.apart q q.addr i shared)),
  u.apart q (ip6 v "") i (contains-own n v u.there),
))

ip6-injective : (a b : ℕ) → ip6 a "" ≡ ip6 b "" → a ≡ b
ip6-injective a b e = ap (λ x. elim x [ ip6 n z ↦ n | _ ↦ 0 ]) e

from_address :
    (a : Addr) (n : ℕ)
    → (zone a == "") ≡ true
    → is_usable_global_ipv6_tunnel_prefix (record { addr = a; bits_plus_one = n }) ≡ true
    → IsUsable (record { addr = a; bits_plus_one = n })
from_address zero_addr n z h = absurd (unfold is_usable_global_ipv6_tunnel_prefix in ground arith)
from_address (ip4 v) n z h = absurd (unfold is_usable_global_ipv6_tunnel_prefix in ground arith)
from_address (ip6 v scope) n z h =
    subst (λ y. IsUsable (record { addr = ip6 v y; bits_plus_one = n })) (sym same)
      (record {
        there = parts.0;
        value = v;
        six = refl;
        unmapped = parts.1.0;
        specified = parts.1.1;
        elsewhere = parts.1.2;
        public = parts.1.3;
        global = parts.1.4;
        unicast = parts.1.5;
        apart = λ q x i e. usable-Disjoint (at n v) q x usable refl i e;
      })
  where
    same : scope ≡ ""
    same = (string_eq.equals_iff scope "").0 z

    usable : is_usable_global_ipv6_tunnel_prefix (at n v) ≡ true
    usable =
        subst
          (λ y.
            is_usable_global_ipv6_tunnel_prefix (record { addr = ip6 v y; bits_plus_one = n })
            ≡ true)
          same h

    parts : (prefix_is_valid (at n v) ≡ true) × Ordinary v
    parts = usable_bits n v usable

-- On addresses without a zone, which no server's prefix has, the program's test is this description.
pub accepted-IsUsable :
    (p : Prefix)
    → (zone p.addr == "") ≡ true
    → is_usable_global_ipv6_tunnel_prefix p ≡ true
    → IsUsable p
accepted-IsUsable p z h = from_address p.addr p.bits_plus_one z h

pub IsUsable-usable : (p : Prefix) → IsUsable p → is_usable_global_ipv6_tunnel_prefix p ≡ true
IsUsable-usable p u =
    let n = p.bits_plus_one in
    subst (λ a. is_usable_global_ipv6_tunnel_prefix (record { addr = a; bits_plus_one = n }) ≡ true)
      (sym u.six)
      (bits_usable n u.value u.there
        (u.unmapped, u.specified, u.elsewhere, u.public, u.global, u.unicast)
        (IsUsable-apart n u.value
          (subst (λ a. IsUsable (record { addr = a; bits_plus_one = n })) u.six u)))

-- ===== src/Config/Disjoint.antt =====
-- internal/connectip/config/config.go, isUsableGlobalIPv6TunnelPrefix: the two tests of the loop find
-- every overlap with a special range.
use native.Mathlib.Nat.{div-div-eq-div-mul, pow-suc}
use jiejie_masque_unified.Base.{
  ℕ, zero, suc, ◌+◌, ◌-◌, ◌/◌, ◌^◌, ◌≤◌, ◌≡◌, refl, ap, sym, subst, ◌∙◌, ◌⊎◌, inl, inr, ◌==◌,
  nat_eq, string_eq, nat_beq_iff, true, false, Bool-cases, differ, List, [], ◌∷◌, In, arith,
}
use jiejie_masque_unified.Net.{
  Addr, ip4, ip6, zone, Prefix, prefix_is_valid, bits, same_leading, contains,
}
use jiejie_masque_unified.Base.Fallible.{ok-injective}
use jiejie_masque_unified.Config.Load.{validate}
use jiejie_masque_unified.Config.Validation.{validate_iff}
use jiejie_masque_unified.Config.Prefixes.{IsOptional6, server_addresses-IsServer}
use jiejie_masque_unified.Config.{
  Config, Library, TunnelAddresses, ok, server_addresses, special_prefixes, overlaps_none,
  is_usable_global_ipv6_tunnel_prefix,
}

-- Fewer leading bits agree where more do.
coarser_by : (d x b i : ℕ) → x / 2 ^ i ≡ b / 2 ^ i → x / 2 ^ (d + i) ≡ b / 2 ^ (d + i)
coarser_by zero x b i e = subst (λ k. x / 2 ^ k ≡ b / 2 ^ k) (omega arith) e
coarser_by (suc d) x b i e =
    subst (λ k. x / k ≡ b / k) (sym (pow-suc 2 (d + i)) ∙ ap (λ k. 2 ^ k) (omega arith))
      (sym (div-div-eq-div-mul x (2 ^ (d + i)) 2)
        ∙ ap (λ q. q / 2) (coarser_by d x b i e)
        ∙ div-div-eq-div-mul b (2 ^ (d + i)) 2)

coarser : (x b i j : ℕ) → i ≤ j → x / 2 ^ i ≡ b / 2 ^ i → x / 2 ^ j ≡ b / 2 ^ j
coarser x b i j h e =
    subst (λ k. x / 2 ^ k ≡ b / 2 ^ k) (omega (arith, h)) (coarser_by (j - i) x b i e)

-- Of two lengths one is at most the other, and the bits that it takes agree.
either_leads :
    (n m w a b x : ℕ)
    → a / 2 ^ (w - n) ≡ x / 2 ^ (w - n)
    → b / 2 ^ (w - m) ≡ x / 2 ^ (w - m)
    → (a / 2 ^ (w - n) ≡ b / 2 ^ (w - n)) ⊎ (b / 2 ^ (w - m) ≡ a / 2 ^ (w - m))
either_leads n m w a b x e f = elim (order (w - m) (w - n)) [
  | inl h ↦ inl (e ∙ sym (coarser b x (w - m) (w - n) h f))
  | inr h ↦ inr (f ∙ sym (coarser a x (w - n) (w - m) h e))
]
  where
    order : (i j : ℕ) → (i ≤ j) ⊎ (j ≤ i)
    order i j = ground arith

leading_either :
    (n m w a b x : ℕ)
    → (a / 2 ^ (w - n) == x / 2 ^ (w - n)) ≡ true
    → (b / 2 ^ (w - m) == x / 2 ^ (w - m)) ≡ true
    → ((a / 2 ^ (w - n) == b / 2 ^ (w - n)) ≡ true) ⊎ ((b / 2 ^ (w - m) == a / 2 ^ (w - m)) ≡ true)
leading_either n m w a b x e f =
    elim (either_leads n m w a b x ((nat_beq_iff _ _).0 e) ((nat_beq_iff _ _).0 f)) [
      | inl g ↦ inl ((nat_beq_iff _ _).1 g)
      | inr g ↦ inr ((nat_beq_iff _ _).1 g)
    ]

same_leading_either :
    (n m : ℕ) (a b x : Addr)
    → same_leading n a x ≡ true
    → same_leading m b x ≡ true
    → (same_leading n a b ≡ true) ⊎ (same_leading m b a ≡ true)
same_leading_either n m (ip4 a) (ip4 b) (ip4 x) e f = leading_either n m 32 a b x e f
same_leading_either n m (ip6 a y) (ip6 b z) (ip6 x u) e f = leading_either n m 128 a b x e f
same_leading_either n m a b x e f = ground arith

-- Two prefixes that share an address: one contains the other's address.
meet :
    (p q : Prefix) (x : Addr)
    → (zone p.addr == "") ≡ true
    → (zone q.addr == "") ≡ true
    → contains p x ≡ true
    → contains q x ≡ true
    → (contains p q.addr ≡ true) ⊎ (contains q p.addr ≡ true)
unfolding contains
meet p q x zp zq hp hq = ground (arith, same_leading_either (bits p) (bits q) p.addr q.addr x)

overlaps_none-In :
    (p : Prefix) (ranges : List Prefix) (q : Prefix)
    → overlaps_none p ranges ≡ true
    → In q ranges
    → (contains p q.addr ≡ false) × (contains q p.addr ≡ false)
unfolding overlaps_none
overlaps_none-In p [] q h i = absurd i
overlaps_none-In p (r ∷ rest) q h (inl e) =
    subst (λ s. (contains p s.addr ≡ false) × (contains s p.addr ≡ false)) (sym e) (ground arith)
overlaps_none-In p (r ∷ rest) q h (inr i) = overlaps_none-In p rest q (ground arith) i

special_prefixes-zone : (q : Prefix) → In q special_prefixes → (zone q.addr == "") ≡ true
special_prefixes-zone q (inl e) = rw e refl
special_prefixes-zone q (inr (inl e)) = rw e refl
special_prefixes-zone q (inr (inr (inl e))) = rw e refl
special_prefixes-zone q (inr (inr (inr (inl e)))) = rw e refl
special_prefixes-zone q (inr (inr (inr (inr e)))) = absurd e

usable-overlaps_none :
    (p : Prefix)
    → is_usable_global_ipv6_tunnel_prefix p ≡ true
    → overlaps_none p special_prefixes ≡ true
unfolding is_usable_global_ipv6_tunnel_prefix
usable-overlaps_none p h = ground arith

pub usable-Disjoint :
    (p q : Prefix) (x : Addr)
    → is_usable_global_ipv6_tunnel_prefix p ≡ true
    → (zone p.addr == "") ≡ true
    → In q special_prefixes
    → contains p x ≡ true
    → contains q x ≡ false
usable-Disjoint p q x usable unzoned special h = elim (Bool-cases (contains q x)) [
  | inl shared ↦
      let (first, second) =
        overlaps_none-In p special_prefixes q (usable-overlaps_none p usable) special in
      elim (meet p q x unzoned (special_prefixes-zone q special) h shared) [
        | inl yes_first ↦ absurd (differ yes_first first)
        | inr yes_second ↦ absurd (differ yes_second second)
      ]
  | inr apart ↦ apart
]

pub unzoned : (p : Prefix) → IsOptional6 p → prefix_is_valid p ≡ true → (zone p.addr == "") ≡ true
unzoned p (inl invalid) valid = absurd (differ valid invalid)
unzoned p (inr (valid, six, bounded, ordinary)) _ = ordinary.unzoned

-- In a configuration that Validate accepts and that advertises the default IPv6 route, no address of
-- the server's IPv6 network is in one of the special ranges, at any length of its prefix.
pub advertised-Disjoint :
    (l : Library) (c : Config) (a : TunnelAddresses) (q : Prefix) (x : Addr)
    → validate l c ≡ ok tt
    → c.server.advertise_ipv6_default_route ≡ true
    → server_addresses l c ≡ ok a
    → In q special_prefixes
    → contains a.ipv6 x ≡ true
    → contains q x ≡ false
advertised-Disjoint l c a q x accepted advertised served special h =
    elim ((validate_iff l c).0 accepted).routed [
      | inl quiet ↦ absurd (differ advertised quiet)
      | inr (b, e, valid, usable) ↦
          let same : b ≡ a = ok-injective b a (sym e ∙ served) in
          usable-Disjoint a.ipv6 q x
            (subst (λ s. is_usable_global_ipv6_tunnel_prefix s.ipv6 ≡ true) same usable)
            (unzoned a.ipv6 (server_addresses-IsServer l c a served).optional6
              (subst (λ s. prefix_is_valid s.ipv6 ≡ true) same valid))
            special h
    ]

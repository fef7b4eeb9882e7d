-- ===== src/Health/Masks.antt =====
-- internal/connectip/tunnel/health_linux.go, normalizeInterfacePrefix, on an IPv4 address with the mask
-- that tunnel/tun_linux.go makes for a prefix.
use jiejie_masque_unified.Base.{
  ◌∷◌, ◌*◌, ◌+◌, ℕ, zero, suc, ◌^◌, ◌<◌, ◌≤◌, ◌≡◌, ◌≢◌, refl, ◌∙◌, ap, sym, subst, ◌⊎◌, inl, inr,
  ◌==◌, nat_eq, nat_beq_iff, ◌&&◌, Bool, true, false, Option, none, some, length, List, arith,
}
use jiejie_masque_unified.Net.{
  Addr, unmap, big_endian_from, ip6, ip4, be_bytes, big_endian_from-be_bytes, prefix_of,
}
use jiejie_masque_unified.Tunnel.{cidr_mask}
use jiejie_masque_unified.Tunnel.Server.{length-cidr_mask}
use jiejie_masque_unified.Health.{
  ip_net, addr_from_slice, byte_ones, mask_ones, mask_size, prefix_in_family, parsed_prefix,
  normalize_interface_prefix,
}

abbrev is_some_of : ℕ → Option ℕ → Bool
is_some_of n none = false
is_some_of n (some m) = m == n

abbrev all_to : ℕ → Bool
all_to zero = is_some_of 0 (mask_ones (cidr_mask 0))
all_to (suc n) = is_some_of (suc n) (mask_ones (cidr_mask (suc n))) && all_to n

all_to_32 : all_to 32 ≡ true
unfolding cidr_mask mask_ones byte_ones
all_to_32 = refl

is_some_of-eq : (n : ℕ) (o : Option ℕ) → is_some_of n o ≡ true → o ≡ some n
is_some_of-eq n none h = cc
is_some_of-eq n (some m) h = ground (arith, nat_beq_iff m n)

all_to-eq : (n m : ℕ) → all_to n ≡ true → m ≤ n → mask_ones (cidr_mask m) ≡ some m
all_to-eq zero m h b =
    is_some_of-eq m _
      (subst (λ k. is_some_of k (mask_ones (cidr_mask k)) ≡ true) (omega (arith, b)) h)
all_to-eq (suc n) m h b = elim (decide m (suc n)) [
  | inl e ↦
      is_some_of-eq m _
        (subst (λ k. is_some_of k (mask_ones (cidr_mask k)) ≡ true) (sym e) (ground arith))
  | inr e ↦ all_to-eq n m (ground arith) (omega (arith, e, b))
]
  where
    decide : (a b : ℕ) → (a ≡ b) ⊎ (a ≢ b)
    decide a b = ground arith

pub mask_ones-cidr_mask : (n : ℕ) → n ≤ 32 → mask_ones (cidr_mask n) ≡ some n
mask_ones-cidr_mask n b = all_to-eq 32 n all_to_32 b

mask_size-eq : (m : List ℕ) (n : ℕ) → mask_ones m ≡ some n → length m ≡ 4 → mask_size m ≡ (n, 32)
unfolding mask_size
mask_size-eq m n e f = rw (e, f, mask_size) refl

pub mask_size-cidr_mask : (n : ℕ) → n ≤ 32 → mask_size (cidr_mask n) ≡ (n, 32)
mask_size-cidr_mask n b =
    mask_size-eq (cidr_mask n) n (mask_ones-cidr_mask n b) (length-cidr_mask n)

-- The form of 16 bytes in which package net gives an IPv4 address.
abbrev pub to16 : List ℕ → List ℕ
to16 a = 0 ∷ 0 ∷ 0 ∷ 0 ∷ 0 ∷ 0 ∷ 0 ∷ 0 ∷ 0 ∷ 0 ∷ 0xff ∷ 0xff ∷ a

addr_from_slice-to16 :
    (x : ℕ)
    → x < 2 ^ 32
    → addr_from_slice (to16 (be_bytes 4 x)) ≡ some (ip6 (0xffff * 2 ^ 32 + x) "")
unfolding addr_from_slice big_endian_from
addr_from_slice-to16 x b =
    ap (λ n. some (ip6 n "")) (omega (arith, big_endian_from-be_bytes 4 x (omega (arith, b))))

unmap-to16 : (x : ℕ) → x < 2 ^ 32 → unmap (ip6 (0xffff * 2 ^ 32 + x) "") ≡ ip4 x
unmap-to16 x b = ground (arith, b)

prefix_in_family-ip4 :
    (x n : ℕ) → n ≤ 32 → prefix_in_family (ip4 x) n 32 ≡ some (prefix_of (ip4 x) n)
unfolding prefix_in_family
prefix_in_family-ip4 x n b = ground (arith, b)

parsed_prefix-eq :
    (ip : List ℕ) (a : Addr) (x n w : ℕ)
    → addr_from_slice ip ≡ some a
    → unmap a ≡ ip4 x
    → parsed_prefix ip n w ≡ prefix_in_family (ip4 x) n w
unfolding parsed_prefix
parsed_prefix-eq ip a x n w e f = rw (e, parsed_prefix) (ap (λ b. prefix_in_family b n w) f)

-- The address of 16 bytes is found as the IPv4 address.
pub normalize-cidr_mask :
    (x n : ℕ)
    → x < 2 ^ 32
    → n ≤ 32
    → normalize_interface_prefix (ip_net (to16 (be_bytes 4 x)) (cidr_mask n))
      ≡ some (prefix_of (ip4 x) n)
unfolding normalize_interface_prefix
normalize-cidr_mask x n b c = rw (mask_size-cidr_mask n c) (
    parsed_prefix-eq (to16 (be_bytes 4 x)) _ x n 32 (addr_from_slice-to16 x b) (unmap-to16 x b)
    ∙ prefix_in_family-ip4 x n c)

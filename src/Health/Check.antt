-- ===== src/Health/Check.antt =====
-- internal/connectip/tunnel/health_linux.go, CheckInterface: when it finds the interface as expected.
use jiejie_masque_unified.Base.{
  ℕ, ◌≡◌, refl, ◌↔◌, inl, inr, nat_eq, nat_beq_iff, Bool, true, false, Bool-cases, differ, beq_refl,
  Option, none, some, List, [], ◌∷◌, In, String, subst, sym, ap, if◌then◌else◌, arith,
}
use mathlib.Core.Option.{none-ne-some, some-injective}
use jiejie_masque_unified.Base.Fallible.{ok, err}
use jiejie_masque_unified.Net.{Prefix, addr_eq}
use jiejie_masque_unified.Health.{
  NetAddr, NetInterface, CheckError, normalize_interface_prefix, same_prefix, matches_prefix,
  has_prefix, check_addresses, check_found, check_interface, missing, missing_address,
}

same_prefix_iff : (p q : Prefix) → (same_prefix p q ≡ true) ↔ (p ≡ q)
unfolding same_prefix
same_prefix_iff p q = (
  λ h.
      ground (arith, addr_eq.equals_iff p.addr q.addr, nat_beq_iff p.bits_plus_one q.bits_plus_one),
  λ h.
      ground (arith, addr_eq.equals_iff p.addr q.addr, nat_beq_iff p.bits_plus_one q.bits_plus_one),
)

-- Some of the addresses is the prefix.
abbrev pub Carries : List NetAddr → Prefix → Type 0
Carries addrs p = (a : NetAddr) × In a addrs × (normalize_interface_prefix a ≡ some p)

-- The decision of matches_prefix on a normalized address.
abbrev same_as : Prefix → Option Prefix → Bool
same_as p none = false
same_as p (some q) = same_prefix q p

same_as_iff : (p : Prefix) (o : Option Prefix) → (same_as p o ≡ true) ↔ (o ≡ some p)
same_as_iff p none = (λ h. cc, λ h. cc)
same_as_iff p (some q) =
    (λ h. ap some ((same_prefix_iff q p).0 h), λ h. (same_prefix_iff q p).1 (cc))

matches_prefix_iff :
    (a : NetAddr) (p : Prefix)
    → (matches_prefix a p ≡ true) ↔ (normalize_interface_prefix a ≡ some p)
unfolding matches_prefix
matches_prefix_iff a p = same_as_iff p (normalize_interface_prefix a)

refused : {f : CheckError} → err f ≡ ok (tt {0}) → ⊥
refused h = cc

has_prefix_iff : (addrs : List NetAddr) (p : Prefix) → (has_prefix addrs p ≡ true) ↔ Carries addrs p
unfolding has_prefix
has_prefix_iff [] p = (λ h. cc, λ h. absurd h.1)
has_prefix_iff (a ∷ rest) p = elim (Bool-cases (matches_prefix a p)) [
  | inl e ↦ (λ h. (a, inl refl, (matches_prefix_iff a p).0 e), λ h. rw e refl)
  | inr e ↦ (
    λ h. elsewhere (
        (has_prefix_iff rest p).0
          (subst (λ b. (if b then true else has_prefix rest p) ≡ true) e h)),
    λ h. rw (e, (has_prefix_iff rest p).1 (further e h)) refl,
  )
]
  where
    elsewhere : Carries rest p → Carries (a ∷ rest) p
    elsewhere (b, i, n) = (b, inr i, n)

    further : matches_prefix a p ≡ false → Carries (a ∷ rest) p → Carries rest p
    further e (b, inl same, n) =
        absurd
          (differ (subst (λ x. matches_prefix x p ≡ true) same ((matches_prefix_iff b p).1 n)) e)
    further e (b, inr i, n) = (b, i, n)

-- What CheckInterface asks of an interface.
pub record IsHealthy (i : NetInterface) (p : Prefix) (mtu : ℕ) : Type 0 where
  pub running : i.up ≡ true
  pub sized : i.mtu ≡ mtu
  pub addressed : (addrs : List NetAddr) × (i.addrs ≡ some addrs) × Carries addrs p

check_addresses_iff :
    (o : Option (List NetAddr)) (p : Prefix)
    → (check_addresses o p ≡ ok tt) ↔ ((addrs : List NetAddr) × (o ≡ some addrs) × Carries addrs p)
unfolding check_addresses
check_addresses_iff none p = (λ h. absurd (refused h), λ h. absurd (none-ne-some _ h.1))
check_addresses_iff (some addrs) p = elim (Bool-cases (has_prefix addrs p)) [
  | inl e ↦ (λ h. (addrs, refl, (has_prefix_iff addrs p).0 e), λ h. rw e refl)
  | inr e ↦ (
    λ h. absurd (refused (subst (λ b. (if b then ok tt else err missing_address) ≡ ok tt) e h)),
    λ (xs, same, c). absurd (
        differ
          ((has_prefix_iff addrs p).1
            (subst (λ ys. Carries ys p) (sym (some-injective _ _ same)) c))
          e),
  )
]

check_found_iff :
    (i : NetInterface) (p : Prefix) (mtu : ℕ) → (check_found i p mtu ≡ ok tt) ↔ IsHealthy i p mtu
unfolding check_found
check_found_iff i p mtu = (
  λ h. record {
    running = ground (arith, check_addresses_iff i.addrs p);
    sized = ground (arith, check_addresses_iff i.addrs p);
    addressed = (check_addresses_iff i.addrs p).0 (ground arith);
  },
  λ h. rw (h.running, h.sized, beq_refl mtu) ((check_addresses_iff i.addrs p).1 h.addressed),
)

-- CheckInterface succeeds exactly where the interface is there, is up, has the MTU, and one of its
-- addresses, read without error, normalizes to the expected prefix.
pub check_interface_iff :
    (by_name : String → Option NetInterface) (name : String) (p : Prefix) (mtu : ℕ)
    → (check_interface by_name name p mtu ≡ ok tt)
      ↔ ((i : NetInterface) × (by_name name ≡ some i) × IsHealthy i p mtu)
unfolding check_interface
check_interface_iff by_name name p mtu = found (by_name name)
  where
    found :
        (o : Option NetInterface)
        → (elim o [ none ↦ err missing | some i ↦ check_found i p mtu ] ≡ ok tt)
          ↔ ((i : NetInterface) × (o ≡ some i) × IsHealthy i p mtu)
    found none = (λ h. absurd (refused h), λ h. absurd (none-ne-some _ h.1))
    found (some i) = (
      λ h. (i, refl, (check_found_iff i p mtu).0 h),
      λ (j, e, healthy).
          (check_found_iff i p mtu).1
            (subst (λ x. IsHealthy x p mtu) (sym (some-injective _ _ e)) healthy),
    )

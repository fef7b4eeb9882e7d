-- ===== src/Session/Construction.antt =====
-- internal/connectip/session/manager.go, NewWithAddresses: when it panics, and what it builds.
use jiejie_masque_unified.Base.{
  ◌≡◌, ◌≢◌, refl, sym, ◌∙◌, ◌⊎◌, inl, inr, ◌↔◌, Bool, true, false, List, [], ◌∷◌, String, In, Go,
  ret, panics, ◌==◌, string_eq, if◌then◌else◌, arith,
}
use jiejie_masque_unified.Net.{
  Addr, addr_eq, addr_beq_iff, zero_addr, is_valid, is4, is6, is4in6, zone,
}
use jiejie_masque_unified.Session.{
  Session, among, owns_address, place_address, place_addresses, new_with_addresses, initial,
}

pub among_iff : (ips : List Addr) (ip : Addr) → (among ips ip ≡ true) ↔ In ip ips
unfolding among
among_iff [] ip = (λ h. cc, λ h. absurd h)
among_iff (a ∷ ips) ip = (
  λ h. ground (arith, addr_beq_iff a ip, among_iff ips ip),
  λ h. ground (arith, addr_beq_iff a ip, among_iff ips ip),
)

-- OwnsAddress answers true exactly for the addresses of the session.
pub owns_address_iff : (s : Session) (ip : Addr) → (owns_address s ip ≡ true) ↔ In ip s.client_ips
unfolding owns_address
owns_address_iff s ip = among_iff s.client_ips ip

-- An address that a session can have: IPv4, or IPv6 with no zone that is not IPv4-mapped.
abbrev pub IsPlain : Addr → Type 0
IsPlain a = (is_valid a ≡ true) × (is4in6 a ≡ false) × ((zone a == "") ≡ true)

-- One such address, or two of different families.
abbrev pub IsAddressSet : List Addr → Type 0
IsAddressSet [] = ⊥
IsAddressSet (a ∷ []) = IsPlain a
IsAddressSet (a ∷ b ∷ []) = IsPlain a × IsPlain b × (is4 a ≢ is4 b)
IsAddressSet (a ∷ b ∷ c ∷ rest) = ⊥

abbrev pub first4 : List Addr → Addr
first4 [] = zero_addr
first4 (a ∷ ips) = if is4 a then a else first4 ips

abbrev pub first6 : List Addr → Addr
first6 [] = zero_addr
first6 (a ∷ ips) = if is6 a then a else first6 ips

module _ (identity : String) (conn on_close : Bool) where
  abbrev pub built : List Addr → Go Session
  unfolding initial
  built [] = panics
  built (a ∷ ips) = ret (record (initial a ips identity conn on_close) {
    client_ipv4 = first4 (a ∷ ips);
    client_ipv6 = first6 (a ∷ ips);
  })

  builds :
      (ips : List Addr)
      → IsAddressSet ips
      → new_with_addresses ips identity conn on_close ≡ built ips
  unfolding new_with_addresses place_addresses place_address initial
  builds [] h = elim h [ ]
  builds (a ∷ []) h = ground arith
  builds (a ∷ b ∷ []) h = ground arith
  builds (a ∷ b ∷ c ∷ rest) h = elim h [ ]

  third_panics :
      (a b c : Addr) (s : Session) (rest : List Addr)
      → place_addresses (a ∷ b ∷ c ∷ rest) s ≡ panics
  unfolding place_addresses place_address
  third_panics a b c s rest = ground arith

  refuses :
      (ips : List Addr)
      → IsAddressSet ips ⊎ (new_with_addresses ips identity conn on_close ≡ panics)
  unfolding new_with_addresses place_addresses place_address initial
  refuses [] = inr refl
  refuses (a ∷ []) = ground arith
  refuses (a ∷ b ∷ []) = ground arith
  refuses (a ∷ b ∷ c ∷ rest) =
      inr (third_panics a b c (initial a (b ∷ c ∷ rest) identity conn on_close) rest)

  built-ne-panics : (ips : List Addr) → IsAddressSet ips → built ips ≢ panics
  unfolding initial
  built-ne-panics [] h = elim h [ ]
  built-ne-panics (a ∷ ips) h = λ e. cc

  -- NewWithAddresses accepts exactly one IPv4 or IPv6 address, or one of each, with no zone and none
  -- IPv4-mapped; it then builds an open session that has these addresses, the first IPv4 and the
  -- first IPv6 one in the fields of their families. On every other list it panics.
  pub new_with_addresses_cases :
      (ips : List Addr)
      → (IsAddressSet ips × (new_with_addresses ips identity conn on_close ≡ built ips))
        ⊎ ((¬ IsAddressSet ips) × (new_with_addresses ips identity conn on_close ≡ panics))
  new_with_addresses_cases ips = elim (refuses ips) [
    | inl h ↦ inl (h, builds ips h)
    | inr p ↦ inr (λ h. built-ne-panics ips h (sym (builds ips h) ∙ p), p)
  ]

  -- A list of addresses that a session accepts gives a session with these.
  pub accepted :
      (ips : List Addr)
      → IsAddressSet ips
      → (x : Session) × (new_with_addresses ips identity conn on_close ≡ ret x)
        × (x.client_ips ≡ ips)
        × (x.identity ≡ identity)
        × (x.conn ≡ conn)
  unfolding built initial
  accepted [] h = elim h [ ]
  accepted (a ∷ ips) h = (_, builds (a ∷ ips) h, refl, refl, refl)

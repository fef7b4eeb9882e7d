-- ===== src/Config/Prefixes.antt =====
-- internal/connectip/config/config.go: the prefixes that optionalPrefix accepts, and the addresses
-- that a client can have.
use jiejie_masque_unified.Base.{
  ℕ, ◌≤◌, ◌≡◌, ◌≢◌, refl, ◌⊎◌, ◌==◌, nat_eq, string_eq, true, false, not, ◌&&◌, if◌then◌else◌,
  Option, none, some, String, arith,
}
use jiejie_masque_unified.Base.Fallible.{>>=-eq-ok}
use jiejie_masque_unified.Net.{
  Addr, addr_eq, is4, is6, is4in6, zone, is_loopback, is_multicast, is_unspecified, Prefix,
  prefix_is_valid, bits, contains,
}
use jiejie_masque_unified.Session.Construction.{IsAddressSet}
use jiejie_masque_unified.Config.{
  Client, Config, Library, TunnelAddresses, no_server_address, err, server_addresses, prefixes,
  addresses, ConfigError, ok, wrong_family, is_reserved, check_prefix, optional_prefix, outside,
  host_only, place_client, not_32, not_128, client_prefixes,
}

-- An address that is neither reserved nor zoned nor IPv4-mapped.
pub record IsOrdinary (a : Addr) : Type 0 where
  pub specified : is_unspecified a ≡ false
  pub unicast : is_multicast a ≡ false
  pub remote : is_loopback a ≡ false
  pub unmapped : is4in6 a ≡ false
  pub unzoned : (zone a == "") ≡ true

-- An absent prefix, or a prefix of the family with an ordinary address.
abbrev pub IsOptional4 : Prefix → Type 0
IsOptional4 p =
    (prefix_is_valid p ≡ false)
    ⊎ ((prefix_is_valid p ≡ true) × (is4 p.addr ≡ true) × (bits p ≤ 32) × IsOrdinary p.addr)

abbrev pub IsOptional6 : Prefix → Type 0
IsOptional6 p =
    (prefix_is_valid p ≡ false)
    ⊎ ((prefix_is_valid p ≡ true) × (is6 p.addr ≡ true) × (bits p ≤ 128) × IsOrdinary p.addr)

is_reserved-IsOrdinary : (a : Addr) → is_reserved a ≡ false → IsOrdinary a
unfolding is_reserved
is_reserved-IsOrdinary a h = ground arith

check_prefix-4 : (p q : Prefix) (field : String) → check_prefix p 4 field ≡ ok q → IsOptional4 q
unfolding check_prefix wrong_family
check_prefix-4 p q field h = ground (arith, is_reserved-IsOrdinary p.addr)

check_prefix-6 : (p q : Prefix) (field : String) → check_prefix p 6 field ≡ ok q → IsOptional6 q
unfolding check_prefix wrong_family
check_prefix-6 p q field h = ground (arith, is_reserved-IsOrdinary p.addr)

module _ (l : Library) (value field : String) (q : Prefix) where
  pub optional_prefix-4 : optional_prefix l value 4 field ≡ ok q → IsOptional4 q
  unfolding optional_prefix
  optional_prefix-4 h = by_text (l.parse_prefix value) refl
    where
      by_text : (o : Option Prefix) → l.parse_prefix value ≡ o → IsOptional4 q
      by_text none e = ground arith
      by_text (some p) e = ground (arith, check_prefix-4 p q field)

  pub optional_prefix-6 : optional_prefix l value 6 field ≡ ok q → IsOptional6 q
  unfolding optional_prefix
  optional_prefix-6 h = by_text (l.parse_prefix value) refl
    where
      by_text : (o : Option Prefix) → l.parse_prefix value ≡ o → IsOptional6 q
      by_text none e = ground arith
      by_text (some p) e = ground (arith, check_prefix-6 p q field)

-- The address lies in the server's network and is not the server's own.
abbrev pub IsInside : Prefix → Addr → Type 0
IsInside server a = (prefix_is_valid server ≡ true) × (contains server a ≡ true) × (a ≢ server.addr)

-- What a client's addresses satisfy, given the server's.
pub record IsClientOf (server a : TunnelAddresses) : Type 0 where
  pub host4 :
      (prefix_is_valid a.ipv4 ≡ false)
      ⊎ ((prefix_is_valid a.ipv4 ≡ true)
          × (is4 a.ipv4.addr ≡ true)
          × (bits a.ipv4 ≡ 32)
          × IsOrdinary a.ipv4.addr
          × IsInside server.ipv4 a.ipv4.addr)
  pub host6 :
      (prefix_is_valid a.ipv6 ≡ false)
      ⊎ ((prefix_is_valid a.ipv6 ≡ true)
          × (is6 a.ipv6.addr ≡ true)
          × (bits a.ipv6 ≡ 128)
          × IsOrdinary a.ipv6.addr
          × IsInside server.ipv6 a.ipv6.addr)
  pub present : (prefix_is_valid a.ipv4 ≡ true) ⊎ (prefix_is_valid a.ipv6 ≡ true)

-- An absent prefix, or a single ordinary address.
abbrev pub IsHost : ℕ → Prefix → Type 0
IsHost n p =
    (prefix_is_valid p ≡ false) ⊎ ((prefix_is_valid p ≡ true) × (bits p ≡ n) × IsOrdinary p.addr)

outside-IsInside :
    (server p : Prefix)
    → outside server p ≡ false
    → (prefix_is_valid p ≡ false) ⊎ IsInside server p.addr
unfolding outside
outside-IsInside server p h = ground (arith, addr_eq.equals_iff p.addr server.addr)

host_only-4 :
    (p v : Prefix) (e : ConfigError)
    → IsOptional4 p
    → host_only p 32 e ≡ ok v
    → IsHost 32 v × ((prefix_is_valid v ≡ false) ⊎ (is4 v.addr ≡ true))
unfolding host_only
host_only-4 p v e o h = ground arith

host_only-6 :
    (p v : Prefix) (e : ConfigError)
    → IsOptional6 p
    → host_only p 128 e ≡ ok v
    → IsHost 128 v × ((prefix_is_valid v ≡ false) ⊎ (is6 v.addr ≡ true))
unfolding host_only
host_only-6 p v e o h = ground arith

place_client-IsClientOf :
    (server a : TunnelAddresses) (v4 v6 : Prefix)
    → IsHost 32 v4
    → (prefix_is_valid v4 ≡ false) ⊎ (is4 v4.addr ≡ true)
    → IsHost 128 v6
    → (prefix_is_valid v6 ≡ false) ⊎ (is6 v6.addr ≡ true)
    → place_client server v4 v6 ≡ ok a
    → IsClientOf server a
unfolding place_client
place_client-IsClientOf server a v4 v6 h4 f4 h6 f6 e =
    ground (arith, outside-IsInside server.ipv4 v4, outside-IsInside server.ipv6 v6)

pub client_prefixes-IsClientOf :
    (l : Library) (server a : TunnelAddresses) (cl : Client)
    → client_prefixes l server cl ≡ ok a
    → IsClientOf server a
unfolding client_prefixes
client_prefixes-IsClientOf l server a cl h =
    let (p4, e4, rest4) = >>=-eq-ok (optional_prefix l cl.tunnel_ipv4 4 "client tunnel_ipv4") _ h in
    let (v4, f4, rest5) = >>=-eq-ok (host_only p4 32 not_32) _ rest4 in
    let (p6, e6, rest6) =
      >>=-eq-ok (optional_prefix l cl.tunnel_ipv6 6 "client tunnel_ipv6") _ rest5 in
    let (v6, f6, rest7) = >>=-eq-ok (host_only p6 128 not_128) _ rest6 in
    let host4 =
      host_only-4 p4 v4 not_32 (optional_prefix-4 l cl.tunnel_ipv4 "client tunnel_ipv4" p4 e4) f4 in
    let host6 =
      host_only-6 p6 v6 not_128 (optional_prefix-6 l cl.tunnel_ipv6 "client tunnel_ipv6" p6 e6)
        f6 in
    place_client-IsClientOf server a v4 v6 host4.0 host4.1 host6.0 host6.1 rest7

-- A client's addresses are ones that a session accepts.
pub IsClientOf-IsAddressSet :
    (server a : TunnelAddresses) → IsClientOf server a → IsAddressSet (addresses a)
unfolding addresses prefixes
IsClientOf-IsAddressSet server a c = ground arith

-- The server's own prefixes: each of its family, and one at least.
pub record IsServer (a : TunnelAddresses) : Type 0 where
  pub optional4 : IsOptional4 a.ipv4
  pub optional6 : IsOptional6 a.ipv6
  pub some_prefix : (prefix_is_valid a.ipv4 ≡ true) ⊎ (prefix_is_valid a.ipv6 ≡ true)

pub server_addresses-IsServer :
    (l : Library) (c : Config) (a : TunnelAddresses) → server_addresses l c ≡ ok a → IsServer a
unfolding server_addresses
server_addresses-IsServer l c a h =
    let (v4, e4, h1) =
      >>=-eq-ok (optional_prefix l c.server.tunnel_ipv4 4 "server.tunnel_ipv4") _ h in
    let (v6, e6, h2) =
      >>=-eq-ok (optional_prefix l c.server.tunnel_ipv6 6 "server.tunnel_ipv6") _ h1 in
    from_parts v4 v6 (optional_prefix-4 l _ _ v4 e4) (optional_prefix-6 l _ _ v6 e6) h2
  where
    from_parts :
        (v4 v6 : Prefix)
        → IsOptional4 v4
        → IsOptional6 v6
        → (if not (prefix_is_valid v4) && not (prefix_is_valid v6)
            then err no_server_address
            else ok (record { ipv4 = v4; ipv6 = v6 }))
          ≡ ok a
        → IsServer a
    from_parts v4 v6 h4 h6 e = ground arith

-- ===== src/Health/Configured.antt =====
-- internal/connectip/tunnel: health_linux.go on an interface that tun_linux.go has configured.
use jiejie_masque_unified.Base.{
  ◌%◌, ◌==◌, nat_eq, true, ℕ, ◌^◌, ◌<◌, ◌≤◌, ◌≡◌, refl, ◌∙◌, ap, subst, Option, none, some, List,
  In, String, arith,
}
use jiejie_masque_unified.Base.Fallible.{ok}
use jiejie_masque_unified.Net.{ip4, be_bytes, Prefix, prefix_of}
use jiejie_masque_unified.Config.{
  Config, Library, TunnelAddresses, prefixes, server_addresses, ok as accepted,
}
use jiejie_masque_unified.Config.Prefixes.{IsOptional4, server_addresses-IsServer}
use jiejie_masque_unified.Tunnel.{Event, Kernel, Device, cidr_mask, configure_addresses}
use jiejie_masque_unified.Tunnel.Setup.{Interface, IsRaised, interface, ipv4_set, ipv6_set}
use jiejie_masque_unified.Tunnel.Server.{present, configure_addresses-server}
use jiejie_masque_unified.Health.{NetAddr, ip_net, NetInterface, check_interface}
use jiejie_masque_unified.Health.Check.{IsHealthy, check_interface_iff}
use jiejie_masque_unified.Health.Masks.{to16, normalize-cidr_mask}

-- What package net tells of an interface: whether IFF_UP is among its flags, its MTU, and its IPv4
-- address, in the form of 16 bytes, with its mask.
pub record Tells (i : Interface) (n : NetInterface) : Type 0 where
  pub up_told : (f : ℕ) → i.flags ≡ some f → n.up ≡ (f % 2 == 1)
  pub mtu_told : (m : ℕ) → i.mtu ≡ some m → n.mtu ≡ m
  pub ipv4_told :
      (a m : List ℕ)
      → i.address ≡ some a
      → i.netmask ≡ some m
      → (addrs : List NetAddr) × (n.addrs ≡ some addrs) × In (ip_net (to16 a) m) addrs

ipv6_set-keeps :
    (o : Option Prefix) (i : Interface)
    → ((ipv6_set o i).flags ≡ i.flags)
      × ((ipv6_set o i).mtu ≡ i.mtu)
      × ((ipv6_set o i).address ≡ i.address)
      × ((ipv6_set o i).netmask ≡ i.netmask)
ipv6_set-keeps none i = (refl, refl, refl, refl)
ipv6_set-keeps (some p) i = (refl, refl, refl, refl)

present_of : (x n : ℕ) → present (prefix_of (ip4 x) n) ≡ some (prefix_of (ip4 x) n)
present_of x n = ground arith

odd : {told raised : ℕ} → IsRaised told raised → (raised % 2 == 1) ≡ true
odd h = ground (arith, h.up)

-- An interface that was given the prefix is healthy for it.
Tells-IsHealthy :
    (j before : Interface) (o : Option Prefix) (i : NetInterface) (x n mtu told raised : ℕ)
    → x < 2 ^ 32
    → IsRaised told raised
    → n ≤ 32
    → mtu < 2 ^ 32
    → j ≡ ipv6_set o (ipv4_set mtu (some (prefix_of (ip4 x) n)) told raised before)
    → Tells j i
    → IsHealthy i (prefix_of (ip4 x) n) mtu
Tells-IsHealthy j before o i x n mtu told raised b up_set small m eq tells =
    let (flags, size, address, netmask) =
      ipv6_set-keeps o (ipv4_set mtu (some (prefix_of (ip4 x) n)) told raised before) in
    let (addrs, read, listed) =
      tells.ipv4_told (be_bytes 4 x) (cidr_mask n) (ap (λ k. k.address) eq ∙ address)
        (ap (λ k. k.netmask) eq ∙ netmask ∙ ap (λ n. some (cidr_mask n)) (omega arith)) in
    record {
      running = tells.up_told raised (ap (λ k. k.flags) eq ∙ flags) ∙ odd up_set;
      sized = tells.mtu_told mtu (ap (λ k. k.mtu) eq ∙ size ∙ ap some (omega (arith, m)));
      addressed = (
        addrs,
        read,
        (ip_net (to16 (be_bytes 4 x)) (cidr_mask n), listed, normalize-cidr_mask x n b small),
      );
    }

module _ (l : Library) (c : Config) (a : TunnelAddresses) (k : Kernel) (d : Device) (t : List Event)
    (h : server_addresses l c ≡ accepted a) where
  -- After ConfigureAddresses has succeeded for the addresses of an accepted configuration, with the
  -- IPv4 prefix `x`/`n` of a 32-bit address and an MTU below 2^32, CheckInterface finds no fault with
  -- that prefix and that MTU, if package net tells of the interface as it is: up if IFF_UP is among the
  -- flags, and the IPv4 address in the form of 16 bytes.
  pub configured-check_interface :
      (x n : ℕ) (t' : List Event) (by_name : String → Option NetInterface) (i : NetInterface)
      → a.ipv4 ≡ prefix_of (ip4 x) n
      → x < 2 ^ 32
      → d.mtu < 2 ^ 32
      → configure_addresses k d (prefixes a) t ≡ (ok tt, t')
      → by_name d.name ≡ some i
      → Tells (interface d.name t') i
      → check_interface by_name d.name (prefix_of (ip4 x) n) d.mtu ≡ ok tt
  configured-check_interface x n t' by_name i four b m e f tells =
      let (told, raised, up, set) = configure_addresses-server l c a k d t h t' e in
      let same =
        ap (λ p. ipv6_set (present a.ipv6) (ipv4_set d.mtu p told raised (interface d.name t)))
          (ap present four ∙ present_of x n) in
      (check_interface_iff by_name d.name (prefix_of (ip4 x) n) d.mtu).1 (
        i,
        f,
        Tells-IsHealthy (interface d.name t') (interface d.name t) (present a.ipv6) i x n d.mtu told
            raised b up small m (set ∙ same) tells,
      )
    where
      small : n ≤ 32
      small = ground (arith, subst IsOptional4 four (server_addresses-IsServer l c a h).optional4)

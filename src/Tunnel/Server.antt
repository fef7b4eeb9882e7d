-- ===== src/Tunnel/Server.antt =====
-- internal/connectip/tunnel/tun_linux.go with internal/connectip/config/config.go: the device of a server,
-- configured with the addresses of its configuration.
use jiejie_masque_unified.Base.{
  ℕ, ◌-◌, ◌^◌, ◌≤◌, ◌≡◌, ◌≢◌, refl, subst, ap, ◌∙◌, ◌⊎◌, inl, inr, not, ◌||◌, ltb, Bool, true,
  false, Option, none, some, List, ◌∷◌, String, Option-cases, length, if◌then◌else◌, arith,
}
use jiejie_masque_unified.Net.{
  Prefix, prefix_is_valid, is4, bits, Addr, zero_addr, ip4, ip6, length-be_bytes,
}
use jiejie_masque_unified.Config.{
  Config, Library, TunnelAddresses, prefixes, server_addresses, ok as accepted,
}
use jiejie_masque_unified.Config.Prefixes.{IsServer, server_addresses-IsServer}
use jiejie_masque_unified.Tunnel.{
  Result, err, open_device, open_failed, prepare_file, open_tun, close_unless_ok, Call, close_fd,
  socket_failed, ip_command_failed, socket, ip_addr_replace, Event, Kernel, TunError, Sys, resume,
  reply, ◌>>=◌, return, require, ok, Device, Chosen, choose, choose_all, choose_prefixes, as_slice,
  cidr_mask, call, ignore, then_close, with_socket, set_addr, set_mtu, bring_up,
  configure_interface, configure_link, configure_ipv4, configure_ipv6, configure_chosen,
  configure_addresses,
}
use jiejie_masque_unified.Tunnel.Setup.{interface, IsRaised, ipv4_set, ipv6_set}
use jiejie_masque_unified.Tunnel.Setting.{configure_addresses_sets}

-- A prefix that is there.
abbrev pub present : Prefix → Option Prefix
present p = if prefix_is_valid p then some p else none

abbrev pub server_choice : TunnelAddresses → Chosen
server_choice a = record { v4 = present a.ipv4; v6 = present a.ipv6 }

choose_prefixes-server :
    (a : TunnelAddresses) → IsServer a → choose_prefixes (prefixes a) ≡ ok (server_choice a)
unfolding choose_prefixes choose_all choose prefixes
choose_prefixes-server a s = ground arith

-- A kernel that answers every call with success and takes the name.
pub record IsWilling (k : Kernel) (name : String) : Type 0 where
  pub named : k.valid_name name ≡ true
  pub takes : (b : List ℕ) → length b ≡ 4 → k.valid_inet4 b ≡ true
  pub answers : (t : List Event) (c : Call) → k.answer t c ≢ none

-- Code that succeeds after every history.
record Succeeds {A : Type 0} (m : Sys A) : Type 0 where
  done : (t : List Event) → (x : A) × (t' : List Event) × (m t ≡ (ok x, t'))

>>=-Succeeds :
    {A B : Type 0} {m : Sys A} {next : A → Sys B}
    → Succeeds m
    → ((x : A) → Succeeds (next x))
    → Succeeds (m >>= next)
>>=-Succeeds {next = next} h rest = record {
  done = λ t.
      let (x, t', e) = h.done t in
      let (y, t'', f) = (rest x).done t' in (y, t'', ap (resume next) e ∙ f);
}

return-Succeeds : {A : Type 0} (x : A) → Succeeds (return x)
return-Succeeds x = record { done = λ t. (x, t, refl) }

require-Succeeds : (b : Bool) (e : TunError) → b ≡ true → Succeeds (require b e)
require-Succeeds b e h = record { done = λ t. (tt, t, rw h) }

pub length-cidr_mask : (ones : ℕ) → length (cidr_mask ones) ≡ 4
unfolding cidr_mask
length-cidr_mask ones = length-be_bytes 4 (2 ^ 32 - 2 ^ (32 - ones))

length-as_slice : (a : Addr) → is4 a ≡ true → length (as_slice a) ≡ 4
length-as_slice zero_addr h = cc
length-as_slice (ip4 a) h = length-be_bytes 4 a
length-as_slice (ip6 a z) h = cc

module _ (k : Kernel) (name : String) (w : IsWilling k name) where
  call-Succeeds : (c : Call) (e : TunError) → Succeeds (call k c e)
  unfolding call
  call-Succeeds c e = record {
    done = λ t. elim (Option-cases (k.answer t c)) [
      | inl refused ↦ absurd (w.answers t c refused)
      | inr (n, given) ↦ (n, (c, some n) ∷ t, ap (reply c e t) given)
    ];
  }

  with_socket-Succeeds :
      (e : TunError) (body : ℕ → Sys (Unit {0}))
      → ((fd : ℕ) → Succeeds (body fd))
      → Succeeds (with_socket k e body)
  unfolding with_socket then_close
  with_socket-Succeeds e body h = >>=-Succeeds (call-Succeeds socket e) (λ fd. closed fd)
    where
      closed : (fd : ℕ) → Succeeds (then_close k fd (body fd))
      closed fd = record {
        done = λ t.
            let (x, t', same) = (h fd).done t in
            (x, ignore k (close_fd fd) t', ap (λ r. (r.0, ignore k (close_fd fd) r.1)) same);
      }

  configure_link-Succeeds : (mtu fd : ℕ) → Succeeds (configure_link k name mtu fd)
  unfolding configure_link set_mtu bring_up
  configure_link-Succeeds mtu fd =
      search (>>=-Succeeds, return-Succeeds, call-Succeeds, require-Succeeds, w.named) depth 12

  configure_interface-Succeeds :
      (p : Prefix) (mtu fd : ℕ)
      → (not (not (is4 p.addr) || not (prefix_is_valid p) || ltb 32 (bits p))) ≡ true
      → k.valid_inet4 (as_slice p.addr) ≡ true
      → k.valid_inet4 (cidr_mask (bits p)) ≡ true
      → Succeeds (configure_interface k name p mtu fd)
  unfolding configure_interface set_addr set_mtu bring_up
  configure_interface-Succeeds p mtu fd h a m =
      search (>>=-Succeeds, return-Succeeds, call-Succeeds, require-Succeeds, w.named, h, a, m)
        depth 20

  prepare_file-Succeeds : (fd mtu : ℕ) → Succeeds (prepare_file k fd name mtu)
  unfolding prepare_file
  prepare_file-Succeeds fd mtu =
      search (>>=-Succeeds, return-Succeeds, call-Succeeds, require-Succeeds, w.named) depth 12

  -- The device has the name that the kernel gave it.
  abbrev IsNamed : Result TunError Device × List Event → Type 0
  IsNamed (ok d, t) = d.name ≡ k.name_given name
  IsNamed (err e, t) = Unit

  prepare_file-IsNamed : (fd mtu : ℕ) (t : List Event) → IsNamed (prepare_file k fd name mtu t)
  unfolding prepare_file call
  prepare_file-IsNamed fd mtu t = ground arith

  pub open_tun-succeeds :
      (mtu : ℕ) (t : List Event)
      → (d : Device) × (t' : List Event) × (open_tun k name mtu t ≡ (ok d, t'))
        × (d.name ≡ k.name_given name)
  unfolding open_tun close_unless_ok
  open_tun-succeeds mtu t =
      let (fd, t1, e) = (call-Succeeds open_device open_failed).done t in
      let (d, t2, f) = (prepare_file-Succeeds fd mtu).done t1 in
      (
        d,
        t2,
        ap (resume (λ fd u. close_unless_ok k fd (prepare_file k fd name mtu u))) e
            ∙ ap (close_unless_ok k fd) f,
        subst IsNamed f (prepare_file-IsNamed fd mtu t1),
      )

module _ (k : Kernel) (d : Device) (w : IsWilling k d.name) where
  configure_ipv4-Succeeds :
      (p : Prefix)
      → (prefix_is_valid p ≡ false)
        ⊎ ((prefix_is_valid p ≡ true) × (is4 p.addr ≡ true) × (bits p ≤ 32))
      → Succeeds (configure_ipv4 k d (present p))
  unfolding configure_ipv4
  configure_ipv4-Succeeds p (inl absent) = rw absent (
      with_socket-Succeeds k d.name w socket_failed (configure_link k d.name d.mtu)
        (configure_link-Succeeds k d.name w d.mtu))
  configure_ipv4-Succeeds p (inr (valid, four, within)) = rw valid (
      with_socket-Succeeds k d.name w socket_failed (configure_interface k d.name p d.mtu) (λ fd.
        configure_interface-Succeeds k d.name w p d.mtu fd (ground arith)
          (w.takes (as_slice p.addr) (length-as_slice p.addr four))
          (w.takes (cidr_mask (bits p)) (length-cidr_mask (bits p)))))

  configure_ipv6-Succeeds : (p : Option Prefix) → Succeeds (configure_ipv6 k d.name p)
  unfolding configure_ipv6
  configure_ipv6-Succeeds none = return-Succeeds tt
  configure_ipv6-Succeeds (some p) =
      >>=-Succeeds (call-Succeeds k d.name w (ip_addr_replace d.name p) ip_command_failed)
        (λ u. return-Succeeds tt)

module _ (l : Library) (c : Config) (a : TunnelAddresses) (k : Kernel) (d : Device) (t : List Event)
    (h : server_addresses l c ≡ accepted a) where
  server : IsServer a
  server = server_addresses-IsServer l c a h

  -- With the addresses of an accepted configuration, whenever ConfigureAddresses succeeds, the
  -- interface has the MTU; its flags are those that the kernel told last, with IFF_UP set and
  -- every other flag as it was; it has the server's IPv4 address with its mask if the server has one,
  -- and otherwise the address and mask it had; and the server's IPv6 prefix, if there is one, is
  -- added to those it had.
  pub configure_addresses-server :
      (t' : List Event)
      → configure_addresses k d (prefixes a) t ≡ (ok tt, t')
      → (told : ℕ) × (raised : ℕ) × IsRaised told raised
        × (interface d.name t'
            ≡ ipv6_set
                (present a.ipv6)
                (ipv4_set d.mtu (present a.ipv4) told raised (interface d.name t)))
  configure_addresses-server t' e =
      configure_addresses_sets k d (prefixes a) (server_choice a) t t'
        (choose_prefixes-server a server) e

  -- With the addresses of an accepted configuration, ConfigureAddresses succeeds if every call of the
  -- kernel and of the command does, for a name and an address of four bytes that unix takes.
  pub configure_addresses-succeeds :
      IsWilling k d.name
      → (t' : List Event) × (configure_addresses k d (prefixes a) t ≡ (ok tt, t'))
  unfolding configure_addresses configure_chosen
  configure_addresses-succeeds w =
      let (u, t', e) =
        (>>=-Succeeds (configure_ipv4-Succeeds k d w a.ipv4 (ground (arith, server.optional4)))
            (λ u. configure_ipv6-Succeeds k d w (present a.ipv6))).done
          t in
      (t', rw (choose_prefixes-server a server) e)

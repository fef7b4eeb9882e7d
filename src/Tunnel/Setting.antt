-- ===== src/Tunnel/Setting.antt =====
-- internal/connectip/tunnel/tun_linux.go, ConfigureAddresses: what a success has done to the interface.
use jiejie_masque_unified.Base.{
  ℕ, ◌%◌, ◌^◌, ◌≡◌, refl, subst, nat_eq, string_eq, Option, none, some, List, ◌∷◌, String, beq_refl,
}
use jiejie_masque_unified.Net.{Prefix, bits}
use jiejie_masque_unified.Tunnel.{
  Request, siocsifmtu, siocsifflags, siocgifflags, close_fd, socket, ioctl, ip_addr_replace, Event,
  Kernel, TunError, Sys, resume, reply, ◌>>=◌, return, Result, ok, err, Device, Chosen,
  choose_prefixes, as_slice, cidr_mask, set_up, call, ignore, then_close, with_socket, set_addr,
  set_mtu, bring_up, configure_interface, configure_link, configure_ipv4, configure_ipv6,
  configure_chosen, configure_addresses,
}
use jiejie_masque_unified.Tunnel.Setup.{
  Interface, perform, interface, Changed, Acts, set_up-IsRaised, Sets, Raises, raise, Sets-Acts,
  Sets-Raises-Acts, Raises-Sets-Acts, require-Acts, return-Acts, ipv4_set, ipv6_set, interface_set,
}

module _ (name : String) (k : Kernel) where
  -- A request whose meaning does not depend on the answer.
  ioctl-Acts :
      (fd : ℕ) (r : Request) (f : Interface → Interface) (e : TunError)
      → ((x : ℕ) (i : Interface) → perform r x i ≡ f i)
      → Acts name (Sets f) (call k (ioctl fd name r) e)
  unfolding call interface
  ioctl-Acts fd r f e h = record { changes = λ t. answered t (k.answer t (ioctl fd name r)) }
    where
      answered :
          (t : List Event) (o : Option ℕ) → Changed name (Sets f) t (reply (ioctl fd name r) e t o)
      answered t none = tt
      answered t (some n) = rw (beq_refl name) (h n (interface name t))

  -- The flags are asked for and given back.
  flags-Acts :
      (fd : ℕ) (e f : TunError)
      → Acts name (Raises raise) (
          call k (ioctl fd name siocgifflags) e >>= λ flags.
          call k (ioctl fd name (siocsifflags (set_up flags))) f)
  unfolding call interface
  flags-Acts fd e f = record { changes = λ t. asked t (k.answer t (ioctl fd name siocgifflags)) }
    where
      given :
          (t : List Event) (x : ℕ) (o : Option ℕ)
          → Changed name (Raises raise) t (
              reply
                (ioctl fd name (siocsifflags (set_up x)))
                f
                ((ioctl fd name siocgifflags, some x) ∷ t)
                o)
      given t x none = tt
      given t x (some n) = (x % 2 ^ 16, set_up x, set_up-IsRaised x, rw (beq_refl name) refl)

      asked :
          (t : List Event) (o : Option ℕ)
          → Changed name (Raises raise) t (
              resume
                (λ flags. call k (ioctl fd name (siocsifflags (set_up flags))) f)
                (reply (ioctl fd name siocgifflags) e t o))
      asked t none = tt
      asked t (some x) = given t x _

  replace-Acts :
      (p : Prefix) (e : TunError)
      → Acts name (Sets (λ i. record i { ipv6 = p ∷ i.ipv6 })) (call k (ip_addr_replace name p) e)
  unfolding call interface
  replace-Acts p e = record { changes = λ t. answered t (k.answer t (ip_addr_replace name p)) }
    where
      answered :
          (t : List Event) (o : Option ℕ)
          → Changed name
              (Sets (λ i. record i { ipv6 = p ∷ i.ipv6 }))
              t
              (reply (ip_addr_replace name p) e t o)
      answered t none = tt
      answered t (some n) = rw (beq_refl name) refl

  set_addr-Acts :
      (fd : ℕ) (addr : List ℕ) (r : Request) (f : Interface → Interface) (e : TunError)
      → ((x : ℕ) (i : Interface) → perform r x i ≡ f i)
      → Acts name (Sets f) (set_addr k fd name addr r e)
  unfolding set_addr
  set_addr-Acts fd addr r f e h =
      Sets-Acts name (λ i. i) f (require-Acts name (k.valid_name name) e)
        (λ u.
          Sets-Acts name (λ i. i) f (require-Acts name (k.valid_inet4 addr) e)
            (λ u. ioctl-Acts fd r f e h))

  set_mtu-Acts :
      (fd mtu : ℕ) (e f : TunError)
      → Acts name (Sets (λ i. record i { mtu = some (mtu % 2 ^ 32) })) (set_mtu k fd name mtu e f)
  unfolding set_mtu
  set_mtu-Acts fd mtu e f =
      Sets-Acts name (λ i. i) (λ i. record i { mtu = some (mtu % 2 ^ 32) })
        (require-Acts name (k.valid_name name) e)
        (λ u. ioctl-Acts fd (siocsifmtu (mtu % 2 ^ 32)) _ f (λ x i. refl))

  bring_up-Acts : (fd : ℕ) (e f g : TunError) → Acts name (Raises raise) (bring_up k fd name e f g)
  unfolding bring_up
  bring_up-Acts fd e f g =
      Sets-Raises-Acts name (λ i. i) raise (require-Acts name (k.valid_name name) e)
        (λ u. flags-Acts fd f g)

  with_socket-Acts :
      (R : Interface → Interface → Type 0) (e : TunError) (body : ℕ → Sys (Unit {0}))
      → ((fd : ℕ) → Acts name R (body fd))
      → Acts name R (with_socket k e body)
  unfolding with_socket then_close call ignore interface
  with_socket-Acts R e body h = record { changes = λ t. answered t (k.answer t socket) }
    where
      closed :
          (t : List Event) (fd : ℕ) (o : Option ℕ) (r : Result TunError (Unit {0}) × List Event)
          → Changed name R t r
          → Changed name R t (r.0, (close_fd fd, o) ∷ r.1)
      closed t fd o (ok u, t') c = c
      closed t fd o (err x, t') c = tt

      answered :
          (t : List Event) (o : Option ℕ)
          → Changed name R t (resume (λ fd. then_close k fd (body fd)) (reply socket e t o))
      answered t none = tt
      answered t (some fd) =
          closed t fd _ (body fd ((socket, some fd) ∷ t)) ((h fd).changes ((socket, some fd) ∷ t))

module _ (k : Kernel) (d : Device) where
  -- The end that both branches share.
  mtu_up-Acts :
      (fd : ℕ) (e f g h p : TunError)
      → Acts d.name
          (Raises (ipv4_set d.mtu none))
          (set_mtu k fd d.name d.mtu e f >>= λ u. bring_up k fd d.name g h p >>= λ v. return tt)
  mtu_up-Acts fd e f g h p =
      Sets-Raises-Acts d.name (λ i. record i { mtu = some (d.mtu % 2 ^ 32) }) raise
        (set_mtu-Acts d.name k fd d.mtu e f)
        (λ u.
          Raises-Sets-Acts d.name raise (λ i. i) (bring_up-Acts d.name k fd g h p)
            (λ v. return-Acts d.name tt))

  configure_ipv4-Acts :
      (p : Option Prefix) → Acts d.name (Raises (ipv4_set d.mtu p)) (configure_ipv4 k d p)
  unfolding configure_ipv4 configure_link configure_interface
  configure_ipv4-Acts none =
      with_socket-Acts d.name k (Raises (ipv4_set d.mtu none)) _ _ (λ fd. mtu_up-Acts fd _ _ _ _ _)
  configure_ipv4-Acts (some p) =
      with_socket-Acts d.name k (Raises (ipv4_set d.mtu (some p))) _ _ (λ fd.
        Sets-Raises-Acts d.name (λ i. i) (ipv4_set d.mtu (some p)) (require-Acts d.name _ _)
          (λ u.
            Sets-Raises-Acts d.name (λ i. record i { address = some (as_slice p.addr) })
              (λ x y i. ipv4_set d.mtu none x y (record i { netmask = some (cidr_mask (bits p)) }))
              (set_addr-Acts d.name k fd _ _ _ _ (λ x i. refl))
              (λ u.
                Sets-Raises-Acts d.name (λ i. record i { netmask = some (cidr_mask (bits p)) })
                  (ipv4_set d.mtu none) (set_addr-Acts d.name k fd _ _ _ _ (λ x i. refl))
                  (λ u. mtu_up-Acts fd _ _ _ _ _))))

  configure_ipv6-Acts :
      (p : Option Prefix) → Acts d.name (Sets (ipv6_set p)) (configure_ipv6 k d.name p)
  unfolding configure_ipv6
  configure_ipv6-Acts none = return-Acts d.name tt
  configure_ipv6-Acts (some p) =
      Sets-Acts d.name (ipv6_set (some p)) (λ i. i) (replace-Acts d.name k p _)
        (λ u. return-Acts d.name tt)

  -- A success of ConfigureAddresses sets what its choice of prefixes says, and gives the flags back that
  -- the kernel told, raised.
  pub configure_addresses_sets :
      (prefixes : List Prefix) (c : Chosen) (t t' : List Event)
      → choose_prefixes prefixes ≡ ok c
      → configure_addresses k d prefixes t ≡ (ok tt, t')
      → Raises (interface_set d.mtu c.v4 c.v6) (interface d.name t) (interface d.name t')
  unfolding configure_addresses configure_chosen
  configure_addresses_sets prefixes c t t' e h =
      subst (Changed d.name (Raises (interface_set d.mtu c.v4 c.v6)) t) h (
        rw e (
          (Raises-Sets-Acts d.name (ipv4_set d.mtu c.v4) (ipv6_set c.v6) (configure_ipv4-Acts c.v4)
              (λ u. configure_ipv6-Acts c.v6)).changes
            t))

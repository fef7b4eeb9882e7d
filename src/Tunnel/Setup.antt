-- ===== src/Tunnel/Setup.antt =====
-- internal/connectip/tunnel/tun_linux.go: the meaning of its requests for the interface, and how code
-- that runs them one after another changes it.
use jiejie_masque_unified.Base.{
  ℕ, ◌%◌, ◌/◌, ◌^◌, ◌≡◌, refl, ap, ◌∙◌, ◌==◌, nat_eq, string_eq, Bool, true, false, Option, none,
  some, List, [], ◌∷◌, String, if◌then◌else◌, arith,
}
use jiejie_masque_unified.Net.{Prefix, bits}
use jiejie_masque_unified.Tunnel.{
  Request, siocsifaddr, siocsifnetmask, siocsifmtu, siocsifflags, siocgifflags, ioctl,
  ip_addr_replace, Event, TunError, Sys, resume, ◌>>=◌, return, require, Result, ok, err, as_slice,
  cidr_mask, set_up,
}

-- An interface as the requests leave it, with all of its flags, and the flags that the kernel told last;
-- none is what no request has set or asked for.
pub record Interface : Type 0 where
  pub address : Option (List ℕ)
  pub netmask : Option (List ℕ)
  pub mtu : Option ℕ
  pub flags : Option ℕ
  pub flags_told : Option ℕ
  pub ipv6 : List Prefix

abbrev pub bare : Interface
bare = record {
  address = none;
  netmask = none;
  mtu = none;
  flags = none;
  flags_told = none;
  ipv6 = [];
}

-- The meaning of a request that succeeds with an answer; the flags are a word of 16 bits, which the
-- kernel tells or is given as a whole.
abbrev pub perform : Request → ℕ → Interface → Interface
perform (siocsifaddr a) x i = record i { address = some a }
perform (siocsifnetmask m) x i = record i { netmask = some m }
perform (siocsifmtu n) x i = record i { mtu = some n }
perform (siocsifflags f) x i = record i { flags = some f }
perform siocgifflags x i = record i { flags = some (x % 2 ^ 16); flags_told = some (x % 2 ^ 16) }

abbrev pub perform_event : String → Event → Interface → Interface
perform_event name (ioctl fd n r, some x) i = if n == name then perform r x i else i
perform_event name (ip_addr_replace n p, some x) i =
    if n == name then record i { ipv6 = p ∷ i.ipv6 } else i
perform_event name _ i = i

-- The interface of a name after a history.
unfoldable pub interface : String → List Event → Interface
interface name [] = bare
interface name (e ∷ t) = perform_event name e (interface name t)

-- A success changes the interface as `R` says.
abbrev pub Changed :
    {A : Type 0}
    → String
    → (Interface → Interface → Type 0)
    → List Event
    → Result TunError A × List Event
    → Type 0
Changed name R t (ok x, t') = R (interface name t) (interface name t')
Changed name R t (err e, t') = Unit

pub record Acts {A : Type 0} (name : String) (R : Interface → Interface → Type 0) (m : Sys A)
    : Type 0 where
  pub changes : (t : List Event) → Changed name R t (m t)

-- The second word of flags is the first with IFF_UP, the lowest bit, and every other bit as it was.
pub record IsRaised (before after : ℕ) : Type 0 where
  pub up : after % 2 ≡ 1
  pub others : after / 2 ≡ before / 2

pub set_up-IsRaised : (x : ℕ) → IsRaised (x % 2 ^ 16) (set_up x)
unfolding set_up
set_up-IsRaised x = record { up = ground arith; others = ground arith }

abbrev pub Sets : (Interface → Interface) → Interface → Interface → Type 0
Sets f i j = j ≡ f i

-- The change depends on the flags told and on these flags raised.
abbrev pub Raises : (ℕ → ℕ → Interface → Interface) → Interface → Interface → Type 0
Raises F i j = (told : ℕ) × (raised : ℕ) × IsRaised told raised × (j ≡ F told raised i)

abbrev pub raise : ℕ → ℕ → Interface → Interface
raise told raised i = record i { flags = some raised; flags_told = some told }

module _ (name : String) where
  pub >>=-Acts :
      {A B : Type 0} {R S : Interface → Interface → Type 0} (Q : Interface → Interface → Type 0)
      {m : Sys A} {next : A → Sys B}
      → ((i j k : Interface) → R i j → S j k → Q i k)
      → Acts name R m
      → ((x : A) → Acts name S (next x))
      → Acts name Q (m >>= next)
  >>=-Acts {A = A} {B = B} {R = R} {S = S} Q {m = m} {next = next} joins h rest = record {
    changes = λ t. after t (m t) (h.changes t);
  }
    where
      rechanged :
          (t t' : List Event) (r : Result TunError B × List Event)
          → R (interface name t) (interface name t')
          → Changed name S t' r
          → Changed name Q t r
      rechanged t t' (ok y, t'') e c = joins _ _ _ e c
      rechanged t t' (err x, t'') e c = tt

      after :
          (t : List Event) (r : Result TunError A × List Event)
          → Changed name R t r
          → Changed name Q t (resume next r)
      after t (ok x, t') e = rechanged t t' (next x t') e ((rest x).changes t')
      after t (err x, t') e = tt

  pub Sets-Acts :
      {A B : Type 0} (f g : Interface → Interface) {m : Sys A} {next : A → Sys B}
      → Acts name (Sets f) m
      → ((x : A) → Acts name (Sets g) (next x))
      → Acts name (Sets (λ i. g (f i))) (m >>= next)
  Sets-Acts f g = >>=-Acts (Sets (λ i. g (f i))) (λ i j k e h. h ∙ ap g e)

  pub Sets-Raises-Acts :
      {A B : Type 0} (f : Interface → Interface) (F : ℕ → ℕ → Interface → Interface) {m : Sys A}
      {next : A → Sys B}
      → Acts name (Sets f) m
      → ((x : A) → Acts name (Raises F) (next x))
      → Acts name (Raises (λ x y i. F x y (f i))) (m >>= next)
  Sets-Raises-Acts f F =
      >>=-Acts (Raises (λ x y i. F x y (f i))) (λ i j k e (x, y, r, h). (x, y, r, h ∙ ap (F x y) e))

  pub Raises-Sets-Acts :
      {A B : Type 0} (F : ℕ → ℕ → Interface → Interface) (g : Interface → Interface) {m : Sys A}
      {next : A → Sys B}
      → Acts name (Raises F) m
      → ((x : A) → Acts name (Sets g) (next x))
      → Acts name (Raises (λ x y i. g (F x y i))) (m >>= next)
  Raises-Sets-Acts F g =
      >>=-Acts (Raises (λ x y i. g (F x y i))) (λ i j k (x, y, r, e) h. (x, y, r, h ∙ ap g e))

  pub require-Acts : (b : Bool) (e : TunError) → Acts name (Sets (λ i. i)) (require b e)
  require-Acts true e = record { changes = λ t. refl }
  require-Acts false e = record { changes = λ t. tt }

  pub return-Acts : {A : Type 0} (x : A) → Acts name (Sets (λ i. i)) (return x)
  return-Acts x = record { changes = λ t. refl }

-- What ConfigureAddresses means to do, with the flags that the kernel told and those it was given.
abbrev pub ipv4_set : ℕ → Option Prefix → ℕ → ℕ → Interface → Interface
ipv4_set mtu none told raised i = record i {
  mtu = some (mtu % 2 ^ 32);
  flags = some raised;
  flags_told = some told;
}
ipv4_set mtu (some p) told raised i = record i {
  address = some (as_slice p.addr);
  netmask = some (cidr_mask (bits p));
  mtu = some (mtu % 2 ^ 32);
  flags = some raised;
  flags_told = some told;
}

abbrev pub ipv6_set : Option Prefix → Interface → Interface
ipv6_set none i = i
ipv6_set (some p) i = record i { ipv6 = p ∷ i.ipv6 }

-- The change of a success.
abbrev pub interface_set : ℕ → Option Prefix → Option Prefix → ℕ → ℕ → Interface → Interface
interface_set mtu v4 v6 told raised i = ipv6_set v6 (ipv4_set mtu v4 told raised i)

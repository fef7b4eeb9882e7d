-- ===== src/Tunnel.antt =====
-- internal/connectip/tunnel/tun_linux.go: the TUN device. A function runs against a history of calls
-- of the kernel; what the kernel answers to a call may depend on the whole history.
pub mod Descriptors
pub mod Setup
pub mod Setting
pub mod Server
pub mod Counters
pub mod Tests
use jiejie_masque_unified.Base.{
  ℕ, ◌+◌, ◌-◌, ◌%◌, ◌/◌, ◌^◌, ◌==◌, nat_eq, not, ltb, ◌||◌, ◌&&◌, Bool, true, false, Option, none,
  some, List, [], ◌∷◌, String, if◌then◌else◌,
}
pub use jiejie_masque_unified.Base.Fallible.{Result, ok, err}
use jiejie_masque_unified.Net.{
  Addr, zero_addr, ip4, ip6, is4, is6, be_bytes, Prefix, prefix_is_valid, bits,
}

-- The requests of ioctl on an interface, with what the request carries.
pub data Request : Type 0 where
  siocsifaddr siocsifnetmask : List ℕ → Request
  siocsifmtu siocsifflags : ℕ → Request
  siocgifflags : Request

-- The calls of the kernel and, last, of the command `ip`. A number is a descriptor.
pub data Call : Type 0 where
  open_device : Call
  tunsetiff : ℕ → String → Call
  set_nonblock new_file close_fd : ℕ → Call
  socket : Call
  ioctl : ℕ → String → Request → Call
  ip_addr_replace : String → Prefix → Call

-- A call with its answer: none is an error, and a number is a descriptor or the flags asked for.
abbrev pub Event : Type 0
Event = Call × Option ℕ

-- The environment: what unix.NewIfreq and SetInet4Addr accept, the name that a request has after
-- TUNSETIFF, and the answers to calls. A history has its last call first.
pub record Kernel : Type 0 where
  pub valid_name : String → Bool
  pub valid_inet4 : List ℕ → Bool
  pub name_given : String → String
  pub answer : List Event → Call → Option ℕ

pub data TunError : Type 0 where
  open_failed bad_name tunsetiff_failed nonblock_failed file_failed : TunError
  no_prefix several_ipv4 several_ipv6 invalid_prefixes : TunError
  socket_failed invalid_ipv4_prefix address_failed netmask_failed mtu_failed : TunError
  get_flags_failed set_up_failed ipv6_failed ip_command_failed : TunError

abbrev pub Sys : Type 0 → Type 0
Sys A = List Event → Result TunError A × List Event

abbrev pub resume :
    {A B : Type 0} → (A → Sys B) → Result TunError A × List Event → Result TunError B × List Event
resume next (ok x, t) = next x t
resume next (err e, t) = (err e, t)

infixl 5 ◌>>=◌ ◌>>◌
abbrev pub ◌>>=◌ : {A B : Type 0} → Sys A → (A → Sys B) → Sys B
◌>>=◌ m next t = resume next (m t)

abbrev pub ◌>>◌ : {A B : Type 0} → Sys A → Sys B → Sys B
m >> next = m >>= λ _. next

abbrev pub return : {A : Type 0} → A → Sys A
return x t = (ok x, t)

abbrev pub fail : {A : Type 0} → TunError → Sys A
fail e t = (err e, t)

abbrev pub require : Bool → TunError → Sys (Unit {0})
require true e = return tt
require false e = fail e

-- The open file is known by its descriptor.
pub record Device : Type 0 where
  pub file : ℕ
  pub name : String
  pub mtu : ℕ

-- The two prefixes that ConfigureAddresses picks.
pub record Chosen : Type 0 where
  pub v4 : Option Prefix
  pub v6 : Option Prefix

-- One round of its loop.
unfoldable pub choose : Prefix → Chosen → Result TunError Chosen
choose p c =
    if is4 p.addr
    then elim c.v4 [ some q ↦ err several_ipv4 | none ↦ ok (record c { v4 = some p }) ]
    else if is6 p.addr
    then elim c.v6 [ some q ↦ err several_ipv6 | none ↦ ok (record c { v6 = some p }) ]
    else ok c

unfoldable pub choose_all : List Prefix → Chosen → Result TunError Chosen
choose_all [] c = ok c
choose_all (p ∷ rest) c = elim (choose p c) [ err e ↦ err e | ok c' ↦ choose_all rest c' ]

abbrev pub is_none : Option Prefix → Bool
is_none none = true
is_none (some p) = false

-- The tests before any call.
unfoldable pub choose_prefixes : List Prefix → Result TunError Chosen
choose_prefixes [] = err no_prefix
choose_prefixes (p ∷ rest) = elim (choose_all (p ∷ rest) (record { v4 = none; v6 = none })) [
  | err e ↦ err e
  | ok c ↦ if is_none c.v4 && is_none c.v6 then err invalid_prefixes else ok c
]

-- `AsSlice` of an IPv4 address.
abbrev pub as_slice : Addr → List ℕ
as_slice (ip4 a) = be_bytes 4 a
as_slice (ip6 a z) = be_bytes 16 a
as_slice zero_addr = []

-- `net.CIDRMask(ones, 32)`
unfoldable pub cidr_mask : ℕ → List ℕ
cidr_mask ones = be_bytes 4 (2 ^ 32 - 2 ^ (32 - ones))

-- `flags | unix.IFF_UP` on 16 bits; IFF_UP is 1.
unfoldable pub set_up : ℕ → ℕ
set_up flags = let word = flags % 2 ^ 16 in if word % 2 == 1 then word else word + 1

abbrev pub reply : Call → TunError → List Event → Option ℕ → Result TunError ℕ × List Event
reply c e t none = (err e, (c, none) ∷ t)
reply c e t (some n) = (ok n, (c, some n) ∷ t)

module _ (k : Kernel) where
  unfoldable pub call : Call → TunError → Sys ℕ
  call c e t = reply c e t (k.answer t c)

  -- A call whose result is thrown away.
  unfoldable pub ignore : Call → List Event → List Event
  ignore c t = (c, k.answer t c) ∷ t

  -- A deferred close that a success calls off.
  unfoldable pub close_unless_ok :
      {A : Type 0} → ℕ → Result TunError A × List Event → Result TunError A × List Event
  close_unless_ok fd (ok x, t) = (ok x, t)
  close_unless_ok fd (err e, t) = (err e, ignore (close_fd fd) t)

  unfoldable pub then_close : ℕ → {A : Type 0} → Sys A → Sys A
  then_close fd body t = ((body t).0, ignore (close_fd fd) (body t).1)

  -- A socket for the time of a body.
  unfoldable pub with_socket : TunError → (ℕ → Sys (Unit {0})) → Sys (Unit {0})
  with_socket e body = do fd ← call socket e; then_close fd (body fd)

  unfoldable pub prepare_file : ℕ → String → ℕ → Sys Device
  prepare_file fd name mtu = do
    require (k.valid_name name) bad_name
    call (tunsetiff fd name) tunsetiff_failed
    call (set_nonblock fd) nonblock_failed
    call (new_file fd) file_failed
    return (record { file = fd; name = k.name_given name; mtu = mtu })

  unfoldable pub open_tun : String → ℕ → Sys Device
  open_tun name mtu = do
    fd ← call open_device open_failed
    λ t. close_unless_ok fd (prepare_file fd name mtu t)

  -- The closure `setAddr`, with the error that its caller wraps.
  unfoldable pub set_addr : ℕ → String → List ℕ → Request → TunError → Sys ℕ
  set_addr fd name addr request e = do
    require (k.valid_name name) e
    require (k.valid_inet4 addr) e
    call (ioctl fd name request) e

  unfoldable pub set_mtu : ℕ → String → ℕ → TunError → TunError → Sys ℕ
  set_mtu fd name mtu name_error e = do
    require (k.valid_name name) name_error
    call (ioctl fd name (siocsifmtu (mtu % 2 ^ 32))) e

  unfoldable pub bring_up : ℕ → String → TunError → TunError → TunError → Sys ℕ
  bring_up fd name name_error get_error set_error = do
    require (k.valid_name name) name_error
    flags ← call (ioctl fd name siocgifflags) get_error
    call (ioctl fd name (siocsifflags (set_up flags))) set_error

  unfoldable pub configure_interface : String → Prefix → ℕ → ℕ → Sys (Unit {0})
  configure_interface name p mtu fd = do
    require (not (not (is4 p.addr) || not (prefix_is_valid p) || ltb 32 (bits p)))
        invalid_ipv4_prefix
    set_addr fd name (as_slice p.addr) (siocsifaddr (as_slice p.addr)) address_failed
    set_addr fd name (cidr_mask (bits p)) (siocsifnetmask (cidr_mask (bits p))) netmask_failed
    set_mtu fd name mtu bad_name mtu_failed
    bring_up fd name bad_name get_flags_failed set_up_failed
    return tt

  -- The branch without an IPv4 prefix.
  unfoldable pub configure_link : String → ℕ → ℕ → Sys (Unit {0})
  configure_link name mtu fd = do
    set_mtu fd name mtu ipv6_failed ipv6_failed
    bring_up fd name ipv6_failed ipv6_failed ipv6_failed
    return tt

  unfoldable pub configure_ipv6 : String → Option Prefix → Sys (Unit {0})
  configure_ipv6 name none = return tt
  configure_ipv6 name (some p) = do call (ip_addr_replace name p) ip_command_failed; return tt

  unfoldable pub configure_ipv4 : Device → Option Prefix → Sys (Unit {0})
  configure_ipv4 d none = with_socket socket_failed (configure_link d.name d.mtu)
  configure_ipv4 d (some p) = with_socket socket_failed (configure_interface d.name p d.mtu)

  -- What follows the choice of prefixes.
  unfoldable pub configure_chosen : Device → Result TunError Chosen → Sys (Unit {0})
  configure_chosen d (err e) = fail e
  configure_chosen d (ok c) = do configure_ipv4 d c.v4; configure_ipv6 d.name c.v6

  unfoldable pub configure_addresses : Device → List Prefix → Sys (Unit {0})
  configure_addresses d prefixes = configure_chosen d (choose_prefixes prefixes)

  unfoldable pub configure : Device → Prefix → Sys (Unit {0})
  configure d p = configure_addresses d (p ∷ [])

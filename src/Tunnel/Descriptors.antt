-- ===== src/Tunnel/Descriptors.antt =====
-- internal/connectip/tunnel/tun_linux.go: what is opened is closed, or given to the device.
use jiejie_masque_unified.Base.{
  ℕ, ◌+◌, ◌≡◌, refl, ◌==◌, nat_eq, Bool, true, false, Option, none, some, List, [], ◌∷◌, String,
  if◌then◌else◌, arith,
}
use jiejie_masque_unified.Net.{Prefix}
use jiejie_masque_unified.Tunnel.{
  Call, open_device, tunsetiff, set_nonblock, new_file, close_fd, socket, ioctl, ip_addr_replace,
  Event, Kernel, TunError, Sys, resume, reply, then_close, ◌>>=◌, return, require, Result, ok, err,
  Device, Request, Chosen, configure_chosen, socket_failed, open_failed, bad_name, tunsetiff_failed,
  nonblock_failed, file_failed, ip_command_failed, choose_prefixes, call, ignore, close_unless_ok,
  with_socket, prepare_file, open_tun, set_addr, set_mtu, bring_up, configure_interface,
  configure_link, configure_ipv4, configure_ipv6, configure_addresses,
}

-- The event opens the descriptor, or closes it.
abbrev opens_now : ℕ → Event → Bool
opens_now d (open_device, some fd) = fd == d
opens_now d (socket, some fd) = fd == d
opens_now d _ = false

abbrev closes_now : ℕ → Event → Bool
closes_now d (close_fd fd, answer) = fd == d
closes_now d _ = false

-- How often a history opens a descriptor of this number, and closes one.
unfoldable pub opened : ℕ → List Event → ℕ
opened d [] = 0
opened d (e ∷ t) = (if opens_now d e then 1 else 0) + opened d t

unfoldable pub closed : ℕ → List Event → ℕ
closed d [] = 0
closed d (e ∷ t) = (if closes_now d e then 1 else 0) + closed d t

-- From one history to a later one, every descriptor is closed as often as opened, but for those that
-- stay open, counted by `left`.
abbrev pub Leaves : (ℕ → ℕ) → List Event → List Event → Type 0
Leaves left t t' = (d : ℕ) → opened d t' + closed d t ≡ opened d t + closed d t' + left d

abbrev pub none_left : ℕ → ℕ
none_left d = 0

abbrev pub one_left : ℕ → ℕ → ℕ
one_left fd d = if fd == d then 1 else 0

-- The descriptor that stays open after Open is the device's.
abbrev pub LeavesFile : List Event → Result TunError Device × List Event → Type 0
LeavesFile t (ok device, t') = Leaves (one_left device.file) t t'
LeavesFile t (err e, t') = Leaves none_left t t'

-- Code that closes what it opens, however it ends.
record IsBalanced {A : Type 0} (m : Sys A) : Type 0 where
  leaves : (t : List Event) → Leaves none_left t (m t).1

-- The same from the history in which code began, for an outcome.
abbrev Ended : {A : Type 0} → List Event → Result TunError A × List Event → Type 0
Ended t r = Leaves none_left t r.1

>>=-IsBalanced :
    {A B : Type 0} {m : Sys A} {next : A → Sys B}
    → IsBalanced m
    → ((x : A) → IsBalanced (next x))
    → IsBalanced (m >>= next)
>>=-IsBalanced {A = A} {m = m} {next = next} h rest = record {
  leaves = λ t. after t (m t) (h.leaves t);
}
  where
    after :
        (t : List Event) (r : Result TunError A × List Event) → Ended t r → Ended t (resume next r)
    after t (ok x, t') e d = omega (arith, e d, (rest x).leaves t' d)
    after t (err f, t') e d = e d

require-IsBalanced : (b : Bool) (e : TunError) → IsBalanced (require b e)
require-IsBalanced true e = record { leaves = λ t d. omega arith }
require-IsBalanced false e = record { leaves = λ t d. omega arith }

return-IsBalanced : {A : Type 0} (x : A) → IsBalanced (return x)
return-IsBalanced x = record { leaves = λ t d. omega arith }

-- A call that opens and closes nothing.
abbrev IsNeutral : Call → Type 0
IsNeutral c = (d : ℕ) (o : Option ℕ) → (opens_now d (c, o) ≡ false) × (closes_now d (c, o) ≡ false)

module _ (k : Kernel) where
  call-IsBalanced : (c : Call) (e : TunError) → IsNeutral c → IsBalanced (call k c e)
  unfolding call opened closed
  call-IsBalanced c e n = record { leaves = λ t d. ground (arith, n d (k.answer t c)) }

  ioctl-IsBalanced :
      (fd : ℕ) (name : String) (r : Request) (e : TunError)
      → IsBalanced (call k (ioctl fd name r) e)
  ioctl-IsBalanced fd name r e = call-IsBalanced (ioctl fd name r) e (λ d o. (refl, refl))

  ip_addr_replace-IsBalanced :
      (name : String) (p : Prefix) (e : TunError) → IsBalanced (call k (ip_addr_replace name p) e)
  ip_addr_replace-IsBalanced name p e =
      call-IsBalanced (ip_addr_replace name p) e (λ d o. (refl, refl))

  ruleset balanced = (>>=-IsBalanced, require-IsBalanced, return-IsBalanced, ioctl-IsBalanced)

  configure_link-IsBalanced :
      (name : String) (mtu fd : ℕ) → IsBalanced (configure_link k name mtu fd)
  unfolding configure_link set_mtu bring_up
  configure_link-IsBalanced name mtu fd = search balanced

  configure_interface-IsBalanced :
      (name : String) (p : Prefix) (mtu fd : ℕ) → IsBalanced (configure_interface k name p mtu fd)
  unfolding configure_interface set_addr set_mtu bring_up
  configure_interface-IsBalanced name p mtu fd = search balanced depth 16

  with_socket-IsBalanced :
      (e : TunError) (body : ℕ → Sys (Unit {0}))
      → ((fd : ℕ) → IsBalanced (body fd))
      → IsBalanced (with_socket k e body)
  unfolding with_socket then_close call ignore opened closed
  with_socket-IsBalanced e body h = record { leaves = λ t. answered t (k.answer t socket) }
    where
      answered :
          (t : List Event) (o : Option ℕ)
          → Ended t (resume (λ fd. then_close k fd (body fd)) (reply socket e t o))
      answered t none d = omega arith
      answered t (some fd) d = omega (arith, (h fd).leaves ((socket, some fd) ∷ t) d)

  configure_ipv4-IsBalanced : (d : Device) (p : Option Prefix) → IsBalanced (configure_ipv4 k d p)
  unfolding configure_ipv4
  configure_ipv4-IsBalanced d none =
      with_socket-IsBalanced socket_failed _ (configure_link-IsBalanced d.name d.mtu)
  configure_ipv4-IsBalanced d (some p) =
      with_socket-IsBalanced socket_failed _ (configure_interface-IsBalanced d.name p d.mtu)

  configure_ipv6-IsBalanced :
      (name : String) (p : Option Prefix) → IsBalanced (configure_ipv6 k name p)
  unfolding configure_ipv6
  configure_ipv6-IsBalanced name none = return-IsBalanced tt
  configure_ipv6-IsBalanced name (some p) =
      >>=-IsBalanced (ip_addr_replace-IsBalanced name p ip_command_failed)
        (λ u. return-IsBalanced tt)

  -- Whatever the kernel answers, ConfigureAddresses closes every descriptor as often as it opens it,
  -- on success and on every error.
  pub configure_addresses-Leaves :
      (d : Device) (prefixes : List Prefix) (t : List Event)
      → Leaves none_left t (configure_addresses k d prefixes t).1
  unfolding configure_addresses configure_chosen
  configure_addresses-Leaves d prefixes = (chosen (choose_prefixes prefixes)).leaves
    where
      chosen : (r : Result TunError Chosen) → IsBalanced (configure_chosen k d r)
      chosen (err e) = record { leaves = λ t fd. omega arith }
      chosen (ok c) =
          >>=-IsBalanced (configure_ipv4-IsBalanced d c.v4)
            (λ u. configure_ipv6-IsBalanced d.name c.v6)

  -- prepareFile's device has the descriptor that it was given.
  abbrev HasFile : ℕ → Result TunError Device × List Event → Type 0
  HasFile fd (ok device, t) = device.file ≡ fd
  HasFile fd (err e, t) = Unit

  prepare_file-IsBalanced :
      (fd : ℕ) (name : String) (mtu : ℕ) → IsBalanced (prepare_file k fd name mtu)
  unfolding prepare_file
  prepare_file-IsBalanced fd name mtu =
      >>=-IsBalanced (require-IsBalanced (k.valid_name name) bad_name) (λ u.
        >>=-IsBalanced (call-IsBalanced (tunsetiff fd name) tunsetiff_failed (λ d o. (refl, refl)))
          (λ u.
            >>=-IsBalanced (call-IsBalanced (set_nonblock fd) nonblock_failed (λ d o. (refl, refl)))
              (λ u.
                >>=-IsBalanced (call-IsBalanced (new_file fd) file_failed (λ d o. (refl, refl)))
                  (λ u. return-IsBalanced _))))

  prepare_file-HasFile :
      (fd : ℕ) (name : String) (mtu : ℕ) (t : List Event)
      → HasFile fd (prepare_file k fd name mtu t)
  unfolding prepare_file call
  prepare_file-HasFile fd name mtu t = ground arith

  -- Open leaves no descriptor open when it fails, at whatever point, and only the device's own when
  -- it succeeds, whatever the kernel answers.
  pub open_tun-LeavesFile :
      (name : String) (mtu : ℕ) (t : List Event) → LeavesFile t (open_tun k name mtu t)
  unfolding open_tun call close_unless_ok ignore opened closed
  open_tun-LeavesFile name mtu t = answered (k.answer t open_device)
    where
      prepared :
          (fd : ℕ) (r : Result TunError Device × List Event)
          → Ended ((open_device, some fd) ∷ t) r
          → HasFile fd r
          → LeavesFile t (close_unless_ok k fd r)
      prepared fd (ok device, t') e same = λ d. rw same (omega (arith, e d))
      prepared fd (err f, t') e same = λ d. omega (arith, e d)

      answered :
          (o : Option ℕ)
          → LeavesFile t (
              resume
                (λ fd u. close_unless_ok k fd (prepare_file k fd name mtu u))
                (reply open_device open_failed t o))
      answered none = λ d. omega arith
      answered (some fd) =
          prepared fd _ ((prepare_file-IsBalanced fd name mtu).leaves ((open_device, some fd) ∷ t))
            (prepare_file-HasFile fd name mtu ((open_device, some fd) ∷ t))

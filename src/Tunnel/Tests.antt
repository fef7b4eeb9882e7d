-- ===== src/Tunnel/Tests.antt =====
-- A device of the server of Config/Tests.antt on a kernel that answers each call with 4, or refuses
-- the MTU, and the theorems at it.
use jiejie_masque_unified.Base.{
  ◌^◌, ◌-◌, ℕ, ◌≡◌, refl, ◌==◌, nat_eq, string_eq, Option, none, some, List, [], ◌∷◌, length,
}
use jiejie_masque_unified.Net.{ip4, prefix_of}
use jiejie_masque_unified.Config.{prefixes}
use jiejie_masque_unified.Config.Tests.{library, config}
use jiejie_masque_unified.Datapath.Tests.{server, served}
use jiejie_masque_unified.Tunnel.{
  Call, Event, close_fd, socket, ioctl, siocsifmtu, siocsifaddr, siocsifnetmask, Kernel, Device, ok,
  err, mtu_failed, choose, choose_all, choose_prefixes, cidr_mask, set_up, call, ignore,
  close_unless_ok, then_close, with_socket, prepare_file, open_tun, set_addr, set_mtu, bring_up,
  configure_interface, configure_link, configure_ipv6, configure_ipv4, configure_chosen,
  configure_addresses, configure,
}
use jiejie_masque_unified.Tunnel.Descriptors.{
  Leaves, none_left, LeavesFile, configure_addresses-Leaves, open_tun-LeavesFile,
}
use jiejie_masque_unified.Tunnel.Counters.{
  Transfer, read, write, stats, transfer, IsCounted, stats-IsCounted,
}
use jiejie_masque_unified.Tunnel.Setup.{interface, IsRaised, ipv4_set, ipv6_set}
use jiejie_masque_unified.Tunnel.Server.{
  present, IsWilling, configure_addresses-server, configure_addresses-succeeds,
}

program : Unit {0}
unfolding choose choose_all choose_prefixes cidr_mask set_up call ignore close_unless_ok then_close
    with_socket prepare_file open_tun set_addr set_mtu bring_up configure_interface configure_link
    configure_ipv6 configure_ipv4 configure_chosen configure_addresses configure prefixes
program = tt

abbrev pub kernel : Kernel
kernel = record {
  valid_name = λ name. name == "masque0";
  valid_inet4 = λ b. length b == 4;
  name_given = λ name. name;
  answer = λ t c. some 4;
}

abbrev answer_but_mtu : Call → Option ℕ
answer_but_mtu (ioctl fd name (siocsifmtu n)) = none
answer_but_mtu _ = some 4

abbrev refusing : Kernel
refusing = record kernel { answer = λ t. answer_but_mtu }

abbrev pub device : Device
device = record { file = 3; name = "masque0"; mtu = 1280 }

unfoldable pub history : List Event
unfolding program
history = (configure_addresses kernel device (prefixes server) []).1

pub configured : configure_addresses kernel device (prefixes server) [] ≡ (ok tt, history)
unfolding program history
configured = refl

-- The socket is closed before ConfigureAddresses reports the refused MTU.
refused : configure refusing device (prefix_of (ip4 0x0ac80001) 24) [] ≡ (
  err mtu_failed,
  (close_fd 4, some 4)
      ∷ (ioctl 4 "masque0" (siocsifmtu 1280), none)
      ∷ (ioctl 4 "masque0" (siocsifnetmask (255 ∷ 255 ∷ 255 ∷ 0 ∷ [])), some 4)
      ∷ (ioctl 4 "masque0" (siocsifaddr (10 ∷ 200 ∷ 0 ∷ 1 ∷ [])), some 4)
      ∷ (socket, some 4)
      ∷ [],
)
unfolding program
refused = refl

configure_addresses-Leaves_example :
    Leaves none_left [] (configure_addresses refusing device (prefixes server) []).1
configure_addresses-Leaves_example = configure_addresses-Leaves refusing device (prefixes server) []

open_tun-LeavesFile_example : LeavesFile [] (open_tun kernel "masque0" 1280 [])
open_tun-LeavesFile_example = open_tun-LeavesFile kernel "masque0" 1280 []

pub willing : IsWilling kernel "masque0"
willing = record { named = refl; takes = λ b h. rw h refl; answers = λ t c h. cc }

configure_addresses-server_example :
    (told : ℕ) × (raised : ℕ) × IsRaised told raised
    × (interface "masque0" history
        ≡ ipv6_set
            (present server.ipv6)
            (ipv4_set 1280 (present server.ipv4) told raised (interface "masque0" [])))
configure_addresses-server_example =
    configure_addresses-server library config server kernel device [] served history configured

configure_addresses-succeeds_example :
    (t' : List Event) × (configure_addresses kernel device (prefixes server) [] ≡ (ok tt, t'))
configure_addresses-succeeds_example =
    configure_addresses-succeeds library config server kernel device [] served willing

-- The kernel has told the flags 4.
flags_raised : (interface "masque0" history).flags ≡ some 5
unfolding program history interface
flags_raised = refl

-- The byte counter wraps around.
wrapped :
    stats (read (some 3) ∷ read (some (2 ^ 64 - 1)) ∷ [])
    ≡ record { rx_packets = 2; rx_bytes = 2; tx_packets = 0; tx_bytes = 0 }
unfolding stats transfer
wrapped = refl

abbrev transfers : List Transfer
transfers = write (some 40) ∷ read none ∷ read (some 100) ∷ []

stats-IsCounted_example : IsCounted transfers (stats transfers)
stats-IsCounted_example = stats-IsCounted transfers

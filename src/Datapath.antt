-- ===== src/Datapath.antt =====
-- cmd/jiejie-masque/main.go: the path of a packet between the TUN device and a session. What the
-- device, the connection and the context answer are inputs.
pub mod Isolation
pub mod Delivery
pub mod Dispatcher
pub mod Tests
use jiejie_masque_unified.Base.{
  ℕ, ◌==◌, nat_eq, string_eq, not, ◌&&◌, ◌||◌, Bool, true, false, Option, none, some, List, [], ◌∷◌,
  String, length, Go, ret, panics, ◌>>=◌, if◌then◌else◌,
}
use jiejie_masque_unified.Net.{Addr, ip4, ip6, prefix_is_valid, Prefix, contains}
use jiejie_masque_unified.Packet.{Bytes, Info, parse, destination}
use jiejie_masque_unified.Session.{Session, owns_address}
use jiejie_masque_unified.Manager.{World, lookup, close}
use jiejie_masque_unified.Config.{TunnelAddresses}

unfoldable pub first_prefix : TunnelAddresses → Prefix
first_prefix a = if prefix_is_valid a.ipv4 then a.ipv4 else a.ipv6

pub record IpRoute : Type 0 where
  pub start_ip : Addr
  pub end_ip : Addr

unfoldable pub connect_ip_routes : TunnelAddresses → TunnelAddresses → Bool → List IpRoute
connect_ip_routes client server advertise =
    let v6 : List IpRoute =
      if prefix_is_valid client.ipv6
      then (if advertise
          then record { start_ip = ip6 0 ""; end_ip = ip6 0xffffffffffffffffffffffffffffffff "" }
            ∷ []
          else [])
      else [] in
    if prefix_is_valid client.ipv4
    then record { start_ip = ip4 0; end_ip = ip4 0xffffffff } ∷ v6
    else v6

unfoldable pub contains_prefix : TunnelAddresses → Addr → Bool
contains_prefix a ip =
    prefix_is_valid a.ipv4 && contains a.ipv4 ip || prefix_is_valid a.ipv6 && contains a.ipv6 ip

unfoldable pub protocol_for_parse : String → Option String
protocol_for_parse protocol =
    if protocol == "connect-ip" || protocol == "cf-connect-ip" then some "connect-ip" else none

-- Errors by what errors.Is finds in them.
pub data IoError : Type 0 where
  canceled net_closed closed_pipe other_error : IoError

-- `done` says that the context has ended.
unfoldable pub normal_session_error : IoError → Bool → Bool
normal_session_error err done = done || (elim err [ other_error ↦ false | _ ↦ true ])

-- The tests of prepareSessionPacket on a parsed packet.
unfoldable pub admits : Session → TunnelAddresses → Bool → Option Info → Bool
admits s server done none = false
admits s server done (some info) =
    if not (owns_address s info.source)
    then false
    else if contains_prefix server info.destination
    then false
    else not done

unfoldable pub prepare_session_packet : Bytes → Session → TunnelAddresses → Bool → Go Bool
prepare_session_packet pkt s server done = do info ← parse pkt; ret (admits s server done info)

-- What ReadPacket answers.
pub data Read : Type 0 where
  packet : Bytes → Read
  failed : IoError → Read

-- One round of the reader sees the context three times: at the head of the loop, after a read that
-- fails, and at the end of prepareSessionPacket. The last field says whether the write to the TUN
-- device works.
pub record Turn : Type 0 where
  pub ended : Bool
  pub read : Read
  pub ended_at_error : Bool
  pub ended_at_select : Bool
  pub writable : Bool

-- How the reader stands after the given turns: it waits for more, has left the loop, or has closed
-- the session and left.
pub data Reader : Type 0 where
  waiting left closed : Reader

-- The packets written to the TUN device, in order, and how the reader stands.
abbrev pub Written : Type 0
Written = List Bytes × Reader

-- A packet that is dropped, or written and followed by the rest of the loop.
unfoldable pub write_packet : Bytes → Bool → Bool → Go Written → Go Written
write_packet pkt admitted writable rest =
    if not admitted
    then rest
    else if not writable
    then ret ([], closed)
    else (do (later, end) ← rest; ret (pkt ∷ later, end))

-- One round, after the read.
unfoldable pub read_turn : Session → TunnelAddresses → Read → Turn → Go Written → Go Written
read_turn s server (failed e) t rest =
    ret ([], if normal_session_error e t.ended_at_error then left else closed)
read_turn s server (packet pkt) t rest = do
  admitted ← prepare_session_packet pkt s server t.ended_at_select
  write_packet pkt admitted t.writable rest

unfoldable pub session_reader : Session → TunnelAddresses → List Turn → Go Written
session_reader s server [] = ret ([], waiting)
session_reader s server (t ∷ turns) =
    let rest = session_reader s server turns in
    if t.ended then ret ([], left) else read_turn s server t.read t rest

-- What the connection answers to WritePacket: an ICMP packet for the TUN device, or an empty one, and
-- an error; whether the device takes the ICMP packet; and whether the session's context has ended.
pub record Transport : Type 0 where
  pub write_packet_to : ℕ → Bytes → Bytes × Option IoError
  pub writable : Bool
  pub ended : ℕ → Bool

-- The end of dispatchTUNPacket, after WritePacket.
unfoldable pub after_write : Transport → ℕ → Bytes × Option IoError → World → World × List Bytes
after_write io s (icmp, error) w =
    let sent = not (length icmp == 0) in
    if sent && not io.writable then (close s w, icmp ∷ []) else (
      elim error [
        | none ↦ w
        | some e ↦ if normal_session_error e (io.ended s) then w else close s w
      ],
      if sent then icmp ∷ [] else [],
    )

-- What one packet from the TUN device does: the session that it is handed to, what goes back to the
-- device, and the world after it.
pub record Dispatched : Type 0 where
  pub handed : Option ℕ
  pub returned : List Bytes
  pub world : World

-- The lookup of a destination, and what follows it.
unfoldable pub deliver : Transport → Bytes → World → Option Addr → Dispatched
deliver io data' w none = record { handed = none; returned = []; world = w }
deliver io data' w (some ip) = elim (lookup ip w) [
  | none ↦ record { handed = none; returned = []; world = w }
  | some s ↦
      let after = after_write io s (io.write_packet_to s data') w in
      record { handed = some s; returned = after.1; world = after.0 }
]

unfoldable pub dispatch_tun_packet : Transport → Bytes → World → Go Dispatched
dispatch_tun_packet io data' w = do dst ← destination data'; ret (deliver io data' w dst)

-- One round of tunDispatcher: what other goroutines do to the sessions before the read ends, what the
-- device's Read gives, none on an error, and what answers while the packet is dispatched.
pub record TunTurn : Type 0 where
  pub meanwhile : World → World
  pub read : Option Bytes
  pub io : Transport

-- The packets dispatched, in order; whether the loop has reported an error and ended; and the world.
pub record Dispatches : Type 0 where
  pub packets : List Dispatched
  pub ended : Bool
  pub world : World

abbrev pub add_packet : Dispatched → Dispatches → Dispatches
add_packet d rest = record rest { packets = d ∷ rest.packets }

unfoldable pub tun_dispatcher : List TunTurn → World → Go Dispatches
tun_dispatcher [] w = ret (record { packets = []; ended = false; world = w })
tun_dispatcher (t ∷ turns) w = elim t.read [
  | none ↦ ret (record { packets = []; ended = true; world = t.meanwhile w })
  | some data' ↦ do
    d ← dispatch_tun_packet t.io data' (t.meanwhile w)
    rest ← tun_dispatcher turns d.world
    ret (add_packet d rest)
]

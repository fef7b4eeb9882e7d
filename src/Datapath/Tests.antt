-- ===== src/Datapath/Tests.antt =====
-- Packets of a client to the Internet, to another client and from a foreign address, and the theorems
-- at them.
use jiejie_masque_unified.Base.{
  some, inl, inr, sym, subst, In, ◌+◌, ◌*◌, ◌^◌, ◌≡◌, refl, nat_eq, string_eq, true, false, none,
  List, [], ◌∷◌, All, ret, Ensures,
}
use jiejie_masque_unified.Net.{
  big_endian_from, ip4, ip6, zero_addr, prefix_of, contains, is_unspecified, is_multicast,
  is_loopback,
}
use jiejie_masque_unified.Dict.{get, put, delete}
use jiejie_masque_unified.Packet.{
  Bytes, index, slice, uint16_at, valid, parse_ipv4, describe_ipv4, parse, destination,
}
use jiejie_masque_unified.Packet.RoundTrip.{ipv4_packet}
use jiejie_masque_unified.Session.{Session, owns_address, among}
use jiejie_masque_unified.Manager.{World, new_manager, lookup, lookup_locked}
use jiejie_masque_unified.Manager.Tests.{first, first-IsConsistent}
use jiejie_masque_unified.Manager.Invariant.{IsConsistent}
use jiejie_masque_unified.Config.{
  TunnelAddresses, server_addresses, ok, wrong_family, is_reserved, check_prefix, optional_prefix,
}
use jiejie_masque_unified.Config.Tests.{library, config, resolved_a, resolved_b, resolves}
use jiejie_masque_unified.Datapath.{
  TunTurn, tun_dispatcher, contains_prefix, admits, prepare_session_packet, Read, packet, failed,
  other_error, Turn, closed, write_packet, read_turn, session_reader, Transport, after_write,
  deliver, dispatch_tun_packet, normal_session_error,
}
use jiejie_masque_unified.Datapath.Isolation.{
  IsAdmissible, AvoidsClients, session_reader-AllAdmissible, session_reader-AvoidsClients,
}
use jiejie_masque_unified.Datapath.Dispatcher.{Deliveries, tun_dispatcher-Deliveries}
use jiejie_masque_unified.Manager.{close}
use jiejie_masque_unified.Manager.Closing.{close-IsConsistent}

program : Unit {0}
unfolding contains get put delete big_endian_from index slice uint16_at valid parse_ipv4
    describe_ipv4 parse destination owns_address among new_manager lookup lookup_locked
    contains_prefix admits prepare_session_packet write_packet read_turn session_reader after_write
    deliver dispatch_tun_packet normal_session_error server_addresses wrong_family is_reserved
    check_prefix optional_prefix is_unspecified is_multicast is_loopback
program = tt

abbrev session_a : Session
session_a = record {
  generation = 1;
  client_ip = ip4 0x0ac80002;
  client_ips = ip4 0x0ac80002 ∷ [];
  client_ipv4 = ip4 0x0ac80002;
  client_ipv6 = zero_addr;
  identity = "a";
  conn = true;
  on_close = false;
  manager = true;
  closed = false;
  removed = false;
  cancels = 0;
  conn_closes = 0;
  callbacks = 0;
}

abbrev pub server : TunnelAddresses
server = record {
  ipv4 = prefix_of (ip4 0x0ac80001) 24;
  ipv6 = prefix_of (ip6 (0x2602fb91 * 2 ^ 96 + 1) "") 64;
}

pub served : server_addresses library config ≡ ok server
unfolding program
served = refl

abbrev turn : Read → Turn
turn r = record {
  ended = false;
  read = r;
  ended_at_error = false;
  ended_at_select = false;
  writable = true;
}

abbrev to_internet : Bytes
to_internet = ipv4_packet 20 0x0ac80002 0x08080808 1 []

abbrev to_client : Bytes
to_client = ipv4_packet 20 0x0ac80002 0x0ac80003 1 []

abbrev spoofed : Bytes
spoofed = ipv4_packet 20 0x0ac80003 0x08080808 1 []

abbrev turns : List Turn
turns =
    turn (packet to_client)
    ∷ turn (packet to_internet)
    ∷ turn (packet spoofed)
    ∷ turn (failed other_error)
    ∷ []

one_packet : session_reader session_a server turns ≡ ret (to_internet ∷ [], closed)
unfolding program
one_packet = refl

session_reader-AllAdmissible_example :
    Ensures
      (λ out. All (IsAdmissible session_a server) out.0)
      (session_reader session_a server turns)
session_reader-AllAdmissible_example = session_reader-AllAdmissible session_a server turns

session_reader-AvoidsClients_example :
    Ensures
      (λ out. All (AvoidsClients (resolved_a ∷ resolved_b ∷ []) session_a) out.0)
      (session_reader session_a server turns)
session_reader-AvoidsClients_example =
    session_reader-AvoidsClients library config (resolved_a ∷ resolved_b ∷ []) server session_a
      turns resolves served

abbrev transport : Transport
transport = record { write_packet_to = λ s data'. ([], none); writable = true; ended = λ s. false }

-- A packet for session 1 of Manager/Tests.antt, one for nobody, and a failed read.
abbrev tun_turns : List TunTurn
tun_turns =
    record {
      meanwhile = λ w. w;
      read = some (ipv4_packet 20 0x08080808 0x0a140002 1 []);
      io = transport;
    }
    ∷ record { meanwhile = λ w. w; read = some to_internet; io = transport }
    ∷ record { meanwhile = close 1; read = none; io = transport }
    ∷ []

-- A session is closed while the third read waits.
keeps : (t : TunTurn) → In t tun_turns → (w : World) → IsConsistent w → IsConsistent (t.meanwhile w)
keeps t (inl e) w c = subst (λ u. IsConsistent (u.meanwhile w)) (sym e) c
keeps t (inr (inl e)) w c = subst (λ u. IsConsistent (u.meanwhile w)) (sym e) c
keeps t (inr (inr (inl e))) w c =
    subst (λ u. IsConsistent (u.meanwhile w)) (sym e) (close-IsConsistent 1 w c)
keeps t (inr (inr (inr e))) w c = absurd e

tun_dispatcher-Deliveries_example :
    Ensures (Deliveries tun_turns first) (tun_dispatcher tun_turns first)
tun_dispatcher-Deliveries_example =
    tun_dispatcher-Deliveries tun_turns first first-IsConsistent keeps

-- ===== src/Packet/Tests.antt =====
-- Packets of internal/connectip/packet/parse_test.go and the like, and the theorems at them.
use jiejie_masque_unified.Base.{
  ℕ, ◌≡◌, refl, ◌+◌, ◌*◌, ◌^◌, ◌↔◌, ◌<◌, true, false, some, [], ◌∷◌, ret, Ensures, arith,
}
use jiejie_masque_unified.Net.{big_endian_from}
use jiejie_masque_unified.Packet.{
  Bytes, Info, index, slice, uint16_at, valid, parse_ipv4, describe_ipv4, kind, skip_header,
  fragment_header, walk_round, walk_rounds, walk_ipv6_extensions, finish_ipv6, describe_ipv6,
  parse_ipv6, parse, port_matches, is_tcp_or_udp_destination_port,
}
use jiejie_masque_unified.Packet.Bounds.{ParsesWithin, parse-IsBounded}
use jiejie_masque_unified.Packet.Chain.{Chain, start, walk_ipv6_extensions-Chain}
use jiejie_masque_unified.Packet.Port.{HasPort, port_test_cases, ipv4_offset, ipv4_header_length}
use jiejie_masque_unified.Packet.RoundTrip.{
  Ipv6Fields, ipv6_with, Ipv4Fields, plain_fields, ipv4_with, ipv4_info_with, ipv6_packet,
  ipv6_info, ipv4_packet, ipv4_info, parse-ipv6_packet, parse-ipv4_packet, trailing_port,
}

program : Unit {0}
unfolding big_endian_from index slice uint16_at valid describe_ipv4 parse_ipv4 kind skip_header
    fragment_header walk_round walk_rounds walk_ipv6_extensions finish_ipv6 describe_ipv6 parse_ipv6
    parse port_matches is_tcp_or_udp_destination_port
program = tt

-- A UDP packet to port 5353 from fd00::1 to 2000::1.
abbrev datagram : Bytes
datagram = 0 ∷ 53 ∷ 20 ∷ 233 ∷ 0 ∷ 8 ∷ 0 ∷ 0 ∷ []

abbrev six : Bytes
six = ipv6_packet (0xfd * 2 ^ 120 + 1) (0x20 * 2 ^ 120 + 1) 17 datagram

six_parses :
    parse six ≡ ret (some (ipv6_info (0xfd * 2 ^ 120 + 1) (0x20 * 2 ^ 120 + 1) 17 datagram))
unfolding program
six_parses = refl

-- A destination-options header of 8 bytes, then TCP.
abbrev extended : Bytes
extended = ipv6_packet 1 2 60 (6 ∷ 0 ∷ 0 ∷ 0 ∷ 0 ∷ 0 ∷ 0 ∷ 0 ∷ 0 ∷ 80 ∷ 1 ∷ 187 ∷ [])

extended_port : is_tcp_or_udp_destination_port extended 443 ≡ ret true
unfolding program
extended_port = refl

parse-IsBounded_example : Ensures (ParsesWithin extended) (parse extended)
parse-IsBounded_example = parse-IsBounded extended

walk_ipv6_extensions-Chain_example :
    (walk_ipv6_extensions extended 40 60 true
      ≡ ret (some (record { offset = 48; next = 6; fragmented = false; first = true })))
    ↔ ((k : ℕ) × (k < 8)
        × Chain extended
            (record { offset = 48; next = 6; fragmented = false; first = true })
            (start 40 60 true)
            k)
walk_ipv6_extensions-Chain_example =
    walk_ipv6_extensions-Chain extended 40 60 true
      (record { offset = 48; next = 6; fragmented = false; first = true })

port_test_cases_example :
    Ensures
      (λ matched.
        (matched ≡ true) ↔ ((i : Info) × (parse extended ≡ ret (some i)) × HasPort extended 443 i))
      (is_tcp_or_udp_destination_port extended 443)
port_test_cases_example = port_test_cases extended 443

-- Traffic class 0xb8, a flow label, and 7 hops left.
abbrev labelled : Ipv6Fields
labelled = record {
  class_high = 11;
  label_high = 0x85;
  label_middle = 0x12;
  label_low = 0x34;
  hop_limit = 7;
}

parse-ipv6_packet_example :
    parse (ipv6_with labelled (0xfd * 2 ^ 120 + 1) (0x20 * 2 ^ 120 + 1) 17 datagram)
    ≡ ret (some (ipv6_info (0xfd * 2 ^ 120 + 1) (0x20 * 2 ^ 120 + 1) 17 datagram))
parse-ipv6_packet_example =
    parse-ipv6_packet labelled (0xfd * 2 ^ 120 + 1) (0x20 * 2 ^ 120 + 1) 17 datagram (omega arith)
      (omega arith) (omega arith, omega arith, omega arith, omega arith, omega arith) (omega arith)
      (omega arith) (omega arith)

-- One word of options, "don't fragment" set, and the third fragment of a packet.
abbrev marked : Ipv4Fields
marked = record plain_fields { words = 6; service = 0xb8; id_low = 9; flags = 1; ttl = 3 }

abbrev later : Ipv4Fields
later = record marked { flags = 0; more = true; fragment_offset = 370 }

whole_packet :
    parse (ipv4_with marked 32 0x0ac80002 0x08080808 17 (1 ∷ 1 ∷ 1 ∷ 0 ∷ datagram))
    ≡ ret (some (record (ipv4_info 0x0ac80002 0x08080808 17) { transport_offset = 24 }))
whole_packet =
    parse-ipv4_packet marked 32 0x0ac80002 0x08080808 17 (1 ∷ 1 ∷ 1 ∷ 0 ∷ datagram) (omega arith)
      (omega arith) (omega arith) (omega arith) (omega arith) (omega arith) (omega arith)
      (omega arith) (omega arith)

parse-ipv4_packet_example :
    parse (ipv4_with later 32 0x0ac80002 0x08080808 17 (1 ∷ 1 ∷ 1 ∷ 0 ∷ datagram))
    ≡ ret (some (ipv4_info_with later 0x0ac80002 0x08080808 17))
parse-ipv4_packet_example =
    parse-ipv4_packet later 32 0x0ac80002 0x08080808 17 (1 ∷ 1 ∷ 1 ∷ 0 ∷ datagram) (omega arith)
      (omega arith) (omega arith) (omega arith) (omega arith) (omega arith) (omega arith)
      (omega arith) (omega arith)

-- An ICMP packet with no payload.
abbrev ping : Bytes
ping = ipv4_packet 20 0x0ac80002 0x08080808 1 []

offset_of_payload : (ipv4_info 0x0ac80002 0x08080808 1).transport_offset ≡ ipv4_header_length ping
unfolding program
offset_of_payload = ipv4_offset ping (ipv4_info 0x0ac80002 0x08080808 1) refl refl refl

trailing_port_example :
    is_tcp_or_udp_destination_port (ipv4_packet 20 1 2 17 (0 ∷ 0 ∷ 0 ∷ 53 ∷ [])) (0 * 256 + 53)
    ≡ ret true
trailing_port_example = trailing_port 1 2 0 53 0 0 [] (omega arith) (omega arith)

-- ===== src/Packet/Port.antt =====
-- internal/connectip/packet: which packets IsTCPOrUDPDestinationPort matches, and the transport
-- offset that parseIPv4 reports.
use jiejie_masque_unified.Base.{
  ℕ, ◌+◌, ◌*◌, ◌%◌, ◌≤◌, ◌≡◌, ◌≢◌, refl, ◌∙◌, ◌⊎◌, ◌↔◌, ap, Bool, true, Option, none, some, length,
  get_or, Go, ret, panics, ◌>>=◌, Ensures, Ensures-ret, arith,
}
use jiejie_masque_unified.Packet.{
  Bytes, Info, index, slice, uint16_at, valid, describe_ipv4, parse_ipv4, describe_ipv6,
  finish_ipv6, parse_ipv6, parse, port_matches, is_tcp_or_udp_destination_port,
}
use jiejie_masque_unified.Packet.Bounds.{ParsesWithin, IsBounded, parse-IsBounded}

abbrev pub port_field : Bytes → Info → ℕ
port_field b i = get_or b (i.transport_offset + 2) 0 * 256 + get_or b (i.transport_offset + 2 + 1) 0

-- A first or only fragment with protocol TCP or UDP, whose buffer has four bytes at the transport
-- offset, the last two of which are the port.
pub record HasPort (b : Bytes) (port : ℕ) (i : Info) : Type 0 where
  pub transport : (i.protocol ≡ 6) ⊎ (i.protocol ≡ 17)
  pub first : i.first_fragment ≡ true
  pub readable : i.transport_offset + 4 ≤ length b
  pub offset : i.transport_offset ≢ 0
  pub carried : port_field b i ≡ port

port_matches-HasPort :
    (b : Bytes) (port : ℕ) (i : Info)
    → IsBounded b i
    → port_matches b port (some i) ≡ ret true
    → HasPort b port i
unfolding port_matches uint16_at
port_matches-HasPort b port i w h = ground arith

HasPort-port_matches :
    (b : Bytes) (port : ℕ) (i : Info) → HasPort b port i → port_matches b port (some i) ≡ ret true
unfolding port_matches uint16_at
HasPort-port_matches b port i h = ground arith

port_test_iff :
    (b : Bytes) (port : ℕ)
    → (is_tcp_or_udp_destination_port b port ≡ ret true)
      ↔ ((i : Info) × (parse b ≡ ret (some i)) × HasPort b port i)
unfolding is_tcp_or_udp_destination_port
port_test_iff b port =
    (matched (parse b) refl (parse-IsBounded b), λ t. rw t.1 (HasPort-port_matches b port t.0 t.2))
  where
    matched :
        (r : Go (Option Info))
        → parse b ≡ r
        → Ensures (ParsesWithin b) r
        → (r >>= port_matches b port) ≡ ret true
        → (i : Info) × (parse b ≡ ret (some i)) × HasPort b port i
    matched panics e w h = elim w [ ]
    matched (ret none) e w h = absurd (unfold port_matches in ground arith)
    matched (ret (some i)) e w h = (i, e, port_matches-HasPort b port i w h)

port_matches-ne-panics : (b : Bytes) (port : ℕ) (i : Option Info) → port_matches b port i ≢ panics
unfolding port_matches uint16_at
port_matches-ne-panics b port none = λ e. cc
port_matches-ne-panics b port (some i) = λ e. ground arith

port_test-ne-panics : (b : Bytes) (port : ℕ) → is_tcp_or_udp_destination_port b port ≢ panics
unfolding is_tcp_or_udp_destination_port
port_test-ne-panics b port =
    let (r, e, w) = Ensures-ret (ParsesWithin b) (parse b) (parse-IsBounded b) in
    rw e (port_matches-ne-panics b port r)

-- The port test reads nothing out of range, whatever the packet. It answers true exactly for the
-- packets that parse as the first or only fragment with protocol TCP or UDP, with a transport offset
-- that is not 0 and four bytes from there on in the buffer, the last two of which are the port.
-- Whether these bytes belong to the packet, or its transport header is complete, it does not ask.
pub port_test_cases :
    (b : Bytes) (port : ℕ)
    → Ensures
        (λ matched. (matched ≡ true) ↔ ((i : Info) × (parse b ≡ ret (some i)) × HasPort b port i))
        (is_tcp_or_udp_destination_port b port)
port_test_cases b port =
    answered (is_tcp_or_udp_destination_port b port) (port_test_iff b port)
      (port_test-ne-panics b port)
  where
    answered :
        {P : Type 0} (m : Go Bool)
        → (m ≡ ret true) ↔ P
        → m ≢ panics
        → Ensures (λ matched. (matched ≡ true) ↔ P) m
    answered (ret matched) same fine = (λ h. same.0 (ap ret h), λ h. let e = same.1 h in cc)
    answered panics same fine = absurd (fine refl)

abbrev pub ipv4_header_length : Bytes → ℕ
ipv4_header_length b = get_or b 0 0 % 16 * 4

ipv6_version : (b : Bytes) (i : Info) → parse_ipv6 b ≡ ret (some i) → i.version ≡ 6
unfolding parse_ipv6 describe_ipv6 finish_ipv6 slice index uint16_at
ipv6_version b i h = ground arith

describe_ipv4_offset :
    (b : Bytes) (ihl total : ℕ) (i : Info)
    → describe_ipv4 b (some (ihl, total)) ≡ ret (some i)
    → i.first_fragment ≡ true
    → i.transport_offset ≡ ihl
unfolding describe_ipv4 index slice uint16_at
describe_ipv4_offset b ihl total i h f = ground arith

valid_length :
    (b : Bytes) (ihl total : ℕ) → valid b ≡ ret (some (ihl, total)) → ihl ≡ ipv4_header_length b
unfolding valid index uint16_at
valid_length b ihl total h = ground arith

parse_ipv4_offset :
    (b : Bytes) (i : Info)
    → parse_ipv4 b ≡ ret (some i)
    → i.first_fragment ≡ true
    → i.transport_offset ≡ ipv4_header_length b
unfolding parse_ipv4
parse_ipv4_offset b i h f = from_header (valid b) refl h
  where
    from_header :
        (r : Go (Option (ℕ × ℕ)))
        → valid b ≡ r
        → (r >>= describe_ipv4 b) ≡ ret (some i)
        → i.transport_offset ≡ ipv4_header_length b
    from_header panics e g = cc
    from_header (ret none) e g = absurd (unfold describe_ipv4 in ground arith)
    from_header (ret (some (ihl, total))) e g =
        describe_ipv4_offset b ihl total i g f ∙ valid_length b ihl total e

-- An IPv4 packet whose fragment offset is 0 is reported with the length of its header as the
-- transport offset, whatever its protocol is and however short its payload.
pub ipv4_offset :
    (b : Bytes) (i : Info)
    → parse b ≡ ret (some i)
    → i.version ≡ 4
    → i.first_fragment ≡ true
    → i.transport_offset ≡ ipv4_header_length b
unfolding parse index
ipv4_offset b i h v f = ground (arith, ipv6_version b i, parse_ipv4_offset b i)

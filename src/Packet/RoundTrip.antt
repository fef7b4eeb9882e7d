-- ===== src/Packet/RoundTrip.antt =====
-- internal/connectip/packet: packets written field by field are read back. The writers below are the
-- reference; the program only reads.
use jiejie_masque_unified.Base.{
  ℕ, zero, suc, ◌+◌, ◌*◌, ◌/◌, ◌%◌, ◌^◌, ◌≤◌, ◌<◌, ◌≡◌, ◌≢◌, refl, ap, Bool, not, true, false, ◌&&◌,
  ◌||◌, some, [], ◌∷◌, ◌++◌, length, take, drop, ret, leb, ◌==◌, nat_eq, if◌then◌else◌, arith,
}
use jiejie_masque_unified.Net.{ip4, ip6, be_bytes, big_endian_from-be_bytes}
use jiejie_masque_unified.Packet.{
  Bytes, Info, index, slice, uint16_at, valid, describe_ipv4, parse_ipv4, describe_ipv6,
  finish_ipv6, parse_ipv6, parse, is_tcp_or_udp_destination_port, port_matches,
  walk_ipv6_extensions, walk_rounds, walk_round, kind,
}
use jiejie_masque_unified.Packet.Bounds.{take_all}

take-append : (n : ℕ) (xs ys : Bytes) → length xs ≡ n → take n (xs ++ ys) ≡ xs
take-append zero [] ys h = refl
take-append zero (x ∷ xs) ys h = absurd (omega arith)
take-append (suc n) [] ys h = absurd (omega arith)
take-append (suc n) (x ∷ xs) ys h = ap (◌∷◌ x) (take-append n xs ys (omega arith))

drop-append : (n : ℕ) (xs ys : Bytes) → length xs ≡ n → drop n (xs ++ ys) ≡ ys
drop-append zero [] ys h = refl
drop-append zero (x ∷ xs) ys h = absurd (omega arith)
drop-append (suc n) [] ys h = absurd (omega arith)
drop-append (suc n) (x ∷ xs) ys h = drop-append n xs ys (omega arith)

-- What the fixed header of an IPv6 packet has that the parser does not report: the traffic class, its
-- upper half apart, the flow label with the lower half, and the hop limit.
pub record Ipv6Fields : Type 0 where
  pub class_high : ℕ
  pub label_high : ℕ
  pub label_middle : ℕ
  pub label_low : ℕ
  pub hop_limit : ℕ

-- The fixed header of 40 bytes, and the payload.
abbrev pub ipv6_with : Ipv6Fields → ℕ → ℕ → ℕ → Bytes → Bytes
ipv6_with f src dst next payload =
    (0x60 + f.class_high)
    ∷ f.label_high
    ∷ f.label_middle
    ∷ f.label_low
    ∷ (length payload / 256)
    ∷ (length payload % 256)
    ∷ next
    ∷ f.hop_limit
    ∷ (be_bytes 16 src ++ (be_bytes 16 dst ++ payload))

abbrev pub ipv6_packet : ℕ → ℕ → ℕ → Bytes → Bytes
ipv6_packet =
    ipv6_with
      (record { class_high = 0; label_high = 0; label_middle = 0; label_low = 0; hop_limit = 64 })

-- The protocol is none of the extension headers that the walk passes.
abbrev pub IsOpaque : ℕ → Type 0
IsOpaque n = (n ≢ 0) × (n ≢ 43) × (n ≢ 60) × (n ≢ 51) × (n ≢ 44)

walk_opaque :
    (b : Bytes) (next : ℕ)
    → IsOpaque next
    → walk_ipv6_extensions b 40 next true
      ≡ ret (some (record { offset = 40; next = next; fragmented = false; first = true }))
unfolding walk_ipv6_extensions walk_rounds walk_round kind
walk_opaque b next h = ground arith

abbrev pub ipv6_info : ℕ → ℕ → ℕ → Bytes → Info
ipv6_info src dst next payload = record {
  version = 6;
  source = ip6 src "";
  destination = ip6 dst "";
  protocol = next;
  transport_offset = if (next == 6 || next == 17) && leb 4 (length payload) then 40 else 0;
  first_fragment = true;
  fragmented = false;
}

module _ (f : Ipv6Fields) (src dst next : ℕ) (payload : Bytes) (hs : src < 256 ^ 16)
    (hd : dst < 256 ^ 16) (opaque : IsOpaque next) (high : f.class_high < 16) where
  describe_ipv6_packet :
      describe_ipv6 (ipv6_with f src dst next payload) (40 + length payload)
      ≡ ret (some (ipv6_info src dst next payload))
  unfolding describe_ipv6 index slice finish_ipv6
  describe_ipv6_packet = ground (
    arith,
    walk_opaque (ipv6_with f src dst next payload) next opaque,
    take_all payload,
    big_endian_from-be_bytes 16 src hs,
    big_endian_from-be_bytes 16 dst hd,
  )

  -- An IPv6 packet that has no extension header and a nonempty payload whose length fits 16 bits is
  -- read back with its addresses and its protocol, whatever its traffic class, flow label and hop
  -- limit; the transport offset is 40 for TCP or UDP with at least four bytes of payload, and 0
  -- otherwise.
  pub parse-ipv6_packet :
      0 < length payload
      → length payload < 65536
      → parse (ipv6_with f src dst next payload) ≡ ret (some (ipv6_info src dst next payload))
  unfolding parse parse_ipv6 index uint16_at
  parse-ipv6_packet h k = ground (arith, describe_ipv6_packet, high)

-- What the header of an IPv4 packet has besides addresses, protocol and lengths: the length of the
-- header in words, service, identification, the upper two flags, of which the lower is "don't
-- fragment", "more fragments", the fragment offset in units of 8 bytes, time to live and checksum.
pub record Ipv4Fields : Type 0 where
  pub words : ℕ
  pub service : ℕ
  pub id_high : ℕ
  pub id_low : ℕ
  pub flags : ℕ
  pub more : Bool
  pub fragment_offset : ℕ
  pub ttl : ℕ
  pub checksum_high : ℕ
  pub checksum_low : ℕ

-- A header, and what follows its first 20 bytes: the options and the payload.
abbrev pub ipv4_with : Ipv4Fields → ℕ → ℕ → ℕ → ℕ → Bytes → Bytes
ipv4_with f total src dst proto rest =
    (0x40 + f.words)
    ∷ f.service
    ∷ (total / 256)
    ∷ (total % 256)
    ∷ f.id_high
    ∷ f.id_low
    ∷ (f.flags * 64 + (if f.more then 32 else 0) + f.fragment_offset / 256)
    ∷ (f.fragment_offset % 256)
    ∷ f.ttl
    ∷ proto
    ∷ f.checksum_high
    ∷ f.checksum_low
    ∷ (be_bytes 4 src ++ (be_bytes 4 dst ++ rest))

-- The fields of an unfragmented packet without options.
abbrev pub plain_fields : Ipv4Fields
plain_fields = record {
  words = 5;
  service = 0;
  id_high = 0;
  id_low = 0;
  flags = 0;
  more = false;
  fragment_offset = 0;
  ttl = 64;
  checksum_high = 0;
  checksum_low = 0;
}

abbrev pub ipv4_packet : ℕ → ℕ → ℕ → ℕ → Bytes → Bytes
ipv4_packet = ipv4_with plain_fields

abbrev pub ipv4_info_with : Ipv4Fields → ℕ → ℕ → ℕ → Info
ipv4_info_with f src dst proto = record {
  version = 4;
  source = ip4 src;
  destination = ip4 dst;
  protocol = proto;
  transport_offset = if f.fragment_offset == 0 then f.words * 4 else 0;
  first_fragment = f.fragment_offset == 0;
  fragmented = f.more || not (f.fragment_offset == 0);
}

abbrev pub ipv4_info : ℕ → ℕ → ℕ → Info
ipv4_info = ipv4_info_with plain_fields

-- An IPv4 packet, whose length field lies between its header's length and the buffer's and fits 16
-- bits, is read back with its addresses and its protocol, whatever its options, service,
-- identification, time to live and checksum. It is the first fragment exactly where its fragment
-- offset is 0, and fragmented exactly where more fragments follow or the offset is not 0; "don't
-- fragment" plays no part. The transport offset is the header's length in a first fragment, whatever
-- the protocol, and 0 in a later one.
pub parse-ipv4_packet :
    (f : Ipv4Fields) (total src dst proto : ℕ) (rest : Bytes)
    → 5 ≤ f.words
    → f.words < 16
    → f.flags < 4
    → f.fragment_offset < 8192
    → src < 256 ^ 4
    → dst < 256 ^ 4
    → f.words * 4 ≤ total
    → total ≤ 20 + length rest
    → total < 65536
    → parse (ipv4_with f total src dst proto rest) ≡ ret (some (ipv4_info_with f src dst proto))
unfolding parse parse_ipv4 valid describe_ipv4 index slice uint16_at
parse-ipv4_packet f total src dst proto rest h5 h16 flags offset hs hd low high word =
    ground (arith, big_endian_from-be_bytes 4 src hs, big_endian_from-be_bytes 4 dst hd)

-- The port test matches bytes behind the end of the packet: in a UDP packet whose length field says
-- that it ends with its header of 20 bytes, it reads a port from four bytes that follow the packet.
pub trailing_port :
    (src dst hi lo x y : ℕ) (rest : Bytes)
    → src < 256 ^ 4
    → dst < 256 ^ 4
    → is_tcp_or_udp_destination_port
        (ipv4_packet 20 src dst 17 (x ∷ y ∷ hi ∷ lo ∷ rest))
        (hi * 256 + lo)
      ≡ ret true
unfolding is_tcp_or_udp_destination_port port_matches uint16_at
trailing_port src dst hi lo x y rest hs hd = ground (
  arith,
  parse-ipv4_packet plain_fields 20 src dst 17 (x ∷ y ∷ hi ∷ lo ∷ rest) (omega arith) (omega arith)
      (omega arith) (omega arith) hs hd (omega arith) (omega arith) (omega arith),
)

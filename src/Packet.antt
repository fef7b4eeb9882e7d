-- ===== src/Packet.antt =====
-- internal/connectip/packet: parse.go and ipv4.go. A packet is the list of its bytes. An index or a
-- slice beyond the end panics; a result `(Info{}, false)` is `none`.
pub mod Bounds
pub mod Chain
pub mod Port
pub mod RoundTrip
pub mod Tests
use jiejie_masque_unified.Base.{
  ℕ, zero, suc, ◌+◌, ◌-◌, ◌*◌, ◌/◌, ◌%◌, ◌^◌, Bool, true, false, not, ◌&&◌, ◌||◌, Option, none,
  some, List, [], ◌∷◌, length, get_or, take, drop, Go, ret, panics, ◌>>=◌, ltb, leb, ◌==◌, nat_eq,
  if◌then◌else◌,
}
use jiejie_masque_unified.Net.{Addr, ip4, ip6, big_endian_from}

abbrev pub Bytes : Type 0
Bytes = List ℕ

-- `b[i]`
unfoldable pub index : Bytes → ℕ → Go ℕ
index b i = if ltb i (length b) then ret (get_or b i 0) else panics

-- `b[i:j]`, held to the length, where Go allows for the capacity.
unfoldable pub slice : Bytes → ℕ → ℕ → Go Bytes
slice b i j = if leb i j && leb j (length b) then ret (take (j - i) (drop i b)) else panics

-- `binary.BigEndian.Uint16(b[i:i+2])`
unfoldable pub uint16_at : Bytes → ℕ → Go ℕ
uint16_at b i =
    if leb (i + 2) (length b) then ret (get_or b i 0 * 256 + get_or b (i + 1) 0) else panics

pub record Info : Type 0 where
  pub version : ℕ
  pub source : Addr
  pub destination : Addr
  pub protocol : ℕ
  pub transport_offset : ℕ
  pub first_fragment : Bool
  pub fragmented : Bool

abbrev pub max_ipv6_extension_headers : ℕ
max_ipv6_extension_headers = 8

abbrev pub max_ipv6_extension_bytes : ℕ
max_ipv6_extension_bytes = 256

-- The IPv4 header: its length in bytes, and the packet's.
unfoldable pub valid : Bytes → Go (Option (ℕ × ℕ))
valid b = if ltb (length b) 20 then ret none else (do
  b0 ← index b 0
  if not (b0 / 16 == 4)
      then ret none
      else (let ihl = b0 % 16 * 4 in
          if ltb ihl 20 || ltb (length b) ihl then ret none else (do
            total ← uint16_at b 2
            if ltb total ihl || ltb (length b) total then ret none else ret (some (ihl, total)))))

-- parseIPv4, once the header is valid.
unfoldable pub describe_ipv4 : Bytes → Option (ℕ × ℕ) → Go (Option Info)
describe_ipv4 b none = ret none
describe_ipv4 b (some (ihl, total)) = do
  frag ← uint16_at b 6
  src ← slice b 12 16
  dst ← slice b 16 20
  proto ← index b 9
  let first = frag % 2 ^ 13 == 0
  let info : Info = record {
    version = 4;
    source = ip4 (big_endian_from 0 src);
    destination = ip4 (big_endian_from 0 dst);
    protocol = proto;
    transport_offset = ihl;
    first_fragment = first;
    fragmented = frag / 2 ^ 13 % 2 == 1 || not first;
  }
  let has_transport = first && (proto == 6 || proto == 17) && leb (ihl + 4) total
  let kept = if has_transport then record info { transport_offset = ihl } else info
  ret (some (if not first then record kept { transport_offset = 0 } else kept))

unfoldable pub parse_ipv4 : Bytes → Go (Option Info)
parse_ipv4 b = do header ← valid b; describe_ipv4 b header

-- The variables of the loop over extension headers.
pub record Cursor : Type 0 where
  pub offset : ℕ
  pub next : ℕ
  pub fragmented : Bool
  pub first : Bool

-- One round of the loop either leaves the function or goes on.
pub data Round : Type 0 where
  leave : Option Cursor → Round
  again : Cursor → Round

-- The cases of the `switch`.
pub data Kind : Type 0 where
  options authentication fragment opaque : Kind

unfoldable pub kind : ℕ → Kind
kind n =
    if n == 0 || n == 43 || n == 60
    then options
    else if n == 51
    then authentication
    else if n == 44
    then fragment
    else opaque

-- An extension header whose length byte counts units of `unit` bytes, `bias` of them not counted.
unfoldable pub skip_header : Bytes → Cursor → ℕ → ℕ → Go Round
skip_header b c bias unit = if ltb (length b) (c.offset + 2) then ret (leave none) else (do
  n ← index b c.offset
  units ← index b (c.offset + 1)
  let nlen = (units + bias) * unit
  if ltb nlen 8
        || ltb (length b) (c.offset + nlen)
        || ltb max_ipv6_extension_bytes (c.offset + nlen - 40)
      then ret (leave none)
      else ret (again (record c { next = n; offset = c.offset + nlen })))

unfoldable pub fragment_header : Bytes → Cursor → Go Round
fragment_header b c = if ltb (length b) (c.offset + 8) then ret (leave none) else (do
  frag ← uint16_at b (c.offset + 2)
  n ← index b c.offset
  let first = c.first && frag / 8 == 0
  let moved : Cursor = record { offset = c.offset + 8; next = n; fragmented = true; first = first }
  if not first then ret (leave (some (record moved { first = false }))) else ret (again moved))

unfoldable pub walk_round : Bytes → Cursor → Go Round
walk_round b c = elim (kind c.next) [
  | options ↦ skip_header b c 1 8
  | authentication ↦ skip_header b c 2 4
  | fragment ↦ fragment_header b c
  | opaque ↦ ret (leave (some c))
]

abbrev pub next_round : (Cursor → Go (Option Cursor)) → Round → Go (Option Cursor)
next_round rest (leave r) = ret r
next_round rest (again c) = rest c

-- The loop, with the rounds that are left. After the last one the function fails.
unfoldable pub walk_rounds : ℕ → Bytes → Cursor → Go (Option Cursor)
walk_rounds zero b c = ret none
walk_rounds (suc rounds) b c = do r ← walk_round b c; next_round (walk_rounds rounds b) r

unfoldable pub walk_ipv6_extensions : Bytes → ℕ → ℕ → Bool → Go (Option Cursor)
walk_ipv6_extensions b offset next first =
    walk_rounds max_ipv6_extension_headers b
      (record { offset = offset; next = next; fragmented = false; first = first })

-- The end of parseIPv6, after the loop.
unfoldable pub finish_ipv6 : Info → ℕ → Option Cursor → Option Info
finish_ipv6 info total none = none
finish_ipv6 info total (some c) =
    let walked = record info {
      protocol = c.next;
      fragmented = c.fragmented;
      first_fragment = c.first;
    } in
    some (
      if c.first && (c.next == 6 || c.next == 17) && leb (c.offset + 4) total
      then record walked { transport_offset = c.offset }
      else walked)

-- parseIPv6, once the lengths agree.
unfoldable pub describe_ipv6 : Bytes → ℕ → Go (Option Info)
describe_ipv6 b total = do
  src ← slice b 8 24
  dst ← slice b 24 40
  proto ← index b 6
  let info : Info = record {
    version = 6;
    source = ip6 (big_endian_from 0 src) "";
    destination = ip6 (big_endian_from 0 dst) "";
    protocol = proto;
    transport_offset = 0;
    first_fragment = true;
    fragmented = false;
  }
  payload ← slice b 0 total
  walked ← walk_ipv6_extensions payload 40 proto true
  ret (finish_ipv6 info total walked)

unfoldable pub parse_ipv6 : Bytes → Go (Option Info)
parse_ipv6 b = if ltb (length b) 40 then ret none else (do
  payload ← uint16_at b 4
  if payload == 0 || not (payload == length b - 40)
      then ret none
      else (let total = 40 + payload in
          if ltb total 40 || not (total == length b) then ret none else describe_ipv6 b total))

unfoldable pub parse : Bytes → Go (Option Info)
parse b = if length b == 0 then ret none else (do
  b0 ← index b 0
  if b0 / 16 == 4 then parse_ipv4 b else if b0 / 16 == 6 then parse_ipv6 b else ret none)

unfoldable pub source : Bytes → Go (Option Addr)
source b = do i ← parse b; ret (elim i [ none ↦ none | some info ↦ some info.source ])

unfoldable pub destination : Bytes → Go (Option Addr)
destination b = do i ← parse b; ret (elim i [ none ↦ none | some info ↦ some info.destination ])

-- The test of the port, once the packet is parsed.
unfoldable pub port_matches : Bytes → ℕ → Option Info → Go Bool
port_matches b port none = ret false
port_matches b port (some i) =
    if not (i.protocol == 6) && not (i.protocol == 17)
      || i.transport_offset == 0
      || ltb (length b) (i.transport_offset + 4)
    then ret false
    else (do p ← uint16_at b (i.transport_offset + 2); ret (p == port))

unfoldable pub is_tcp_or_udp_destination_port : Bytes → ℕ → Go Bool
is_tcp_or_udp_destination_port b port = do i ← parse b; port_matches b port i

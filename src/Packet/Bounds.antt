-- ===== src/Packet/Bounds.antt =====
-- internal/connectip/packet: no read of the parser is out of range, and what it reports of a packet
-- lies within the packet.
use jiejie_masque_unified.Base.{
  ℕ, zero, suc, ◌+◌, ◌*◌, ◌≤◌, ◌<◌, ◌≡◌, refl, ◌⊎◌, true, ◌||◌, Option, none, some, length, take,
  drop, get_or, ◌-◌, [], ◌∷◌, Go, ret, Ensures, Ensures-bind, arith,
}
use jiejie_masque_unified.Packet.{
  Bytes, Info, Cursor, Round, leave, again, Kind, options, authentication, fragment, opaque, index,
  slice, uint16_at, valid, parse_ipv4, describe_ipv4, describe_ipv6, kind, skip_header,
  fragment_header, walk_round, next_round, walk_rounds, walk_ipv6_extensions, finish_ipv6,
  parse_ipv6, parse,
}

-- Where the loop stands after at most `k` rounds.
pub record IsWithin (b : Bytes) (k : ℕ) (c : Cursor) : Type 0 where
  pub beyond_header : 40 ≤ c.offset
  pub inside : c.offset ≤ length b
  pub bounded : c.offset ≤ 296 + 8 * k
  pub flags : (c.first || c.fragmented) ≡ true

abbrev pub RoundWithin : Bytes → ℕ → Round → Type 0
RoundWithin b k (leave none) = Unit
RoundWithin b k (leave (some c)) = IsWithin b k c
RoundWithin b k (again c) = IsWithin b k c

abbrev pub WalkWithin : Bytes → ℕ → Option Cursor → Type 0
WalkWithin b k none = Unit
WalkWithin b k (some c) = IsWithin b k c

module _ (b : Bytes) (k : ℕ) (c : Cursor) (w : IsWithin b k c) where
  skip_header-Within : (bias unit : ℕ) → Ensures (RoundWithin b (suc k)) (skip_header b c bias unit)
  unfolding skip_header index
  skip_header-Within bias unit = ground arith

  fragment_header-Within : Ensures (RoundWithin b (suc k)) (fragment_header b c)
  unfolding fragment_header index uint16_at
  fragment_header-Within = ground arith

  IsWithin-suc : IsWithin b (suc k) c
  IsWithin-suc = ground arith

  walk_round-Within : Ensures (RoundWithin b (suc k)) (walk_round b c)
  unfolding walk_round
  walk_round-Within = by_kind (kind c.next) refl
    where
      by_kind : (t : Kind) → kind c.next ≡ t → Ensures (RoundWithin b (suc k)) (walk_round b c)
      by_kind options e = rw (e, walk_round) (skip_header-Within 1 8)
      by_kind authentication e = rw (e, walk_round) (skip_header-Within 2 4)
      by_kind fragment e = rw (e, walk_round) fragment_header-Within
      by_kind opaque e = rw (e, walk_round) IsWithin-suc

module _ (b : Bytes) (limit : ℕ) where
  raise_limit : (k : ℕ) (c : Cursor) → k ≤ limit → IsWithin b k c → IsWithin b limit c
  raise_limit k c h w = ground arith

  pub walk_rounds-Within :
      (n k : ℕ) (c : Cursor)
      → n + k ≤ limit
      → IsWithin b k c
      → Ensures (WalkWithin b limit) (walk_rounds n b c)
  unfolding walk_rounds
  walk_rounds-Within zero k c h w = tt
  walk_rounds-Within (suc n) k c h w =
      Ensures-bind (RoundWithin b (suc k)) (WalkWithin b limit) (walk_round b c) _
        (walk_round-Within b k c w)
        (after_round (walk_rounds n b) (λ d v. walk_rounds-Within n (suc k) d (omega arith) v))
    where
      after_round :
          (rest : Cursor → Go (Option Cursor))
          → ((d : Cursor) → IsWithin b (suc k) d → Ensures (WalkWithin b limit) (rest d))
          → (r : Round) → RoundWithin b (suc k) r
          → Ensures (WalkWithin b limit) (next_round rest r)
      after_round rest ih (leave none) v = tt
      after_round rest ih (leave (some d)) v = raise_limit (suc k) d (omega arith) v
      after_round rest ih (again d) v = ih d v

walk_ipv6_extensions-Within :
    (b : Bytes) (next : ℕ)
    → 40 ≤ length b
    → Ensures (WalkWithin b 8) (walk_ipv6_extensions b 40 next true)
unfolding walk_ipv6_extensions
walk_ipv6_extensions-Within b next h = walk_rounds-Within b 8 8 0 _ (omega arith) (ground arith)

-- What a parse reports of the packet `b`: an offset of 0, or one inside the packet.
pub record IsBounded (b : Bytes) (i : Info) : Type 0 where
  pub family :
      ((i.version ≡ 4) × (i.transport_offset ≤ 60)) ⊎ ((i.version ≡ 6) × (i.transport_offset ≤ 360))
  pub inside :
      (i.transport_offset ≡ 0) ⊎ ((20 ≤ i.transport_offset) × (i.transport_offset ≤ length b))
  pub later_fragment :
      (i.first_fragment ≡ true) ⊎ ((i.transport_offset ≡ 0) × (i.fragmented ≡ true))
  pub six :
      (i.version ≡ 4)
      ⊎ (i.transport_offset ≡ 0)
      ⊎ ((40 ≤ i.transport_offset)
          × (i.transport_offset + 4 ≤ length b)
          × ((i.protocol ≡ 6) ⊎ (i.protocol ≡ 17)))

abbrev pub ParsesWithin : Bytes → Option Info → Type 0
ParsesWithin b none = Unit
ParsesWithin b (some i) = IsBounded b i

abbrev HeaderWithin : Bytes → Option (ℕ × ℕ) → Type 0
HeaderWithin b none = Unit
HeaderWithin b (some (ihl, total)) = (20 ≤ ihl) × (ihl ≤ 60) × (ihl ≤ total) × (total ≤ length b)

valid-Within : (b : Bytes) → Ensures (HeaderWithin b) (valid b)
unfolding valid index uint16_at
valid-Within b = ground arith

describe_ipv4-Within :
    (b : Bytes) (h : Option (ℕ × ℕ))
    → HeaderWithin b h
    → Ensures (ParsesWithin b) (describe_ipv4 b h)
unfolding describe_ipv4 index uint16_at slice
describe_ipv4-Within b none w = tt
describe_ipv4-Within b (some (ihl, total)) w = ground arith

parse_ipv4-Within : (b : Bytes) → Ensures (ParsesWithin b) (parse_ipv4 b)
unfolding parse_ipv4
parse_ipv4-Within b =
    Ensures-bind (HeaderWithin b) (ParsesWithin b) (valid b) _ (valid-Within b)
      (describe_ipv4-Within b)

finish_ipv6-Within :
    (b : Bytes) (i : Info) (c : Option Cursor)
    → i.version ≡ 6
    → i.transport_offset ≡ 0
    → WalkWithin b 8 c
    → ParsesWithin b (finish_ipv6 i (length b) c)
unfolding finish_ipv6
finish_ipv6-Within b i none v z w = tt
finish_ipv6-Within b i (some c) v z w = ground arith

pub take_all : (b : Bytes) → take (length b) b ≡ b
take_all [] = refl
take_all (x ∷ b) = rw (take_all b)

pub slice_all : (b : Bytes) → slice b 0 (length b) ≡ ret b
unfolding slice
slice_all b = ground (arith, take_all b)

pub slice-ret :
    (b : Bytes) (i j : ℕ) → i ≤ j → j ≤ length b → slice b i j ≡ ret (take (j - i) (drop i b))
unfolding slice
slice-ret b i j h k = ground arith

pub index-ret : (b : Bytes) (i : ℕ) → i < length b → index b i ≡ ret (get_or b i 0)
unfolding index
index-ret b i h = ground arith

describe_ipv6-Within :
    (b : Bytes) → 40 ≤ length b → Ensures (ParsesWithin b) (describe_ipv6 b (length b))
unfolding describe_ipv6
describe_ipv6-Within b h =
    rw
      (
        slice-ret b 8 24 (omega arith) (omega arith),
        slice-ret b 24 40 (omega arith) (omega arith),
        index-ret b 6 (omega arith),
        slice_all b,
      )
      (Ensures-bind (WalkWithin b 8) (ParsesWithin b)
        (walk_ipv6_extensions b 40 (get_or b 6 0) true) _
        (walk_ipv6_extensions-Within b (get_or b 6 0) h)
        (λ c w. finish_ipv6-Within b _ c refl refl w))

parse_ipv6-Within : (b : Bytes) → Ensures (ParsesWithin b) (parse_ipv6 b)
unfolding parse_ipv6 uint16_at
parse_ipv6-Within b = ground (arith, describe_ipv6-Within b)

-- For every packet the parser returns with no read out of range, and a packet that it accepts is
-- described within bounds: the version is 4 or 6; the transport offset is 0 or lies inside the
-- packet, at most 60 bytes in for IPv4 and 360 for IPv6; a later fragment is marked fragmented and
-- has no transport offset; a nonzero offset of an IPv6 packet belongs to TCP or UDP, with four
-- bytes behind it.
pub parse-IsBounded : (b : Bytes) → Ensures (ParsesWithin b) (parse b)
unfolding parse index
parse-IsBounded b = ground (arith, parse_ipv4-Within b, parse_ipv6-Within b)

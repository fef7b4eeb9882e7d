-- ===== src/Packet/Chain.antt =====
-- internal/connectip/packet, walkIPv6Extensions: the loop over extension headers against an inductive
-- description of the chain of headers.
use jiejie_masque_unified.Base.{
  ℕ, zero, suc, ◌+◌, ◌*◌, ◌/◌, ◌≤◌, ◌<◌, ◌≡◌, ◌≢◌, refl, ◌⊎◌, ◌↔◌, Bool, true, false, some, length,
  get_or, Go, ret, ◌>>=◌, panics, arith,
}
use jiejie_masque_unified.Packet.{
  Bytes, Cursor, Round, leave, again, index, uint16_at, kind, skip_header, fragment_header,
  walk_round, next_round, walk_rounds, walk_ipv6_extensions,
}

-- A header of `len` bytes at the cursor lies inside the packet and ends at most 256 bytes behind the
-- fixed header of 40.
pub record Fits (b : Bytes) (c : Cursor) (len : ℕ) : Type 0 where
  pub readable : c.offset + 2 ≤ length b
  pub whole : 8 ≤ len
  pub inside : c.offset + len ≤ length b
  pub bounded : c.offset + len ≤ 40 + 256

abbrev pub behind : Bytes → Cursor → ℕ → Cursor
behind b c len = record c { next = get_or b c.offset 0; offset = c.offset + len }

abbrev pub fragment_offset : Bytes → Cursor → ℕ
fragment_offset b c = (get_or b (c.offset + 2) 0 * 256 + get_or b (c.offset + 2 + 1) 0) / 8

abbrev pub behind_fragment : Bytes → Cursor → Cursor
behind_fragment b c = record (behind b c 8) { fragmented = true }

-- The header at `c` is passed, and the next one stands at `e`.
abbrev pub Passes : Bytes → Cursor → Cursor → Type 0
Passes b c e =
    (((c.next ≡ 0) ⊎ (c.next ≡ 43) ⊎ (c.next ≡ 60))
      × Fits b c ((get_or b (c.offset + 1) 0 + 1) * 8)
      × (e ≡ behind b c ((get_or b (c.offset + 1) 0 + 1) * 8)))
    ⊎ ((c.next ≡ 51)
        × Fits b c ((get_or b (c.offset + 1) 0 + 2) * 4)
        × (e ≡ behind b c ((get_or b (c.offset + 1) 0 + 2) * 4)))
    ⊎ ((c.next ≡ 44)
        × (c.offset + 8 ≤ length b)
        × (c.first ≡ true)
        × (fragment_offset b c ≡ 0)
        × (e ≡ behind_fragment b c))

-- The chain ends at `c` with the result `d`: at a protocol that is no extension header, or at the
-- fragment header of a later fragment.
abbrev pub Ends : Bytes → Cursor → Cursor → Type 0
Ends b c d =
    ((c.next ≢ 0) × (c.next ≢ 43) × (c.next ≢ 60) × (c.next ≢ 51) × (c.next ≢ 44) × (d ≡ c))
    ⊎ ((c.next ≡ 44)
        × (c.offset + 8 ≤ length b)
        × ((c.first ≡ false) ⊎ (fragment_offset b c ≢ 0))
        × (d ≡ record (behind_fragment b c) { first = false }))

-- `k` headers are passed from `c` to the end of the chain, `d`.
pub data Chain (b : Bytes) (d : Cursor) : Cursor → ℕ → Type 0 where
  ends : {c : Cursor} → Ends b c d → Chain b d c zero
  passes : {c e : Cursor} {k : ℕ} → Passes b c e → Chain b d e k → Chain b d c (suc k)

module _ (b : Bytes) (c : Cursor) where
  round-Ends : (d : Cursor) → walk_round b c ≡ ret (leave (some d)) → Ends b c d
  unfolding walk_round kind skip_header fragment_header index uint16_at
  round-Ends d h = ground arith

  round-Passes : (e : Cursor) → walk_round b c ≡ ret (again e) → Passes b c e
  unfolding walk_round kind skip_header fragment_header index uint16_at
  round-Passes e h = ground arith

  Ends-round : (d : Cursor) → Ends b c d → walk_round b c ≡ ret (leave (some d))
  unfolding walk_round kind skip_header fragment_header index uint16_at
  Ends-round d h = ground arith

  Passes-round : (e : Cursor) → Passes b c e → walk_round b c ≡ ret (again e)
  unfolding walk_round kind skip_header fragment_header index uint16_at
  Passes-round e h = ground arith

module _ (b : Bytes) (d : Cursor) where
  abbrev Reaches : ℕ → Cursor → Type 0
  Reaches n c = (k : ℕ) × (k < n) × Chain b d c k

  after_round :
      (n : ℕ) (c : Cursor)
      → ((x : Cursor) → walk_rounds n b x ≡ ret (some d) → Reaches n x)
      → (r : Go Round) → walk_round b c ≡ r
      → (r >>= next_round (walk_rounds n b)) ≡ ret (some d)
      → Reaches (suc n) c
  after_round n c ih panics e h = cc
  after_round n c ih (ret (leave r)) e h =
      (zero, omega arith, ends (round-Ends b c d (ground arith)))
  after_round n c ih (ret (again x)) e h =
      let (k, lt, chain) = ih x h in (suc k, omega arith, passes (round-Passes b c x e) chain)

  walk-Chain : (n : ℕ) (c : Cursor) → walk_rounds n b c ≡ ret (some d) → Reaches n c
  unfolding walk_rounds
  walk-Chain zero c h = cc
  walk-Chain (suc n) c h = after_round n c (walk-Chain n) (walk_round b c) refl h

  Chain-walk :
      {c : Cursor} {k : ℕ} (n : ℕ) → Chain b d c k → k < n → walk_rounds n b c ≡ ret (some d)
  unfolding walk_rounds
  Chain-walk zero (ends e) h = elim h [ ]
  Chain-walk zero (passes p r) h = elim h [ ]
  Chain-walk (suc n) (ends {c = c} e) h = rw (Ends-round b c d e) refl
  Chain-walk (suc n) (passes {c = c} {e = x} p r) h =
      rw (Passes-round b c x p) (Chain-walk n r (omega arith))

abbrev pub start : ℕ → ℕ → Bool → Cursor
start offset next first = record { offset = offset; next = next; fragmented = false; first = first }

-- The walk returns `d` exactly when a chain of headers leads from the given position to `d` past at
-- most seven headers, each of which fits.
pub walk_ipv6_extensions-Chain :
    (b : Bytes) (offset next : ℕ) (first : Bool) (d : Cursor)
    → (walk_ipv6_extensions b offset next first ≡ ret (some d))
      ↔ ((k : ℕ) × (k < 8) × Chain b d (start offset next first) k)
unfolding walk_ipv6_extensions
walk_ipv6_extensions-Chain b offset next first d =
    (walk-Chain b d 8 (start offset next first), λ t. Chain-walk b d 8 t.2 t.1)

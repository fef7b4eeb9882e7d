-- ===== src/Datapath/Delivery.antt =====
-- cmd/jiejie-masque/main.go, dispatchTUNPacket: to whom a packet from the TUN device is handed.
use jiejie_masque_unified.Base.{
  ℕ, false, ◌≢◌, ◌≡◌, refl, ◌⊎◌, inl, inr, Option, none, some, List, [], ◌∷◌, In, ret, Ensures,
  Ensures-ret, Option-cases, nat_eq, arith,
}
use jiejie_masque_unified.Net.{Addr}
use jiejie_masque_unified.Packet.{Bytes, Info, parse, destination}
use jiejie_masque_unified.Packet.Bounds.{ParsesWithin, parse-IsBounded}
use jiejie_masque_unified.Manager.{World, lookup, close}
use jiejie_masque_unified.Manager.Invariant.{IsConsistent}
use jiejie_masque_unified.Manager.Closing.{close-IsConsistent}
use jiejie_masque_unified.Datapath.{
  Transport, IoError, other_error, normal_session_error, after_write, Dispatched,
  dispatch_tun_packet, deliver,
}

-- The session cannot go on: the device refuses the ICMP packet, or the write ended in an error that is
-- not one of an ended session.
abbrev pub Breaks : Transport → ℕ → Bytes → Option IoError → Type 0
Breaks io s icmp e =
    ((icmp ≢ []) × (io.writable ≡ false)) ⊎ ((e ≡ some other_error) × (io.ended s ≡ false))

-- What follows the write to session `s`, which has answered with an ICMP packet, which is empty for
-- none, and perhaps an error: what is offered to the device, and the world.
pub record IsAnswered (io : Transport) (s : ℕ) (icmp : Bytes) (e : Option IoError) (w : World)
    (v : World × List Bytes) : Type 0 where
  pub offered : ((icmp ≡ []) × (v.1 ≡ [])) ⊎ ((icmp ≢ []) × (v.1 ≡ icmp ∷ []))
  pub kept : ¬ Breaks io s icmp e → v.0 ≡ w
  pub shut : Breaks io s icmp e → v.0 ≡ close s w

-- The three fates of a packet.
pub data Fate (io : Transport) (data' : Bytes) (w : World) (d : Dispatched) : Type 0 where
  malformed :
      parse data' ≡ ret none
      → d ≡ record { handed = none; returned = []; world = w }
      → Fate io data' w d
  unowned :
      (i : Info)
      → parse data' ≡ ret (some i)
      → lookup i.destination w ≡ none
      → d ≡ record { handed = none; returned = []; world = w }
      → Fate io data' w d
  owned :
      (i : Info) (s : ℕ)
      → parse data' ≡ ret (some i)
      → lookup i.destination w ≡ some s
      → In i.destination (w.heap s).client_ips
      → d.handed ≡ some s
      → IsAnswered io s
          (io.write_packet_to s data').0
          (io.write_packet_to s data').1
          w
          (d.world, d.returned)
      → Fate io data' w d

pub record IsDelivery (io : Transport) (data' : Bytes) (w : World) (d : Dispatched) : Type 0 where
  pub fate : Fate io data' w d
  pub consistent : IsConsistent d.world

after_write-IsAnswered :
    (io : Transport) (s : ℕ) (icmp : Bytes) (e : Option IoError) (w : World)
    → IsAnswered io s icmp e w (after_write io s (icmp, e) w)
unfolding after_write normal_session_error
after_write-IsAnswered io s icmp e w = record {
  offered = ground arith;
  kept = λ fine. ground arith;
  shut = λ breaks. ground arith;
}

parse_total : (b : Bytes) → (o : Option Info) × (parse b ≡ ret o)
parse_total b = let (r, e, _) = Ensures-ret (ParsesWithin b) (parse b) (parse-IsBounded b) in (r, e)

abbrev destination_of : Option Info → Option Addr
destination_of none = none
destination_of (some i) = some i.destination

destination_of-parse :
    (b : Bytes) (o : Option Info) → parse b ≡ ret o → destination b ≡ ret (destination_of o)
unfolding destination
destination_of-parse b none e = rw e refl
destination_of-parse b (some i) e = rw e refl

module _ (io : Transport) (data' : Bytes) (w : World) (c : IsConsistent w) where
  IsAnswered-IsConsistent :
      (s : ℕ) (icmp : Bytes) (e : Option IoError) → IsConsistent (after_write io s (icmp, e) w).0
  unfolding after_write
  IsAnswered-IsConsistent s icmp e =
      let kept = c in let shut = close-IsConsistent s w c in ground arith

  deliver-IsDelivery :
      (o : Option Info)
      → parse data' ≡ ret o
      → IsDelivery io data' w (deliver io data' w (destination_of o))
  unfolding deliver lookup
  deliver-IsDelivery none e = record { fate = malformed e refl; consistent = c }
  deliver-IsDelivery (some i) e = elim (Option-cases (lookup i.destination w)) [
    | inl f ↦ rw (f, deliver) (record { fate = unowned i e f refl; consistent = c })
    | inr (s, f) ↦
        rw (f, deliver)
          (record {
            fate = owned i s e f (c.owned_by i.destination s f) refl (
                after_write-IsAnswered io s (io.write_packet_to s data').0
                  (io.write_packet_to s data').1 w);
            consistent =
                IsAnswered-IsConsistent s (io.write_packet_to s data').0
                  (io.write_packet_to s data').1;
          })
  ]

  -- On a consistent registry a packet from the TUN device is handled with no read out of range. It is
  -- dropped with no effect if it does not parse or the registry has no session for its destination;
  -- otherwise it is handed to the session that the registry has. What follows is the answer's: an
  -- ICMP packet is offered to the device, and exactly that session is closed if the device refuses it
  -- or the write fails with an error that is not of an ended session.
  pub dispatch-IsDelivery : Ensures (IsDelivery io data' w) (dispatch_tun_packet io data' w)
  unfolding dispatch_tun_packet
  dispatch-IsDelivery =
      let (o, e) = parse_total data' in rw (destination_of-parse data' o e) (deliver-IsDelivery o e)

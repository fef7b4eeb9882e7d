-- ===== src/Datapath/Dispatcher.antt =====
-- cmd/jiejie-masque/main.go, tunDispatcher: the loop that dispatches the packets of the TUN device.
use jiejie_masque_unified.Base.{
  ◌≡◌, refl, inl, inr, true, false, Option, none, some, List, [], ◌∷◌, In, ret, ◌>>=◌, Ensures,
  Ensures-bind,
}
use jiejie_masque_unified.Packet.{Bytes}
use jiejie_masque_unified.Manager.{World}
use jiejie_masque_unified.Manager.Invariant.{IsConsistent}
use jiejie_masque_unified.Datapath.{
  Dispatched, TunTurn, Dispatches, add_packet, dispatch_tun_packet, tun_dispatcher,
}
use jiejie_masque_unified.Datapath.Delivery.{IsDelivery, dispatch-IsDelivery}

-- The packets of the turns, each with the fate that it has in the world of its time, up to the first
-- read that fails.
pub data Deliveries : List TunTurn → World → Dispatches → Type 0 where
  waits : (w : World) → Deliveries [] w (record { packets = []; ended = false; world = w })
  ends :
      (t : TunTurn) (turns : List TunTurn) (w : World)
      → t.read ≡ none
      → Deliveries (t ∷ turns) w (record { packets = []; ended = true; world = t.meanwhile w })
  delivers :
      (t : TunTurn) (turns : List TunTurn) (w : World) (b : Bytes) (d : Dispatched)
      (rest : Dispatches)
      → t.read ≡ some b
      → IsDelivery t.io b (t.meanwhile w) d
      → Deliveries turns d.world rest
      → Deliveries (t ∷ turns) w (add_packet d rest)

-- While other goroutines keep the registry consistent, the dispatcher never panics. Every packet read is
-- handed to the session that the registry has for its destination at the time, which has this
-- address, and is dropped without effect exactly where it does not parse or there is no such session.
-- An ICMP answer, where there is one, is offered to the device, and the session is closed exactly
-- where the device refuses it or the write fails with an error that is not of an ended session. The
-- first read that fails ends the loop.
pub tun_dispatcher-Deliveries :
    (turns : List TunTurn) (w : World)
    → IsConsistent w
    → ((t : TunTurn) → In t turns → (v : World) → IsConsistent v → IsConsistent (t.meanwhile v))
    → Ensures (Deliveries turns w) (tun_dispatcher turns w)
unfolding tun_dispatcher
tun_dispatcher-Deliveries [] w c keeps = waits w
tun_dispatcher-Deliveries (t ∷ turns) w c keeps =
    by_read t.read refl
      (λ d consistent. tun_dispatcher-Deliveries turns d.world consistent (λ u p. keeps u (inr p)))
  where
    after : World
    after = t.meanwhile w

    by_read :
        (o : Option Bytes)
        → t.read ≡ o
        → ((d : Dispatched)
            → IsConsistent d.world
            → Ensures (Deliveries turns d.world) (tun_dispatcher turns d.world))
        → Ensures (Deliveries (t ∷ turns) w) (elim o [
          | none ↦ ret (record { packets = []; ended = true; world = t.meanwhile w })
          | some b ↦ (do
            d ← dispatch_tun_packet t.io b (t.meanwhile w)
            rest ← tun_dispatcher turns d.world
            ret (add_packet d rest))
        ])
    by_read none e later = ends t turns w e
    by_read (some b) e later =
        Ensures-bind (IsDelivery t.io b after) (Deliveries (t ∷ turns) w)
          (dispatch_tun_packet t.io b after) _
          (dispatch-IsDelivery t.io b after (keeps t (inl refl) w c))
          (λ d delivery.
            Ensures-bind (Deliveries turns d.world) (Deliveries (t ∷ turns) w)
              (tun_dispatcher turns d.world) _ (later d delivery.consistent)
              (λ rest delivered. delivers t turns w b d rest e delivery delivered))

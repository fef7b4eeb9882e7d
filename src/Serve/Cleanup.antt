-- ===== src/Serve/Cleanup.antt =====
-- cmd/jiejie-masque/main.go, serveConnectIPArgs: what a run has opened is closed when it returns.
use jiejie_masque_unified.Base.{
  ℕ, Bool, true, false, if◌then◌else◌, ◌≤◌, ◌⊎◌, ◌+◌, ◌≡◌, nat_eq, List, [], ◌∷◌,
}
use jiejie_masque_unified.Tunnel.{Event}
use jiejie_masque_unified.Tunnel.Descriptors.{Leaves, none_left}
use jiejie_masque_unified.Serve.{
  NetEvent, packet_opened, packet_closed, transport_made, transport_closed, listener_opened,
  listener_closed, Run,
}

-- How often an event stands in a log.
abbrev same_event : NetEvent → NetEvent → Bool
same_event packet_opened packet_opened = true
same_event packet_closed packet_closed = true
same_event transport_made transport_made = true
same_event transport_closed transport_closed = true
same_event listener_opened listener_opened = true
same_event listener_closed listener_closed = true
same_event _ _ = false

pub times : NetEvent → List NetEvent → ℕ
times e [] = 0
times e (x ∷ log) = if same_event e x then 1 + times e log else times e log

-- At no time is more closed than was opened before.
abbrev pub InOrder : List NetEvent → Type 0
InOrder [] = Unit
InOrder (e ∷ log) =
    (times packet_closed (e ∷ log) ≤ times packet_opened (e ∷ log))
    × (times transport_closed (e ∷ log) ≤ times transport_made (e ∷ log))
    × (times listener_closed (e ∷ log) ≤ times listener_opened (e ∷ log))
    × InOrder log

-- The two sockets, the packet connection and the listener on it, are closed as often as opened, and at
-- most once, and never before; the transport is closed where the listener was opened; and nothing happens after the
-- packet connection is closed.
pub record IsClosed (log : List NetEvent) : Type 0 where
  pub packets : times packet_closed log ≡ times packet_opened log
  pub packets_once : times packet_opened log ≤ 1
  pub listeners : times listener_closed log ≡ times listener_opened log
  pub transports : times transport_closed log ≡ times listener_opened log
  pub listeners_on : times listener_opened log ≤ times transport_made log
  pub transports_on : times transport_made log ≤ times packet_opened log
  pub in_order : InOrder log
  pub packet_last :
      (log ≡ [])
      ⊎ ((before : List NetEvent) × (log ≡ packet_closed ∷ before)
          × (times packet_closed before ≡ 0))

-- Every descriptor of the run is closed as often as opened, and its sockets are closed.
pub record IsClean (t : List Event) (run : Run) : Type 0 where
  pub descriptors : Leaves none_left t run.history
  pub sockets : IsClosed run.log

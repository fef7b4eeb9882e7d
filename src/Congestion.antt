-- ===== src/Congestion.antt =====
-- cmd/jiejie-masque/quic_cc.go: the congestion controller of a connection. What the connection is
-- asked to do is a value.
pub mod Tests
use jiejie_masque_unified.Base.{
  ◌==◌, string_eq, ◌||◌, ◌≡◌, refl, ◌⊎◌, inl, inr, ◌↔◌, Bool, true, false, String, Bool-cases,
  if◌then◌else◌, arith,
}
use jiejie_masque_unified.Config.{Config, Library, ok}
use jiejie_masque_unified.Config.Load.{Reader, known_controller, load}
use jiejie_masque_unified.Config.Validation.{IsChosen, load-IsValid}

-- The calls on the connection, and the error.
pub data Controlled : Type 0 where
  nothing set_cubic_congestion_control set_bbr_congestion_control unsupported : Controlled

unfoldable pub configure_congestion_control : String → Controlled
configure_congestion_control controller =
    if controller == "" || controller == "default"
    then nothing
    else if controller == "cubic"
    then set_cubic_congestion_control
    else if controller == "bbr"
    then set_bbr_congestion_control
    else unsupported

-- connectIPConnContext: whether the connection is closed with an error.
unfoldable pub closes_connection : String → Bool
unfolding configure_congestion_control
closes_connection controller = elim (configure_congestion_control controller) [
  | unsupported ↦ true
  | _ ↦ false
]

-- The controllers that Validate accepts are those for which a connection is not closed.
pub closes_connection_iff :
    (name : String) → (closes_connection name ≡ false) ↔ (known_controller name ≡ true)
unfolding closes_connection configure_congestion_control known_controller
closes_connection_iff name = ground arith

-- A named controller, and the call that selects it.
abbrev pub IsSelected : String → Type 0
IsSelected name =
    ((name ≡ "default") × (configure_congestion_control name ≡ nothing))
    ⊎ ((name ≡ "cubic") × (configure_congestion_control name ≡ set_cubic_congestion_control))
    ⊎ ((name ≡ "bbr") × (configure_congestion_control name ≡ set_bbr_congestion_control))

chosen-IsSelected : (name : String) → IsChosen name → IsSelected name
unfolding configure_congestion_control known_controller
chosen-IsSelected name c = ground (
  arith,
  string_eq.equals_iff name "default",
  string_eq.equals_iff name "cubic",
  string_eq.equals_iff name "bbr",
  string_eq.equals_iff name "",
)

-- With a configuration that Load returns no connection is closed for its controller, which is
-- "default", "cubic" or "bbr": for the last two the connection is asked for that controller, for
-- "default" it is left as it is.
pub load-IsSelected :
    (l : Library) (r : Reader) (path : String) (c : Config)
    → load l r path ≡ ok c
    → (closes_connection c.quic.congestion_controller ≡ false)
      × IsSelected c.quic.congestion_controller
load-IsSelected l r path c h =
    let (valid, chosen, _) = load-IsValid l r path c h in
    (
      (closes_connection_iff c.quic.congestion_controller).1 chosen.1,
      chosen-IsSelected c.quic.congestion_controller chosen,
    )

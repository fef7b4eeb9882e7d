-- ===== src/Congestion/Tests.antt =====
-- The configuration of Config/Tests.antt, which names no controller, and the theorem at it.
use jiejie_masque_unified.Base.{◌≡◌, string_eq, false}
use jiejie_masque_unified.Config.{Config}
use jiejie_masque_unified.Config.Tests.{library, config, reader, loads}
use jiejie_masque_unified.Congestion.{closes_connection, IsSelected, load-IsSelected}

abbrev loaded : Config
loaded = record config { quic = record { congestion_controller = "cubic" } }

load-IsSelected_example : (closes_connection "cubic" ≡ false) × IsSelected "cubic"
load-IsSelected_example = load-IsSelected library reader "server.yaml" loaded loads

-- ===== src/Command/Tests.antt =====
-- The programs on the server of Serve/Tests.antt, and the theorem at them.
use jiejie_masque_unified.Base.{
  ◌≡◌, refl, ap, ◌∙◌, ◌==◌, string_eq, none, some, List, [], ◌∷◌, if◌then◌else◌,
}
use jiejie_masque_unified.Config.{Config, ResolvedClient, resolved_clients, ok}
use jiejie_masque_unified.Config.Load.{load}
use jiejie_masque_unified.Config.Tests.{library, reader}
use jiejie_masque_unified.Tunnel.Tests.{kernel, willing}
use jiejie_masque_unified.Serve.{Run}
use jiejie_masque_unified.Serve.Tests.{network, accepts}
use jiejie_masque_unified.Serve.Startup.{HasServed}
use jiejie_masque_unified.Command.{
  FlagParser, unknown, mihomo_config, path_command, main_command, checked, ran, main,
}
use jiejie_masque_unified.Command.Starting.{main-IsDispatched, check_config-main}

-- A parser for `--config` alone.
abbrev parse : FlagParser
parse default [] = some default
parse default (flag ∷ path ∷ []) = if flag == "--config" then some path else none
parse default _ = none

unknown_command : main_command parse ("sevre" ∷ "--config" ∷ "server.yaml" ∷ []) ≡ unknown "sevre"
unfolding main_command path_command
unknown_command = refl

printer :
    main_command parse ("mihomo-config" ∷ "--port" ∷ "1" ∷ []) ≡ mihomo_config ("--port" ∷ "1" ∷ [])
unfolding main_command
printer = refl

check_accepts :
    main library reader kernel network parse ("check-config" ∷ "--config" ∷ "server.yaml" ∷ []) []
    ≡ checked (ok tt)
check_accepts =
    (main-IsDispatched library reader kernel network parse "server.yaml" [] (λ default. refl)
      refl).checks
    ∙ ap checked accepts

check_config-main_example :
    (c : Config) × (clients : List ResolvedClient) × (end : Run) × (load library reader
        "server.yaml"
      ≡ ok c)
    × (resolved_clients library c ≡ ok clients)
    × (main library reader kernel network parse ("serve" ∷ "--config" ∷ "server.yaml" ∷ []) []
        ≡ ran end)
    × HasServed network clients end
check_config-main_example =
    check_config-main library reader kernel network parse "server.yaml" [] (λ default. refl) refl
      check_accepts willing refl (λ address. refl) refl

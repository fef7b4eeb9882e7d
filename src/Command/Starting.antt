-- ===== src/Command/Starting.antt =====
-- cmd/jiejie-masque: unified_main.go with main.go and check_config.go, from the arguments on.
use jiejie_masque_unified.Base.{
  ◌≡◌, refl, ap, sym, ◌∙◌, ◌==◌, string_eq, true, false, some, List, [], ◌∷◌, String,
}
use jiejie_masque_unified.Config.{ResolvedClient, Config, Library, resolved_clients, Result, ok}
use jiejie_masque_unified.Config.Load.{Reader, load}
use jiejie_masque_unified.Tunnel.{Event, Kernel}
use jiejie_masque_unified.Tunnel.Server.{IsWilling}
use jiejie_masque_unified.Serve.{Network, Run, serve, check_config, CheckConfigError}
use jiejie_masque_unified.Serve.Startup.{HasServed, check_config-serve}
use jiejie_masque_unified.Command.{
  FlagParser, path_command, main_command, default_path, serve_command, Outcome, checked, ran, main,
}

-- Package flag takes `--config` with a path.
abbrev pub TakesConfig : FlagParser → String → Type 0
TakesConfig parse path = (default : String) → parse default ("--config" ∷ path ∷ []) ≡ some path

module _ (l : Library) (r : Reader) (k : Kernel) (n : Network) (parse : FlagParser) (path : String)
    (t : List Event) where
  -- The two programs.
  pub record IsDispatched : Type 0 where
    pub checks :
        main l r k n parse ("check-config" ∷ "--config" ∷ path ∷ []) t
        ≡ checked (check_config l r n path)
    pub serves :
        main l r k n parse ("serve" ∷ "--config" ∷ path ∷ []) t ≡ ran (serve l r k n path t)

  pub main-IsDispatched : TakesConfig parse path → (path == "") ≡ false → IsDispatched
  unfolding main main_command path_command serve_command
  main-IsDispatched takes named = record {
    checks = rw (takes "", named) refl;
    serves = rw (takes "", named) (rw (takes default_path) refl);
  }

abbrev check_result : Outcome → Result CheckConfigError (Unit {0})
check_result (checked x) = x
check_result _ = ok tt

-- If the program accepts a file with `check-config --config`, then `serve --config` with that file starts
-- a server, where package flag takes the path, which is not empty, and on a kernel that refuses
-- nothing and gives the device its name, and with the two listeners. The result of the run is the
-- one for the way in which the server stopped, and the sessions are closed at its end.
pub check_config-main :
    (l : Library) (r : Reader) (k : Kernel) (n : Network) (parse : FlagParser) (path : String)
    (t : List Event)
    → TakesConfig parse path
    → (path == "") ≡ false
    → main l r k n parse ("check-config" ∷ "--config" ∷ path ∷ []) t ≡ checked (ok tt)
    → IsWilling k "masque0"
    → k.name_given "masque0" ≡ "masque0"
    → ((address : String) → n.listen_packet address ≡ true)
    → n.listen_quic ≡ true
    → (c : Config) × (clients : List ResolvedClient) × (end : Run) × (load l r path ≡ ok c)
      × (resolved_clients l c ≡ ok clients)
      × (main l r k n parse ("serve" ∷ "--config" ∷ path ∷ []) t ≡ ran end)
      × HasServed n clients end
check_config-main l r k n parse path t takes given accepted w named listens q =
    let both = main-IsDispatched l r k n parse path t takes given in
    let (c, clients, e, f, served) =
      check_config-serve l r k n path t (ap check_result (sym both.checks ∙ accepted)) w named
        listens q in
    (c, clients, serve l r k n path t, e, f, both.serves, served)

-- ===== src/Command.antt =====
-- cmd/jiejie-masque/unified_main.go and the first lines of serveConnectIPArgs in main.go: which command
-- the arguments name. Package flag is a parameter.
pub mod Starting
pub mod Tests
use jiejie_masque_unified.Base.{
  ◌==◌, string_eq, not, Bool, true, false, Option, none, some, List, [], ◌∷◌, String, if◌then◌else◌,
}
use jiejie_masque_unified.Config.{Library, Result, ok, err}
use jiejie_masque_unified.Config.Load.{Reader}
use jiejie_masque_unified.Tunnel.{Event, Kernel}
use jiejie_masque_unified.Serve.{Network, Run, serve, CheckConfigError, check_config}

pub data Command : Type 0 where
  verbose_version version : Command
  keygen : Command
  server_keygen mihomo_config : List String → Command
  usage bad_flags config_required : Command
  check : String → Command
  unknown : String → Command
  serve_args : List String → Command
  run : String → Command

-- Package flag on a set whose only flag is `config`, with its default; none is an error.
abbrev pub FlagParser : Type 0
FlagParser = String → List String → Option String

abbrev pub version_command : List String → Command
version_command [] = version
version_command (arg ∷ rest) = if arg == "--verbose" then verbose_version else version

-- The end of main, with the path of the configuration.
unfoldable pub path_command : String → String → Command
path_command name path =
    if path == ""
    then config_required
    else if name == "check-config"
    then check path
    else if not (name == "serve")
    then unknown name
    else serve_args ("--config" ∷ path ∷ [])

abbrev pub parsed_command : String → Option String → Command
parsed_command name none = bad_flags
parsed_command name (some path) = path_command name path

-- main, on the arguments after the program's name.
unfoldable pub main_command : FlagParser → List String → Command
main_command parse [] = usage
main_command parse (name ∷ args) =
    if name == "--version"
    then version_command args
    else if name == "version"
    then version
    else if name == "keygen"
    then keygen
    else if name == "server-keygen"
    then server_keygen args
    else if name == "mihomo-config"
    then mihomo_config args
    else parsed_command name (parse "" args)

abbrev pub default_path : String
default_path = "/etc/masque-lite/config.yaml"

abbrev pub checked_path : Option String → Command
checked_path none = bad_flags
checked_path (some path) = check path

abbrev pub served_path : Option String → Command
served_path none = bad_flags
served_path (some path) = run path

-- serveConnectIPArgs, up to the path.
unfoldable pub serve_command : FlagParser → List String → Command
serve_command parse [] = served_path (parse default_path [])
serve_command parse (name ∷ args) =
    if name == "keygen"
    then keygen
    else if name == "server-keygen"
    then server_keygen args
    else if name == "check-config"
    then checked_path (parse default_path args)
    else served_path (parse default_path (name ∷ args))

-- What the program comes to: a command that starts no server, a check, or a run.
pub data Outcome : Type 0 where
  other : Command → Outcome
  checked : Result CheckConfigError (Unit {0}) → Outcome
  ran : Run → Outcome

module _ (l : Library) (r : Reader) (k : Kernel) (n : Network) where
  abbrev pub perform_serve : List Event → Command → Outcome
  perform_serve t (check path) = checked (check_config l r n path)
  perform_serve t (run path) = ran (serve l r k n path t)
  perform_serve t command = other command

  abbrev pub perform : FlagParser → List Event → Command → Outcome
  perform parse t (check path) = checked (check_config l r n path)
  perform parse t (serve_args args) = perform_serve t (serve_command parse args)
  perform parse t command = other command

  unfoldable pub main : FlagParser → List String → List Event → Outcome
  main parse args t = perform parse t (main_command parse args)

-- ===== src/Tests/Settings.antt =====
-- The theorems on the configuration and the virtual hosts, at concrete inputs.
use amail_bridge.Common.{
  ◌≡◌, ◌⊎◌, refl, true, false, some, none, List, [], ◌∷◌, map, list_eq, nat_eq,
}
use amail_bridge.Std.Text.{
  Text, str, contains, trim_start_matches, trim_start_by, starts_with, is_empty, to_lower,
}
use amail_bridge.Std.Number.{show, emit}
use amail_bridge.Router.Route.{host_port}
use amail_bridge.Config.{BridgeConfig, load, normalize, set_paths, override_all}
use amail_bridge.Vhost.{VhostRoute, redirect_to, handle_static, file_path, serve_file}
use amail_bridge.Main.{CliArgs, parsed, parse_args, parse_args_from}
use amail_bridge.Main.Arguments.{arguments, parse_args-arguments}
use amail_bridge.Vhost.Files.{handle_static-inside}
use amail_bridge.Tests.Stubs.{files, bridge_config, plain_system}

abbrev loaded : BridgeConfig
loaded =
    normalize
      (set_paths plain_system (str "aimail_bridge.toml") (override_all plain_system bridge_config))

loads : load plain_system none ≡ some loaded
unfolding load
loads = refl

listens : bridge_config.bind ≡ host_port (str "0.0.0.0") 80
unfolding host_port show emit
listens = refl

abbrev sites : List (Text × VhostRoute)
sites = (str "a.b", redirect_to (str "https://a.b")) ∷ []

same_letters : map to_lower (str "a.b") ≡ map to_lower (str "A.B")
unfolding to_lower
same_letters = refl

serves : (handle_static files (str "/www") (str "/a.html")).status ≡ 200
unfolding handle_static contains trim_start_matches trim_start_by starts_with file_path serve_file
    is_empty list_eq nat_eq
serves = refl

handle_static-inside_example :
    (contains (str "..") (trim_start_matches b'/' (str "/a.html")) ≡ false)
    × (files.path_starts_with (str "/www") (file_path files (str "/www") (str "/a.html")) ≡ true)
    × ((files.read (file_path files (str "/www") (str "/a.html"))
          ≡ some (handle_static files (str "/www") (str "/a.html")).body)
        ⊎ (files.read (files.join (str "/www") (str "index.html"))
            ≡ some (handle_static files (str "/www") (str "/a.html")).body))
handle_static-inside_example = handle_static-inside files (str "/www") (str "/a.html") serves

abbrev odd_args : CliArgs
odd_args = record {
  daemon = true;
  pid_file = some (str "--daemon");
  log_file = none;
  config_path = some (str "/etc/b.toml");
}

parse_args-arguments_example :
    (parse_args (str "aimail-bridge" ∷ arguments odd_args) ≡ parsed odd_args)
    × (parse_args_from (str "aimail-bridge" ∷ arguments odd_args) ≡ parsed odd_args)
parse_args-arguments_example = parse_args-arguments (str "aimail-bridge") odd_args

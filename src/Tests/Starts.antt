-- ===== src/Tests/Starts.antt =====
-- The theorems on virtual hosts' proxies and on the start, at concrete inputs.
use amail_bridge.Common.{◌≡◌, ◌⊎◌, refl, true, false, some, none, [], ◌∷◌, list_eq, nat_eq}
use amail_bridge.Common.Action.{◌>>=◌}
use amail_bridge.Std.Text.{Text, str}
use amail_bridge.Std.Dict
use amail_bridge.Std.Dict.{Dict, get-insert, get-remove}
use amail_bridge.Config.{BridgeConfig}
use amail_bridge.Vhost.Proxy.{Headers, HeaderLaws, proxy_headers, is_own, proxy_headers_lem}
use amail_bridge.Std.Text.{starts_with, is_empty, ends_with, text_eq}
use amail_bridge.Std.Files.{join, write, chmod, elapsed}
use amail_bridge.Acme.{
  World, cert_path, key_path, credentials_path, cert_paths, check_existing_cert, check_files, reuse,
  get_or_acquire_cert, check_then_acquire, cached_or_new, acquire_new, acquire_cert_inner,
  open_account, account_from, create_account, authorize_all, save_pair,
}
use amail_bridge.Main.Tls.{
  TlsLib, Dirs, cache_dir, probe_challenge_path, build_tls_config_from_paths, acme_tls_config,
  ServesCached, acme_tls_config_lem,
}
use amail_bridge.Main.Startup.{Launch, Launches, CannotStart, launch, launch_lem}
use amail_bridge.Main.Finish.{TaskEnds}
use amail_bridge.Tests.Stubs.{bridge_config}
use amail_bridge.Tests.Certificates.{acme, host, before}

abbrev header_map : Headers
header_map = record {
  Map = Dict Text Text;
  Value = Text;
  get = λ k m. Dict.get k m;
  insert = λ k v m. Dict.insert k v m;
  remove = λ k m. Dict.remove k m;
  entries = λ m. m;
  to_str = λ v. some v;
  from_str = λ s. some s;
  from_static = λ s. s;
}

header_map-HeaderLaws : HeaderLaws header_map
header_map-HeaderLaws = record {
  get-insert = λ j k v m. get-insert j k v m;
  get-remove = λ j k m. get-remove j k m;
}

abbrev spoofed : Dict Text Text
spoofed = (str "host", str "a.b") ∷ (str "x-forwarded-for", str "127.0.0.1") ∷ []

here : Dict.get (str "host") spoofed ≡ some (str "a.b")
unfolding Dict.get list_eq nat_eq
here = refl

proxy_headers_lem_example :
    let sent = proxy_headers header_map (some (str "9.9.9.9")) spoofed in
    (Dict.get (str "x-forwarded-for") sent ≡ some (str "9.9.9.9"))
    × (Dict.get (str "x-forwarded-proto") sent ≡ some (str "https"))
    × (Dict.get (str "x-forwarded-host") sent ≡ some (str "a.b"))
    × (Dict.get (str "host") sent ≡ none)
    × ((name : Text) → is_own header_map name ≡ false → Dict.get name sent ≡ Dict.get name spoofed)
proxy_headers_lem_example =
    proxy_headers_lem header_map header_map-HeaderLaws (str "9.9.9.9") (str "a.b") spoofed
      (str "a.b") (str "a.b") (str "9.9.9.9") here refl refl refl

abbrev tls : TlsLib
tls = record {
  Cert = Text;
  Key = Text;
  RustlsConfig = Text;
  certs = λ s. some (s ∷ []);
  private_key = λ s. some (some s);
  with_single_cert = λ certs key. some key;
}

abbrev dirs : Dirs
dirs = record { home_dir = some (str "/root"); current_dir = none }

abbrev secure_config : BridgeConfig
secure_config = record bridge_config { hostname = some (str "a.b"); acme_cache = some (str "/c") }

abbrev secured : World host acme
secured = (acme_tls_config host acme tls dirs secure_config before).1

served : acme_tls_config host acme tls dirs secure_config before ≡ (some (str "key"), secured)
unfolding acme_tls_config cache_dir probe_challenge_path build_tls_config_from_paths
    get_or_acquire_cert check_then_acquire cached_or_new check_existing_cert check_files reuse
    acquire_new acquire_cert_inner open_account account_from create_account authorize_all save_pair
    ◌>>=◌ write chmod elapsed join cert_path key_path credentials_path cert_paths starts_with
    is_empty ends_with text_eq Dict.get Dict.insert list_eq nat_eq
served = refl

acme_tls_config_lem_example : ServesCached host acme tls dirs secure_config (str "key") secured
acme_tls_config_lem_example =
    acme_tls_config_lem host acme tls dirs secure_config before secured (str "key") served

abbrev pull_config : BridgeConfig
pull_config = record bridge_config { mode = str "pull" }

launch_lem_example :
    ((l : Launch host acme tls dirs) × (w' : World host acme) × (launch host acme tls dirs true
          pull_config before
        ≡ (some l, w'))
      × Launches host acme tls dirs pull_config before l w')
    ⊎ ((launch host acme tls dirs true pull_config before ≡ (none, before))
        × CannotStart host acme tls dirs true pull_config)
launch_lem_example = launch_lem host acme tls dirs true pull_config before

-- Every task ends well but one pull loop.
abbrev one_failed : Launch host acme tls dirs → TaskEnds
one_failed l = record { pulls_before = str "no relay" ∷ []; server = none; pulls_after = [] }

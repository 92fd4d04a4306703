-- ===== src/Config.antt =====
-- src/config.rs: the configuration, the environment's overrides, and what other parts ask of it.
-- File system paths are texts; the operations on them, the TOML reader and the environment are
-- parameters.
pub mod Bind
pub mod Urls
pub mod Defaults
pub mod Validate
use amail_bridge.Common.{
  ℕ, Bool, true, false, not, ◌&&◌, Option, none, some, List, [], ◌∷◌, ◌++◌, map, ◌==◌,
  if◌then◌else◌,
}
use amail_bridge.Std.Text.{Text, str, is_empty, contains, rsplit_once, split, trim}
use amail_bridge.Std.Number.{parse_uint, u64_max}
use amail_bridge.Std.Ip.{IpAddr, parse_ip}
use amail_bridge.Router.Route.{http, parse_u16, unwrap_or}

pub record VhostSiteConfig : Type 0 where
  pub domain : Text
  pub root : Option Text
  pub proxy : Option Text
  pub redirect : Option Text

pub record PushConfig : Type 0 where
  pub allowed_ips : List Text
  pub blacklist_ips : List Text
  pub rate_limit : ℕ
  pub body_limit_mb : ℕ
  pub sites : List VhostSiteConfig

unfoldable pub default_push : PushConfig
default_push = record {
  allowed_ips = [];
  blacklist_ips = [];
  rate_limit = 30;
  body_limit_mb = 20;
  sites = [];
}

unfoldable pub default_forward_headers : List Text
default_forward_headers =
    str "X-AIMail-Email"
    ∷ str "X-AIMail-Timestamp"
    ∷ str "X-Amail-Email"
    ∷ str "X-Mailrelay-Timestamp"
    ∷ str "X-Webhook-Signature"
    ∷ str "content-type"
    ∷ []

pub record PullSystemConfig : Type 0 where
  pub amail_url : Text
  pub admin_key : Text
  pub api_key : Text
  pub poll_interval_sec : ℕ
  pub system_id : Text

-- `PullSystemConfig::effective_key`
unfoldable pub effective_key : PullSystemConfig → Text
effective_key sys = if not (is_empty sys.api_key) then sys.api_key else sys.admin_key

-- The flat fields, as a system of their own, and the further systems.
pub record PullConfig : Type 0 where
  pub amail_url : Text
  pub admin_key : Text
  pub api_key : Text
  pub poll_interval_sec : ℕ
  pub system_id : Text
  pub systems : List PullSystemConfig

abbrev pub flat_system : PullConfig → PullSystemConfig
flat_system pull = record {
  amail_url = pull.amail_url;
  admin_key = pull.admin_key;
  api_key = pull.api_key;
  poll_interval_sec = pull.poll_interval_sec;
  system_id = pull.system_id;
}

abbrev pub systems_or : PullSystemConfig → List PullSystemConfig → List PullSystemConfig
systems_or flat [] = flat ∷ []
systems_or flat (sys ∷ systems) = sys ∷ systems

-- `PullConfig::resolved_systems`
unfoldable pub resolved_systems : PullConfig → List PullSystemConfig
resolved_systems pull = systems_or (flat_system pull) pull.systems

pub record HealthConfig : Type 0 where
  pub check_interval_sec : ℕ
  pub fail_threshold : ℕ
  pub connect_timeout_sec : ℕ

unfoldable pub default_health : HealthConfig
default_health = record { check_interval_sec = 60; fail_threshold = 3; connect_timeout_sec = 3 }

pub record LoggingConfig : Type 0 where
  pub level : Text
  pub file : Option Text

unfoldable pub default_logging : LoggingConfig
default_logging = record { level = str "info"; file = some (str "/var/log/aimail-bridge.log") }

pub record BridgeConfig : Type 0 where
  pub mode : Text
  pub bind : Text
  pub hostname : Option Text
  pub tls_cert : Option Text
  pub tls_key : Option Text
  pub acme_cache : Option Text
  pub acme_email : Option Text
  pub acme_challenge_path : Option Text
  pub admin_allowed_ips : List Text
  pub forward_headers : List Text
  pub push : PushConfig
  pub pull : PullConfig
  pub hermes_home : Option Text
  pub default_profile_dir : Text
  pub routes_file : Text
  pub logging : LoggingConfig
  pub health : HealthConfig

abbrev pub port_or : Text × ℕ → Text → Option ℕ → Text × ℕ
port_or other host none = other
port_or other host (some port) = (host, port)

-- `BridgeConfig::parsed_bind`
unfoldable pub parsed_bind : Text → Text × ℕ
parsed_bind bind = elim (rsplit_once b':' bind) [
  | none ↦ (bind, 80)
  | some (host, port_str) ↦ port_or (bind, 80) host (parse_u16 port_str)
]

abbrev pub is_some {ℓ} : {A : Type ℓ} → Option A → Bool
is_some none = false
is_some (some a) = true

abbrev pub head_or {ℓ} : {A : Type ℓ} → A → List A → A
head_or a [] = a
head_or a (x ∷ xs) = x

-- `is_ip_address`
unfoldable pub is_ip_address : Text → Bool
is_ip_address host = is_some (parse_ip (head_or host (split b':' host)))

abbrev pub is_domain : Option Text → Bool
is_domain none = false
is_domain (some h) = not (is_ip_address h)

-- `BridgeConfig::has_tls`
unfoldable pub has_tls : BridgeConfig → Bool
has_tls cfg = is_domain cfg.hostname

-- `BridgeConfig::is_dual_port`
unfoldable pub is_dual_port : BridgeConfig → Bool
is_dual_port cfg = let (_, port) = parsed_bind cfg.bind in port == 80 && is_domain cfg.hostname

-- The scheme that `load` puts before a URL without one.
unfoldable pub normalize_url : Text → Text
normalize_url url =
    if not (contains (str "://") url) && not (is_empty url) then http ++ url else url

unfoldable pub normalize_system : PullSystemConfig → PullSystemConfig
normalize_system sys = record sys { amail_url = normalize_url sys.amail_url }

unfoldable pub normalize : BridgeConfig → BridgeConfig
normalize cfg =
    let pull : PullConfig = cfg.pull in
    record cfg {
      pull = record pull {
        amail_url = normalize_url pull.amail_url;
        systems = map normalize_system pull.systems;
      };
    }

-- `toml::from_str`, the environment, and the operations on paths.
pub record System : Type 0 where
  pub read_config : Text → Option BridgeConfig
  pub var : Text → Option Text
  pub home_dir : Option Text
  pub current_dir : Text
  pub join : Text → Text → Text
  pub parent : Text → Option Text

module _ (S : System) where
  abbrev pub override {ℓ} : {A : Type ℓ} → Text → (Text → A → A) → A → A
  override name set a = elim (S.var name) [ none ↦ a | some v ↦ set v a ]

  -- The overrides of the pull section.
  unfoldable pub override_pull : PullConfig → PullConfig
  override_pull p =
      let p1 =
        override (str "AIMAIL_GATEWAY_URL") (λ v (c : PullConfig). record c { amail_url = v }) p in
      let p2 =
        override (str "AIMAIL_BRIDGE_ADMIN_KEY") (λ v (c : PullConfig). record c { admin_key = v })
          p1 in
      let p3 =
        override (str "AIMAIL_BRIDGE_SYSTEM_ID") (λ v (c : PullConfig). record c { system_id = v })
          p2 in
      override (str "AIMAIL_BRIDGE_POLL_SECS")
        (λ v (c : PullConfig). record c { poll_interval_sec = unwrap_or 10 (parse_uint u64_max v) })
        p3

  unfoldable pub override_push : PushConfig → PushConfig
  override_push p =
      override (str "AIMAIL_BRIDGE_ALLOWED_IPS")
        (λ v (c : PushConfig). record c { allowed_ips = map trim (split b',' v) }) p

  -- The directory of the profiles, and the path of the routes file.
  unfoldable pub set_paths : Text → BridgeConfig → BridgeConfig
  set_paths config_path cfg = record cfg {
    default_profile_dir =
        unwrap_or (S.join (unwrap_or (str "/tmp") S.home_dir) (str ".hermes")) cfg.hermes_home;
    routes_file = S.join (unwrap_or (str ".") (S.parent config_path)) (str "aimail_routes.toml");
  }

  unfoldable pub override_all : BridgeConfig → BridgeConfig
  override_all cfg = record cfg {
    mode = override (str "AIMAIL_BRIDGE_MODE") (λ v m. v) cfg.mode;
    hostname =
        override (str "AIMAIL_BRIDGE_HOSTNAME") (λ v h. if not (is_empty v) then some v else h)
          cfg.hostname;
    pull = override_pull cfg.pull;
    push = override_push cfg.push;
    hermes_home = override (str "HERMES_HOME") (λ v h. some v) cfg.hermes_home;
  }

  -- `BridgeConfig::load`
  unfoldable pub load : Option Text → Option BridgeConfig
  load path =
      let config_path = unwrap_or (S.join S.current_dir (str "aimail_bridge.toml")) path in
      elim (S.read_config config_path) [
        | none ↦ none
        | some cfg ↦ some (normalize (set_paths config_path (override_all cfg)))
      ]

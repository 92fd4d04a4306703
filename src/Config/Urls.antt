-- ===== src/Config/Urls.antt =====
-- src/config.rs: the URLs of the pull systems.
use amail_bridge.Common.{
  ◌≡◌, refl, ◌⊎◌, inl, inr, true, Option, some, List, [], ◌∷◌, ◌++◌, map, All, arith, Bool-cases,
  Option-cases, if◌then◌else◌, ℕ,
}
use amail_bridge.Std.Text.{Text, str, is_empty, contains, starts_with}
use amail_bridge.Router.Route.{http, unwrap_or}
use amail_bridge.Config.{
  PullSystemConfig, PullConfig, BridgeConfig, System, resolved_systems, systems_or, normalize_url,
  normalize_system, normalize, set_paths, override_all, load,
}

-- A URL with a scheme, or none at all.
abbrev pub HasScheme : Text → Type 0
HasScheme url = (url ≡ []) ⊎ (contains (str "://") url ≡ true)

contains-http : (url : Text) → contains (str "://") (http ++ url) ≡ true
unfolding contains starts_with
contains-http url = refl

normalize_url_some :
    (c : ℕ) (url : Text)
    → normalize_url (c ∷ url)
      ≡ (if contains (str "://") (c ∷ url) then c ∷ url else http ++ (c ∷ url))
unfolding normalize_url is_empty
normalize_url_some c url = elim (Bool-cases (contains (str "://") (c ∷ url))) [
  | inl e ↦ rw e refl
  | inr e ↦ rw e refl
]

normalize_url-HasScheme : (url : Text) → HasScheme (normalize_url url)
normalize_url-HasScheme [] = inl (unfold normalize_url in unfold is_empty in ground arith)
normalize_url-HasScheme (c ∷ url) = elim (Bool-cases (contains (str "://") (c ∷ url))) [
  | inl e ↦ rw (normalize_url_some c url) (rw e (inr e))
  | inr e ↦ rw (normalize_url_some c url) (rw e (inr (contains-http (c ∷ url))))
]

map-HasScheme :
    (systems : List PullSystemConfig)
    → All (λ sys. HasScheme sys.amail_url) (map normalize_system systems)
map-HasScheme [] = tt
map-HasScheme (sys ∷ systems) =
    (unfold normalize_system in normalize_url-HasScheme sys.amail_url, map-HasScheme systems)

systems_or-HasScheme :
    (flat : PullSystemConfig) (systems : List PullSystemConfig)
    → HasScheme flat.amail_url
    → All (λ sys. HasScheme sys.amail_url) systems
    → All (λ sys. HasScheme sys.amail_url) (systems_or flat systems)
systems_or-HasScheme flat [] h hs = (h, tt)
systems_or-HasScheme flat (sys ∷ systems) h hs = hs

normalize-HasScheme :
    (cfg : BridgeConfig)
    → All (λ sys. HasScheme sys.amail_url) (resolved_systems (normalize cfg).pull)
unfolding normalize resolved_systems
normalize-HasScheme cfg =
    let pull : PullConfig = cfg.pull in
    systems_or-HasScheme _ (map normalize_system pull.systems)
      (normalize_url-HasScheme pull.amail_url) (map-HasScheme pull.systems)

load-cases :
    (S : System) (path : Option Text) (cfg : BridgeConfig)
    → load S path ≡ some cfg
    → (raw : BridgeConfig) × (cfg ≡ normalize raw)
unfolding load
load-cases S path cfg h =
    let config_path = unwrap_or (S.join S.current_dir (str "aimail_bridge.toml")) path in
    elim (Option-cases (S.read_config config_path)) [
      | inl e ↦ absurd (ground (arith, e, h))
      | inr (raw, e) ↦ (set_paths S config_path (override_all S raw), ground (arith, e, h))
    ]

-- Whatever the file and the environment say, every system that a loaded configuration resolves
-- to has a URL with a scheme, or an empty one.
pub load-HasScheme :
    (S : System) (path : Option Text) (cfg : BridgeConfig)
    → load S path ≡ some cfg
    → All (λ sys. HasScheme sys.amail_url) (resolved_systems cfg.pull)
load-HasScheme S path cfg h =
    let (raw, e) = load-cases S path cfg h in rw e (normalize-HasScheme raw)

-- ===== src/Main/Tls.antt =====
-- src/main.rs and src/push.rs: the TLS configuration of push mode. rustls and rustls_pemfile are
-- parameters. A file that is there can be read, and one that was just written can be removed.
use mathlib.Core.Path.{subst}
use amail_bridge.Common.{
  Bool-cases, Option-cases, inl, inr, true, false, arith, ◌≡◌, refl, ap, ◌∙◌, ◌&&◌, Option, none,
  some, List, same, if◌then◌else◌, list_eq, nat_eq,
}
use amail_bridge.Common.Action.{
  Action, ◌>>=◌, ◌>>◌, pure, lift, OnSuccess, bind-OnSuccess, skip-OnSuccess, on_success,
  lift-OnSuccess, Keeps, bind-Keeps,
}
use amail_bridge.Std.Text.{Text, str, starts_with}
use amail_bridge.Std.Dict
use amail_bridge.Std.Files.{File, Host, join}
use amail_bridge.Router.Route.{unwrap_or}
use amail_bridge.Config.{BridgeConfig, has_tls}
use amail_bridge.Acme.{
  AcmeClient, AcmeCertPaths, Request, World, well_known, create_dir_all, write_file, cert_path,
  key_path, cert_paths, check_existing_cert, get_or_acquire_cert,
}
use amail_bridge.Acme.Acquired.{Reusable, reusable_lem}

-- What the code takes from the TLS crates.
pub record TlsLib : Type 1 where
  pub Cert : Type 0
  pub Key : Type 0
  pub RustlsConfig : Type 0
  pub certs : Text → Option (List Cert)
  pub private_key : Text → Option (Option Key)
  pub with_single_cert : List Cert → Key → Option RustlsConfig

-- The directories that the process asks for.
pub record Dirs : Type 0 where
  pub home_dir : Option Text
  pub current_dir : Option Text

-- The cache directory as an absolute path.
unfoldable pub cache_dir : Dirs → Option Text → Option Text
cache_dir D none = some (join (unwrap_or (str "/tmp") D.home_dir) (str ".acme_cache"))
cache_dir D (some p) = if starts_with (str "/") p then some p else join_to D.current_dir p
  where
    join_to : Option Text → Text → Option Text
    join_to none p = none
    join_to (some dir) p = some (join dir p)

-- The directory of a setting: an absolute path stands for itself, a relative one is below the
-- working directory, and without a setting it is `.acme_cache` in the home directory or in `/tmp`.
pub data IsCacheDir (D : Dirs) : Option Text → Text → Type 0 where
  absolute : (p : Text) → starts_with (str "/") p ≡ true → IsCacheDir D (some p) p
  relative :
      (p cwd : Text)
      → starts_with (str "/") p ≡ false
      → D.current_dir ≡ some cwd
      → IsCacheDir D (some p) (join cwd p)
  at_home :
      (home : Text) → D.home_dir ≡ some home → IsCacheDir D none (join home (str ".acme_cache"))
  homeless : D.home_dir ≡ none → IsCacheDir D none (join (str "/tmp") (str ".acme_cache"))

cache_dir-IsCacheDir :
    (D : Dirs) (setting : Option Text) (dir : Text)
    → cache_dir D setting ≡ some dir
    → IsCacheDir D setting dir
unfolding cache_dir
cache_dir-IsCacheDir D none dir h = elim (Option-cases D.home_dir) [
  | inl e ↦ subst (IsCacheDir D none) (ground arith) (homeless e)
  | inr (home, e) ↦ subst (IsCacheDir D none) (ground arith) (at_home home e)
]
cache_dir-IsCacheDir D (some p) dir h = elim (Bool-cases (starts_with (str "/") p)) [
  | inl e ↦ subst (IsCacheDir D (some p)) (ground arith) (absolute p e)
  | inr e ↦ elim (Option-cases D.current_dir) [
    | inl f ↦ absurd (ground arith)
    | inr (cwd, f) ↦ subst (IsCacheDir D (some p)) (ground arith) (relative p cwd e f)
  ]
]

module _ (H : Host) (A : AcmeClient) (T : TlsLib) (D : Dirs) where
  abbrev pub content_of : Option File → Option Text
  content_of none = none
  content_of (some file) = some file.content

  abbrev pub read_file : Text → Action (World H A) Text
  read_file path w = (content_of (Dict.get path w.files), w)

  -- `build_tls_config_from_paths`
  unfoldable pub build_tls_config_from_paths : Text → Text → Action (World H A) T.RustlsConfig
  build_tls_config_from_paths cert_path key_path = do
    cert_file ← read_file cert_path
    key_file ← read_file key_path
    certs ← lift (T.certs cert_file)
    found ← lift (T.private_key key_file)
    key ← lift found
    lift (T.with_single_cert certs key)

  abbrev pub remove_file : Text → Action (World H A) (Unit {0})
  remove_file path w = (some tt, record w { files = Dict.remove path w.files })

  -- The check that challenges can be written.
  unfoldable pub probe_challenge_path : Option Text → Action (World H A) (Unit {0})
  probe_challenge_path none = pure tt
  probe_challenge_path (some dir) = do
    create_dir_all H A (well_known H A dir)
    write_file H A (join (well_known H A dir) (str ".acme_probe")) (str "1")
    remove_file (join (well_known H A dir) (str ".acme_probe"))

  -- `acme_tls_config`
  unfoldable pub acme_tls_config : BridgeConfig → Action (World H A) T.RustlsConfig
  acme_tls_config config = do
    domain ← lift config.hostname
    dir ← lift (cache_dir D config.acme_cache)
    probe_challenge_path config.acme_challenge_path
    paths ← get_or_acquire_cert H A (record {
      domain = domain;
      cache_dir = dir;
      acme_email = config.acme_email;
      challenge_path = config.acme_challenge_path;
    })
    build_tls_config_from_paths paths.cert paths.key

  -- Static certificates where both are set, an order otherwise.
  unfoldable pub static_or_acme :
      BridgeConfig → Option Text → Option Text → Action (World H A) T.RustlsConfig
  static_or_acme config none key = acme_tls_config config
  static_or_acme config (some cert) none = acme_tls_config config
  static_or_acme config (some cert) (some key) = build_tls_config_from_paths cert key

  -- The TLS configuration of `async_main`; an error counts as none, and plain HTTP is served.
  unfoldable pub tls_config : BridgeConfig → World H A → Option T.RustlsConfig × World H A
  tls_config config w =
      if same config.mode (str "push") && has_tls config
      then static_or_acme config config.tls_cert config.tls_key w
      else (none, w)

  -- What is served is made of the domain's pair in the cache directory, which a restart reuses.
  abbrev pub ServesCached : BridgeConfig → T.RustlsConfig → World H A → Type 0
  ServesCached config t w =
      (r : Request) × (config.hostname ≡ some r.domain)
      × IsCacheDir D config.acme_cache r.cache_dir
      × (check_existing_cert (A.now w.remote) r w.files ≡ some (cert_paths r))
      × (build_tls_config_from_paths (cert_path r) (key_path r) w ≡ (some t, w))

  build-Keeps :
      (cert key : Text) (P : World H A → Type 0) → Keeps P (build_tls_config_from_paths cert key)
  unfolding build_tls_config_from_paths
  build-Keeps cert key P =
      bind-Keeps P _ _ (λ w p. p)
        (λ cert_file.
          bind-Keeps P _ _ (λ w p. p)
            (λ key_file.
              bind-Keeps P _ _ (λ w p. p)
                (λ certs.
                  bind-Keeps P _ _ (λ w p. p)
                    (λ found. bind-Keeps P _ _ (λ w p. p) (λ key w p. p)))))

  stays :
      (cert key : Text) (w : World H A) (result : Option T.RustlsConfig × World H A)
      → build_tls_config_from_paths cert key w ≡ result
      → result.1 ≡ w
      → OnSuccess
          (λ t w'. (w' ≡ w) × (build_tls_config_from_paths cert key w' ≡ (some t, w')))
          result
  stays cert key w (none, w') e unmoved = tt
  stays cert key w (some t, w') e unmoved =
      (unmoved, ap (build_tls_config_from_paths cert key) unmoved ∙ e)

  served :
      (config : BridgeConfig) (r : Request) (paths : AcmeCertPaths) (w : World H A)
      → config.hostname ≡ some r.domain
      → IsCacheDir D config.acme_cache r.cache_dir
      → Reusable H A r paths w
      → OnSuccess (ServesCached config) (build_tls_config_from_paths paths.cert paths.key w)
  unfolding cert_paths
  served config r paths w named placed (own, cached, _) =
      let made = build_tls_config_from_paths (cert_path r) (key_path r) w in
      let kept : made.1 ≡ w = build-Keeps (cert_path r) (key_path r) (λ w'. w' ≡ w) w refl in
      let there : OnSuccess (ServesCached config) made =
        weaken made (stays (cert_path r) (key_path r) w made refl kept) in
      rw own there
    where
      weaken :
          (result : Option T.RustlsConfig × World H A)
          → OnSuccess
              (λ t w'.
                (w' ≡ w)
                × (build_tls_config_from_paths (cert_path r) (key_path r) w' ≡ (some t, w')))
              result
          → OnSuccess (ServesCached config) result
      weaken (none, w') h = tt
      weaken (some t, w') (unmoved, e) = (r, named, placed, rw unmoved (cached ∙ ap some own), e)

  serves :
      (config : BridgeConfig) (w : World H A)
      → OnSuccess (ServesCached config) (acme_tls_config config w)
  unfolding acme_tls_config
  serves config w =
      bind-OnSuccess _ (ServesCached config) _ _ w (lift-OnSuccess config.hostname w)
        (λ domain w1 (_, named).
          bind-OnSuccess _ (ServesCached config) _ _ w1
            (lift-OnSuccess (cache_dir D config.acme_cache) w1)
            (λ dir w2 (_, found). skip-OnSuccess (ServesCached config) _ _ w2 (λ _ w3.
              bind-OnSuccess _ (ServesCached config) _ _ w3 (reusable_lem H A _ w3)
                (λ paths w4 reusable.
                  served config _ paths w4 named
                    (cache_dir-IsCacheDir D config.acme_cache dir found) reusable))))

  -- HTTPS with a certificate of an order is served from the pair of the host name in the directory
  -- of the setting, which is there and young enough to be reused by the next start.
  pub acme_tls_config_lem :
      (config : BridgeConfig) (w w' : World H A) (t : T.RustlsConfig)
      → acme_tls_config config w ≡ (some t, w')
      → ServesCached config t w'
  acme_tls_config_lem config w w' t e = on_success (ServesCached config) _ t w' (serves config w) e

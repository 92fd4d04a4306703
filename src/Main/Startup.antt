-- ===== src/Main/Startup.antt =====
-- src/main.rs: what `async_main` starts, and how it ends.
use amail_bridge.Common.{
  ◌≡◌, ◌≢◌, refl, ap, ◌∙◌, Bool, true, false, Option, none, some, List, [], ◌∷◌, same, eq_of_same,
  if◌then◌else◌, list_eq, nat_eq, arith, ◌⊎◌, inl, inr, Option-cases,
}
use amail_bridge.Common.Action.{Action, ◌>>=◌, ◌>>◌, lift, then_do}
use amail_bridge.Std.Text.{Text, str}
use amail_bridge.Std.Socket.{SocketAddr, parse_socket_addr}
use amail_bridge.Std.Files.{Host}
use amail_bridge.Config.{BridgeConfig, PullSystemConfig, resolved_systems}
use amail_bridge.Acme.{AcmeClient, World}
use amail_bridge.Main.Tls.{TlsLib, Dirs, tls_config}

unfoldable pub is_push : Text → Option Bool
is_push mode =
    if same mode (str "push")
    then some true
    else if same mode (str "pull")
    then some false
    else none

module _ (H : Host) (A : AcmeClient) (T : TlsLib) (D : Dirs) where
  -- What is started by the mode: the server, with the webhooks or without and with TLS or without,
  -- the pull loops and the route health checker. Both modes also start the watcher of the routes
  -- file and the task of the signals, and an order of a certificate its renewal.
  pub record Launch : Type 0 where
    pub address : SocketAddr
    pub webhooks : Bool
    pub tls : Option T.RustlsConfig
    pub pulls : List PullSystemConfig
    pub health : Bool

  unfoldable pub services : BridgeConfig → SocketAddr → Bool → Option T.RustlsConfig → Launch
  services config address true tls = record {
    address = address;
    webhooks = true;
    tls = tls;
    pulls = [];
    health = false;
  }
  services config address false tls = record {
    address = address;
    webhooks = false;
    tls = none;
    pulls = resolved_systems config.pull;
    health = true;
  }

  -- `tls_config` is `none` where it fails.
  unfoldable pub open_services : BridgeConfig → SocketAddr → Bool → Action (World H A) Launch
  open_services config address push w =
      let (tls, w') = tls_config H A T D config w in (some (services config address push tls), w')

  -- `async_main` up to the start of its tasks, with the configuration that was loaded and whether
  -- the HTTP client of push mode can be built.
  unfoldable pub client_ready : Bool → Bool → Option (Unit {0})
  client_ready true false = none
  client_ready true true = some tt
  client_ready false built = some tt

  unfoldable pub launch : Bool → BridgeConfig → Action (World H A) Launch
  launch client_built config = do
    push ← lift (is_push config.mode)
    lift (client_ready push client_built)
    address ← lift (parse_socket_addr config.bind)
    open_services config address push

  is_push_iff :
      (mode : Text) (b : Bool)
      → is_push mode ≡ some b
      → mode ≡ (if b then str "push" else str "pull")
  unfolding is_push
  is_push_iff mode true h = ground (arith, eq_of_same mode (str "push"))
  is_push_iff mode false h = ground (arith, eq_of_same mode (str "pull"))

  abbrev pub Launches : BridgeConfig → World H A → Launch → World H A → Type 0
  Launches config w l w' =
      (parse_socket_addr config.bind ≡ some l.address)
      × (((config.mode ≡ str "push")
            × (l.webhooks ≡ true)
            × (l.pulls ≡ [])
            × (l.health ≡ false)
            × ((l.tls, w') ≡ tls_config H A T D config w))
          ⊎ ((config.mode ≡ str "pull")
              × (l.webhooks ≡ false)
              × (l.pulls ≡ resolved_systems config.pull)
              × (l.health ≡ true)
              × (l.tls ≡ none)
              × (w' ≡ w)))

  pull_without_tls :
      (config : BridgeConfig) (w : World H A)
      → config.mode ≡ str "pull"
      → tls_config H A T D config w ≡ (none, w)
  unfolding tls_config list_eq nat_eq
  pull_without_tls config w e = rw e refl

  opened :
      (config : BridgeConfig) (address : SocketAddr) (push : Bool) (w : World H A)
      → is_push config.mode ≡ some push
      → parse_socket_addr config.bind ≡ some address
      → (l : Launch) × (w' : World H A) × (open_services config address push w ≡ (some l, w'))
        × Launches config w l w'
  unfolding open_services services
  opened config address true w h parsed =
      (_, _, refl, (parsed, inl (is_push_iff config.mode true h, refl, refl, refl, refl)))
  opened config address false w h parsed =
      let mode = is_push_iff config.mode false h in
      (
        _,
        _,
        refl,
        (
          parsed,
          inr (mode, refl, refl, refl, refl, ap (λ r. r.1) (pull_without_tls config w mode)),
        ),
      )

  is_some_ne {ℓ} : {B : Type ℓ} {b : B} → some b ≡ none → ⊥
  is_some_ne h = cc

  is_push-none : (mode : Text) → is_push mode ≡ none → (mode ≢ str "push") × (mode ≢ str "pull")
  unfolding is_push list_eq nat_eq
  is_push-none mode h = (λ e. is_some_ne (rw e at h), λ e. is_some_ne (rw e at h))

  client_ready-none :
      (push built : Bool) → client_ready push built ≡ none → (push ≡ true) × (built ≡ false)
  unfolding client_ready
  client_ready-none push built h = ground arith

  -- Why a start fails: the mode is unknown, the client of push mode cannot be built, or the
  -- address does not parse.
  abbrev pub CannotStart : Bool → BridgeConfig → Type 0
  CannotStart client_built config =
      ((config.mode ≢ str "push") × (config.mode ≢ str "pull"))
      ⊎ (((config.mode ≡ str "push") × (client_built ≡ false))
          ⊎ (parse_socket_addr config.bind ≡ none))

  no_mode :
      (client_built : Bool) (config : BridgeConfig) (w : World H A)
      → is_push config.mode ≡ none
      → launch client_built config w ≡ (none, w)
  unfolding launch ◌>>=◌
  no_mode client_built config w e = rw e refl

  no_client :
      (client_built : Bool) (config : BridgeConfig) (push : Bool) (w : World H A)
      → is_push config.mode ≡ some push
      → client_ready push client_built ≡ none
      → launch client_built config w ≡ (none, w)
  unfolding launch ◌>>=◌
  no_client client_built config push w e f = rw (e, f) refl

  address_decides :
      (client_built : Bool) (config : BridgeConfig) (push : Bool) (w : World H A)
      → is_push config.mode ≡ some push
      → client_ready push client_built ≡ some tt
      → launch client_built config w
        ≡ then_do (λ address. open_services config address push) (parse_socket_addr config.bind, w)
  unfolding launch ◌>>=◌
  address_decides client_built config push w e f = rw (e, f) refl

  pub launch_lem :
      (client_built : Bool) (config : BridgeConfig) (w : World H A)
      → ((l : Launch) × (w' : World H A) × (launch client_built config w ≡ (some l, w'))
          × Launches config w l w')
        ⊎ ((launch client_built config w ≡ (none, w)) × CannotStart client_built config)
  launch_lem client_built config w = elim (Option-cases (is_push config.mode)) [
    | inl e ↦ inr (no_mode client_built config w e, inl (is_push-none config.mode e))
    | inr (push, e) ↦ elim (Option-cases (client_ready push client_built)) [
      | inl f ↦
          let (in_push, unbuilt) = client_ready-none push client_built f in
          let mode : config.mode ≡ str "push" =
            is_push_iff config.mode true (e ∙ ap some in_push) in
          inr (no_client client_built config push w e f, inr (inl (mode, unbuilt)))
      | inr (ready, f) ↦
          let decided = address_decides client_built config push w e f in
          elim (Option-cases (parse_socket_addr config.bind)) [
            | inl g ↦ inr (decided ∙ rw g refl, inr (inr g))
            | inr (address, g) ↦
                let (l, w', started, facts) = opened config address push w e g in
                inl (l, w', decided ∙ rw g started, facts)
          ]
    ]
  ]

-- What `async_main` hears of its tasks in pull mode.
pub data Failure : Type 0 where
  pull_failed : Text → Failure
  server_failed : Text → Failure

-- `first_err`: an error of the server replaces what is there.
unfoldable pub note_failure : Option Text → Failure → Option Text
note_failure first (server_failed e) = some e
note_failure none (pull_failed e) = some e
note_failure (some first) (pull_failed e) = some first

unfoldable pub first_err : Option Text → List Failure → Option Text
first_err first [] = first
first_err first (f ∷ fs) = first_err (note_failure first f) fs

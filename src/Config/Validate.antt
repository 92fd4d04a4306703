-- ===== src/Config/Validate.antt =====
-- src/config.rs: `validate`, as the list of the messages that it logs.
use amail_bridge.Common.{
  ℕ, ◌+◌, ◌≡◌, ◌≢◌, refl, sym, ◌↔◌, Bool, true, false, not, ◌&&◌, List, [], ◌∷◌, ◌++◌, All, arith,
  same, Bool-cases, inl, inr, if◌then◌else◌, list_eq, nat_eq,
}
use mathlib.Core.Path.{subst}
use amail_bridge.Std.Text.{Text, str, is_empty}
use amail_bridge.Config.{
  BridgeConfig, PullSystemConfig, effective_key, resolved_systems, is_some, is_dual_port,
}

pub data Notice : Type 0 where
  no_amail_url : ℕ → Notice
  no_key : ℕ → Notice
  no_system_id : ℕ → Notice
  will_use_acme : Notice
  dual_port_mode : Notice

abbrev pub notice_if : Bool → Notice → List Notice → List Notice
notice_if true n rest = n ∷ rest
notice_if false n rest = rest

-- The warnings on the system with the index `i`, and those behind it.
unfoldable pub system_notices : ℕ → PullSystemConfig → List Notice → List Notice
system_notices i sys rest = notice_if (is_empty sys.amail_url) (no_amail_url i) (
    notice_if (is_empty sys.admin_key && is_empty sys.api_key) (no_key i)
      (notice_if (is_empty sys.system_id) (no_system_id i) rest))

unfoldable pub systems_notices : ℕ → List PullSystemConfig → List Notice
systems_notices i [] = []
systems_notices i (sys ∷ systems) = system_notices i sys (systems_notices (i + 1) systems)

-- `BridgeConfig::validate`
unfoldable pub validate : BridgeConfig → List Notice
validate cfg =
    (if same cfg.mode (str "pull") then systems_notices 0 (resolved_systems cfg.pull) else [])
    ++ notice_if (is_some cfg.hostname && not (is_some cfg.tls_cert) && not (is_some cfg.tls_key))
        will_use_acme (notice_if (is_dual_port cfg) dual_port_mode [])

-- A system with everything that a pull loop needs.
abbrev pub IsComplete : PullSystemConfig → Type 0
IsComplete sys = (sys.amail_url ≢ []) × (effective_key sys ≢ []) × (sys.system_id ≢ [])

is_empty_iff : (s : Text) → (is_empty s ≡ false) ↔ (s ≢ [])
unfolding is_empty
is_empty_iff [] = (λ h. absurd (cc), λ h. absurd (h refl))
is_empty_iff (c ∷ s) = (λ h e. cc, λ h. refl)

no_key_iff :
    (sys : PullSystemConfig)
    → ((is_empty sys.admin_key && is_empty sys.api_key) ≡ false) ↔ (effective_key sys ≢ [])
unfolding effective_key
no_key_iff sys =
    let api = is_empty_iff sys.api_key in
    let admin = is_empty_iff sys.admin_key in
    elim (Bool-cases (is_empty sys.api_key)) [
      | inl e ↦
          let key : effective_key sys ≡ sys.admin_key = ground arith in
          (
            λ h. subst (λ k. k ≢ []) (sym key) (admin.0 (ground (arith, h, e))),
            λ h. ground (arith, admin.1 (subst (λ k. k ≢ []) key h)),
          )
      | inr e ↦
          let key : effective_key sys ≡ sys.api_key = ground arith in
          (λ h. subst (λ k. k ≢ []) (sym key) (api.0 e), λ h. ground (arith, e))
    ]

notice_if_iff :
    (b : Bool) (n : Notice) (rest : List Notice)
    → (notice_if b n rest ≡ []) ↔ ((b ≡ false) × (rest ≡ []))
notice_if_iff true n rest = (λ h. absurd (cc), λ (h, _). absurd (cc))
notice_if_iff false n rest = (λ h. (refl, h), λ (_, h). h)

-- The pull systems of a configuration draw no warning exactly when each has a URL, a system id and
-- a key, taken from either of the two key fields.
pub systems_notices_iff :
    (i : ℕ) (systems : List PullSystemConfig)
    → (systems_notices i systems ≡ []) ↔ All IsComplete systems
unfolding systems_notices system_notices
systems_notices_iff i [] = (λ h. tt, λ h. refl)
systems_notices_iff i (sys ∷ systems) =
    let url = notice_if_iff (is_empty sys.amail_url) (no_amail_url i) _ in
    let key = notice_if_iff (is_empty sys.admin_key && is_empty sys.api_key) (no_key i) _ in
    let id = notice_if_iff (is_empty sys.system_id) (no_system_id i) _ in
    let rest = systems_notices_iff (i + 1) systems in
    (
      λ h.
          let (a, h1) = url.0 h in
          let (b, h2) = key.0 h1 in
          let (c, h3) = id.0 h2 in
          (
            (
              (is_empty_iff sys.amail_url).0 a,
              (no_key_iff sys).0 b,
              (is_empty_iff sys.system_id).0 c,
            ),
            rest.0 h3,
          ),
      λ ((a, b, c), d). url.1 (
        (is_empty_iff sys.amail_url).1 a,
        key.1 ((no_key_iff sys).1 b, id.1 ((is_empty_iff sys.system_id).1 c, rest.1 d)),
      ),
    )

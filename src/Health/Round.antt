-- ===== src/Health/Round.antt =====
-- src/health.rs: what a whole round does to the table.
use mathlib.Core.Path.{ap₂}
use amail_bridge.Common.{
  ℕ, ◌≡◌, ◌≢◌, refl, ◌∙◌, Bool, false, ◌||◌, ◌&&◌, none, some, List, [], ◌∷◌, ◌++◌, arith, any,
  any-append, same, eq_of_same, if◌then◌else◌, list_eq, nat_eq, Bool-cases, inl, inr,
}
use amail_bridge.Std.Text.{Text}
use amail_bridge.Std.Dict
use amail_bridge.Std.Dict.{Dict, get-insert, get-cons}
use amail_bridge.Router.Route.{ProfileRoute, unwrap_or}
use amail_bridge.Router.Table.{Crates, ProfileRouter, list_routes}
use amail_bridge.Router.Keyed.{IsTable, head-IsTable}
use amail_bridge.Health.{
  Network, route_target_key, group_routes, probe_all, check_listed, check_routes, remove_dead,
}
use amail_bridge.Health.Removal.{dead_emails, remove_dead-get}

-- The emails that stand in the group of a target.
abbrev pub group : Text → Dict Text (List Text) → List Text
group target groups = unwrap_or [] (Dict.get target groups)

-- Whether a route of the list has the email and the target.
abbrev pub names : Text → Text → List ProfileRoute → Bool
names k target rs = any (λ r. same target (route_target_key r) && same k r.email) rs

group_routes-any :
    (k target : Text) (rs : List ProfileRoute) (groups : Dict Text (List Text))
    → any (same k) (group target (group_routes rs groups))
      ≡ any (same k) (group target groups) || names k target rs
unfolding group_routes
group_routes-any k target [] groups = ground arith
group_routes-any k target (r ∷ rs) groups =
    let key = route_target_key r in
    let emails = group key groups ++ (r.email ∷ []) in
    let rest = group_routes-any k target rs (Dict.insert key emails groups) in
    let added = get-insert target key emails groups in
    let split = any-append (same k) (group key groups) (r.email ∷ []) in
    elim (Bool-cases (same target key)) [
      | inl e ↦
          let same_key = eq_of_same target key e in ground (arith, rest, added, split, e, same_key)
      | inr e ↦ ground (arith, rest, added, e)
    ]

pub group_routes_new :
    (k target : Text) (rs : List ProfileRoute)
    → any (same k) (group target (group_routes rs [])) ≡ names k target rs
unfolding Dict.get
group_routes_new k target rs = group_routes-any k target rs []

-- No route of a table has an email without an entry.
values-names_absent :
    (k target : Text) (d : Dict Text ProfileRoute)
    → IsTable d
    → Dict.get k d ≡ none
    → names k target (Dict.values d) ≡ false
unfolding Dict.values
values-names_absent k target [] t h = refl
values-names_absent k target ((j, r) ∷ d) t h =
    let (email, rest) = head-IsTable j r d t in
    let here = get-cons k j r d in
    elim (Bool-cases (same k j)) [
      | inl e ↦ absurd (ground (arith, h, here, e))
      | inr e ↦
          let absent = values-names_absent k target d rest (ground (arith, h, here, e)) in
          ground (arith, email, absent, e)
    ]

-- In a table, the route of an email is the only one with it.
pub values-names :
    (k target : Text) (d : Dict Text ProfileRoute) (route : ProfileRoute)
    → IsTable d
    → Dict.get k d ≡ some route
    → names k target (Dict.values d) ≡ same target (route_target_key route)
unfolding Dict.values
values-names k target [] route t h = unfold Dict.get in absurd (cc)
values-names k target ((j, r) ∷ d) route t h =
    let (email, rest) = head-IsTable j r d t in
    let here = get-cons k j r d in
    elim (Bool-cases (same k j)) [
      | inl e ↦
          let same_key = eq_of_same k j e in
          let absent = values-names_absent k target d rest (rw same_key t.nodup.0) in
          let found : r ≡ route = ground (arith, h, here, e) in
          rw⁻¹ found (ground (arith, absent, e, email))
      | inr e ↦
          let there = values-names k target d route rest (ground (arith, h, here, e)) in
          ground (arith, there, e, email)
    ]

-- The dead targets' emails hold the email of a route exactly when its target is dead.
dead_emails-any :
    (k : Text) (d : Dict Text ProfileRoute) (route : ProfileRoute) (targets : List Text)
    → IsTable d
    → Dict.get k d ≡ some route
    → any (same k) (dead_emails (group_routes (Dict.values d) []) targets)
      ≡ any (λ target. same target (route_target_key route)) targets
dead_emails-any k d route [] t h = refl
dead_emails-any k d route (target ∷ targets) t h =
    let groups = group_routes (Dict.values d) [] in
    any-append (same k) (group target groups) (dead_emails groups targets)
    ∙ ap₂ ◌||◌ (group_routes_new k target (Dict.values d) ∙ values-names k target d route t h)
        (dead_emails-any k d route targets t h)

pub values-ne-nil :
    (k : Text) (d : Dict Text ProfileRoute) (route : ProfileRoute)
    → Dict.get k d ≡ some route
    → Dict.values d ≢ []
values-ne-nil k [] route h = unfold Dict.get in absurd (cc)
values-ne-nil k ((j, r) ∷ d) route h = unfold Dict.values in λ e. cc

module _ (N : Network) (C : Crates) where
  pub check_listed-eq :
      (threshold : ℕ) (rs : List ProfileRoute) (r : ProfileRouter C.Regex) (failures : Dict Text ℕ)
      (w : N.World)
      → rs ≢ []
      → (check_listed N C threshold rs r failures w).0 ≡ (
          let groups = group_routes rs [] in
          let c =
            (probe_all N threshold groups
              (record { failures = failures; dead_targets = [] }, w)).0 in
          remove_dead C groups c.dead_targets (r, c.failures))
  unfolding check_listed
  check_listed-eq threshold [] r failures w some_route = absurd (some_route refl)
  check_listed-eq threshold (route ∷ rs) r failures w some_route = refl

  -- The targets that a round finds dead.
  unfoldable pub dead_in_round : ℕ → ProfileRouter C.Regex → Dict Text ℕ → N.World → List Text
  dead_in_round threshold r failures w =
      (probe_all N threshold (group_routes (Dict.values r.routes) [])
        (record { failures = failures; dead_targets = [] }, w)).0.dead_targets

  -- The probes take time, and the table may change meanwhile, from `r` to `later`. The round removes
  -- the emails whose route had, when the round began, a target that it finds dead, whatever their
  -- routes are by then, also a route that an update has moved to another target; every other
  -- email of that table has its later route. The table has to be one in which each route stands
  -- under its own email.
  pub check_listed-get :
      (threshold : ℕ) (r later : ProfileRouter C.Regex) (failures : Dict Text ℕ) (w : N.World)
      (k : Text) (route : ProfileRoute)
      → IsTable r.routes
      → Dict.get k r.routes ≡ some route
      → Dict.get k (check_listed N C threshold (list_routes C r) later failures w).0.0.routes ≡ (
          if any
            (λ target. same target (route_target_key route))
            (dead_in_round threshold r failures w)
          then none
          else Dict.get k later.routes)
  unfolding list_routes dead_in_round
  check_listed-get threshold r later failures w k route t h =
      let d = r.routes in
      let c =
        (probe_all N threshold (group_routes (Dict.values d) [])
          (record { failures = failures; dead_targets = [] }, w)).0 in
      let removed =
        remove_dead-get C k (group_routes (Dict.values d) []) c.dead_targets later c.failures in
      rw (check_listed-eq threshold (Dict.values d) later failures w (values-ne-nil k d route h))
        (removed ∙ rw (dead_emails-any k d route c.dead_targets t h) refl)

  -- A round removes exactly the routes whose target it finds dead. The table has to be one in
  -- which each route stands under its own email.
  pub check_routes-get :
      (threshold : ℕ) (r : ProfileRouter C.Regex) (failures : Dict Text ℕ) (w : N.World) (k : Text)
      (route : ProfileRoute)
      → IsTable r.routes
      → Dict.get k r.routes ≡ some route
      → Dict.get k (check_routes N C threshold r failures w).0.0.routes ≡ (
          if any
            (λ target. same target (route_target_key route))
            (dead_in_round threshold r failures w)
          then none
          else some route)
  unfolding check_routes
  check_routes-get threshold r failures w k route t h =
      check_listed-get threshold r r failures w k route t h ∙ rw h refl

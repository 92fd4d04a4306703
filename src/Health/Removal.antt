-- ===== src/Health/Removal.antt =====
-- src/health.rs: which routes a round removes.
use amail_bridge.Common.{
  ℕ, ◌≡◌, refl, none, List, [], ◌∷◌, ◌++◌, arith, any, any-append, same, if◌then◌else◌, list_eq,
  nat_eq,
}
use amail_bridge.Std.Text.{Text}
use amail_bridge.Std.Dict
use amail_bridge.Std.Dict.{Dict}
use amail_bridge.Router.Route.{unwrap_or}
use amail_bridge.Router.Table.{Crates, ProfileRouter, remove_route}
use amail_bridge.Router.Update.{remove_route_lem}
use amail_bridge.Health.{remove_emails, remove_dead}

-- The addresses of the dead targets.
abbrev pub dead_emails : Dict Text (List Text) → List Text → List Text
dead_emails groups [] = []
dead_emails groups (target ∷ targets) =
    unwrap_or [] (Dict.get target groups) ++ dead_emails groups targets

module _ (C : Crates) (k : Text) where
  remove_emails-get :
      (emails : List Text) (r : ProfileRouter C.Regex)
      → Dict.get k (remove_emails C emails r).routes
        ≡ (if any (same k) emails then none else Dict.get k r.routes)
  unfolding remove_emails
  remove_emails-get [] r = refl
  remove_emails-get (email ∷ emails) r =
      let rest = remove_emails-get emails (remove_route C email r) in
      let (first, _, _, _) = remove_route_lem C email r k in ground (arith, rest, first)

  -- The end of a round removes exactly the routes of the addresses whose target was found dead;
  -- any other route stays as it is.
  pub remove_dead-get :
      (groups : Dict Text (List Text)) (targets : List Text) (r : ProfileRouter C.Regex)
      (failures : Dict Text ℕ)
      → Dict.get k (remove_dead C groups targets (r, failures)).0.routes
        ≡ (if any (same k) (dead_emails groups targets) then none else Dict.get k r.routes)
  unfolding remove_dead
  remove_dead-get groups [] r failures = refl
  remove_dead-get groups (target ∷ targets) r failures =
      let emails = unwrap_or [] (Dict.get target groups) in
      let rest =
        remove_dead-get groups targets (remove_emails C emails r) (Dict.remove target failures) in
      let first = remove_emails-get emails r in
      let split = any-append (same k) emails (dead_emails groups targets) in
      ground (arith, rest, first, split)

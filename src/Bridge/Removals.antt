-- ===== src/Bridge/Removals.antt =====
-- What the health checker and the admin API do to the route table.
use amail_bridge.Common.{ℕ, Option, List, [], ◌∷◌, ◌||◌, ◌==◌, Bool-cases, inl, inr}
use amail_bridge.Std.Text.{Text, is_empty}
use amail_bridge.Std.Dict.{Dict}
use amail_bridge.Std.Ip.{IpAddr}
use amail_bridge.Config.{BridgeConfig}
use amail_bridge.Router.Route.{ProfileRoute}
use amail_bridge.Router.Table.{Crates, ProfileRouter}
use amail_bridge.Router.Steps.{Reachable, next, removes, updates}
use amail_bridge.Push.Access.{parse_ip_list, admin_allows}
use amail_bridge.Health.{Network, remove_emails, remove_dead, check_listed, check_routes}
use amail_bridge.Admin.{
  AdminRequest, get_health, get_routes, post_route, delete_route, CreateRouteBody, create_route,
  handle, serve,
}

module _ (C : Crates) where
  remove_emails-Reachable :
      (emails : List Text) (r : ProfileRouter C.Regex)
      → Reachable C r
      → Reachable C (remove_emails C emails r)
  unfolding remove_emails
  remove_emails-Reachable [] r h = h
  remove_emails-Reachable (email ∷ emails) r h =
      remove_emails-Reachable emails _ (next h (removes email r))

  remove_dead-Reachable :
      (groups : Dict Text (List Text)) (targets : List Text) (r : ProfileRouter C.Regex)
      (failures : Dict Text ℕ)
      → Reachable C r
      → Reachable C (remove_dead C groups targets (r, failures)).0
  unfolding remove_dead
  remove_dead-Reachable groups [] r failures h = h
  remove_dead-Reachable groups (target ∷ targets) r failures h =
      remove_dead-Reachable groups targets _ _ (remove_emails-Reachable _ r h)

  create_route-Reachable :
      (cfg : BridgeConfig) (body : CreateRouteBody) (r : ProfileRouter C.Regex)
      → Reachable C r
      → Reachable C (create_route C cfg body r).1
  unfolding create_route
  create_route-Reachable cfg body r h =
      elim (Bool-cases (is_empty body.email || is_empty body.host || body.port == 0)) [
        | inl e ↦ rw e h
        | inr e ↦ rw e (next h (updates body.email body.host body.port r))
      ]

  handle-Reachable :
      (cfg : BridgeConfig) (request : AdminRequest) (r : ProfileRouter C.Regex)
      → Reachable C r
      → Reachable C (handle C cfg request r).1
  unfolding handle
  handle-Reachable cfg (get_health elapsed) r h = h
  handle-Reachable cfg get_routes r h = h
  handle-Reachable cfg (post_route body) r h = create_route-Reachable cfg body r h
  handle-Reachable cfg (delete_route email) r h = next h (removes email r)

  pub serve-Reachable :
      (cfg : BridgeConfig) (peer : Option IpAddr) (request : AdminRequest)
      (r : ProfileRouter C.Regex)
      → Reachable C r
      → Reachable C (serve C cfg peer request r).1
  unfolding serve
  serve-Reachable cfg peer request r h =
      elim (Bool-cases (admin_allows (parse_ip_list cfg.admin_allowed_ips) peer)) [
        | inl e ↦ rw e (handle-Reachable cfg request r h)
        | inr e ↦ rw e h
      ]

module _ (N : Network) (C : Crates) where
  check_listed-Reachable :
      (threshold : ℕ) (routes : List ProfileRoute) (r : ProfileRouter C.Regex)
      (failures : Dict Text ℕ) (w : N.World)
      → Reachable C r
      → Reachable C (check_listed N C threshold routes r failures w).0.0
  unfolding check_listed
  check_listed-Reachable threshold [] r failures w h = h
  check_listed-Reachable threshold (route ∷ routes) r failures w h =
      remove_dead-Reachable C _ _ r _ h

  pub check_routes-Reachable :
      (threshold : ℕ) (r : ProfileRouter C.Regex) (failures : Dict Text ℕ) (w : N.World)
      → Reachable C r
      → Reachable C (check_routes N C threshold r failures w).0.0
  unfolding check_routes
  check_routes-Reachable threshold r failures w h =
      check_listed-Reachable threshold _ r failures w h

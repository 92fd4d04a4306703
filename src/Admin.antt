-- ===== src/Admin.antt =====
-- src/admin.rs: the handlers of the admin API. The JSON of a response is kept as a record.
pub mod Handlers
use amail_bridge.Common.{
  ℕ, ◌/◌, Bool, ◌||◌, Option, none, some, List, [], ◌∷◌, ◌++◌, ◌==◌, if◌then◌else◌, same, list_eq,
  nat_eq,
}
use amail_bridge.Std.Text.{Text, str, is_empty}
use amail_bridge.Std.Ip.{IpAddr}
use amail_bridge.Router.Route.{ProfileRoute, unwrap_or}
use amail_bridge.Router.Table.{Crates, ProfileRouter, list_routes, update_route, remove_route}
use amail_bridge.Config.{BridgeConfig}
use amail_bridge.Push.Access.{admin_allows, parse_ip_list}

pub record RouteEntry : Type 0 where
  pub email : Text
  pub host : Text
  pub port : ℕ

pub record CreateRouteBody : Type 0 where
  pub email : Text
  pub host : Text
  pub port : ℕ

-- What the requests of the API carry; one for the health answer comes at a time since the start, in
-- nanoseconds.
pub data AdminRequest : Type 0 where
  get_health : ℕ → AdminRequest
  get_routes : AdminRequest
  post_route : CreateRouteBody → AdminRequest
  delete_route : Text → AdminRequest

pub data AdminResponse : Type 0 where
  healthy : ℕ → AdminResponse
  routes : List RouteEntry → AdminResponse
  created : Text → AdminResponse
  ok : AdminResponse
  bad_request : AdminResponse
  forbidden : AdminResponse

-- The uptime of the answer of `health`, whose other fields are constants.
unfoldable pub uptime_secs : ℕ → ℕ
uptime_secs elapsed = elapsed / 1_000_000_000

unfoldable pub route_entries : List ProfileRoute → List RouteEntry
route_entries [] = []
route_entries (r ∷ rs) = record { email = r.email; host = r.host; port = r.port } ∷ route_entries rs

-- The URL that `create_route` answers with.
unfoldable pub webhook_url : BridgeConfig → Text
webhook_url cfg =
    if same cfg.mode (str "push")
    then str "http://" ++ unwrap_or cfg.bind cfg.hostname ++ str "/webhooks/amail-inbound"
    else []

module _ (C : Crates) where
  -- `create_route`
  unfoldable pub create_route :
      BridgeConfig → CreateRouteBody → ProfileRouter C.Regex → AdminResponse × ProfileRouter C.Regex
  create_route cfg body r =
      if is_empty body.email || is_empty body.host || body.port == 0
      then (bad_request, r)
      else (created (webhook_url cfg), update_route C body.email body.host body.port r)

  -- The handler of a request.
  unfoldable pub handle :
      BridgeConfig → AdminRequest → ProfileRouter C.Regex → AdminResponse × ProfileRouter C.Regex
  handle cfg (get_health elapsed) r = (healthy (uptime_secs elapsed), r)
  handle cfg get_routes r = (routes (route_entries (list_routes C r)), r)
  handle cfg (post_route body) r = create_route cfg body r
  handle cfg (delete_route email) r = (ok, remove_route C email r)

  -- A request behind the middleware of `build_admin_router`.
  unfoldable pub serve :
      BridgeConfig
      → Option IpAddr
      → AdminRequest
      → ProfileRouter C.Regex
      → AdminResponse × ProfileRouter C.Regex
  serve cfg peer request r =
      if admin_allows (parse_ip_list cfg.admin_allowed_ips) peer
      then handle cfg request r
      else (forbidden, r)

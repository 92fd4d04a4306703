-- ===== src/Admin/Handlers.antt =====
-- src/admin.rs: who may change the routes, and to what.
use amail_bridge.Common.{
  ◌≡◌, ◌≢◌, refl, ◌||◌, some, [], arith, ◌==◌, Bool-cases, inl, inr, ◌⊎◌, same, if◌then◌else◌,
  list_eq, nat_eq,
}
use amail_bridge.Std.Text.{Text, is_empty}
use amail_bridge.Std.Dict
use amail_bridge.Std.Ip.{IpAddr, IsIp}
use amail_bridge.Router.Table.{Crates, ProfileRouter}
use amail_bridge.Router.Update.{route_for, update_route_lem}
use amail_bridge.Config.{BridgeConfig}
use amail_bridge.Push.Access.{SomeValid, Listed, admin_allows, parse_ip_list, admin_allows_iff}
use amail_bridge.Admin.{
  AdminRequest, CreateRouteBody, bad_request, forbidden, create_route, serve, webhook_url, created,
}

module _ (C : Crates) where
  -- A request of a peer that no valid entry of the admin list holds is refused and leaves the
  -- router as it is, when some entry of the list is valid.
  pub serve-forbidden :
      (cfg : BridgeConfig) (ip : IpAddr) (request : AdminRequest) (r : ProfileRouter C.Regex)
      → IsIp ip
      → SomeValid cfg.admin_allowed_ips
      → ¬ Listed ip cfg.admin_allowed_ips
      → serve C cfg (some ip) request r ≡ (forbidden, r)
  unfolding serve
  serve-forbidden cfg ip request r ok valid unlisted =
      let (to, _) = admin_allows_iff (some ip) ip cfg.admin_allowed_ips (inl refl) ok in
      elim (Bool-cases (admin_allows (parse_ip_list cfg.admin_allowed_ips) (some ip))) [
        | inl e ↦ absurd (unlisted (to e valid))
        | inr e ↦ rw e refl
      ]

  -- A route is created exactly when its address and host are not empty and its port is not 0: then
  -- the table has the new route and every other one as before; otherwise the answer is an error
  -- and the router is as before.
  pub create_route_lem :
      (cfg : BridgeConfig) (body : CreateRouteBody) (r : ProfileRouter C.Regex) (k : Text)
      → let (answer, r') = create_route C cfg body r in
        (((body.email ≢ []) × (body.host ≢ []) × (body.port ≢ 0))
          × (answer ≡ created (webhook_url cfg))
          × (Dict.get k r'.routes ≡ (
              if same k body.email
              then some (route_for body.email body.host body.port)
              else Dict.get k r.routes)))
        ⊎ (((body.email ≡ []) ⊎ ((body.host ≡ []) ⊎ (body.port ≡ 0)))
            × (answer ≡ bad_request)
            × (r' ≡ r))
  unfolding create_route is_empty
  create_route_lem cfg body r k =
      let (first, _, _, _) = update_route_lem C body.email body.host body.port r k in
      elim (Bool-cases (is_empty body.email || is_empty body.host || body.port == 0)) [
        | inl e ↦ inr (ground arith, ground arith, ground arith)
        | inr e ↦
            inl ((ground arith, ground arith, ground arith), ground arith, ground (arith, first))
      ]

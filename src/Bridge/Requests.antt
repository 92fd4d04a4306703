-- ===== src/Bridge/Requests.antt =====
-- src/admin.rs and src/push.rs: a request of the admin API, and the webhook that comes after it.
use amail_bridge.Common.{
  ◌≡◌, ◌≢◌, refl, ◌||◌, false, some, List, [], arith, ◌==◌, Bool-cases, inl, inr,
}
use amail_bridge.Std.Text.{Text, is_empty}
use amail_bridge.Std.Ip.{IpAddr, IsIp}
use amail_bridge.Config.{BridgeConfig}
use amail_bridge.Http.{Json, HeaderLib, HeaderLibLaws, Client}
use amail_bridge.Router.Table.{Crates, ProfileRouter, update_route}
use amail_bridge.Router.Update.{route_for}
use amail_bridge.Push.Access.{Listed, admin_allows_iff}
use amail_bridge.Push.Webhook.{State, filter_headers, request_email, is_batch, handle_webhook}
use amail_bridge.Push.Webhook.Single.{
  with_router, handle_webhook-update_route, AreForwarded, IsRelayed, filter_headers-AreForwarded,
  relay_response-IsRelayed,
}
use amail_bridge.Admin.{
  CreateRouteBody, post_route, created, create_route, handle, serve, webhook_url,
}

-- A body that the admin API takes.
abbrev pub IsComplete : CreateRouteBody → Type 0
IsComplete body = (body.email ≢ []) × (body.host ≢ []) × (body.port ≢ 0)

module _ (C : Crates) where
  create_route_complete :
      (cfg : BridgeConfig) (body : CreateRouteBody) (r : ProfileRouter C.Regex)
      → IsComplete body
      → create_route C cfg body r
        ≡ (created (webhook_url cfg), update_route C body.email body.host body.port r)
  unfolding create_route is_empty
  create_route_complete cfg body r ok =
      elim (Bool-cases (is_empty body.email || is_empty body.host || body.port == 0)) [
        | inl e ↦ absurd (ground arith)
        | inr e ↦ rw e refl
      ]

  serve-post_route :
      (cfg : BridgeConfig) (ip : IpAddr) (body : CreateRouteBody) (r : ProfileRouter C.Regex)
      → IsIp ip
      → Listed ip cfg.admin_allowed_ips
      → IsComplete body
      → serve C cfg (some ip) (post_route body) r
        ≡ (created (webhook_url cfg), update_route C body.email body.host body.port r)
  unfolding serve handle
  serve-post_route cfg ip body r ok listed complete =
      let (_, from) = admin_allows_iff (some ip) ip cfg.admin_allowed_ips (inl refl) ok in
      rw (from (λ _. listed)) (create_route_complete cfg body r complete)

  -- A peer of the admin list that posts a complete route is told so, and the next webhook in single
  -- mode for the route's address is sent once, to the URL of the route, with the configured ones of
  -- its headers, and is answered with the gateway's status and body, or with 502 where the gateway
  -- gives no answer; the routes are then those that the post has left.
  pub handle_webhook-serve :
      (J : Json) (H : HeaderLib) (laws : HeaderLibLaws H) (N : Client H.Map) (cfg : BridgeConfig)
      (ip : IpAddr) (route : CreateRouteBody) (names : List H.Name) (headers : H.Map) (body : Text)
      (st : State C J H N)
      → IsIp ip
      → Listed ip cfg.admin_allowed_ips
      → IsComplete route
      → is_batch C J H N body ≡ false
      → request_email C J H N headers ≡ some route.email
      → let (answer, r) = serve C cfg (some ip) (post_route route) st.router in
        let (relayed, st') = handle_webhook C J H N names headers body (with_router C J H N r st) in
        (answer ≡ created (webhook_url cfg))
        × (fwd : H.Map) × AreForwarded H names headers fwd
        × let url = (route_for route.email route.host route.port).target_url in
          let (result, world) = N.send_map url fwd body st.world in
          IsRelayed result relayed × (st' ≡ record { router = r; world = world })
  handle_webhook-serve J H laws N cfg ip route names headers body st ok listed complete single
        from =
      rw (serve-post_route cfg ip route st.router ok listed complete) (
        refl,
        filter_headers C J H N names headers H.empty,
        filter_headers-AreForwarded C J H N laws names headers,
        let sent =
              handle_webhook-update_route C J H N names headers body route.email route.host
                route.port st single from in
            rw sent (relay_response-IsRelayed _, refl),
      )

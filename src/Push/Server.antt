-- ===== src/Push/Server.antt =====
-- src/push.rs: `build_push_router` and its middleware. A layer that is added later runs earlier:
-- the rate limiter first, then the allowlist, the blacklist, the body limit and the handler.
pub mod Gate
use amail_bridge.Common.{
  ℕ, ◌*◌, Bool, true, false, not, Option, none, some, List, [], ltb, ◌==◌, if◌then◌else◌, length,
}
use amail_bridge.Std.Text.{Text}
use amail_bridge.Std.Ip.{IpAddr}
use amail_bridge.Config.{PushConfig}
use amail_bridge.Http.{Json, HeaderLib, Client, Response}
use amail_bridge.Router.Table.{Crates}
use amail_bridge.Push.Access.{parse_ip_list, allows, blocks, is_nil}
use amail_bridge.Push.RateLimit.{IpRateLimiter, new_limiter, check}
use amail_bridge.Push.Webhook.{State, response_text, handle_webhook}

-- `check_rate_limit`, which is a layer when the limit is not 0: the status of a refusal.
unfoldable pub limit_layer : PushConfig → ℕ → IpAddr → IpRateLimiter → Option ℕ × IpRateLimiter
limit_layer cfg now ip limiter =
    if ltb 0 cfg.rate_limit
    then (let (ok, limiter') = check ip now limiter in (if ok then none else some 429, limiter'))
    else (none, limiter)

-- `check_ip`, which is a layer when the list in the configuration is not empty.
unfoldable pub allow_layer : PushConfig → IpAddr → Option ℕ
allow_layer cfg ip =
    if is_nil cfg.allowed_ips
    then none
    else (if allows (parse_ip_list cfg.allowed_ips) ip then none else some 403)

-- `check_blacklist`, likewise.
unfoldable pub block_layer : PushConfig → IpAddr → Option ℕ
block_layer cfg ip =
    if is_nil cfg.blacklist_ips
    then none
    else (if blocks (parse_ip_list cfg.blacklist_ips) ip then some 403 else none)

-- The body limit of the handler, in bytes.
unfoldable pub body_layer : PushConfig → ℕ → Option ℕ
body_layer cfg size = if ltb (cfg.body_limit_mb * 1024 * 1024) size then some 413 else none

abbrev pub first_refusal : Option ℕ → Option ℕ → Option ℕ
first_refusal none o = o
first_refusal (some status) o = some status

-- The layers in their order. A request that an inner layer refuses was counted by the limiter.
unfoldable pub gate : PushConfig → ℕ → IpAddr → ℕ → IpRateLimiter → Option ℕ × IpRateLimiter
gate cfg now ip size limiter =
    let (refusal, limiter') = limit_layer cfg now ip limiter in
    (
      first_refusal refusal (
          first_refusal (allow_layer cfg ip)
            (first_refusal (block_layer cfg ip) (body_layer cfg size))),
      limiter',
    )

-- The limiter that `build_push_router` starts with.
unfoldable pub start_limiter : PushConfig → IpRateLimiter
start_limiter cfg = new_limiter cfg.rate_limit

module _ (C : Crates) (J : Json) (H : HeaderLib) (N : Client H.Map) where
  pub record Server : Type 0 where
    pub limiter : IpRateLimiter
    pub state : State C J H N

  unfoldable pub answer :
      List H.Name → H.Map → Text → Option ℕ → State C J H N → Response × State C J H N
  answer names headers body (some status) st = (response_text status [], st)
  answer names headers body none st = handle_webhook C J H N names headers body st

  -- A post to `/webhooks/*name` of the peer `ip` at the time `now`.
  unfoldable pub serve_webhook :
      PushConfig → List H.Name → ℕ → IpAddr → H.Map → Text → Server → Response × Server
  serve_webhook cfg names now ip headers body s =
      let (refusal, limiter) = gate cfg now ip (length body) s.limiter in
      let (response, state) = answer names headers body refusal s.state in
      (response, record { limiter = limiter; state = state })

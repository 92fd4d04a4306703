-- ===== src/Push/Server/Gate.antt =====
-- src/push.rs: which requests reach the webhook handler.
use amail_bridge.Common.{
  ℕ, ◌*◌, ◌≤◌, ◌≡◌, refl, ◌↔◌, true, false, Option, none, some, List, [], ◌∷◌, arith, length, ltb,
  Bool-cases, Option-cases, inl, inr, if◌then◌else◌, ◌⊎◌,
}
use amail_bridge.Std.Text.{Text}
use amail_bridge.Std.Ip.{IpAddr, IsIp}
use amail_bridge.Config.{PushConfig}
use amail_bridge.Http.{Json, HeaderLib, Client}
use amail_bridge.Router.Table.{Crates}
use amail_bridge.Push.Access.{
  parse_ip_list, allows, blocks, is_nil, Listed, SomeValid, allows_iff, blocks_iff,
}
use amail_bridge.Push.RateLimit.{IpRateLimiter, check}
use amail_bridge.Push.Webhook.{handle_webhook}
use amail_bridge.Push.Server.{
  limit_layer, allow_layer, block_layer, body_layer, gate, first_refusal, Server, serve_webhook,
  answer,
}

first_refusal_iff : (o p : Option ℕ) → (first_refusal o p ≡ none) ↔ ((o ≡ none) × (p ≡ none))
first_refusal_iff none p = (λ h. (refl, h), λ (_, h). h)
first_refusal_iff (some s) p = (λ h. absurd (cc), λ (h, _). absurd (cc))

-- A layer that is left out for an empty list would let everything pass.
allow_layer_iff :
    (cfg : PushConfig) (ip : IpAddr)
    → (allow_layer cfg ip ≡ none) ↔ (allows (parse_ip_list cfg.allowed_ips) ip ≡ true)
unfolding allow_layer
allow_layer_iff cfg ip = if_nil 403 cfg.allowed_ips
  where
    if_nil :
        (status : ℕ) (raw : List Text)
        → ((if is_nil raw
              then none
              else (if allows (parse_ip_list raw) ip then none else some status))
            ≡ none)
          ↔ (allows (parse_ip_list raw) ip ≡ true)
    if_nil status [] = unfold is_nil allows parse_ip_list in (λ h. refl, λ h. refl)
    if_nil status (entry ∷ raw) = unfold is_nil in ground arith

block_layer_iff :
    (cfg : PushConfig) (ip : IpAddr)
    → (block_layer cfg ip ≡ none) ↔ (blocks (parse_ip_list cfg.blacklist_ips) ip ≡ false)
unfolding block_layer
block_layer_iff cfg ip = if_nil 403 cfg.blacklist_ips
  where
    if_nil :
        (status : ℕ) (raw : List Text)
        → ((if is_nil raw
              then none
              else (if blocks (parse_ip_list raw) ip then some status else none))
            ≡ none)
          ↔ (blocks (parse_ip_list raw) ip ≡ false)
    if_nil status [] = unfold is_nil blocks parse_ip_list in (λ h. refl, λ h. refl)
    if_nil status (entry ∷ raw) = unfold is_nil in ground arith

limit_layer_iff :
    (cfg : PushConfig) (now : ℕ) (ip : IpAddr) (l : IpRateLimiter)
    → l.max_per_sec ≡ cfg.rate_limit
    → ((limit_layer cfg now ip l).0 ≡ none) ↔ ((check ip now l).0 ≡ true)
unfolding limit_layer
limit_layer_iff cfg now ip l e = elim (Bool-cases (ltb 0 cfg.rate_limit)) [
  | inl on ↦ rw on (ground arith)
  | inr off ↦
      let unlimited : (check ip now l).0 ≡ true = unfold check in ground (arith, e, off) in
      rw off (λ h. unlimited, λ h. refl)
]

body_layer_iff :
    (cfg : PushConfig) (size : ℕ)
    → (body_layer cfg size ≡ none) ↔ (size ≤ cfg.body_limit_mb * 1024 * 1024)
unfolding body_layer
body_layer_iff cfg size = ground arith

-- What the configuration asks of a request: the limiter has room, the address is listed if the
-- allowlist has a valid entry, it is not blacklisted, and the body is within the limit.
abbrev pub IsAdmitted : PushConfig → ℕ → IpAddr → ℕ → IpRateLimiter → Type 0
IsAdmitted cfg now ip size l =
    ((check ip now l).0 ≡ true)
    × (SomeValid cfg.allowed_ips → Listed ip cfg.allowed_ips)
    × (¬ Listed ip cfg.blacklist_ips)
    × (size ≤ cfg.body_limit_mb * 1024 * 1024)

gate_iff :
    (cfg : PushConfig) (now : ℕ) (ip : IpAddr) (size : ℕ) (l : IpRateLimiter)
    → IsIp ip
    → l.max_per_sec ≡ cfg.rate_limit
    → ((gate cfg now ip size l).0 ≡ none) ↔ IsAdmitted cfg now ip size l
unfolding gate
gate_iff cfg now ip size l ok e =
    let limit = limit_layer_iff cfg now ip l e in
    let allow = allow_layer_iff cfg ip in
    let block = block_layer_iff cfg ip in
    let body = body_layer_iff cfg size in
    let allowed = allows_iff ip cfg.allowed_ips ok in
    let blocked = blocks_iff ip cfg.blacklist_ips ok in
    let outer = first_refusal_iff (limit_layer cfg now ip l).0 _ in
    let middle = first_refusal_iff (allow_layer cfg ip) _ in
    let inner = first_refusal_iff (block_layer cfg ip) (body_layer cfg size) in
    (
      λ h.
          let (a, rest) = outer.0 h in
          let (b, rest') = middle.0 rest in
          let (c, d) = inner.0 rest' in
          (limit.0 a, allowed.0 (allow.0 b), λ listed. cc (block.0 c, blocked.1 listed), body.0 d),
      λ (a, b, c, d). outer.1 (
        limit.1 a,
        middle.1 (allow.1 (allowed.1 b), inner.1 (block.1 (not_blocked blocked c), body.1 d)),
      ),
    )
  where
    not_blocked :
        (blocks (parse_ip_list cfg.blacklist_ips) ip ≡ true) ↔ Listed ip cfg.blacklist_ips
        → (¬ Listed ip cfg.blacklist_ips)
        → blocks (parse_ip_list cfg.blacklist_ips) ip ≡ false
    not_blocked blocked c = elim (Bool-cases (blocks (parse_ip_list cfg.blacklist_ips) ip)) [
      | inl e ↦ absurd (c (blocked.0 e))
      | inr e ↦ e
    ]

layer_statuses :
    (cfg : PushConfig) (now : ℕ) (ip : IpAddr) (size : ℕ) (l : IpRateLimiter) (status : ℕ)
    → (gate cfg now ip size l).0 ≡ some status
    → (status ≡ 429) ⊎ ((status ≡ 403) ⊎ (status ≡ 413))
unfolding gate limit_layer allow_layer block_layer body_layer
layer_statuses cfg now ip size l status h = ground arith

module _ (C : Crates) (J : Json) (H : HeaderLib) (N : Client H.Map) where
  -- A webhook post reaches the handler exactly when the limiter has room for its address, the
  -- address is listed if the allowlist has a valid entry, it is not blacklisted, and the body is
  -- within the limit. Any other post gets 429, 403 or 413, and neither the routes nor the gateways
  -- notice it.
  pub serve_webhook_lem :
      (cfg : PushConfig) (names : List H.Name) (now : ℕ) (ip : IpAddr) (headers : H.Map)
      (body : Text) (s : Server C J H N)
      → IsIp ip
      → s.limiter.max_per_sec ≡ cfg.rate_limit
      → let (response, s') = serve_webhook C J H N cfg names now ip headers body s in
        (IsAdmitted cfg now ip (length body) s.limiter
          × (response ≡ (handle_webhook C J H N names headers body s.state).0)
          × (s'.state ≡ (handle_webhook C J H N names headers body s.state).1))
        ⊎ ((¬ IsAdmitted cfg now ip (length body) s.limiter)
            × ((response.status ≡ 429) ⊎ ((response.status ≡ 403) ⊎ (response.status ≡ 413)))
            × (s'.state ≡ s.state))
  unfolding serve_webhook
  serve_webhook_lem cfg names now ip headers body s ok e =
      let passes = gate_iff cfg now ip (length body) s.limiter ok e in
      elim (Option-cases (gate cfg now ip (length body) s.limiter).0) [
        | inl open_gate ↦ inl (
          passes.0 open_gate,
          rw open_gate (unfold answer in refl),
          rw open_gate (unfold answer in refl),
        )
        | inr (status, shut) ↦ inr (
          λ admitted. cc (passes.1 admitted, shut),
          rw shut (unfold answer in layer_statuses cfg now ip (length body) s.limiter status shut),
          rw shut (unfold answer in refl),
        )
      ]

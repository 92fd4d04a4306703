-- ===== src/Pull/Forward.antt =====
-- src/pull.rs: the loops over the batches and the deliveries of a cycle.
use amail_bridge.Common.{
  ℕ, ◌-◌, Bool, true, false, Option, none, some, List, [], ◌∷◌, ◌++◌, ltb, if◌then◌else◌, list_eq,
  nat_eq,
}
use amail_bridge.Std.Text.{Text, str, eq_ignore_ascii_case}
use amail_bridge.Std.Dict
use amail_bridge.Std.Dict.{Dict}
use amail_bridge.Std.Int.{ℤ, int_eq}
use amail_bridge.Http.{SendResult}
use amail_bridge.Router.Route.{ProfileRoute, unwrap_or}
use amail_bridge.Router.Table.{Crates, ProfileRouter, lookup}
use amail_bridge.Push.Webhook.{delivered_by}

-- What the loop takes from other crates and from the system: serde_json, the hashes of
-- `api_sign`, the HTTP client and the clocks.
pub record Outside : Type 1 where
  pub Value : Type 0
  pub to_vec : Value → Option Text
  pub header_map : Value → Option (Dict Text Text)
  pub pending_body : ℕ → List Text → Text
  pub ack_body : List ℤ → Text
  pub parse_batches : Text → Option (Option (List (Value × List (ℤ × (Text × Value)))))
  pub parse_acked : Text → Option (Option ℕ)
  pub sha256_hex : Text → Text
  pub hmac_sha256_hex : Text → Text → Text
  pub World : Type 0
  pub instant : World → ℕ × World
  pub unix_ms : World → Option ℕ × World
  pub send : Text → List (Text × Text) → Text → World → SendResult × World

-- `seen_ttl`, in nanoseconds.
abbrev pub seen_ttl : ℕ
seen_ttl = 7_200_000_000_000

-- The relay's headers for a forward, less those named `content-type`, then the bridge's own.
unfoldable pub relay_headers : Dict Text Text → List (Text × Text)
relay_headers [] = (str "content-type", str "application/json") ∷ []
relay_headers ((k, v) ∷ headers) =
    let rest = relay_headers headers in
    if eq_ignore_ascii_case k (str "content-type") then rest else (k, v) ∷ rest

module _ (C : Crates) (O : Outside) where
  pub record BatchDelivery : Type 0 where
    pub id : ℤ
    pub email : Text
    pub headers : O.Value

  pub record PendingBatch : Type 0 where
    pub body : O.Value
    pub deliveries : List BatchDelivery

  -- What a cycle changes while it forwards.
  pub record Progress : Type 0 where
    pub seen : Dict ℤ ℕ
    pub router : ProfileRouter C.Regex
    pub world : O.World
    pub ack_ids : List ℤ
    pub forwarded_emails : List Text

  abbrev pub accept : BatchDelivery → Progress → Progress
  accept d p = record p {
    ack_ids = p.ack_ids ++ (d.id ∷ []);
    forwarded_emails = p.forwarded_emails ++ (d.email ∷ []);
  }

  -- The answer of the gateway: a success is remembered and will be acknowledged.
  unfoldable pub settle : BatchDelivery → Bool → Progress → Progress
  settle d false p = p
  settle d true p =
      let (now, world) = O.instant p.world in
      accept d (record p { seen = Dict.insert d.id now p.seen; world = world })

  unfoldable pub forward_along : Text → BatchDelivery → Option ProfileRoute → Progress → Progress
  forward_along body d none p = p
  forward_along body d (some route) p =
      let headers = relay_headers (unwrap_or [] (O.header_map d.headers)) in
      let (result, world) = O.send route.target_url headers body p.world in
      settle d (delivered_by result) (record p { world = world })

  unfoldable pub forward : Text → BatchDelivery → Progress → Progress
  forward body d p =
      let (found, router) = lookup C d.email p.router in
      forward_along body d found (record p { router = router })

  -- A delivery that was seen lately is acknowledged, any other is forwarded.
  unfoldable pub check_seen : Text → BatchDelivery → Option ℕ → Progress → Progress
  check_seen body d none p = forward body d p
  check_seen body d (some t) p =
      let (now, world) = O.instant p.world in
      let q = record p { world = world } in
      if ltb (now - t) seen_ttl then accept d q else forward body d q

  unfoldable pub deliver : Text → BatchDelivery → Progress → Progress
  deliver body d p = check_seen body d (Dict.get d.id p.seen) p

  unfoldable pub run_deliveries : Text → List BatchDelivery → Progress → Progress
  run_deliveries body [] p = p
  run_deliveries body (d ∷ ds) p = run_deliveries body ds (deliver body d p)

  -- The loop over the batches; `false` is the early return when a body has no JSON text.
  unfoldable pub run_batches : List PendingBatch → Progress → Bool × Progress
  run_batches [] p = (true, p)
  run_batches (b ∷ bs) p = elim (O.to_vec b.body) [
    | none ↦ (false, p)
    | some body ↦ run_batches bs (run_deliveries body b.deliveries p)
  ]

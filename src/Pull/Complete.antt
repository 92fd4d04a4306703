-- ===== src/Pull/Complete.antt =====
-- src/pull.rs: a cycle that nothing stands in the way of acknowledges all of its deliveries.
use amail_bridge.Common.{
  ℕ, ◌-◌, ltb, ◌≤◌, ◌<◌, ◌≡◌, refl, ◌∙◌, Bool, true, false, Option, none, some, List, [], ◌∷◌, ◌++◌,
  append_assoc, append-nil, arith, All, Bool-cases, inl, inr, list_eq, nat_eq,
}
use amail_bridge.Std.Text.{Text, str, trim_end_matches}
use amail_bridge.Http.{SendResult, response, failed}
use amail_bridge.Std.Dict
use amail_bridge.Std.Dict.{Dict}
use amail_bridge.Std.Int.{ℤ, int_eq}
use amail_bridge.Config.{PullSystemConfig}
use amail_bridge.Pull.{PullState, work, acknowledge, sleep, ack_deliveries, signed_post, api_sign}
use amail_bridge.Router.Route.{ProfileRoute, unwrap_or}
use amail_bridge.Router.Table.{Crates, ProfileRouter}
use amail_bridge.Router.Patterns.{lookup-exact}
use amail_bridge.Push.Webhook.{delivered_by}
use amail_bridge.Pull.Forward.{
  Outside, BatchDelivery, PendingBatch, Progress, settle, forward_along, forward, check_seen,
  deliver, run_deliveries, run_batches, relay_headers, seen_ttl,
}
use amail_bridge.Pull.Ack.{run_batches-some}

module _ (C : Crates) (O : Outside) where
  -- The delivery has a route in the table.
  abbrev pub IsRouted : ProfileRouter C.Regex → BatchDelivery C O → Type 0
  IsRouted r d = (route : ProfileRoute) × (Dict.get d.email r.routes ≡ some route)

  abbrev pub ids : List (BatchDelivery C O) → List ℤ
  ids [] = []
  ids (d ∷ ds) = d.id ∷ ids ds

  abbrev pub all_ids : List (PendingBatch C O) → List ℤ
  all_ids [] = []
  all_ids (b ∷ bs) = ids b.deliveries ++ all_ids bs

  -- The batch has a text, and its deliveries have routes.
  abbrev pub IsReady : ProfileRouter C.Regex → PendingBatch C O → Type 0
  IsReady r b = ((body : Text) × (O.to_vec b.body ≡ some body)) × All (IsRouted r) b.deliveries

  settle-router :
      (d : BatchDelivery C O) (ok : Bool) (p : Progress C O) → (settle C O d ok p).router ≡ p.router
  unfolding settle
  settle-router d true p = refl
  settle-router d false p = refl

  pub forward_along-router :
      (body : Text) (d : BatchDelivery C O) (o : Option ProfileRoute) (p : Progress C O)
      → (forward_along C O body d o p).router ≡ p.router
  unfolding forward_along
  forward_along-router body d none p = refl
  forward_along-router body d (some route) p = settle-router d _ _

-- A status of 200 to 299.
abbrev pub IsSuccess : SendResult → Type 0
IsSuccess (response status body) = (200 ≤ status) × (status < 300)
IsSuccess (failed error) = ⊥

delivered_by-IsSuccess : (result : SendResult) → IsSuccess result → delivered_by result ≡ true
unfolding delivered_by
delivered_by-IsSuccess (response status body) (low, high) = ground arith
delivered_by-IsSuccess (failed error) h = absurd h

-- In the worlds of a kind the gateways of the routes are up: a request to the URL of a route is
-- answered with a success, and neither it nor a reading of the clock leads out of these worlds.
pub record GatewaysUp (C : Crates) (O : Outside) (Up : O.World → Type 0) (r : ProfileRouter C.Regex)
    : Type 0 where
  pub answers :
      (email : Text) (route : ProfileRoute) (headers : List (Text × Text)) (body : Text)
      (w : O.World)
      → Dict.get email r.routes ≡ some route
      → Up w
      → IsSuccess (O.send route.target_url headers body w).0
        × Up (O.send route.target_url headers body w).1
  pub ticks : (w : O.World) → Up w → Up (O.instant w).1

module _ (C : Crates) (O : Outside) (Up : O.World → Type 0) where
  -- What the round for a delivery does: the delivery is to be acknowledged.
  abbrev Accepted : BatchDelivery C O → Progress C O → Progress C O → Type 0
  Accepted d p p' = (p'.ack_ids ≡ p.ack_ids ++ (d.id ∷ [])) × (p'.router ≡ p.router) × Up p'.world

  forward-Accepted :
      (body : Text) (d : BatchDelivery C O) (p : Progress C O)
      → GatewaysUp C O Up p.router
      → IsRouted C O p.router d
      → Up p.world
      → Accepted d p (forward C O body d p)
  unfolding forward forward_along settle
  forward-Accepted body d p up (route, e) now =
      let found = lookup-exact C d.email p.router route e in
      let headers = relay_headers (unwrap_or [] (O.header_map d.headers)) in
      let (success, later) = up.answers d.email route headers body p.world e now in
      let taken = delivered_by-IsSuccess _ success in
      rw found (rw taken (refl, refl, up.ticks _ later))

  check_seen-Accepted :
      (body : Text) (d : BatchDelivery C O) (o : Option ℕ) (p : Progress C O)
      → GatewaysUp C O Up p.router
      → IsRouted C O p.router d
      → Up p.world
      → Accepted d p (check_seen C O body d o p)
  unfolding check_seen
  check_seen-Accepted body d none p up routed now = forward-Accepted body d p up routed now
  check_seen-Accepted body d (some t) p up routed now =
      elim (Bool-cases (ltb ((O.instant p.world).0 - t) seen_ttl)) [
        | inl fresh ↦ rw fresh (refl, refl, up.ticks p.world now)
        | inr stale ↦ rw stale (forward-Accepted body d _ up routed (up.ticks p.world now))
      ]

  deliver-Accepted :
      (body : Text) (d : BatchDelivery C O) (p : Progress C O)
      → GatewaysUp C O Up p.router
      → IsRouted C O p.router d
      → Up p.world
      → Accepted d p (deliver C O body d p)
  unfolding deliver
  deliver-Accepted body d p up routed now =
      check_seen-Accepted body d (Dict.get d.id p.seen) p up routed now

  run_deliveries-acked :
      (body : Text) (ds : List (BatchDelivery C O)) (p : Progress C O)
      → GatewaysUp C O Up p.router
      → All (IsRouted C O p.router) ds
      → Up p.world
      → ((run_deliveries C O body ds p).ack_ids ≡ p.ack_ids ++ ids C O ds)
        × ((run_deliveries C O body ds p).router ≡ p.router)
        × Up (run_deliveries C O body ds p).world
  unfolding run_deliveries
  run_deliveries-acked body [] p up h now = (rw (append-nil p.ack_ids) refl, refl, now)
  run_deliveries-acked body (d ∷ ds) p up (routed, h) now =
      let (acked, same_router, later) = deliver-Accepted body d p up routed now in
      let p' = deliver C O body d p in
      let (rest, router, end) =
        run_deliveries-acked body ds p' (rw same_router up) (rw same_router h) later in
      (rest ∙ rw acked (append_assoc p.ack_ids _ _), router ∙ same_router, end)

  -- While the gateways are up, every body prints and every delivery has a route in the table, a
  -- cycle runs through and its list to acknowledge gains every delivery, in order.
  pub run_batches_complete :
      (bs : List (PendingBatch C O)) (p : Progress C O)
      → GatewaysUp C O Up p.router
      → All (IsReady C O p.router) bs
      → Up p.world
      → ((run_batches C O bs p).0 ≡ true)
        × ((run_batches C O bs p).1.ack_ids ≡ p.ack_ids ++ all_ids C O bs)
  run_batches_complete [] p up h now = unfold run_batches in (refl, rw (append-nil p.ack_ids) refl)
  run_batches_complete (b ∷ bs) p up (((body, e), routed), h) now =
      let (acked, same_router, later) = run_deliveries-acked body b.deliveries p up routed now in
      let p' = run_deliveries C O body b.deliveries p in
      let (through, rest) =
        run_batches_complete bs p' (rw same_router up) (rw same_router h) later in
      rw (run_batches-some C O b bs p body e)
        (through, rest ∙ rw acked (append_assoc p.ack_ids _ _))

  -- A signed request that asks the relay to acknowledge the deliveries, and the world behind it.
  abbrev pub AsksForAck : PullSystemConfig → List ℤ → O.World → O.World → Type 0
  AsksForAck cfg acked w w' =
      (ts sig : Text) × let url =
          trim_end_matches b'/' cfg.amail_url ++ str "/api/v1/admin/pending/ack" in
        let headers =
          (str "X-Api-Identity", cfg.system_id)
          ∷ (str "X-Api-Timestamp", ts)
          ∷ (str "X-Api-Signature", sig)
          ∷ (str "content-type", str "application/json")
          ∷ [] in
        w' ≡ (O.send url headers (O.ack_body acked) (O.unix_ms w).1).1

  acknowledge-AsksForAck :
      (cfg : PullSystemConfig) (id : ℤ) (acked : List ℤ) (s : PullState C O)
      → AsksForAck cfg (id ∷ acked) s.world (acknowledge C O cfg (id ∷ acked) s).world
  unfolding acknowledge ack_deliveries signed_post api_sign
  acknowledge-AsksForAck cfg id acked s = (_, _, refl)

  -- The progress of a cycle at its start.
  abbrev pub at_start : PullState C O → Progress C O
  at_start s = record {
    seen = s.seen;
    router = s.router;
    world = s.world;
    ack_ids = [];
    forwarded_emails = [];
  }

  -- While the gateways are up, every body prints and every delivery has a route in the table, the
  -- cycle behind a successful fetch that brought deliveries ends with the usual pause, and its last
  -- request, behind the forwards, asks the relay to acknowledge all of them, in order.
  pub work_complete :
      (cfg : PullSystemConfig) (bs : List (PendingBatch C O)) (s : PullState C O) (first : ℤ)
      (others : List ℤ)
      → GatewaysUp C O Up s.router
      → All (IsReady C O s.router) bs
      → Up s.world
      → all_ids C O bs ≡ first ∷ others
      → (s' : PullState C O) × (work C O cfg bs s ≡ sleep cfg.poll_interval_sec s')
        × AsksForAck cfg (all_ids C O bs) (run_batches C O bs (at_start s)).1.world s'.world
  unfolding work
  work_complete cfg bs s first others up h now some_ids =
      let (through, acked) = run_batches_complete bs (at_start s) up h now in
      let listed : (run_batches C O bs (at_start s)).1.ack_ids ≡ first ∷ others =
        acked ∙ some_ids in
      let p = (run_batches C O bs (at_start s)).1 in
      let after : PullState C O = record s {
        router = p.router;
        seen = p.seen;
        consecutive_failures = 0;
        world = p.world;
      } in
      (
        acknowledge C O cfg (first ∷ others) after,
        rw (through, listed) refl,
        rw some_ids (acknowledge-AsksForAck cfg first others _),
      )

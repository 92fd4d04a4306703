-- ===== src/Tests/Bridges.antt =====
-- The theorems on the parts of the bridge together, at concrete inputs.
use amail_bridge.Common.{
  same_refl, ℕ, ◌≡◌, ◌≤◌, ◌⊎◌, refl, true, some, none, List, [], ◌∷◌, arith, leb, same, length, any,
  if◌then◌else◌, list_eq, nat_eq,
}
use amail_bridge.Std.Text.{Text, str}
use amail_bridge.Std.Dict
use amail_bridge.Std.Dict.{Dict, get-insert, get-remove}
use amail_bridge.Std.Ip.{v4}
use amail_bridge.Std.Int.{pos}
use amail_bridge.Config.{PullSystemConfig, default_push, default_forward_headers}
use amail_bridge.Push.RateLimit.{new_limiter}
use amail_bridge.Push.Webhook.{handle_webhook}
use amail_bridge.Push.Server.{Server, serve_webhook, start_limiter}
use amail_bridge.Push.Server.Gate.{IsAdmitted, serve_webhook_lem}
use amail_bridge.Router.Route.{new}
use amail_bridge.Router.Table.{ProfileRouter, update_route, list_routes, new_router, load_from_file}
use amail_bridge.Router.Refine.{
  Call, look, update, drop, run, replay, fallback_of, resolve, run_refines,
}
use amail_bridge.Router.Keyed.{IsTable, nil-IsTable, insert-IsTable}
use amail_bridge.Router.Steps.{IsWellFormed}
use amail_bridge.Health.{check_listed, check_routes, route_target_key}
use amail_bridge.Health.Round.{dead_in_round, check_listed-get}
use amail_bridge.Admin.{serve, delete_route}
use amail_bridge.Bridge.{Running, boot, turn, admin, probes, Running-IsWellFormed}
use amail_bridge.Pull.Forward.{PendingBatch}
use amail_bridge.Pull.{PullState, work, sleep}
use amail_bridge.Pull.Complete.{all_ids, work_complete, GatewaysUp, AsksForAck, at_start}
use amail_bridge.Tests.Pulls.{ticking}
use amail_bridge.Tests.Routes.{alice_routes-get}
use amail_bridge.Pull.Forward.{run_batches}
use amail_bridge.Pull.Loop.{start_pull_loop, ended, start_pull_loop-ended}
use amail_bridge.Tests.Stubs.{
  alice, bob, local, disk, alice_routes, alice_router, pattern_router, json, header_lib, gateway,
  outside, dead_network, bridge_config,
}

abbrev calls : List Call
calls = look bob ∷ update bob local 1 ∷ look bob ∷ drop bob ∷ look bob ∷ []

run_refines_example :
    run disk calls pattern_router
    ≡ replay (fallback_of disk pattern_router) calls (resolve disk pattern_router)
run_refines_example = run_refines disk calls pattern_router

abbrev booted : ProfileRouter Text
booted = load_from_file disk (new_router disk none true)

abbrev after_admin : ProfileRouter Text
after_admin = (serve disk bridge_config (some (v4 1)) (delete_route alice) booted).1

abbrev after_round : ProfileRouter Text
after_round = (check_routes dead_network disk 1 after_admin [] 0).0.0

lively : Running disk json header_lib gateway outside dead_network after_round
lively =
    turn (turn (boot none true) (admin bridge_config (some (v4 1)) (delete_route alice) booted))
      (probes 1 [] 0 after_admin)

Running-IsWellFormed_example : IsWellFormed disk after_round
Running-IsWellFormed_example =
    Running-IsWellFormed disk json header_lib gateway outside dead_network lively

alice-IsTable : IsTable alice_routes
unfolding Dict.insert new
alice-IsTable = insert-IsTable alice (new alice local 8645) [] refl nil-IsTable

alice_there : Dict.get alice alice_router.routes ≡ some (new alice local 8645)
unfolding Dict.get list_eq nat_eq
alice_there = refl

abbrev server : Server disk json header_lib gateway
server = record {
  limiter = start_limiter default_push;
  state = record { router = alice_router; world = [] };
}

limits : server.limiter.max_per_sec ≡ default_push.rate_limit
unfolding start_limiter new_limiter
limits = refl

serve_webhook_lem_example :
    let (response, s') =
      serve_webhook disk json header_lib gateway default_push default_forward_headers 5
        (v4 1)
        []
        (str "{}")
        server in
    (IsAdmitted default_push 5 (v4 1) (length (str "{}")) server.limiter
      × (response
          ≡ (handle_webhook disk json header_lib gateway default_forward_headers []
              (str "{}")
              server.state).0)
      × (s'.state
          ≡ (handle_webhook disk json header_lib gateway default_forward_headers []
              (str "{}")
              server.state).1))
    ⊎ ((¬ IsAdmitted default_push 5 (v4 1) (length (str "{}")) server.limiter)
        × ((response.status ≡ 429) ⊎ ((response.status ≡ 403) ⊎ (response.status ≡ 413)))
        × (s'.state ≡ server.state))
serve_webhook_lem_example =
    serve_webhook_lem disk json header_lib gateway default_push default_forward_headers 5 (v4 1) []
      (str "{}") server (omega arith) limits

abbrev two_batches : List (PendingBatch disk ticking)
two_batches =
    record { body = str "{}"; deliveries = record { id = pos 7; email = alice; headers = [] } ∷ [] }
    ∷ record {
      body = str "[]";
      deliveries = record { id = pos 8; email = alice; headers = [] } ∷ [];
    }
    ∷ []

abbrev relay_system : PullSystemConfig
relay_system = record {
  amail_url = str "http://r";
  admin_key = str "k";
  api_key = [];
  poll_interval_sec = 10;
  system_id = str "s";
}

abbrev polling : PullState disk ticking
polling = record {
  router = alice_router;
  seen = [];
  consecutive_failures = 2;
  consecutive_ack_failures = 0;
  world = (0, []);
}

up : GatewaysUp disk ticking (λ w. Unit) alice_router
up = record {
  answers = λ email route headers body w e _.
      let (_, value) = alice_routes-get email route e in
      rw value (rw (same_refl (new alice local 8645).target_url) ((omega arith, omega arith), tt));
  ticks = λ w _. tt;
}

work_complete_example :
    (s' : PullState disk ticking) × (work disk ticking relay_system two_batches polling
      ≡ sleep 10 s')
    × AsksForAck disk ticking
        (λ w. Unit)
        relay_system
        (all_ids disk ticking two_batches)
        (run_batches disk ticking two_batches (at_start disk ticking (λ w. Unit) polling)).1.world
        s'.world
work_complete_example =
    work_complete disk ticking (λ w. Unit) relay_system two_batches polling (pos 7) (pos 8 ∷ []) up
      (((_, refl), ((_, alice_there), tt)), (((_, refl), ((_, alice_there), tt)), tt)) tt refl

start_pull_loop-ended_example :
    (m : ℕ) × (s : _) × (start_pull_loop disk outside relay_system (λ n. leb 2 n) 3 alice_router []
      ≡ ended m s)
    × (m ≤ 2)
start_pull_loop-ended_example =
    start_pull_loop-ended disk outside relay_system (λ n. leb 2 n) 2 3 alice_router [] refl
      (omega arith)

-- The route of `alice` is moved to another target while its old one is probed.
abbrev moved : ProfileRouter Text
moved = update_route disk alice bob 9 alice_router

check_listed-get_example :
    Dict.get alice
      (check_listed dead_network disk 1 (list_routes disk alice_router) moved [] 0).0.0.routes
    ≡ (if any
          (λ target. same target (route_target_key (new alice local 8645)))
          (dead_in_round dead_network disk 1 alice_router [] 0)
        then none
        else Dict.get alice moved.routes)
check_listed-get_example =
    check_listed-get dead_network disk 1 alice_router moved [] 0 alice (new alice local 8645)
      alice-IsTable alice_there

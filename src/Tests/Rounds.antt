-- ===== src/Tests/Rounds.antt =====
-- The theorems on the rounds of the health checker, at concrete inputs.
use amail_bridge.Common.{
  ℕ, ◌+◌, ◌≡◌, ◌<◌, refl, Bool, true, false, some, none, [], arith, leb, list_eq, nat_eq,
}
use amail_bridge.Std.Dict
use amail_bridge.Config.{default_health}
use amail_bridge.Router.Route.{ProfileRoute, new}
use amail_bridge.Router.Keyed.{IsTable, nil-IsTable, insert-IsTable}
use amail_bridge.Health.{Network, route_target_key, probe_parts}
use amail_bridge.Health.Targets.{route_target_key-new}
use amail_bridge.Health.Loop.{state_of, start_route_health}
use amail_bridge.Health.Rounds.{start_route_health-alive, start_route_health-dead}
use amail_bridge.Tests.Stubs.{alice, local, disk, alice_routes, alice_router, dead_network}

abbrev alice_route : ProfileRoute
alice_route = new alice local 8645

alice-IsTable : IsTable alice_routes
unfolding Dict.insert new
alice-IsTable = insert-IsTable alice alice_route [] refl nil-IsTable

alice_there : Dict.get alice alice_router.routes ≡ some alice_route
unfolding Dict.get list_eq nat_eq
alice_there = refl

alice_parts : probe_parts (route_target_key alice_route) ≡ some (local, 8645)
alice_parts =
    (route_target_key-new alice local 8645 (omega arith) (omega arith) (omega arith)
      (omega arith)).1

-- Every connection succeeds; the world counts them.
abbrev live_network : Network
live_network = record dead_network { probe_target = λ host port w. (true, w + 1) }

-- The flag is set for the tenth round.
abbrev tenth : ℕ → Bool
tenth n = leb 10 n

before_tenth : (m : ℕ) → m < 3 → tenth m ≡ false
before_tenth m h = ground arith

start_route_health-alive_example :
    Dict.get alice
      (state_of disk live_network default_health tenth
        (start_route_health disk live_network default_health tenth 20 alice_router 0)).router.routes
    ≡ some alice_route
start_route_health-alive_example =
    start_route_health-alive disk live_network default_health tenth alice alice_route local 8645
      alice_parts 20 alice_router 0 (λ w. refl) alice-IsTable alice_there

start_route_health-dead_example :
    Dict.get alice
      (state_of disk dead_network default_health tenth
        (start_route_health disk dead_network default_health tenth 3 alice_router 0)).router.routes
    ≡ none
unfolding default_health
start_route_health-dead_example =
    start_route_health-dead disk dead_network default_health tenth alice alice_route local 8645
      alice_parts 3 alice_router 0 (λ w. refl) before_tenth (omega arith) (omega arith)
      (omega arith) alice-IsTable alice_there

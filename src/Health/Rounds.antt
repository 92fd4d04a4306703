-- ===== src/Health/Rounds.antt =====
-- src/health.rs: what the health checker makes of a route over its rounds, while nobody else
-- changes the table.
use native.Mathlib.Decide.{dec_lt}
use amail_bridge.Common.{
  ℕ, zero, suc, ◌+◌, ◌^◌, ◌≤◌, ◌<◌, ◌≡◌, refl, Bool, true, false, Option, none, some, arith,
  list_eq, nat_eq, Bool-cases, inl, inr,
}
use amail_bridge.Std.Text.{Text}
use amail_bridge.Std.Dict
use amail_bridge.Std.Dict.{Dict}
use amail_bridge.Config.{HealthConfig}
use amail_bridge.Router.Route.{ProfileRoute, unwrap_or}
use amail_bridge.Router.Table.{Crates, ProfileRouter}
use amail_bridge.Router.Keyed.{IsTable}
use amail_bridge.Health.{Network, route_target_key, probe_parts}
use amail_bridge.Health.Probes.{Answers}
use amail_bridge.Health.Verdicts.{
  check_routes-none, check_routes-IsTable, round-alive, round-dead, round-failed,
}
use amail_bridge.Health.Loop.{HealthState, state_of, health_round, health_loop, start_route_health}

module _ (C : Crates) (N : Network) (config : HealthConfig) (shutdown : ℕ → Bool) (k : Text) where
  abbrev route_in : HealthState C N config shutdown → Option ProfileRoute
  route_in s = Dict.get k s.router.routes

  health_loop-none :
      (fuel n : ℕ) (s : HealthState C N config shutdown)
      → route_in s ≡ none
      → route_in (state_of C N config shutdown (health_loop C N config shutdown fuel n s)) ≡ none
  unfolding health_loop health_round
  health_loop-none zero n s h = h
  health_loop-none (suc fuel) n s h =
      let gone = check_routes-none C N config.fail_threshold s.router s.failures s.world k h in
      let rest = health_loop-none fuel (n + 1) (health_round C N config shutdown s) gone in
      elim (Bool-cases (shutdown n)) [ inl e ↦ rw e h | inr e ↦ rw e rest ]

  module _ (route : ProfileRoute) (host : Text) (port : ℕ)
      (parts : probe_parts (route_target_key route) ≡ some (host, port)) where
    health_loop-alive :
        (fuel n : ℕ) (s : HealthState C N config shutdown)
        → Answers N true host port
        → IsTable s.router.routes
        → route_in s ≡ some route
        → route_in (state_of C N config shutdown (health_loop C N config shutdown fuel n s))
          ≡ some route
    unfolding health_loop health_round
    health_loop-alive zero n s answers t h = h
    health_loop-alive (suc fuel) n s answers t h =
        let threshold = config.fail_threshold in
        let kept =
          round-alive C N threshold s.router s.failures s.world k route host port parts t h
            answers in
        let table = check_routes-IsTable C N threshold s.router s.failures s.world t in
        let rest =
          health_loop-alive fuel (n + 1) (health_round C N config shutdown s) answers table kept in
        elim (Bool-cases (shutdown n)) [ inl e ↦ rw e h | inr e ↦ rw e rest ]

    -- While nobody but the checker changes the table: the route of a target whose key splits into
    -- host and port, and that answers every probe, is never removed by it, however often it looks and
    -- whatever the other targets do.
    pub start_route_health-alive :
        (fuel : ℕ) (router : ProfileRouter C.Regex) (world : N.World)
        → Answers N true host port
        → IsTable router.routes
        → Dict.get k router.routes ≡ some route
        → route_in (
            state_of C N config shutdown (start_route_health C N config shutdown fuel router world))
          ≡ some route
    unfolding start_route_health
    start_route_health-alive fuel router world answers t h = health_loop-alive fuel 0 _ answers t h

    health_loop-dead :
        (fuel i n : ℕ) (s : HealthState C N config shutdown)
        → Answers N false host port
        → ((m : ℕ) → m < n + fuel → shutdown m ≡ false)
        → 0 < fuel
        → config.fail_threshold ≤ i + fuel
        → config.fail_threshold < 2 ^ 32
        → i + 1 < 2 ^ 32
        → IsTable s.router.routes
        → route_in s ≡ some route
        → unwrap_or 0 (Dict.get (route_target_key route) s.failures) ≡ i
        → route_in (state_of C N config shutdown (health_loop C N config shutdown fuel n s)) ≡ none
    unfolding health_loop health_round
    health_loop-dead zero i n s fails runs some_fuel enough fits small t h counter =
        absurd (omega arith)
    health_loop-dead (suc fuel) i n s fails runs some_fuel enough fits small t h counter =
        let threshold = config.fail_threshold in
        let open_flag : shutdown n ≡ false = runs n (omega arith) in
        let next = health_round C N config shutdown s in
        let table = check_routes-IsTable C N threshold s.router s.failures s.world t in
        rw open_flag (elim (dec_lt (i + 1) threshold) [
          | yes below ↦
              let (kept, count) =
                round-failed C N threshold s.router s.failures s.world k route host port parts t h i
                  counter small fails below in
              health_loop-dead fuel (i + 1) (n + 1) next fails (λ m l. runs m (omega (arith, l)))
                (omega arith) (omega arith) fits (omega arith) table kept count
          | no reached ↦
              let gone =
                round-dead C N threshold s.router s.failures s.world k route host port parts t h i
                  counter small fails (omega arith) in
              health_loop-none fuel (n + 1) next gone
        ])

    -- While nobody but the checker changes the table: the route of a target whose key splits into
    -- host and port (that of an IPv6 address in brackets does not), and that answers no probe, is
    -- removed. After as many rounds as the threshold says, one at least, the email has no route,
    -- whatever the other targets do. The flag must not be set in these rounds, and the threshold is
    -- a `u32`.
    pub start_route_health-dead :
        (fuel : ℕ) (router : ProfileRouter C.Regex) (world : N.World)
        → Answers N false host port
        → ((m : ℕ) → m < fuel → shutdown m ≡ false)
        → 0 < fuel
        → config.fail_threshold ≤ fuel
        → config.fail_threshold < 2 ^ 32
        → IsTable router.routes
        → Dict.get k router.routes ≡ some route
        → route_in (
            state_of C N config shutdown (start_route_health C N config shutdown fuel router world))
          ≡ none
    unfolding start_route_health Dict.get
    start_route_health-dead fuel router world fails runs some_fuel enough fits t h =
        health_loop-dead fuel 0 0 _ fails (λ m l. runs m (omega (arith, l))) some_fuel
          (omega (arith, enough)) fits (omega arith) t h refl

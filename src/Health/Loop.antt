-- ===== src/Health/Loop.antt =====
-- src/health.rs: `start_route_health`. `shutdown n` is the flag as the n-th round reads it; the
-- wait for the next tick is part of what the world outside goes through.
use amail_bridge.Common.{
  ℕ, zero, suc, ◌+◌, ◌≤◌, ◌<◌, ◌≡◌, refl, Bool, true, [], arith, Bool-cases, inl, inr,
  if◌then◌else◌,
}
use amail_bridge.Std.Text.{Text}
use amail_bridge.Std.Dict.{Dict}
use amail_bridge.Config.{HealthConfig}
use amail_bridge.Router.Table.{Crates, ProfileRouter}
use amail_bridge.Health.{Network, check_routes}

module _ (C : Crates) (N : Network) (config : HealthConfig) (shutdown : ℕ → Bool) where
  pub record HealthState : Type 0 where
    pub router : ProfileRouter C.Regex
    pub failures : Dict Text ℕ
    pub world : N.World

  -- The loop has returned after a number of rounds, or the rounds to go are used up.
  pub data Watch : Type 0 where
    returned : ℕ → HealthState → Watch
    watching : ℕ → HealthState → Watch

  -- The state that the loop has come to.
  abbrev pub state_of : Watch → HealthState
  state_of (returned n s) = s
  state_of (watching n s) = s

  unfoldable pub health_round : HealthState → HealthState
  health_round s =
      let ((router, failures), world) =
        check_routes N C config.fail_threshold s.router s.failures s.world in
      record { router = router; failures = failures; world = world }

  unfoldable pub health_loop : ℕ → ℕ → HealthState → Watch
  health_loop zero n s = watching n s
  health_loop (suc fuel) n s =
      let rest = health_loop fuel (n + 1) (health_round s) in
      if shutdown n then returned n s else rest

  unfoldable pub start_route_health : ℕ → ProfileRouter C.Regex → N.World → Watch
  start_route_health fuel router world =
      health_loop fuel 0 (record { router = router; failures = []; world = world })

  health_loop-returned :
      (k fuel n : ℕ) (s : HealthState)
      → shutdown k ≡ true
      → n ≤ k
      → k < n + fuel
      → (m : ℕ) × (s' : HealthState) × (health_loop fuel n s ≡ returned m s') × (m ≤ k)
  unfolding health_loop
  health_loop-returned k zero n s h l enough = absurd (omega arith)
  health_loop-returned k (suc fuel) n s h l enough = elim (Bool-cases (shutdown n)) [
    | inl e ↦ rw e (n, s, refl, l)
    | inr e ↦
        let later : n + 1 ≤ k = ground (arith, e, h, l) in
        rw e (health_loop-returned k fuel (n + 1) (health_round s) h later (omega (arith, enough)))
  ]

  -- Once the flag is set, the health checker returns: it makes no round behind the first reading
  -- that finds the flag set, whatever its probes say.
  pub start_route_health-returned :
      (k fuel : ℕ) (router : ProfileRouter C.Regex) (world : N.World)
      → shutdown k ≡ true
      → k < fuel
      → (m : ℕ) × (s : HealthState) × (start_route_health fuel router world ≡ returned m s)
        × (m ≤ k)
  unfolding start_route_health
  start_route_health-returned k fuel router world h enough =
      health_loop-returned k fuel 0 _ h (omega arith) (omega arith)

-- ===== src/Health.antt =====
-- src/health.rs: the route health checker. A round probes each target of the route table once and
-- removes the routes of the targets that failed too often in a row.
pub mod Removal
pub mod Counting
pub mod Targets
pub mod Round
pub mod Probes
pub mod Verdicts
pub mod Rounds
pub mod Loop
use amail_bridge.Common.{
  ℕ, ◌+◌, ◌%◌, ◌^◌, Bool, true, false, Option, none, some, List, [], ◌∷◌, ◌++◌, leb, if◌then◌else◌,
  list_eq, nat_eq,
}
use amail_bridge.Std.Text.{
  Text, str, strip_prefix, starts_with, split_once, split_once_text, rsplit_once, split_at_char,
  trim_end_matches,
}
use amail_bridge.Std.Dict
use amail_bridge.Std.Dict.{Dict}
use amail_bridge.Router.Route.{
  ProfileRoute, strip_scheme, https, bracket, parse_u16, host_port, unwrap_or,
}
use amail_bridge.Router.Table.{Crates, ProfileRouter, list_routes, remove_route}

-- The end of `route_target_key`: a host without a port has the port of the scheme.
abbrev pub default_key : Text → Text → Text
default_key url authority = host_port authority (if starts_with https url then 443 else 80)

abbrev pub key_or : Text → Text → Option ℕ → Text
key_or other host none = other
key_or other host (some port) = host_port host port

-- The key of an authority.
unfoldable pub authority_key : Text → Text → Text
authority_key url authority = elim (strip_prefix (str "[") authority) [
  | some b ↦
      let closed = host_port (bracket (trim_end_matches b']' b)) 443 in
      elim (split_once_text (str "]:") b) [
        | none ↦ closed
        | some (h, p) ↦ key_or closed (bracket h) (parse_u16 p)
      ]
  | none ↦ elim (rsplit_once b':' authority) [
    | none ↦ default_key url authority
    | some (h, p) ↦ key_or (default_key url authority) h (parse_u16 p)
  ]
]

-- `route_target_key`
unfoldable pub route_target_key : ProfileRoute → Text
route_target_key r =
    let (authority, _) = split_at_char b'/' (strip_scheme r.target_url) in
    authority_key r.target_url authority

-- `target_groups.entry(target).or_default().push(email)`, over all routes.
unfoldable pub group_routes : List ProfileRoute → Dict Text (List Text) → Dict Text (List Text)
group_routes [] groups = groups
group_routes (r ∷ rs) groups =
    let key = route_target_key r in
    let emails = unwrap_or [] (Dict.get key groups) in
    group_routes rs (Dict.insert key (emails ++ (r.email ∷ [])) groups)

-- The host and the port to probe; a target that does not split is passed over.
unfoldable pub probe_parts : Text → Option (Text × ℕ)
probe_parts target = elim (split_once b':' target) [
  | none ↦ none
  | some (host, port_str) ↦ elim (parse_u16 port_str) [
    | none ↦ none
    | some port ↦ some (host, port)
  ]
]

-- The failure counters and the targets found dead in the round.
pub record Counters : Type 0 where
  pub failures : Dict Text ℕ
  pub dead_targets : List Text

-- One failure more; the counter is a `u32`.
unfoldable pub count_failure : ℕ → Text → ℕ → Counters → Counters
count_failure threshold target before c =
    let count = (before + 1) % 2 ^ 32 in
    record {
      failures = Dict.insert target count c.failures;
      dead_targets =
          if leb threshold count then c.dead_targets ++ (target ∷ []) else c.dead_targets;
    }

-- The result of a probe.
unfoldable pub settle_target : ℕ → Text → Bool → Counters → Counters
settle_target threshold target true c = record {
  failures = Dict.remove target c.failures;
  dead_targets = c.dead_targets;
}
settle_target threshold target false c =
    count_failure threshold target (unwrap_or 0 (Dict.get target c.failures)) c

unfoldable pub remove_emails :
    (C : Crates) → List Text → ProfileRouter C.Regex → ProfileRouter C.Regex
remove_emails C [] r = r
remove_emails C (email ∷ emails) r = remove_emails C emails (remove_route C email r)

-- The loop over the dead targets.
unfoldable pub remove_dead :
    (C : Crates)
    → Dict Text (List Text)
    → List Text
    → ProfileRouter C.Regex × Dict Text ℕ
    → ProfileRouter C.Regex × Dict Text ℕ
remove_dead C groups [] (r, failures) = (r, failures)
remove_dead C groups (target ∷ targets) (r, failures) =
    remove_dead C groups targets
      (remove_emails C (unwrap_or [] (Dict.get target groups)) r, Dict.remove target failures)

-- The TCP connection of `probe_target`, an action of the outside world.
pub record Network : Type 1 where
  pub World : Type 0
  pub probe_target : Text → ℕ → World → Bool × World

module _ (N : Network) where
  unfoldable pub probe_one : ℕ → Text → Option (Text × ℕ) → Counters × N.World → Counters × N.World
  probe_one threshold target none (c, w) = (c, w)
  probe_one threshold target (some (host, port)) (c, w) =
      let (ok, w1) = N.probe_target host port w in (settle_target threshold target ok c, w1)

  -- The loop over the target groups.
  unfoldable pub probe_all : ℕ → Dict Text (List Text) → Counters × N.World → Counters × N.World
  probe_all threshold [] state = state
  probe_all threshold ((target, emails) ∷ groups) state =
      probe_all threshold groups (probe_one threshold target (probe_parts target) state)

  -- `check_routes`: the table, the counters and the world after one round.
  unfoldable pub check_listed :
      (C : Crates)
      → ℕ
      → List ProfileRoute
      → ProfileRouter C.Regex
      → Dict Text ℕ
      → N.World
      → (ProfileRouter C.Regex × Dict Text ℕ) × N.World
  check_listed C threshold [] r failures w = ((r, failures), w)
  check_listed C threshold (route ∷ routes) r failures w =
      let groups = group_routes (route ∷ routes) [] in
      let (c, w1) =
        probe_all threshold groups (record { failures = failures; dead_targets = [] }, w) in
      (remove_dead C groups c.dead_targets (r, c.failures), w1)

  unfoldable pub check_routes :
      (C : Crates)
      → ℕ
      → ProfileRouter C.Regex
      → Dict Text ℕ
      → N.World
      → (ProfileRouter C.Regex × Dict Text ℕ) × N.World
  check_routes C threshold r failures w = check_listed C threshold (list_routes C r) r failures w

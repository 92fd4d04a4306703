-- ===== src/Health/Verdicts.antt =====
-- src/health.rs: what the health checker does over its rounds with the routes of one target.
use native.Mathlib.Nat.{mod-eq_of_lt}
use amail_bridge.Common.{
  ℕ, ◌+◌, ◌^◌, ◌≤◌, ◌<◌, ◌≡◌, refl, sym, ap, ◌∙◌, true, false, none, some, List, [], ◌∷◌, arith,
  any, leb, same, same_refl, eq_of_same, if◌then◌else◌, list_eq, nat_eq, Bool-cases, Option-cases,
  inl, inr,
}
use amail_bridge.Std.Text.{Text}
use amail_bridge.Std.Dict
use amail_bridge.Std.Dict.{Dict, NodupKeys, get-cons, get-insert, get-remove, insert-NodupKeys}
use amail_bridge.Router.Route.{ProfileRoute, unwrap_or}
use amail_bridge.Router.Table.{
  Crates, ProfileRouter, list_routes, remove_route, write_current_routes,
}
use amail_bridge.Router.Keyed.{IsTable, remove-IsTable}
use amail_bridge.Health.{
  Network, Counters, route_target_key, group_routes, probe_parts, probe_all, check_listed,
  check_routes, remove_dead, remove_emails,
}
use amail_bridge.Health.Removal.{remove_dead-get}
use amail_bridge.Health.Round.{
  group, group_routes_new, values-names, values-ne-nil, check_listed-eq, dead_in_round,
  check_routes-get,
}
use amail_bridge.Health.Probes.{Answers, is_dead, next_count, probe_all-failed, probe_all-alive}

same_comm : (s t : Text) → same s t ≡ same t s
same_comm s t = elim (Bool-cases (same s t)) [
  | inl e ↦ ground (arith, eq_of_same s t e, e, same_refl t)
  | inr e ↦ elim (Bool-cases (same t s)) [
    | inl f ↦ absurd (ground (arith, eq_of_same t s f, e, same_refl s))
    | inr f ↦ e ∙ sym f
  ]
]

any-same_comm : (t : Text) (xs : List Text) → any (λ x. same x t) xs ≡ any (same t) xs
any-same_comm t [] = refl
any-same_comm t (x ∷ xs) = ground (arith, same_comm x t, any-same_comm t xs)

-- The groups of a round have a target once, and the target of every route of the table.
group_routes-NodupKeys :
    (rs : List ProfileRoute) (groups : Dict Text (List Text))
    → NodupKeys groups
    → NodupKeys (group_routes rs groups)
unfolding group_routes
group_routes-NodupKeys [] groups u = u
group_routes-NodupKeys (r ∷ rs) groups u =
    group_routes-NodupKeys rs _ (insert-NodupKeys (route_target_key r) _ groups u)

group_there :
    (k : Text) (d : Dict Text ProfileRoute) (route : ProfileRoute)
    → IsTable d
    → Dict.get k d ≡ some route
    → (emails : List Text) × (Dict.get (route_target_key route) (group_routes (Dict.values d) [])
        ≡ some emails)
group_there k d route t h =
    let target = route_target_key route in
    let groups = group_routes (Dict.values d) [] in
    let listed : any (same k) (group target groups) ≡ true =
      group_routes_new k target (Dict.values d)
      ∙ values-names k target d route t h
      ∙ same_refl target in
    elim (Option-cases (Dict.get target groups)) [
      | inl e ↦ absurd (ground (arith, listed, e))
      | inr found ↦ found
    ]

module _ (C : Crates) where
  remove_emails-IsTable :
      (emails : List Text) (r : ProfileRouter C.Regex)
      → IsTable r.routes
      → IsTable (remove_emails C emails r).routes
  unfolding remove_emails remove_route write_current_routes
  remove_emails-IsTable [] r t = t
  remove_emails-IsTable (email ∷ emails) r t =
      remove_emails-IsTable emails (remove_route C email r) (remove-IsTable email r.routes t)

  remove_dead-IsTable :
      (groups : Dict Text (List Text)) (targets : List Text) (r : ProfileRouter C.Regex)
      (failures : Dict Text ℕ)
      → IsTable r.routes
      → IsTable (remove_dead C groups targets (r, failures)).0.routes
  unfolding remove_dead
  remove_dead-IsTable groups [] r failures t = t
  remove_dead-IsTable groups (target ∷ targets) r failures t =
      remove_dead-IsTable groups targets _ _
        (remove_emails-IsTable (unwrap_or [] (Dict.get target groups)) r t)

  remove_dead-failures :
      (groups : Dict Text (List Text)) (target : Text) (targets : List Text)
      (r : ProfileRouter C.Regex) (failures : Dict Text ℕ)
      → any (same target) targets ≡ false
      → Dict.get target (remove_dead C groups targets (r, failures)).1 ≡ Dict.get target failures
  unfolding remove_dead
  remove_dead-failures groups target [] r failures h = refl
  remove_dead-failures groups target (x ∷ targets) r failures h =
      remove_dead-failures groups target targets _ (Dict.remove x failures) (ground arith)
      ∙ get-remove target x failures
      ∙ ground arith

  module _ (N : Network) (threshold : ℕ) (r : ProfileRouter C.Regex) (failures : Dict Text ℕ)
      (w : N.World) where
    abbrev pub after : ProfileRouter C.Regex × Dict Text ℕ
    after = (check_routes N C threshold r failures w).0

    -- What the probes of the round count.
    abbrev pub counted : Counters
    counted =
        (probe_all N threshold (group_routes (Dict.values r.routes) [])
          (record { failures = failures; dead_targets = [] }, w)).0

    check_routes-eq :
        (k : Text) (route : ProfileRoute)
        → Dict.get k r.routes ≡ some route
        → after
          ≡ remove_dead C
              (group_routes (Dict.values r.routes) [])
              counted.dead_targets
              (r, counted.failures)
    unfolding check_routes list_routes
    check_routes-eq k route h =
        check_listed-eq N C threshold (Dict.values r.routes) r failures w
          (values-ne-nil k r.routes route h)

    -- A round keeps the table one, and an email without a route stays without one.
    check_listed-none :
        (k : Text) (rs : List ProfileRoute)
        → Dict.get k r.routes ≡ none
        → Dict.get k (check_listed N C threshold rs r failures w).0.0.routes ≡ none
    unfolding check_listed
    check_listed-none k [] h = h
    check_listed-none k (route ∷ rs) h = remove_dead-get C k _ _ r _ ∙ ground arith

    pub check_routes-none :
        (k : Text) → Dict.get k r.routes ≡ none → Dict.get k after.0.routes ≡ none
    unfolding check_routes
    check_routes-none k h = check_listed-none k (list_routes C r) h

    check_listed-IsTable :
        (rs : List ProfileRoute)
        → IsTable r.routes
        → IsTable (check_listed N C threshold rs r failures w).0.0.routes
    unfolding check_listed
    check_listed-IsTable [] t = t
    check_listed-IsTable (route ∷ rs) t = remove_dead-IsTable _ _ r _ t

    pub check_routes-IsTable : IsTable r.routes → IsTable after.0.routes
    unfolding check_routes
    check_routes-IsTable t = check_listed-IsTable (list_routes C r) t

    module _ (k : Text) (route : ProfileRoute) (host : Text) (port : ℕ)
        (parts : probe_parts (route_target_key route) ≡ some (host, port)) (t : IsTable r.routes)
        (there : Dict.get k r.routes ≡ some route) where
      after-get :
          Dict.get k after.0.routes
          ≡ (if is_dead (route_target_key route) counted then none else some route)
      unfolding dead_in_round
      after-get =
          check_routes-get N C threshold r failures w k route t there
          ∙ rw (any-same_comm (route_target_key route) counted.dead_targets) refl

      -- The route of a target that answers stays.
      pub round-alive : Answers N true host port → Dict.get k after.0.routes ≡ some route
      round-alive answers =
          let alive =
            probe_all-alive N threshold (route_target_key route) host port parts
              (group_routes (Dict.values r.routes) [])
              (record { failures = failures; dead_targets = [] }, w) answers refl in
          after-get ∙ rw alive refl

      module _ (i : ℕ) (counter : unwrap_or 0 (Dict.get (route_target_key route) failures) ≡ i)
          (small : i + 1 < 2 ^ 32) (fails : Answers N false host port) where
        raised :
            (Dict.get (route_target_key route) counted.failures ≡ some (i + 1))
            × (is_dead (route_target_key route) counted ≡ leb threshold (i + 1))
        raised =
            let target = route_target_key route in
            let (emails, listed) = group_there k r.routes route t there in
            let (count, dead) =
              probe_all-failed N threshold target host port parts
                (group_routes (Dict.values r.routes) []) emails
                (record { failures = failures; dead_targets = [] }, w) fails
                (group_routes-NodupKeys (Dict.values r.routes) [] tt) listed in
            let one_more : next_count target (record { failures = failures; dead_targets = [] })
                ≡ i + 1 =
              rw counter (mod-eq_of_lt small) in
            (count ∙ ap some one_more, dead ∙ ap (leb threshold) one_more)

        -- From the threshold on, the route goes.
        pub round-dead : threshold ≤ i + 1 → Dict.get k after.0.routes ≡ none
        round-dead reached = after-get ∙ rw raised.1 (ground arith)

        -- Below it, the route stays, and the failure is counted.
        pub round-failed :
            i + 1 < threshold
            → (Dict.get k after.0.routes ≡ some route)
              × (unwrap_or 0 (Dict.get (route_target_key route) after.1) ≡ i + 1)
        round-failed below =
            let target = route_target_key route in
            let dead : is_dead target counted ≡ false = raised.1 ∙ ground arith in
            let kept =
              remove_dead-failures (group_routes (Dict.values r.routes) []) target
                counted.dead_targets r counted.failures dead in
            (
              after-get ∙ rw dead refl,
              rw (check_routes-eq k route there) (rw (kept ∙ raised.0) refl),
            )

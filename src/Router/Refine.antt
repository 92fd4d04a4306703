-- ===== src/Router/Refine.antt =====
-- src/router.rs: what callers see of a router while the file is not read again. A lookup keeps
-- what a pattern gave in the table; an abstract router is a function from emails to routes.
use amail_bridge.Common.{
  ℕ, ◌≡◌, refl, ap, ◌∙◌, Option, none, some, List, [], ◌∷◌, arith, same, same_refl, eq_of_same,
  if◌then◌else◌, list_eq, nat_eq, Bool-cases, Option-cases, inl, inr,
}
use mathlib.Core.Path.{ap₂}
use amail_bridge.Std.Text.{Text}
use amail_bridge.Std.Dict
use amail_bridge.Std.Dict.{get-insert}
use amail_bridge.Router.Route.{ProfileRoute, new}
use amail_bridge.Router.Table.{
  Crates, ProfileRouter, Pattern, find_pattern, lookup, update_route, remove_route,
}
use amail_bridge.Router.Patterns.{lookup-exact}
use amail_bridge.Router.Update.{route_for, update_route_lem, remove_route_lem}

-- The calls of the handlers, the pull loop and the health checker.
pub data Call : Type 0 where
  look : Text → Call
  update : Text → Text → ℕ → Call
  drop : Text → Call

-- The abstract router: a view of the routes, and the route that the patterns give an email.
abbrev pub View : Type 0
View = Text → Option ProfileRoute

abbrev pub set : Text → Option ProfileRoute → View → View
set email o view k = if same k email then o else view k

unfoldable pub replay : View → List Call → View → List (Option ProfileRoute)
replay fallback [] view = []
replay fallback (look email ∷ calls) view = view email ∷ replay fallback calls view
replay fallback (update email host_or_url port ∷ calls) view =
    replay fallback calls (set email (some (route_for email host_or_url port)) view)
replay fallback (drop email ∷ calls) view = replay fallback calls (set email (fallback email) view)

abbrev pub pattern_route : {R : Type 0} → Text → Option (Pattern R) → Option ProfileRoute
pattern_route email none = none
pattern_route email (some p) = some (new email p.host p.port)

abbrev pub or_route : Option ProfileRoute → Option ProfileRoute → Option ProfileRoute
or_route none o = o
or_route (some route) o = some route

module _ (C : Crates) where
  -- What the patterns give an email, and what a router gives it.
  unfoldable pub fallback_of : ProfileRouter C.Regex → View
  fallback_of r k = pattern_route k (find_pattern C k r.regex_patterns)

  unfoldable pub resolve : ProfileRouter C.Regex → View
  resolve r k = or_route (Dict.get k r.routes) (fallback_of r k)

  -- The answers of the lookups among the calls.
  unfoldable pub run : List Call → ProfileRouter C.Regex → List (Option ProfileRoute)
  run [] r = []
  run (look email ∷ calls) r = let (answer, r') = lookup C email r in answer ∷ run calls r'
  run (update email host_or_url port ∷ calls) r =
      run calls (update_route C email host_or_url port r)
  run (drop email ∷ calls) r = run calls (remove_route C email r)

  lookup-answer :
      (email : Text) (r : ProfileRouter C.Regex) → (lookup C email r).0 ≡ resolve r email
  unfolding lookup resolve fallback_of
  lookup-answer email r = ground arith

  lookup-patterns :
      (email : Text) (r : ProfileRouter C.Regex)
      → (lookup C email r).1.regex_patterns ≡ r.regex_patterns
  unfolding lookup
  lookup-patterns email r = ground arith

  pub lookup-missing :
      (email : Text) (r : ProfileRouter C.Regex)
      → Dict.get email r.routes ≡ none
      → find_pattern C email r.regex_patterns ≡ none
      → lookup C email r ≡ (none, r)
  unfolding lookup
  lookup-missing email r e f = ground arith

  pub lookup-cached :
      (email : Text) (r : ProfileRouter C.Regex) (p : Pattern C.Regex)
      → Dict.get email r.routes ≡ none
      → find_pattern C email r.regex_patterns ≡ some p
      → (lookup C email r).1
        ≡ record r { routes = Dict.insert email (new email p.host p.port) r.routes }
  unfolding lookup
  lookup-cached email r p e f = ground arith

  -- What a lookup keeps does not change any answer.
  lookup-resolve :
      (email k : Text) (r : ProfileRouter C.Regex) → resolve (lookup C email r).1 k ≡ resolve r k
  lookup-resolve email k r = elim (Option-cases (Dict.get email r.routes)) [
    | inr (route, e) ↦ rw (lookup-exact C email r route e) refl
    | inl e ↦ elim (Option-cases (find_pattern C email r.regex_patterns)) [
      | inl f ↦ rw (lookup-missing email r e f) refl
      | inr (p, f) ↦ rw (lookup-cached email r p e f) (elim (Bool-cases (same k email)) [
        | inl s ↦
            let same_key = eq_of_same k email s in
            unfold resolve fallback_of in
            rw same_key (
              ground (
                arith,
                e,
                f,
                get-insert email email (new email p.host p.port) r.routes,
                same_refl email,
              ))
        | inr s ↦
            unfold resolve fallback_of in
            ground (arith, s, get-insert k email (new email p.host p.port) r.routes)
      ])
    ]
  ]

  update-resolve :
      (email host_or_url : Text) (port : ℕ) (k : Text) (r : ProfileRouter C.Regex)
      → resolve (update_route C email host_or_url port r) k
        ≡ set email (some (route_for email host_or_url port)) (resolve r) k
  unfolding resolve fallback_of
  update-resolve email host_or_url port k r =
      let (stored, patterns, _, _) = update_route_lem C email host_or_url port r k in
      rw stored (rw patterns (ground arith))

  remove-resolve :
      (email k : Text) (r : ProfileRouter C.Regex)
      → resolve (remove_route C email r) k ≡ set email (fallback_of r email) (resolve r) k
  unfolding resolve fallback_of
  remove-resolve email k r =
      let (gone, patterns, _, _) = remove_route_lem C email r k in
      rw gone (
        rw patterns (elim (Bool-cases (same k email)) [
          | inl s ↦ rw s (rw (eq_of_same k email s) refl)
          | inr s ↦ rw s refl
        ]))

  fallback_same :
      (r r' : ProfileRouter C.Regex) (k : Text)
      → r'.regex_patterns ≡ r.regex_patterns
      → fallback_of r' k ≡ fallback_of r k
  unfolding fallback_of
  fallback_same r r' k e = rw e refl

  run_refines_view :
      (calls : List Call) (r : ProfileRouter C.Regex) (fallback view : View)
      → ((k : Text) → fallback_of r k ≡ fallback k)
      → ((k : Text) → resolve r k ≡ view k)
      → run calls r ≡ replay fallback calls view
  unfolding run replay
  run_refines_view [] r fallback view same_fallback same_view = refl
  run_refines_view (look email ∷ calls) r fallback view same_fallback same_view =
      let r' = (lookup C email r).1 in
      let kept : (k : Text) → fallback_of r' k ≡ fallback k =
        λ k. fallback_same r r' k (lookup-patterns email r) ∙ same_fallback k in
      ap₂ ◌∷◌ (lookup-answer email r ∙ same_view email)
        (run_refines_view calls r' fallback view kept (λ k. lookup-resolve email k r ∙ same_view k))
  run_refines_view (update email host_or_url port ∷ calls) r fallback view same_fallback same_view =
      let r' = update_route C email host_or_url port r in
      let route = some (route_for email host_or_url port) in
      let (_, patterns, _, _) = update_route_lem C email host_or_url port r email in
      run_refines_view calls r' fallback (set email route view)
        (λ k. fallback_same r r' k patterns ∙ same_fallback k)
        (λ k.
          update-resolve email host_or_url port k r
          ∙ ap (λ o. if same k email then route else o) (same_view k))
  run_refines_view (drop email ∷ calls) r fallback view same_fallback same_view =
      let r' = remove_route C email r in
      let (_, patterns, _, _) = remove_route_lem C email r email in
      run_refines_view calls r' fallback (set email (fallback email) view)
        (λ k. fallback_same r r' k patterns ∙ same_fallback k)
        (λ k.
          remove-resolve email k r
          ∙ ap₂ (λ o v. if same k email then o else v) (same_fallback email) (same_view k))

  -- Over any sequence of lookups, updates and removals the router gives the answers of a function
  -- from emails to routes: an update sets the function at the email, a removal sets it to what the
  -- patterns give, and a lookup, though it may store a route, changes nothing that can be seen.
  pub run_refines :
      (calls : List Call) (r : ProfileRouter C.Regex)
      → run calls r ≡ replay (fallback_of r) calls (resolve r)
  run_refines calls r = run_refines_view calls r (fallback_of r) (resolve r) (λ k. refl) (λ k. refl)

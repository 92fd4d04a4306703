-- ===== src/Router/Patterns.antt =====
-- src/router.rs: what a load makes of the file's keys, and `lookup` by email and by pattern.
use amail_bridge.Common.{
  ℕ, ◌≡◌, refl, ap, ◌∙◌, true, false, none, some, List, [], ◌∷◌, ◌++◌, arith, All, same_refl,
  if◌then◌else◌, list_eq, nat_eq,
}
use amail_bridge.Std.Text.{Text}
use amail_bridge.Std.Dict
use amail_bridge.Std.Dict.{Dict, NodupKeys, get-insert, get-cons}
use amail_bridge.Router.Route.{ProfileRoute, http, legacy_path, is_regex_pattern, new, host_port}
use amail_bridge.Router.Table.{
  Crates, Pattern, ProfileRouter, build_overrides, first_pass, load_routes_file, content_overrides,
  parsed_overrides, load_from_file, find_pattern, lookup,
}
use amail_bridge.Router.Load.{
  read_entry, exact_only, get-build_overrides, build_overrides-NodupKeys, get-first_pass,
}
use amail_bridge.Router.Persist.{load_from_file-eq}

-- A loaded table, email by email: the entry of the file under that very key, if the key holds no
-- regex character. A pattern adds no route at load.
pub get-load_from_file :
    (C : Crates) (r : ProfileRouter C.Regex) (content : Text) (parsed : Dict Text Text) (k : Text)
    → r.file ≡ some content
    → C.parse_toml content ≡ some parsed
    → NodupKeys parsed
    → Dict.get k (load_from_file C r).routes
      ≡ (if is_regex_pattern k then none else read_entry k (Dict.get k parsed))
unfolding load_routes_file content_overrides parsed_overrides
get-load_from_file C r content parsed k e p u =
    ap (Dict.get k) (
      (load_from_file-eq C r).0
      ∙ ap (λ o. first_pass o []) (ap (content_overrides C) e ∙ ap parsed_overrides p))
    ∙ get-first_pass k (build_overrides parsed []) (build_overrides-NodupKeys parsed [] tt)
    ∙ ap (exact_only k) (get-build_overrides k parsed u)

-- The first pattern that matches, with those before it not matching.
pub data FirstMatch (C : Crates) (email : Text) (p : Pattern C.Regex)
    : List (Pattern C.Regex) → Type 0 where
  here :
      (ps : List (Pattern C.Regex))
      → C.is_match p.regex email ≡ true
      → FirstMatch C email p (p ∷ ps)
  later :
      (q : Pattern C.Regex) (ps : List (Pattern C.Regex))
      → C.is_match q.regex email ≡ false
      → FirstMatch C email p ps
      → FirstMatch C email p (q ∷ ps)

find_pattern_of_FirstMatch :
    (C : Crates) (email : Text) {p : Pattern C.Regex} {ps : List (Pattern C.Regex)}
    → FirstMatch C email p ps
    → find_pattern C email ps ≡ some p
unfolding find_pattern
find_pattern_of_FirstMatch C email (here ps h) = rw h
find_pattern_of_FirstMatch C email (later q ps h m) = rw h (find_pattern_of_FirstMatch C email m)

-- The route that a pattern gives: always the default path, at the pattern's host and port.
abbrev pub pattern_url : Text → ℕ → Text
pattern_url host port = http ++ (host_port host port ++ legacy_path)

-- No pattern matches.
abbrev pub NoMatch : (C : Crates) → Text → List (Pattern C.Regex) → Type 0
NoMatch C email = All (λ p. C.is_match p.regex email ≡ false)

find_pattern_of_NoMatch :
    (C : Crates) (email : Text) (ps : List (Pattern C.Regex))
    → NoMatch C email ps
    → find_pattern C email ps ≡ none
unfolding find_pattern
find_pattern_of_NoMatch C email [] h = refl
find_pattern_of_NoMatch C email (p ∷ ps) (hp, h) =
    ground (arith, find_pattern_of_NoMatch C email ps h)

-- An exact route wins over every pattern, and a lookup of it changes nothing.
pub lookup-exact :
    (C : Crates) (email : Text) (r : ProfileRouter C.Regex) (route : ProfileRoute)
    → Dict.get email r.routes ≡ some route
    → lookup C email r ≡ (some route, r)
unfolding lookup
lookup-exact C email r route h = ground arith

-- Without an exact route the first matching pattern gives the route: its URL is the default
-- endpoint of the pattern's host and port. The route is kept under the email, so that a second
-- lookup finds it and changes nothing more.
pub lookup-pattern :
    (C : Crates) (email : Text) (r : ProfileRouter C.Regex) (p : Pattern C.Regex)
    → Dict.get email r.routes ≡ none
    → FirstMatch C email p r.regex_patterns
    → let route = new email p.host p.port in
      let r' = record r { routes = Dict.insert email route r.routes } in
      (lookup C email r ≡ (some route, r'))
      × (route.target_url ≡ pattern_url p.host p.port)
      × (lookup C email r' ≡ (some route, r'))
unfolding lookup new
lookup-pattern C email r p h m =
    let found : find_pattern C email r.regex_patterns ≡ some p =
      find_pattern_of_FirstMatch C email m in
    let kept = get-insert email email (new email p.host p.port) r.routes in
    (ground arith, refl, lookup-exact C email _ _ (kept ∙ rw same_refl))

-- Without an exact route and a matching pattern there is no route, and nothing changes.
pub lookup-none :
    (C : Crates) (email : Text) (r : ProfileRouter C.Regex)
    → Dict.get email r.routes ≡ none
    → NoMatch C email r.regex_patterns
    → lookup C email r ≡ (none, r)
unfolding lookup
lookup-none C email r h m = ground (arith, find_pattern_of_NoMatch C email r.regex_patterns m)

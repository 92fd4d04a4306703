-- ===== src/Tests/Routes.antt =====
-- The theorems on the router, at concrete inputs.
use amail_bridge.Common.{
  ◌≡◌, refl, false, some, none, [], ◌∷◌, ◌++◌, arith, inl, inr, Bool-cases, eq_of_same, same,
  if◌then◌else◌, list_eq, nat_eq,
}
use amail_bridge.Std.Text.{Text, str, contains_char, contains, is_whitespace, starts_with}
use amail_bridge.Std.Text.Laws.{NoSpace}
use amail_bridge.Std.Dict
use amail_bridge.Std.Dict.{Dict}
use amail_bridge.Router.Route.{ProfileRoute, new, http, is_url, is_regex_pattern, is_regex_char}
use amail_bridge.Router.Table.{
  ProfileRouter, current_entries, file_entries, store_entry, sort, insert_sorted, load_from_file,
  write_current_routes, update_route, render_routes,
}
use amail_bridge.Router.Address.{IsHost}
use amail_bridge.Router.Canonical.{render_routes-get}
use amail_bridge.Router.Entry.{IsPersistable, host_route}
use amail_bridge.Router.Persist.{IsPersistableTable, ReadsBack}
use amail_bridge.Router.Update.{
  route_for, get-load_from_file-update_route, regex_patterns-load_from_file-update_route,
}
use amail_bridge.Router.Patterns.{FirstMatch, here}
use amail_bridge.Router.Custom.{url_rest, deep_path}
use amail_bridge.Std.Text.{ends_with, text_eq}
use amail_bridge.Std.Number.{show, emit}
use amail_bridge.Router.Route.{persisted_value, is_legacy, host_port}
use amail_bridge.Router.Toml.{IsPlain, IsPlainTable}
use amail_bridge.Tests.Toml.{toml_disk, toml_disk-ReadsToml}
use amail_bridge.Tests.Stubs.{
  alice, bob, local, alice_routes, disk, empty_router, bob_pattern, pattern_router,
}

abbrev hook : Text
hook = str " https://a.b:8443/hook "

local-IsHost : IsHost local
unfolding is_whitespace
local-IsHost = record {
  no_space = (refl, (refl, (refl, (refl, (refl, (refl, (refl, (refl, tt))))))));
  no_slash = ground arith;
  no_bracket = ground arith;
}

alice-IsPersistable : IsPersistable alice (new alice local 8645)
alice-IsPersistable = host_route local 8645 local-IsHost (omega arith)

alice-no_pattern : is_regex_pattern alice ≡ false
unfolding is_regex_pattern is_regex_char
alice-no_pattern = refl

pub alice_routes-get :
    (k : Text) (route : ProfileRoute)
    → Dict.get k alice_routes ≡ some route
    → (k ≡ alice) × (route ≡ new alice local 8645)
unfolding Dict.get
alice_routes-get k route h = elim (Bool-cases (same k alice)) [
  | inl e ↦ (eq_of_same k alice e, ground arith)
  | inr e ↦ absurd (ground arith)
]

pub alice_routes-IsPersistableTable : IsPersistableTable alice_routes
alice_routes-IsPersistableTable k route h =
    let (key, value) = alice_routes-get k route h in
    rw key (rw value (alice-no_pattern, alice-IsPersistable))

alice_8645-IsPlain : IsPlain (persisted_value (new alice local 8645))
unfolding persisted_value is_legacy new host_port show emit starts_with ends_with text_eq
alice_8645-IsPlain = refl

pub alice_routes-IsPlainTable : IsPlainTable alice_routes
alice_routes-IsPlainTable k route h =
    let (key, value) = alice_routes-get k route h in rw key (rw value (refl, alice_8645-IsPlain))

empty-IsPersistableTable : IsPersistableTable []
unfolding Dict.get
empty-IsPersistableTable k route h = absurd (cc)

pub disk-ReadsBack : ReadsBack disk alice_routes (current_entries alice_routes)
unfolding current_entries file_entries store_entry sort insert_sorted Dict.keys Dict.get list_eq
    nat_eq
disk-ReadsBack = record { parses = refl; nodup = (refl, tt); same_pairs = λ k. refl }

alice-route_for : route_for alice local 8645 ≡ new alice local 8645
unfolding is_url contains_char contains starts_with
alice-route_for = refl

alice-route_for-IsPersistable : IsPersistable alice (route_for alice local 8645)
alice-route_for-IsPersistable = rw alice-route_for alice-IsPersistable

alice-IsPlain : IsPlain alice × IsPlain (persisted_value (route_for alice local 8645))
alice-IsPlain = (refl, rw alice-route_for alice_8645-IsPlain)

empty-IsPlainTable : IsPlainTable []
unfolding Dict.get
empty-IsPlainTable k route h = absurd (cc)

get-load_from_file-update_route_example :
    Dict.get alice
      (load_from_file toml_disk (update_route toml_disk alice local 8645 empty_router)).routes
    ≡ (if same alice alice
        then some (route_for alice local 8645)
        else Dict.get alice empty_router.routes)
get-load_from_file-update_route_example =
    get-load_from_file-update_route toml_disk alice local 8645 empty_router toml_disk-ReadsToml refl
      alice-no_pattern alice-route_for-IsPersistable alice-IsPlain.0 alice-IsPlain.1 tt
      empty-IsPersistableTable empty-IsPlainTable alice

after_pattern :
    (update_route disk alice local 8645
      (record empty_router { regex_patterns = bob_pattern ∷ [] })).routes
    ≡ alice_routes
unfolding update_route write_current_routes Dict.insert is_url contains_char contains starts_with
after_pattern = refl

after_pattern-ReadsBack :
    ReadsBack disk
      (update_route disk alice local 8645
        (record empty_router { regex_patterns = bob_pattern ∷ [] })).routes
      (current_entries alice_routes)
after_pattern-ReadsBack = rw after_pattern disk-ReadsBack

regex_patterns-load_from_file-update_route_example :
    (load_from_file disk (
      update_route disk alice local 8645
        (record empty_router { regex_patterns = bob_pattern ∷ [] }))).regex_patterns
    ≡ []
regex_patterns-load_from_file-update_route_example =
    regex_patterns-load_from_file-update_route disk alice local 8645
      (record empty_router { regex_patterns = bob_pattern ∷ [] }) (current_entries alice_routes)
      refl alice-no_pattern alice-route_for-IsPersistable empty-IsPersistableTable
      after_pattern-ReadsBack

abbrev plus : Text
plus = str "a+b@c.d"

abbrev plus_pairs : Dict Text Text
plus_pairs = (plus, str "10.0.0.5:80") ∷ []

abbrev plus_router : ProfileRouter Text
plus_router = record empty_router { file = some (str "x") }

plus_pairs-NodupKeys : Dict.NodupKeys plus_pairs
unfolding Dict.get
plus_pairs-NodupKeys = (refl, tt)

bob_absent : Dict.get bob pattern_router.routes ≡ none
unfolding Dict.get list_eq nat_eq
bob_absent = refl

bob-FirstMatch : FirstMatch disk bob bob_pattern pattern_router.regex_patterns
unfolding list_eq nat_eq
bob-FirstMatch = here [] refl

-- A URL whose path ends like the default endpoint, under `/x`.
deep_path-NoSpace : NoSpace (deep_path (str "x"))
unfolding is_whitespace
deep_path-NoSpace = ground arith

abbrev deep_url : Text
deep_url = http ++ url_rest local 8645 (deep_path (str "x"))

abbrev two_routes : Dict Text ProfileRoute
two_routes = (alice, new alice local 8645) ∷ (bob, new bob local 9000) ∷ []

abbrev same_routes : Dict Text ProfileRoute
same_routes = (bob, new bob local 9000) ∷ (alice, new alice local 8645) ∷ []

alice-bob : same alice bob ≡ false
unfolding list_eq nat_eq
alice-bob = refl

same_answers : (k : Text) → Dict.get k two_routes ≡ Dict.get k same_routes
unfolding Dict.get
same_answers k = elim (Bool-cases (same k alice)) [
  | inl e ↦
      let not_bob : same k bob ≡ false = rw (eq_of_same k alice e) alice-bob in
      ground (arith, e, not_bob)
  | inr e ↦ ground (arith, e)
]

two_routes-NodupKeys : Dict.NodupKeys two_routes
unfolding Dict.get list_eq nat_eq
two_routes-NodupKeys = (refl, (refl, tt))

same_routes-NodupKeys : Dict.NodupKeys same_routes
unfolding Dict.get list_eq nat_eq
same_routes-NodupKeys = (refl, (refl, tt))

render_routes-get_example : render_routes two_routes ≡ render_routes same_routes
render_routes-get_example =
    render_routes-get two_routes same_routes two_routes-NodupKeys same_routes-NodupKeys same_answers

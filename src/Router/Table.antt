-- ===== src/Router/Table.antt =====
-- src/router.rs: `ProfileRouter`. The regex and toml crates are parameters. The state holds the
-- routes file's content, and whether the file system takes writes.
use amail_bridge.Common.{
  ℕ, Bool, true, false, not, Option, none, some, List, [], ◌∷◌, ◌++◌, ltb, ◌==◌, if◌then◌else◌,
  length, list_eq, nat_eq,
}
use amail_bridge.Std.Text.{Text, str}
use amail_bridge.Std.Dict
use amail_bridge.Std.Dict.{Dict}
use amail_bridge.Router.Route.{
  ProfileRoute, new, from_url, is_url, is_regex_pattern, persisted_value, route_of_entry,
}

-- What the code takes from other crates: `regex::Regex::new`, `is_match`, `toml::from_str`.
pub record Crates : Type 1 where
  pub Regex : Type 0
  pub compile : Text → Option Regex
  pub is_match : Regex → Text → Bool
  pub parse_toml : Text → Option (Dict Text Text)

-- A pattern of the routes file: the regex, its text, the host and the port.
pub record Pattern (R : Type 0) : Type 0 where
  pub regex : R
  pub key : Text
  pub host : Text
  pub port : ℕ

pub record ProfileRouter (R : Type 0) : Type 0 where
  pub routes : Dict Text ProfileRoute
  pub file : Option Text
  pub writable : Bool
  pub regex_patterns : List (Pattern R)
  pub writing_routes : Bool

-- The order of texts, as `sort` uses it.
unfoldable pub text_lt : Text → Text → Bool
text_lt s [] = false
text_lt [] (d ∷ t) = true
text_lt (c ∷ s) (d ∷ t) = let rest = text_lt s t in if c == d then rest else ltb c d

unfoldable pub insert_sorted : Text → List Text → List Text
insert_sorted k [] = k ∷ []
insert_sorted k (j ∷ ks) =
    let rest = insert_sorted k ks in if text_lt j k then j ∷ rest else k ∷ j ∷ ks

unfoldable pub sort : List Text → List Text
sort [] = []
sort (k ∷ ks) = insert_sorted k (sort ks)

-- One round of the loop of `write_current_routes`.
unfoldable pub store_entry : Text → Option ProfileRoute → Dict Text Text → Dict Text Text
store_entry k none entries = entries
store_entry k (some route) entries = (k, persisted_value route) ∷ entries

-- The pairs that are written, in the order of the file.
unfoldable pub file_entries : Dict Text ProfileRoute → List Text → Dict Text Text
file_entries routes [] = []
file_entries routes (k ∷ ks) = store_entry k (Dict.get k routes) (file_entries routes ks)

abbrev quoted : Text → Text
quoted s = b'"' ∷ (s ++ (b'"' ∷ []))

unfoldable pub render_entries : Dict Text Text → Text
render_entries [] = []
render_entries ((k, v) ∷ es) = quoted k ++ (str " = " ++ (quoted v ++ (b'\n' ∷ render_entries es)))

abbrev pub file_header : Text
file_header = str "# Auto-generated by aimail-bridge.\n# File changes take effect immediately.\n"

-- The entries that `write_current_routes` writes.
unfoldable pub current_entries : Dict Text ProfileRoute → Dict Text Text
current_entries routes = file_entries routes (sort (Dict.keys routes))

unfoldable pub render_routes : Dict Text ProfileRoute → Text
render_routes routes = file_header ++ render_entries (current_entries routes)

-- The first pass of `load_from_file`: the keys that are no patterns.
unfoldable pub first_pass : Dict Text ProfileRoute → Dict Text ProfileRoute → Dict Text ProfileRoute
first_pass [] routes = routes
first_pass ((key, route) ∷ overrides) routes =
    first_pass overrides (if is_regex_pattern key then routes else Dict.insert key route routes)

-- One round of that loop: an entry that gives no route is skipped.
unfoldable pub add_entry :
    Text → Option ProfileRoute → Dict Text ProfileRoute → Dict Text ProfileRoute
add_entry key none overrides = overrides
add_entry key (some route) overrides = Dict.insert key route overrides

-- The loop of `load_routes_file` over the parsed pairs.
unfoldable pub build_overrides : Dict Text Text → Dict Text ProfileRoute → Dict Text ProfileRoute
build_overrides [] overrides = overrides
build_overrides ((key, value) ∷ parsed) overrides =
    build_overrides parsed (add_entry key (route_of_entry key value) overrides)

-- `load_routes_file` behind the read: an unreadable file and one that does not parse give none.
unfoldable pub parsed_overrides : Option (Dict Text Text) → Dict Text ProfileRoute
parsed_overrides none = []
parsed_overrides (some parsed) = build_overrides parsed []

module _ (C : Crates) where
  open C use {Regex, compile, is_match, parse_toml}

  -- `ProfileRouter::new`, over a file system.
  unfoldable pub new_router : Option Text → Bool → ProfileRouter Regex
  new_router file writable = record {
    routes = [];
    file = file;
    writable = writable;
    regex_patterns = [];
    writing_routes = false;
  }

  unfoldable pub content_overrides : Option Text → Dict Text ProfileRoute
  content_overrides none = []
  content_overrides (some content) = parsed_overrides (parse_toml content)

  unfoldable pub load_routes_file : ProfileRouter Regex → Dict Text ProfileRoute
  load_routes_file r = content_overrides r.file

  -- The inner loop of the second pass, over the emails known after the first.
  unfoldable pub expand :
      Regex → ProfileRoute → List Text → Dict Text ProfileRoute → Dict Text ProfileRoute
  expand re route [] routes = routes
  expand re route (email ∷ emails) routes = expand re route emails (
      if is_match re email
      then (if Dict.contains_key email routes then routes else Dict.insert email route routes)
      else routes)

  -- One round of the second pass. A key that is no valid regex is skipped.
  unfoldable pub add_pattern :
      List Text
      → Text
      → ProfileRoute
      → Option Regex
      → Dict Text ProfileRoute × List (Pattern Regex)
      → Dict Text ProfileRoute × List (Pattern Regex)
  add_pattern emails key route none (routes, patterns) = (routes, patterns)
  add_pattern emails key route (some re) (routes, patterns) = (
    expand re route emails routes,
    patterns ++ (record { regex = re; key = key; host = route.host; port = route.port } ∷ []),
  )

  -- The second pass: the keys that are patterns.
  unfoldable pub second_pass :
      List Text
      → Dict Text ProfileRoute
      → Dict Text ProfileRoute × List (Pattern Regex)
      → Dict Text ProfileRoute × List (Pattern Regex)
  second_pass emails [] state = state
  second_pass emails ((key, route) ∷ overrides) state =
      second_pass emails overrides
        (add_pattern emails key route (if is_regex_pattern key then compile key else none) state)

  unfoldable pub load_from_file : ProfileRouter Regex → ProfileRouter Regex
  load_from_file r =
      let file_overrides = load_routes_file r in
      let routes = first_pass file_overrides [] in
      let (routes', patterns) = second_pass (Dict.keys routes) file_overrides (routes, []) in
      record r { routes = routes'; regex_patterns = patterns; writing_routes = false }

  -- `patterns.iter().find(…)`
  unfoldable pub find_pattern : Text → List (Pattern Regex) → Option (Pattern Regex)
  find_pattern email [] = none
  find_pattern email (p ∷ ps) =
      let rest = find_pattern email ps in if is_match p.regex email then some p else rest

  -- A route found by a pattern is kept under the email.
  unfoldable pub lookup : Text → ProfileRouter Regex → Option ProfileRoute × ProfileRouter Regex
  lookup email r = elim (Dict.get email r.routes) [
    | some route ↦ (some route, r)
    | none ↦ elim (find_pattern email r.regex_patterns) [
      | none ↦ (none, r)
      | some p ↦
          let route = new email p.host p.port in
          (some route, record r { routes = Dict.insert email route r.routes })
    ]
  ]

  -- The guard flag is set before the write and reset after it.
  unfoldable pub write_current_routes : ProfileRouter Regex → ProfileRouter Regex
  write_current_routes r =
      let r1 = record r { writing_routes = true } in
      let r2 = record r1 {
        file = if r1.writable then some (render_routes r1.routes) else r1.file;
      } in
      record r2 { writing_routes = false }

  unfoldable pub update_route : Text → Text → ℕ → ProfileRouter Regex → ProfileRouter Regex
  update_route email host_or_url port r =
      let route =
        if is_url host_or_url then from_url email host_or_url else new email host_or_url port in
      write_current_routes (record r { routes = Dict.insert email route r.routes })

  unfoldable pub remove_route : Text → ProfileRouter Regex → ProfileRouter Regex
  remove_route email r = write_current_routes (record r { routes = Dict.remove email r.routes })

  unfoldable pub list_routes : ProfileRouter Regex → List ProfileRoute
  list_routes r = Dict.values r.routes

  unfoldable pub route_count : ProfileRouter Regex → ℕ
  route_count r = length r.routes

  unfoldable pub list_emails : ProfileRouter Regex → List Text
  list_emails r = Dict.keys r.routes

  -- One event of the watcher: whether it names the routes file.
  unfoldable pub on_event : Bool → ProfileRouter Regex → ProfileRouter Regex
  on_event is_routes_file r = elim is_routes_file [
    | false ↦ r
    | true ↦ if not r.writing_routes then load_from_file r else r
  ]

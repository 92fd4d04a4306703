-- ===== src/Router/Update.antt =====
-- src/router.rs: `update_route` and `remove_route` on the table, and what keeps a table persistable.
use mathlib.Core.Path.{subst}
use amail_bridge.Common.{
  ℕ, ◌≡◌, refl, ◌∙◌, true, false, none, some, [], arith, same, eq_of_same, if◌then◌else◌, list_eq,
  nat_eq, Bool-cases, inl, inr,
}
use amail_bridge.Std.Text.{Text}
use amail_bridge.Std.Dict
use amail_bridge.Std.Dict.{
  Dict, NodupKeys, get-insert, get-remove, insert-NodupKeys, remove-NodupKeys,
}
use amail_bridge.Router.Route.{
  ProfileRoute, is_regex_pattern, is_url, new, from_url, persisted_value,
}
use amail_bridge.Router.Table.{
  Crates, ProfileRouter, render_routes, load_from_file, write_current_routes, update_route,
  remove_route,
}
use amail_bridge.Router.Entry.{IsPersistable}
use amail_bridge.Router.Persist.{
  IsPersistableTable, ReadsBack, get-load_from_file-write, regex_patterns-load_from_file-write,
}
use amail_bridge.Router.Toml.{
  ReadsToml, IsPlain, IsPlainTable, ReadsToml-ReadsBack, insert-IsPlainTable,
}

-- The route that `update_route` stores.
abbrev pub route_for : Text → Text → ℕ → ProfileRoute
route_for email host_or_url port =
    if is_url host_or_url then from_url email host_or_url else new email host_or_url port

-- An update sets the one route, and a removal clears it. Both leave every other email's route,
-- the patterns and the reset guard flag, and write the new table if the file takes writes.
pub update_route_lem :
    (C : Crates) (email host_or_url : Text) (port : ℕ) (r : ProfileRouter C.Regex) (k : Text)
    → let r' = update_route C email host_or_url port r in
      (Dict.get k r'.routes
        ≡ (if same k email then some (route_for email host_or_url port) else Dict.get k r.routes))
      × (r'.regex_patterns ≡ r.regex_patterns)
      × (r'.writing_routes ≡ false)
      × (r'.file ≡ (if r.writable then some (render_routes r'.routes) else r.file))
unfolding update_route write_current_routes
update_route_lem C email host_or_url port r k = (get-insert k email _ r.routes, refl, refl, refl)

pub remove_route_lem :
    (C : Crates) (email : Text) (r : ProfileRouter C.Regex) (k : Text)
    → let r' = remove_route C email r in
      (Dict.get k r'.routes ≡ (if same k email then none else Dict.get k r.routes))
      × (r'.regex_patterns ≡ r.regex_patterns)
      × (r'.writing_routes ≡ false)
      × (r'.file ≡ (if r.writable then some (render_routes r'.routes) else r.file))
unfolding remove_route write_current_routes
remove_route_lem C email r k = (get-remove k email r.routes, refl, refl, refl)

-- Adding a persistable route under an email that is no pattern keeps the table persistable.
pub insert-IsPersistableTable :
    (d : Dict Text ProfileRoute) (email : Text) (route : ProfileRoute)
    → is_regex_pattern email ≡ false
    → IsPersistable email route
    → IsPersistableTable d
    → IsPersistableTable (Dict.insert email route d)
insert-IsPersistableTable d email route exact new_ok ok k v h = elim (Bool-cases (same k email)) [
  | inl e ↦
      let k_eq : k ≡ email = eq_of_same k email e in
      let v_eq : route ≡ v = ground (arith, get-insert k email route d) in
      rw k_eq (exact, subst (IsPersistable email) v_eq new_ok)
  | inr e ↦ ok k v (ground (arith, get-insert k email route d))
]

pub remove-IsPersistableTable :
    (d : Dict Text ProfileRoute) (email : Text)
    → IsPersistableTable d
    → IsPersistableTable (Dict.remove email d)
remove-IsPersistableTable d email ok k v h = ok k v (ground (arith, get-remove k email d))

-- A restart after an update: the table that is loaded has the new route under its email and every
-- other route as before. It takes a file that can be written, an email that is no pattern, routes,
-- the new one and those of the table, that are persistable, and whose emails and written values have
-- no quote, backslash or control character, and a parser that reads TOML.
pub get-load_from_file-update_route :
    (C : Crates) (email host_or_url : Text) (port : ℕ) (r : ProfileRouter C.Regex)
    → ReadsToml C
    → r.writable ≡ true
    → is_regex_pattern email ≡ false
    → IsPersistable email (route_for email host_or_url port)
    → IsPlain email
    → IsPlain (persisted_value (route_for email host_or_url port))
    → NodupKeys r.routes
    → IsPersistableTable r.routes
    → IsPlainTable r.routes
    → (k : Text)
    → Dict.get k (load_from_file C (update_route C email host_or_url port r)).routes
      ≡ (if same k email then some (route_for email host_or_url port) else Dict.get k r.routes)
unfolding update_route write_current_routes
get-load_from_file-update_route C email host_or_url port r reads w exact new_ok plain plain_value
      once ok all_plain k =
    let route = route_for email host_or_url port in
    let d' = Dict.insert email route r.routes in
    let (parsed, rb) =
      ReadsToml-ReadsBack C d' reads (insert-NodupKeys email route r.routes once)
        (insert-IsPlainTable r.routes email route plain plain_value all_plain) in
    get-load_from_file-write C (record r { routes = d' }) parsed w rb
      (insert-IsPersistableTable r.routes email route exact new_ok ok) k
    ∙ get-insert k email route r.routes

pub regex_patterns-load_from_file-update_route :
    (C : Crates) (email host_or_url : Text) (port : ℕ) (r : ProfileRouter C.Regex)
    (parsed : Dict Text Text)
    → r.writable ≡ true
    → is_regex_pattern email ≡ false
    → IsPersistable email (route_for email host_or_url port)
    → IsPersistableTable r.routes
    → ReadsBack C (update_route C email host_or_url port r).routes parsed
    → (load_from_file C (update_route C email host_or_url port r)).regex_patterns ≡ []
unfolding update_route write_current_routes
regex_patterns-load_from_file-update_route C email host_or_url port r parsed w exact new_ok ok rb =
    regex_patterns-load_from_file-write C
      (record r { routes = Dict.insert email (route_for email host_or_url port) r.routes }) parsed w
      rb (insert-IsPersistableTable r.routes email _ exact new_ok ok)

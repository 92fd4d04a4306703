-- ===== src/Router/Persist.antt =====
-- src/router.rs: `write_current_routes` followed by `load_from_file`.
use amail_bridge.Common.{
  ◌≡◌, refl, ap, ◌∙◌, Bool, true, false, ◌||◌, Option, none, some, List, [], ◌∷◌, arith, any, same,
  if◌then◌else◌, list_eq, nat_eq, Option-cases, inl, inr,
}
use amail_bridge.Std.Text.{Text}
use amail_bridge.Std.Dict
use amail_bridge.Std.Dict.{Dict, NodupKeys, get-cons, contains_key-get, get-insert, get-remove}
use amail_bridge.Router.Route.{ProfileRoute, is_regex_pattern, persisted_value}
use amail_bridge.Router.Table.{
  Crates, ProfileRouter, insert_sorted, sort, store_entry, file_entries, current_entries,
  render_routes, build_overrides, load_routes_file, content_overrides, parsed_overrides,
  load_from_file, first_pass, write_current_routes,
}
use amail_bridge.Router.Entry.{IsPersistable, route_of_entry-persisted_value}
use amail_bridge.Router.Load.{
  or_else, read_entry, exact_only, get-build_overrides, build_overrides-NodupKeys, get-first_pass,
  second_pass-routes, second_pass-patterns, compiled, compiled-nil,
}

any-insert_sorted :
    (p : Text → Bool) (k : Text) (ks : List Text) → any p (insert_sorted k ks) ≡ (p k || any p ks)
unfolding insert_sorted
any-insert_sorted p k [] = refl
any-insert_sorted p k (j ∷ ks) = ground (arith, any-insert_sorted p k ks)

any-sort : (p : Text → Bool) (ks : List Text) → any p (sort ks) ≡ any p ks
unfolding sort
any-sort p [] = refl
any-sort p (k ∷ ks) = any-insert_sorted p k (sort ks) ∙ ap (λ b. p k || b) (any-sort p ks)

any-keys :
    (k : Text) (d : Dict Text ProfileRoute) → any (same k) (Dict.keys d) ≡ Dict.contains_key k d
unfolding Dict.keys Dict.contains_key
any-keys k [] = refl
any-keys k ((j, v) ∷ d) = ground (arith, any-keys k d)

-- The stored value of a key, if it is listed.
unfoldable pub stored : Option ProfileRoute → Option Text
stored none = none
stored (some route) = some (persisted_value route)

get-store_entry :
    (k j : Text) (o : Option ProfileRoute) (es : Dict Text Text)
    → Dict.get k (store_entry j o es)
      ≡ (if same k j then or_else (stored o) (Dict.get k es) else Dict.get k es)
unfolding store_entry stored
get-store_entry k j none es = ground arith
get-store_entry k j (some route) es = ground (arith, get-cons k j (persisted_value route) es)

pub get-file_entries :
    (k : Text) (d : Dict Text ProfileRoute) (ks : List Text)
    → Dict.get k (file_entries d ks) ≡ (if any (same k) ks then stored (Dict.get k d) else none)
unfolding file_entries stored
get-file_entries k d [] = unfold Dict.get in refl
get-file_entries k d (j ∷ ks) =
    ground (arith, get-store_entry k j (Dict.get j d) (file_entries d ks), get-file_entries k d ks)

stored_if_there :
    (o : Option ProfileRoute)
    → (if (elim o [ none ↦ false | some _ ↦ true ]) then stored o else none) ≡ stored o
unfolding stored
stored_if_there none = refl
stored_if_there (some route) = refl

get-current_entries :
    (k : Text) (d : Dict Text ProfileRoute) → Dict.get k (current_entries d) ≡ stored (Dict.get k d)
unfolding current_entries
get-current_entries k d =
    get-file_entries k d (sort (Dict.keys d))
    ∙ ap (λ b. if b then stored (Dict.get k d) else none)
        (any-sort (same k) (Dict.keys d) ∙ any-keys k d ∙ contains_key-get k d)
    ∙ stored_if_there (Dict.get k d)

-- A table that a written file gives back: no key is a pattern, and each route is persistable.
abbrev pub IsPersistableTable : Dict Text ProfileRoute → Type 0
IsPersistableTable d =
    (k : Text) (route : ProfileRoute)
    → Dict.get k d ≡ some route
    → (is_regex_pattern k ≡ false) × IsPersistable k route

-- The TOML parser reads the written pairs back, each key once, in any order.
pub record ReadsBack (C : Crates) (d : Dict Text ProfileRoute) (parsed : Dict Text Text)
    : Type 0 where
  pub parses : C.parse_toml (render_routes d) ≡ some parsed
  pub nodup : NodupKeys parsed
  pub same_pairs : (k : Text) → Dict.get k parsed ≡ Dict.get k (current_entries d)

read_entry-stored :
    (k : Text) (o : Option ProfileRoute)
    → ((route : ProfileRoute)
        → o ≡ some route
        → (is_regex_pattern k ≡ false) × IsPersistable k route)
    → exact_only k (read_entry k (stored o)) ≡ o
unfolding stored
read_entry-stored k none h = ground arith
read_entry-stored k (some route) h =
    let (exact, ok) = h route refl in rw (exact) (route_of_entry-persisted_value k ok)

module _ (C : Crates) (d : Dict Text ProfileRoute) (parsed : Dict Text Text)
    (rb : ReadsBack C d parsed) (ok : IsPersistableTable d) where
  overrides-get :
      (k : Text) → Dict.get k (build_overrides parsed []) ≡ read_entry k (stored (Dict.get k d))
  overrides-get k =
      get-build_overrides k parsed rb.nodup
      ∙ ap (read_entry k) (rb.same_pairs k ∙ get-current_entries k d)

  -- The first pass over the entries read gives every route back.
  get-first_pass-overrides :
      (k : Text) → Dict.get k (first_pass (build_overrides parsed []) []) ≡ Dict.get k d
  get-first_pass-overrides k =
      get-first_pass k (build_overrides parsed []) (build_overrides-NodupKeys parsed [] tt)
      ∙ ap (exact_only k) (overrides-get k)
      ∙ read_entry-stored k (Dict.get k d) (ok k)

  overrides_exact :
      (k : Text)
      → Dict.contains_key k (build_overrides parsed []) ≡ true
      → is_regex_pattern k ≡ false
  unfolding stored
  overrides_exact k h = elim (Option-cases (Dict.get k d)) [
    | inr (route, e) ↦ (ok k route e).0
    | inl e ↦
        absurd (ground (arith, overrides-get k, contains_key-get k (build_overrides parsed [])))
  ]

-- The routes and the patterns of a load, from the entries of the file.
pub load_from_file-eq :
    (C : Crates) (r : ProfileRouter C.Regex)
    → ((load_from_file C r).routes ≡ first_pass (load_routes_file C r) [])
      × ((load_from_file C r).regex_patterns ≡ compiled C (load_routes_file C r))
unfolding load_from_file
load_from_file-eq C r =
    let o = load_routes_file C r in
    (
      second_pass-routes C o (first_pass o []) [],
      second_pass-patterns C (Dict.keys (first_pass o [])) o (first_pass o []),
    )

load_routes_file-write :
    (C : Crates) (r : ProfileRouter C.Regex) (parsed : Dict Text Text)
    → r.writable ≡ true
    → C.parse_toml (render_routes r.routes) ≡ some parsed
    → load_routes_file C (write_current_routes C r) ≡ build_overrides parsed []
unfolding load_routes_file content_overrides parsed_overrides write_current_routes
load_routes_file-write C r parsed w e = rw (w, e)

-- Writing the table and loading it again gives every route back, for a table without pattern
-- keys whose routes are persistable, if the file can be written and the parser reads it back.
pub get-load_from_file-write :
    (C : Crates) (r : ProfileRouter C.Regex) (parsed : Dict Text Text)
    → r.writable ≡ true
    → ReadsBack C r.routes parsed
    → IsPersistableTable r.routes
    → (k : Text)
    → Dict.get k (load_from_file C (write_current_routes C r)).routes ≡ Dict.get k r.routes
get-load_from_file-write C r parsed w rb ok k =
    ap (Dict.get k) (
      (load_from_file-eq C (write_current_routes C r)).0
      ∙ ap (λ o. first_pass o []) (load_routes_file-write C r parsed w rb.parses))
    ∙ get-first_pass-overrides C r.routes parsed rb ok k

-- That reload holds no pattern, whatever patterns were loaded before the write.
pub regex_patterns-load_from_file-write :
    (C : Crates) (r : ProfileRouter C.Regex) (parsed : Dict Text Text)
    → r.writable ≡ true
    → ReadsBack C r.routes parsed
    → IsPersistableTable r.routes
    → (load_from_file C (write_current_routes C r)).regex_patterns ≡ []
regex_patterns-load_from_file-write C r parsed w rb ok =
    (load_from_file-eq C (write_current_routes C r)).1
    ∙ ap (compiled C) (load_routes_file-write C r parsed w rb.parses)
    ∙ compiled-nil C (build_overrides parsed []) (overrides_exact C r.routes parsed rb ok)

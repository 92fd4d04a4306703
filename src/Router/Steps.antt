-- ===== src/Router/Steps.antt =====
-- src/router.rs: the router as a transition system. The handlers, the health checker, the watcher
-- and the editor of the routes file take turns; each operation holds its lock from end to end.
use amail_bridge.Router.Keyed.{
  IsTable, nil-IsTable, insert-IsTable, remove-IsTable, route_for-email, first_pass-IsTable,
  parsed_overrides-IsTable,
}
use amail_bridge.Common.{
  ℕ, ◌≡◌, refl, Bool, true, false, Option, none, some, [], list_eq, nat_eq, Option-cases, inl, inr,
}
use amail_bridge.Std.Text.{Text}
use amail_bridge.Std.Dict
use amail_bridge.Std.Dict.{
  Dict, NodupKeys, get-cons, get-insert, get-remove, insert-NodupKeys, remove-NodupKeys,
}
use amail_bridge.Router.Route.{new}
use amail_bridge.Router.Table.{
  Crates, ProfileRouter, find_pattern, lookup, update_route, remove_route, on_event, new_router,
  load_from_file, load_routes_file, content_overrides, write_current_routes,
}
use amail_bridge.Router.Patterns.{lookup-exact}
use amail_bridge.Router.Refine.{lookup-missing, lookup-cached}
use amail_bridge.Router.Persist.{load_from_file-eq}
use amail_bridge.Router.Update.{route_for}

module _ (C : Crates) where
  -- What holds of a router between two operations: the table is one, and the watcher's guard is
  -- not left set.
  pub record IsWellFormed (r : ProfileRouter C.Regex) : Type 0 where
    pub table : IsTable r.routes
    pub unguarded : r.writing_routes ≡ false

  pub content_overrides-IsTable : (o : Option Text) → IsTable (content_overrides C o)
  unfolding content_overrides
  content_overrides-IsTable none = nil-IsTable
  content_overrides-IsTable (some content) = parsed_overrides-IsTable (C.parse_toml content)

  load_from_file-IsWellFormed : (r : ProfileRouter C.Regex) → IsWellFormed (load_from_file C r)
  load_from_file-IsWellFormed r = record {
    table = rw (load_from_file-eq C r).0 (
        first_pass-IsTable (load_routes_file C r) []
          (unfold load_routes_file in content_overrides-IsTable r.file) nil-IsTable);
    unguarded = unfold load_from_file in refl;
  }

  lookup-IsWellFormed :
      (email : Text) (r : ProfileRouter C.Regex)
      → IsWellFormed r
      → IsWellFormed (lookup C email r).1
  lookup-IsWellFormed email r w = elim (Option-cases (Dict.get email r.routes)) [
    | inr (route, e) ↦ rw (lookup-exact C email r route e) w
    | inl e ↦ elim (Option-cases (find_pattern C email r.regex_patterns)) [
      | inl f ↦ rw (lookup-missing C email r e f) w
      | inr (p, f) ↦ rw (lookup-cached C email r p e f) (record {
        table =
            insert-IsTable email (new email p.host p.port) r.routes (unfold new in refl) w.table;
        unguarded = w.unguarded;
      })
    ]
  ]

  update_route-IsWellFormed :
      (email host_or_url : Text) (port : ℕ) (r : ProfileRouter C.Regex)
      → IsWellFormed r
      → IsWellFormed (update_route C email host_or_url port r)
  unfolding update_route write_current_routes
  update_route-IsWellFormed email host_or_url port r w = record {
    table =
        insert-IsTable email (route_for email host_or_url port) r.routes
          (route_for-email email host_or_url port) w.table;
    unguarded = refl;
  }

  remove_route-IsWellFormed :
      (email : Text) (r : ProfileRouter C.Regex)
      → IsWellFormed r
      → IsWellFormed (remove_route C email r)
  unfolding remove_route write_current_routes
  remove_route-IsWellFormed email r w = record {
    table = remove-IsTable email r.routes w.table;
    unguarded = refl;
  }

  on_event-IsWellFormed :
      (named : Bool) (r : ProfileRouter C.Regex)
      → IsWellFormed r
      → IsWellFormed (on_event C named r)
  unfolding on_event
  on_event-IsWellFormed false r w = w
  on_event-IsWellFormed true r w = rw w.unguarded (load_from_file-IsWellFormed _)

  -- One turn: an operation of the bridge, or a change of the file from outside.
  pub data Step : ProfileRouter C.Regex → ProfileRouter C.Regex → Type 0 where
    looks : (email : Text) (r : ProfileRouter C.Regex) → Step r (lookup C email r).1
    updates :
        (email host_or_url : Text) (port : ℕ) (r : ProfileRouter C.Regex)
        → Step r (update_route C email host_or_url port r)
    removes : (email : Text) (r : ProfileRouter C.Regex) → Step r (remove_route C email r)
    loads : (r : ProfileRouter C.Regex) → Step r (load_from_file C r)
    watches : (named : Bool) (r : ProfileRouter C.Regex) → Step r (on_event C named r)
    edits :
        (file : Option Text) (writable : Bool) (r : ProfileRouter C.Regex)
        → Step r (record r { file = file; writable = writable })

  -- The routers that a start of the bridge and any turns lead to.
  pub data Reachable : ProfileRouter C.Regex → Type 0 where
    start : (file : Option Text) (writable : Bool) → Reachable (new_router C file writable)
    next : {r r' : ProfileRouter C.Regex} → Reachable r → Step r r' → Reachable r'

  Step-IsWellFormed : {r r' : ProfileRouter C.Regex} → Step r r' → IsWellFormed r → IsWellFormed r'
  Step-IsWellFormed (looks email r) w = lookup-IsWellFormed email r w
  Step-IsWellFormed (updates email host_or_url port r) w =
      update_route-IsWellFormed email host_or_url port r w
  Step-IsWellFormed (removes email r) w = remove_route-IsWellFormed email r w
  Step-IsWellFormed (loads r) w = load_from_file-IsWellFormed r
  Step-IsWellFormed (watches named r) w = on_event-IsWellFormed named r w
  Step-IsWellFormed (edits file writable r) w = record { table = w.table; unguarded = w.unguarded }

  -- Whatever the order of lookups, updates, removals, loads, watcher events and edits of the file:
  -- every email has at most one route, each route is stored under its own email, and the guard
  -- that keeps the watcher from loading is not left set.
  pub Reachable-IsWellFormed : {r : ProfileRouter C.Regex} → Reachable r → IsWellFormed r
  unfolding new_router
  Reachable-IsWellFormed (start file writable) = record { table = nil-IsTable; unguarded = refl }
  Reachable-IsWellFormed (next reached step) =
      Step-IsWellFormed step (Reachable-IsWellFormed reached)

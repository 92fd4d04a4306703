-- ===== src/Tests/Restarts.antt =====
-- A restart after changes that were made at the same time, at a concrete input.
use amail_bridge.Common.{ℕ, ◌≡◌, refl, true, some, List, [], ◌∷◌, All, list_eq, nat_eq}
use amail_bridge.Std.Text.{contains, contains_char, starts_with}
use amail_bridge.Std.Dict
use amail_bridge.Router.Route.{is_url}
use amail_bridge.Router.Update.{route_for}
use amail_bridge.Router.Table.{find_pattern, load_from_file}
use amail_bridge.Router.Threads.{
  Thread, System, updates, looks, is_over, is_blocked, takes_write_lock, holds_read_lock, move,
  thread_step, turn, turn_at, run_threads,
}
use amail_bridge.Router.Threads.Lossless.{run_threads-restart}
use amail_bridge.Tests.Stubs.{alice, bob, local, alice_routes, empty_router}
use amail_bridge.Tests.Routes.{alice_routes-IsPersistableTable, alice_routes-IsPlainTable}
use amail_bridge.Tests.Toml.{toml_disk, toml_disk-ReadsToml}
use amail_bridge.Router.Keyed.{nil-IsTable}

-- An update and a lookup at the same time.
abbrev pair : List Thread
pair = updates alice local 8645 ∷ looks bob ∷ []

abbrev in_turns : List ℕ
in_turns = 0 ∷ 1 ∷ 0 ∷ 1 ∷ 0 ∷ 0 ∷ 0 ∷ 0 ∷ []

abbrev both_over : System toml_disk
both_over = run_threads toml_disk in_turns (record { threads = pair; router = empty_router })

both_over-routes : both_over.router.routes ≡ alice_routes
unfolding run_threads turn turn_at is_blocked takes_write_lock holds_read_lock move thread_step
    find_pattern Dict.get Dict.insert is_url contains_char contains starts_with list_eq nat_eq
both_over-routes = refl

both_over-is_over : All (λ t. is_over t ≡ true) both_over.threads
unfolding run_threads turn turn_at is_blocked takes_write_lock holds_read_lock move thread_step
    find_pattern Dict.get Dict.insert is_over list_eq nat_eq
both_over-is_over = (refl, (refl, tt))

run_threads-restart_example :
    Dict.get alice (load_from_file toml_disk both_over.router).routes
    ≡ some (route_for alice local 8645)
unfolding list_eq nat_eq
run_threads-restart_example =
    run_threads-restart toml_disk alice (route_for alice local 8645) in_turns pair empty_router
      toml_disk-ReadsToml (tt, (tt, tt)) ((λ _. refl), (tt, tt)) refl refl refl
      (record { table = nil-IsTable; unguarded = refl }) both_over-is_over
      (rw both_over-routes alice_routes-IsPersistableTable)
      (rw both_over-routes alice_routes-IsPlainTable)

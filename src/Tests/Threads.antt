-- ===== src/Tests/Threads.antt =====
-- The theorems on threads around one router, at concrete inputs.
use amail_bridge.Common.{
  ℕ, ◌≡◌, ◌⊎◌, refl, true, false, some, none, List, [], ◌∷◌, ◌++◌, All, any, arith, list_eq, nat_eq,
  same,
}
use amail_bridge.Std.Dict
use amail_bridge.Router.Route.{new}
use amail_bridge.Router.Update.{route_for}
use amail_bridge.Router.Keyed.{IsTable, nil-IsTable, insert-IsTable}
use amail_bridge.Router.Steps.{IsWellFormed}
use amail_bridge.Router.Table.{render_routes, find_pattern, load_from_file}
use amail_bridge.Router.Threads.{
  Thread, looks, updates, removes, watches, answers, ended, System, is_over, takes_write_lock,
  holds_read_lock, is_blocked, move, thread_step, turn_at, turn, run_threads,
}
use amail_bridge.Router.Threads.Tables.{guards, run_threads-IsWellFormed}
use amail_bridge.Router.Threads.Rounds.{rounds, rounds-ended}
use amail_bridge.Router.Threads.Lossless.{run_threads-saved}
use amail_bridge.Router.Threads.StaleLookup.{lookup_overwrites_update}
use amail_bridge.Router.Threads.StaleLoad.{six, load_loses_update}
use amail_bridge.Tests.Stubs.{
  alice, bob, local, disk, alice_routes, alice_router, pattern_router, bob_pattern,
}

-- An update, a lookup and a removal.
abbrev busy : List Thread
busy = updates bob local 1 ∷ looks alice ∷ removes alice ∷ []

abbrev contended : System disk
contended = record { threads = busy; router = alice_router }

rounds-ended_example : All (λ t. is_over t ≡ true) (rounds disk 18 contended).threads
rounds-ended_example = rounds-ended disk 18 contended (omega arith)

alice-IsWellFormed : IsWellFormed disk alice_router
unfolding Dict.insert new
alice-IsWellFormed = record {
  table = insert-IsTable alice (new alice local 8645) [] refl nil-IsTable;
  unguarded = refl;
}

abbrev watched : System disk
watched = run_threads disk (2 ∷ 0 ∷ 2 ∷ 0 ∷ 2 ∷ 0 ∷ []) (record {
  threads = updates bob local 1 ∷ looks bob ∷ watches true ∷ [];
  router = alice_router;
})

run_threads-IsWellFormed_example :
    IsTable watched.router.routes
    × ((any guards watched.threads ≡ true) ⊎ IsWellFormed disk watched.router)
run_threads-IsWellFormed_example =
    run_threads-IsWellFormed disk (2 ∷ 0 ∷ 2 ∷ 0 ∷ 2 ∷ 0 ∷ [])
      (updates bob local 1 ∷ looks bob ∷ watches true ∷ []) alice_router (tt, (tt, (tt, tt)))
      alice-IsWellFormed

abbrev mixed : List ℕ
mixed = 0 ∷ 2 ∷ 1 ∷ 0 ∷ 2 ∷ 0 ∷ 2 ∷ 0 ∷ 2 ∷ 0 ∷ 1 ∷ 2 ∷ 0 ∷ 2 ∷ 1 ∷ []

abbrev settled : System disk
settled = run_threads disk mixed contended

settled_over : All (λ t. is_over t ≡ true) settled.threads
unfolding run_threads turn turn_at is_blocked takes_write_lock holds_read_lock move thread_step
    is_over find_pattern Dict.get Dict.insert Dict.remove new list_eq nat_eq
settled_over = (refl, (refl, (refl, tt)))

other_email : same bob alice ≡ false
unfolding list_eq nat_eq
other_email = refl

bob_set : any (λ t. elim t [ updates email u p ↦ same bob email | _ ↦ false ]) busy ≡ true
unfolding list_eq nat_eq
bob_set = refl

run_threads-saved_example :
    (Dict.get bob settled.router.routes ≡ some (route_for bob local 1))
    × (settled.router.file ≡ some (render_routes settled.router.routes))
unfolding list_eq nat_eq
run_threads-saved_example =
    run_threads-saved disk bob (route_for bob local 1) mixed busy alice_router (tt, (tt, (tt, tt)))
      ((λ _. refl), (tt, (other_email, tt))) refl refl refl settled_over

bob_missing : Dict.get bob pattern_router.routes ≡ none
unfolding Dict.get list_eq nat_eq
bob_missing = refl

bob_matched : find_pattern disk bob pattern_router.regex_patterns ≡ some bob_pattern
unfolding find_pattern list_eq nat_eq
bob_matched = refl

lookup_overwrites_update_example :
    run_threads disk
      (0 ∷ 0 ∷ 1 ∷ 1 ∷ 1 ∷ 1 ∷ 1 ∷ 1 ∷ 0 ∷ [])
      (record { threads = looks bob ∷ updates bob local 1 ∷ []; router = pattern_router })
    ≡ record {
      threads = answers (some (new bob local 9000)) ∷ ended ∷ [];
      router = record pattern_router {
        routes =
            Dict.insert bob
              (new bob local 9000)
              (Dict.insert bob (route_for bob local 1) alice_routes);
        file = some (render_routes (Dict.insert bob (route_for bob local 1) alice_routes));
        writing_routes = false;
      };
    }
lookup_overwrites_update_example =
    lookup_overwrites_update disk bob local 1 bob_pattern pattern_router bob_missing bob_matched
      refl

abbrev overtaken : System disk
overtaken = run_threads disk ((0 ∷ 0 ∷ 0 ∷ []) ++ (six 1 ++ (0 ∷ six 2))) (record {
  threads = watches true ∷ updates bob local 1 ∷ updates alice local 1 ∷ [];
  router = alice_router;
})

load_loses_update_example :
    (overtaken.threads ≡ ended ∷ ended ∷ ended ∷ [])
    × (Dict.get bob overtaken.router.routes
        ≡ Dict.get bob (load_from_file disk alice_router).routes)
    × (overtaken.router.file ≡ some (render_routes overtaken.router.routes))
load_loses_update_example =
    load_loses_update disk bob local alice local 1 alice_router other_email refl refl

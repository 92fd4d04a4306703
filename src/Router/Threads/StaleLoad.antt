-- ===== src/Router/Threads/StaleLoad.antt =====
-- A load of the file and updates at the same time.
use amail_bridge.Common.{
  ℕ, ◌≡◌, refl, ◌∙◌, true, false, some, List, [], ◌∷◌, arith, same, list_eq, nat_eq, ◌++◌,
  Bool-cases, inl, inr,
}
use amail_bridge.Std.Text.{Text}
use amail_bridge.Std.Dict
use amail_bridge.Std.Dict.{Dict, get-insert}
use amail_bridge.Router.Route.{ProfileRoute}
use amail_bridge.Router.Update.{route_for, update_route_lem}
use amail_bridge.Router.Table.{
  content_overrides, parsed_overrides, build_overrides, first_pass, second_pass, Crates,
  ProfileRouter, render_routes, load_from_file, load_routes_file, update_route,
  write_current_routes,
}
use amail_bridge.Router.Threads.Rules.{run_threads-cons, run_threads-append}
use amail_bridge.Router.Threads.{
  Thread, replaces, replace_table, holds_read_lock, updates, watches, ended, thread_step,
  is_blocked, move, turn_at, turn, run_threads,
}

-- Six turns of a thread: a whole update or removal.
abbrev pub six : ℕ → List ℕ
six i = i ∷ i ∷ i ∷ i ∷ i ∷ i ∷ []

module _ (C : Crates) where
  -- The watcher up to the write lock.
  watcher_reads :
      (t u : Thread) (r : ProfileRouter C.Regex)
      → r.writing_routes ≡ false
      → run_threads C (0 ∷ 0 ∷ 0 ∷ []) (record { threads = watches true ∷ t ∷ u ∷ []; router = r })
        ≡ record {
          threads = replaces (load_routes_file C r) ∷ t ∷ u ∷ [];
          router = record r { writing_routes = false };
        }
  unfolding run_threads turn turn_at is_blocked move thread_step load_routes_file
  watcher_reads t u r idle = ground arith

  -- An update behind one thread, or behind two, that hold no lock.
  second_updates :
      (overrides : Dict Text ProfileRoute) (email host_or_url : Text) (port : ℕ)
      (other other_url : Text) (r : ProfileRouter C.Regex)
      → let t = replaces overrides in
        let u = updates other other_url port in
        run_threads C
          (six 1)
          (record { threads = t ∷ updates email host_or_url port ∷ u ∷ []; router = r })
        ≡ record { threads = t ∷ ended ∷ u ∷ []; router = update_route C email host_or_url port r }
  unfolding run_threads turn turn_at is_blocked move thread_step update_route write_current_routes
  second_updates overrides email host_or_url port other other_url r = elim (Bool-cases r.writable) [
    | inl e ↦ rw e refl
    | inr e ↦ rw e refl
  ]

  third_updates :
      (email host_or_url : Text) (port : ℕ) (r : ProfileRouter C.Regex)
      → run_threads C
          (six 2)
          (record { threads = ended ∷ ended ∷ updates email host_or_url port ∷ []; router = r })
        ≡ record {
          threads = ended ∷ ended ∷ ended ∷ [];
          router = update_route C email host_or_url port r;
        }
  unfolding run_threads turn turn_at is_blocked move thread_step update_route write_current_routes
  third_updates email host_or_url port r = elim (Bool-cases r.writable) [
    | inl e ↦ rw e refl
    | inr e ↦ rw e refl
  ]

  watcher_replaces :
      (overrides : Dict Text ProfileRoute) (u : Thread) (r : ProfileRouter C.Regex)
      → holds_read_lock u ≡ false
      → turn C 0 (record { threads = replaces overrides ∷ ended ∷ u ∷ []; router = r })
        ≡ record { threads = ended ∷ ended ∷ u ∷ []; router = replace_table C overrides r }
  unfolding turn turn_at is_blocked move thread_step
  watcher_replaces overrides u r free = rw free refl

  -- An event of the watcher that has read the file before two updates and takes the table between
  -- them: the first update, though it was over before the second began, is lost for good. The table
  -- gives its email what the file gave before, and so does the file, which is the print of the table.
  pub load_loses_update :
      (first first_url second second_url : Text) (port : ℕ) (r : ProfileRouter C.Regex)
      → same first second ≡ false
      → r.writing_routes ≡ false
      → r.writable ≡ true
      → let s = run_threads C ((0 ∷ 0 ∷ 0 ∷ []) ++ (six 1 ++ (0 ∷ six 2))) (record {
        threads = watches true ∷ updates first first_url port ∷ updates second second_url port ∷ [];
        router = r;
      }) in
        (s.threads ≡ ended ∷ ended ∷ ended ∷ [])
        × (Dict.get first s.router.routes ≡ Dict.get first (load_from_file C r).routes)
        × (s.router.file ≡ some (render_routes s.router.routes))
  load_loses_update first first_url second second_url port r other idle writes =
      let u = updates second second_url port in
      let r1 : ProfileRouter C.Regex = record r { writing_routes = false } in
      let r2 = replace_table C (load_routes_file C r) (update_route C first first_url port r1) in
      let all =
        run_threads-append C (0 ∷ 0 ∷ 0 ∷ []) (six 1 ++ (0 ∷ six 2)) _ _
          (watcher_reads (updates first first_url port) u r idle)
        ∙ run_threads-append C (six 1) (0 ∷ six 2) _ _
            (second_updates (load_routes_file C r) first first_url port second second_url r1)
        ∙ run_threads-cons C 0 (six 2) _ _ (
            watcher_replaces (load_routes_file C r) u (update_route C first first_url port r1)
              (unfold holds_read_lock in refl))
        ∙ third_updates second second_url port r2 in
      let (stored, _, _, written) = update_route_lem C second second_url port r2 first in
      let takes : r2.writable ≡ true =
        unfold replace_table update_route write_current_routes in writes in
      rw all (
        refl,
        stored ∙ rw other (unfold replace_table load_from_file in refl),
        written ∙ rw takes refl,
      )

  -- Two updates print the same table; while one writes, the end of the other resets the guard of
  -- the watcher, whose load then reads the file that was just emptied. When all is over the table is
  -- empty, though the file holds it. (An empty file parses as a document without entries.)
  pub guard_reset_clears :
      (first second url : Text) (port : ℕ) (r : ProfileRouter C.Regex)
      → r.writable ≡ true
      → C.parse_toml [] ≡ some []
      → let both =
          Dict.insert second
            (route_for second url port)
            (Dict.insert first (route_for first url port) r.routes) in
        run_threads C (0 ∷ 1 ∷ 0 ∷ 0 ∷ 1 ∷ 1 ∷ 1 ∷ 1 ∷ 0 ∷ 1 ∷ 2 ∷ 2 ∷ 2 ∷ 0 ∷ 0 ∷ 2 ∷ []) (record {
          threads = updates first url port ∷ updates second url port ∷ watches true ∷ [];
          router = r;
        })
        ≡ record {
          threads = ended ∷ ended ∷ ended ∷ [];
          router = record r {
            routes = [];
            regex_patterns = [];
            file = some (render_routes both);
            writing_routes = false;
          };
        }
  unfolding run_threads turn turn_at is_blocked move thread_step load_routes_file content_overrides
      parsed_overrides build_overrides replace_table first_pass second_pass
  guard_reset_clears first second url port r writes empty = rw (writes, empty) refl

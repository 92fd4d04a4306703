-- ===== src/Router/Threads/StaleLookup.antt =====
-- A lookup and an update of the same email at the same time.
use amail_bridge.Common.{
  ℕ, ◌≡◌, refl, ◌∙◌, true, false, some, none, List, [], ◌∷◌, arith, list_eq, nat_eq,
}
use amail_bridge.Std.Text.{Text}
use amail_bridge.Std.Dict
use amail_bridge.Std.Dict.{Dict, get-insert}
use amail_bridge.Router.Route.{ProfileRoute, new}
use amail_bridge.Router.Update.{route_for}
use amail_bridge.Router.Table.{Crates, ProfileRouter, Pattern, find_pattern, render_routes}
use amail_bridge.Router.Threads.Rules.{run_threads-cons}
use amail_bridge.Router.Threads.{
  Thread, looks, misses, keeps, updates, answers, ended, thread_step, is_blocked, move, turn_at,
  turn, run_threads,
}

module _ (C : Crates) where
  turn_looks :
      (email : Text) (ts : List Thread) (r : ProfileRouter C.Regex)
      → Dict.get email r.routes ≡ none
      → turn C 0 (record { threads = looks email ∷ ts; router = r })
        ≡ record { threads = misses email ∷ ts; router = r }
  unfolding turn turn_at is_blocked move thread_step
  turn_looks email ts r missing = ground arith

  turn_misses :
      (email : Text) (p : Pattern C.Regex) (ts : List Thread) (r : ProfileRouter C.Regex)
      → find_pattern C email r.regex_patterns ≡ some p
      → turn C 0 (record { threads = misses email ∷ ts; router = r })
        ≡ record { threads = keeps email (new email p.host p.port) ∷ ts; router = r }
  unfolding turn turn_at is_blocked move thread_step
  turn_misses email p ts r matched = ground arith

  -- The rest of an update, and the write of the lookup.
  update_then_keep :
      (email host_or_url : Text) (port : ℕ) (found : ProfileRoute) (r : ProfileRouter C.Regex)
      → r.writable ≡ true
      → let updated = Dict.insert email (route_for email host_or_url port) r.routes in
        run_threads C
          (1 ∷ 1 ∷ 1 ∷ 1 ∷ 1 ∷ 1 ∷ 0 ∷ [])
          (record { threads = keeps email found ∷ updates email host_or_url port ∷ []; router = r })
        ≡ record {
          threads = answers (some found) ∷ ended ∷ [];
          router = record r {
            routes = Dict.insert email found updated;
            file = some (render_routes updated);
            writing_routes = false;
          };
        }
  unfolding run_threads turn turn_at is_blocked move thread_step
  update_then_keep email host_or_url port found r writes = rw writes refl

  -- A lookup that finds its route by a pattern overwrites an update of the same email that is made
  -- between its look at the patterns and its write: both are over, the caller of the update has its
  -- route in the file, and the table has the pattern's route.
  pub lookup_overwrites_update :
      (email host_or_url : Text) (port : ℕ) (p : Pattern C.Regex) (r : ProfileRouter C.Regex)
      → Dict.get email r.routes ≡ none
      → find_pattern C email r.regex_patterns ≡ some p
      → r.writable ≡ true
      → let found = new email p.host p.port in
        let updated = Dict.insert email (route_for email host_or_url port) r.routes in
        run_threads C
          (0 ∷ 0 ∷ 1 ∷ 1 ∷ 1 ∷ 1 ∷ 1 ∷ 1 ∷ 0 ∷ [])
          (record { threads = looks email ∷ updates email host_or_url port ∷ []; router = r })
        ≡ record {
          threads = answers (some found) ∷ ended ∷ [];
          router = record r {
            routes = Dict.insert email found updated;
            file = some (render_routes updated);
            writing_routes = false;
          };
        }
  lookup_overwrites_update email host_or_url port p r missing matched writes =
      let ts = updates email host_or_url port ∷ [] in
      let update = 1 ∷ 1 ∷ 1 ∷ 1 ∷ 1 ∷ 1 ∷ 0 ∷ [] in
      run_threads-cons C 0 (0 ∷ update) _ _ (turn_looks email ts r missing)
      ∙ run_threads-cons C 0 update _ _ (turn_misses email p ts r matched)
      ∙ update_then_keep email host_or_url port (new email p.host p.port) r writes

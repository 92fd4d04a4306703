-- ===== src/Router/Threads.antt =====
-- src/router.rs: the operations of the router as threads that run at the same time. A thread makes
-- one step for each critical section, access of the flag, or call of the file system. The write
-- lock of the table is taken and given back within a step; the read lock of `write_current_routes`
-- is held until the function ends, so that the steps between print, write and reset of the flag.
pub mod Rules
pub mod Tables
pub mod Progress
pub mod Saved
pub mod Lossless
pub mod Rounds
pub mod StaleLookup
pub mod StaleLoad
use amail_bridge.Common.{
  ℕ, zero, suc, ◌++◌, Bool, true, false, not, ◌&&◌, Option, none, some, List, [], ◌∷◌, any,
  if◌then◌else◌, list_eq, nat_eq,
}
use amail_bridge.Std.Text.{Text}
use amail_bridge.Std.Dict
use amail_bridge.Std.Dict.{Dict}
use amail_bridge.Router.Route.{ProfileRoute, new}
use amail_bridge.Router.Update.{route_for}
use amail_bridge.Router.Table.{
  Crates, ProfileRouter, find_pattern, render_routes, load_routes_file, first_pass, second_pass,
}

-- Where a thread stands: what it does next, with the local variables that are live there.
pub data Thread : Type 0 where
  -- `lookup`: the table, the patterns, and the route that a pattern gave is kept
  looks : Text → Thread
  misses : Text → Thread
  keeps : Text → ProfileRoute → Thread
  answers : Option ProfileRoute → Thread
  -- `update_route` and `remove_route`
  updates : Text → Text → ℕ → Thread
  removes : Text → Thread
  -- `write_current_routes`: the flag, the text of the file, the two halves of `fs::write`, the flag
  marks : Thread
  prints : Thread
  opens : Text → Thread
  fills : Text → Thread
  unmarks : Thread
  -- an event of the watcher, and `load_from_file`: the flag, the file, the table
  watches : Bool → Thread
  resets : Thread
  reads : Thread
  replaces : Dict Text ProfileRoute → Thread
  ended : Thread

-- The steps that take the write lock of the table.
unfoldable pub takes_write_lock : Thread → Bool
takes_write_lock (keeps email route) = true
takes_write_lock (updates email host_or_url port) = true
takes_write_lock (removes email) = true
takes_write_lock (replaces overrides) = true
takes_write_lock _ = false

-- The places where a thread holds the read lock.
unfoldable pub holds_read_lock : Thread → Bool
holds_read_lock (opens out) = true
holds_read_lock (fills out) = true
holds_read_lock unmarks = true
holds_read_lock _ = false

unfoldable pub is_over : Thread → Bool
is_over (answers route) = true
is_over ended = true
is_over _ = false

-- Whether a thread has to wait for a lock that another one holds.
unfoldable pub is_blocked : List Thread → Thread → Bool
unfolding holds_read_lock takes_write_lock
is_blocked others t = any holds_read_lock others && takes_write_lock t

module _ (C : Crates) where
  -- `load_from_file` behind the read of the file: both passes under the write lock.
  unfoldable pub replace_table :
      Dict Text ProfileRoute → ProfileRouter C.Regex → ProfileRouter C.Regex
  replace_table overrides r =
      let routes = first_pass overrides [] in
      let (routes', patterns) = second_pass C (Dict.keys routes) overrides (routes, []) in
      record r { routes = routes'; regex_patterns = patterns }

  -- One step of a thread. A write opens the file, which empties it, and fills it.
  unfoldable pub thread_step : Thread → ProfileRouter C.Regex → Thread × ProfileRouter C.Regex
  unfolding replace_table
  thread_step (looks email) r = elim (Dict.get email r.routes) [
    | some route ↦ (answers (some route), r)
    | none ↦ (misses email, r)
  ]
  thread_step (misses email) r = elim (find_pattern C email r.regex_patterns) [
    | some p ↦ (keeps email (new email p.host p.port), r)
    | none ↦ (answers none, r)
  ]
  thread_step (keeps email route) r =
      (answers (some route), record r { routes = Dict.insert email route r.routes })
  thread_step (answers route) r = (answers route, r)
  thread_step (updates email host_or_url port) r =
      (marks, record r { routes = Dict.insert email (route_for email host_or_url port) r.routes })
  thread_step (removes email) r = (marks, record r { routes = Dict.remove email r.routes })
  thread_step marks r = (prints, record r { writing_routes = true })
  thread_step prints r = (opens (render_routes r.routes), r)
  thread_step (opens out) r =
      if r.writable then (fills out, record r { file = some [] }) else (unmarks, r)
  thread_step (fills out) r = (unmarks, record r { file = some out })
  thread_step unmarks r = (ended, record r { writing_routes = false })
  thread_step (watches named) r = if named && not r.writing_routes then (resets, r) else (ended, r)
  thread_step resets r = (reads, record r { writing_routes = false })
  thread_step reads r = (replaces (load_routes_file C r), r)
  thread_step (replaces overrides) r = (ended, replace_table overrides r)
  thread_step ended r = (ended, r)

  -- Threads around one router.
  pub record System : Type 0 where
    pub threads : List Thread
    pub router : ProfileRouter C.Regex

  -- The turn of one thread; a thread that has to wait does nothing.
  unfoldable pub move : List Thread → List Thread → Thread → ProfileRouter C.Regex → System
  move before after t r =
      let (t', r') = thread_step t r in record { threads = before ++ (t' ∷ after); router = r' }

  unfoldable pub turn_at : List Thread → ℕ → List Thread → ProfileRouter C.Regex → System
  unfolding move
  turn_at before i [] r = record { threads = before; router = r }
  turn_at before zero (t ∷ after) r =
      if is_blocked (before ++ after) t
      then record { threads = before ++ (t ∷ after); router = r }
      else move before after t r
  turn_at before (suc i) (t ∷ after) r = turn_at (before ++ (t ∷ [])) i after r

  unfoldable pub turn : ℕ → System → System
  turn i s = turn_at [] i s.threads s.router

  -- A schedule names the thread that has its turn.
  unfoldable pub run_threads : List ℕ → System → System
  run_threads [] s = s
  run_threads (i ∷ is) s = run_threads is (turn i s)

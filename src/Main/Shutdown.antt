-- ===== src/Main/Shutdown.antt =====
-- src/main.rs: the process while its tasks run, from the end of the start to the exit. The tasks are
-- the one that waits for a signal, the server of `start_http` or `start_https`, and in pull mode
-- one pull loop for each system; they share the shutdown flag and `first_err`, here `error`.
pub mod Exits
pub mod Stops
use amail_bridge.Common.{
  ℕ, zero, suc, Bool, true, false, ◌&&◌, ◌||◌, Option, none, some, List, [], ◌∷◌, any,
  if◌then◌else◌,
}
use amail_bridge.Std.Text.{Text}
use amail_bridge.Main.Startup.{Failure, pull_failed, server_failed, note_failure}

-- What happens to the process: a signal, a reading of the flag by the server or by a pull loop, the
-- end of the last open connection of a server that takes no new one, and an error of the server or
-- of a pull loop.
pub data Event : Type 0 where
  interrupt : Event
  terminate : Event
  server_polls : Event
  server_drained : Event
  server_fails : Text → Event
  pull_polls : ℕ → Event
  pull_fails : ℕ → Text → Event

-- `pulls` says of each pull loop whether it runs, and `draining` of the server whether it has read
-- the flag and waits for its open connections.
pub record Tasks : Type 0 where
  pub shutdown : Bool
  pub serving : Bool
  pub draining : Bool
  pub pulls : List Bool
  pub error : Option Text

-- Whether the pull loop with a number runs, and its end.
unfoldable pub is_running : ℕ → List Bool → Bool
is_running i [] = false
is_running zero (b ∷ bs) = b
is_running (suc i) (b ∷ bs) = is_running i bs

unfoldable pub end_pull : ℕ → List Bool → List Bool
end_pull i [] = []
end_pull zero (b ∷ bs) = false ∷ bs
end_pull (suc i) (b ∷ bs) = b ∷ end_pull i bs

-- The signals of the task that sets the flag; SIGTERM where its handler could be installed.
unfoldable pub sets_flag : Bool → Event → Bool
sets_flag sigterm interrupt = true
sets_flag sigterm terminate = sigterm
sets_flag sigterm _ = false

-- The loop of `start_http` and the task of `start_https` begin the graceful shutdown when they find
-- the flag set: the server then ends when no connection is open, which has no limit of time. A pull
-- loop returns at the start of a round.
unfoldable pub react : Bool → Event → Tasks → Tasks
unfolding end_pull is_running
react sigterm interrupt p = record p { shutdown = true }
react sigterm terminate p = record p { shutdown = p.shutdown || sigterm }
react sigterm server_polls p = if p.shutdown then record p { draining = true } else p
react sigterm server_drained p = if p.draining then record p { serving = false } else p
react sigterm (server_fails e) p =
    if p.serving
    then record p { serving = false; error = note_failure p.error (server_failed e) }
    else p
react sigterm (pull_polls i) p = if p.shutdown then record p { pulls = end_pull i p.pulls } else p
react sigterm (pull_fails i e) p =
    if is_running i p.pulls
    then record p { pulls = end_pull i p.pulls; error = note_failure p.error (pull_failed e) }
    else p

unfoldable pub react_all : Bool → List Event → Tasks → Tasks
react_all sigterm [] p = p
react_all sigterm (e ∷ es) p = react_all sigterm es (react sigterm e p)

abbrev pub is_true : Bool → Bool
is_true b = b

abbrev pub status_of : Option Text → ℕ
status_of none = 0
status_of (some e) = 1

-- The exit status: `async_main` waits for the server, and then for every pull loop.
unfoldable pub exit_status : Tasks → Option ℕ
exit_status p = if p.serving || any is_true p.pulls then none else some (status_of p.error)

-- The process behind the start, with a number of pull loops; push mode has none.
unfoldable pub all_running : ℕ → List Bool
all_running zero = []
all_running (suc n) = true ∷ all_running n

unfoldable pub started : ℕ → Tasks
started systems = record {
  shutdown = false;
  serving = true;
  draining = false;
  pulls = all_running systems;
  error = none;
}

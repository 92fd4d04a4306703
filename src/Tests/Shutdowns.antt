-- ===== src/Tests/Shutdowns.antt =====
-- The theorems on the end of the process, at concrete inputs.
use amail_bridge.Common.{
  ℕ, zero, suc, ◌≡◌, refl, true, false, some, none, List, [], ◌∷◌, any, arith,
}
use amail_bridge.Std.Text.{str}
use amail_bridge.Main.Shutdown.{
  Event, interrupt, server_polls, server_drained, server_fails, pull_polls, Tasks, is_running,
  sets_flag, react, react_all, exit_status, all_running, started, status_of,
}
use amail_bridge.Main.Shutdown.Exits.{exit_status-none}
use amail_bridge.Main.Shutdown.Stops.{polls_pull, exit_status-some}

-- The address is in use, and the pull loops go on.
abbrev in_use : List Event
in_use = server_fails (str "address in use") ∷ pull_polls 0 ∷ []

no_signal : any (sets_flag true) in_use ≡ false
unfolding sets_flag
no_signal = refl

exit_status-none_example : exit_status (react_all true in_use (started 2)) ≡ none
exit_status-none_example = exit_status-none true 2 in_use (omega arith) no_signal refl

abbrev signalled : Tasks
signalled = react true interrupt (started 2)

is_set : signalled.shutdown ≡ true
unfolding react
is_set = refl

abbrev polls : List Event
polls = pull_polls 1 ∷ server_polls ∷ pull_polls 0 ∷ server_drained ∷ []

both_poll : (i : ℕ) → is_running i signalled.pulls ≡ true → any (polls_pull i) polls ≡ true
unfolding react started all_running is_running
both_poll zero h = refl
both_poll (suc zero) h = refl
both_poll (suc (suc i)) h = absurd (cc)

exit_status-some_example :
    exit_status (react_all true polls signalled)
    ≡ some (status_of (react_all true polls signalled).error)
exit_status-some_example = exit_status-some true polls signalled is_set refl both_poll

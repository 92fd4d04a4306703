-- ===== src/Main/Shutdown/Exits.antt =====
-- When the process ends, and with what status.
use amail_bridge.Common.{
  ℕ, zero, suc, ◌<◌, ◌≡◌, refl, ◌∙◌, Bool, true, false, ◌||◌, ◌&&◌, not, Option, none, some, List,
  [], ◌∷◌, arith, any,
}
use amail_bridge.Std.Text.{Text}
use amail_bridge.Main.Startup.{Failure, note_failure, pull_failed, server_failed}
use amail_bridge.Main.Shutdown.{
  Event, server_fails, pull_fails, Tasks, sets_flag, react, react_all, exit_status, all_running,
  started,
}

abbrev is_error : Option Text → Bool
is_error none = false
is_error (some e) = true

-- Until a signal is handled, a server does not wait for its connections to end, and one that has
-- ended has left its error.
abbrev goes_on : Tasks → Bool
goes_on p = p.shutdown || ((p.serving || is_error p.error) && not p.draining)

note_failure-is_error : (o : Option Text) (f : Failure) → is_error (note_failure o f) ≡ true
unfolding note_failure
note_failure-is_error none (server_failed e) = refl
note_failure-is_error (some x) (server_failed e) = refl
note_failure-is_error none (pull_failed e) = refl
note_failure-is_error (some x) (pull_failed e) = refl

react-goes_on :
    (sigterm : Bool) (e : Event) (p : Tasks) → goes_on p ≡ true → goes_on (react sigterm e p) ≡ true
unfolding react
react-goes_on sigterm (server_fails e) p h =
    ground (arith, note_failure-is_error p.error (server_failed e))
react-goes_on sigterm (pull_fails i e) p h =
    ground (arith, note_failure-is_error p.error (pull_failed e))
react-goes_on sigterm e p h = ground arith

react_all-goes_on :
    (sigterm : Bool) (es : List Event) (p : Tasks)
    → goes_on p ≡ true
    → goes_on (react_all sigterm es p) ≡ true
unfolding react_all
react_all-goes_on sigterm [] p h = h
react_all-goes_on sigterm (e ∷ es) p h =
    react_all-goes_on sigterm es (react sigterm e p) (react-goes_on sigterm e p h)

-- Nothing but a signal sets the flag.
react-shutdown :
    (sigterm : Bool) (e : Event) (p : Tasks)
    → (react sigterm e p).shutdown ≡ (p.shutdown || sets_flag sigterm e)
unfolding react sets_flag
react-shutdown sigterm e p = ground arith

react_all-shutdown :
    (sigterm : Bool) (es : List Event) (p : Tasks)
    → (react_all sigterm es p).shutdown ≡ (p.shutdown || any (sets_flag sigterm) es)
unfolding react_all
react_all-shutdown sigterm [] p = ground arith
react_all-shutdown sigterm (e ∷ es) p =
    let rest = react_all-shutdown sigterm es (react sigterm e p) in
    ground (arith, rest, react-shutdown sigterm e p)

ended_without_error :
    (p : Tasks) → exit_status p ≡ some 0 → (p.serving ≡ false) × (is_error p.error ≡ false)
unfolding exit_status
ended_without_error p h = ground arith

-- The process ends with status 0 only after a signal that it handles, in either mode.
pub exit_status-zero :
    (sigterm : Bool) (systems : ℕ) (es : List Event)
    → exit_status (react_all sigterm es (started systems)) ≡ some 0
    → any (sets_flag sigterm) es ≡ true
unfolding started
exit_status-zero sigterm systems es h =
    let p = react_all sigterm es (started systems) in
    let goes = react_all-goes_on sigterm es (started systems) refl in
    let flag = react_all-shutdown sigterm es (started systems) in
    let (stopped, fine) = ended_without_error p h in ground (arith, goes, flag, stopped, fine)

-- A pull loop that fails.
abbrev pub fails_pull : Event → Bool
fails_pull (pull_fails i e) = true
fails_pull _ = false

react-pulls :
    (sigterm : Bool) (e : Event) (p : Tasks)
    → p.shutdown ≡ false
    → fails_pull e ≡ false
    → (react sigterm e p).pulls ≡ p.pulls
unfolding react
react-pulls sigterm e p h f = ground arith

react_all-pulls :
    (sigterm : Bool) (es : List Event) (p : Tasks)
    → p.shutdown ≡ false
    → any (sets_flag sigterm) es ≡ false
    → any fails_pull es ≡ false
    → (react_all sigterm es p).pulls ≡ p.pulls
unfolding react_all
react_all-pulls sigterm [] p h s f = refl
react_all-pulls sigterm (e ∷ es) p h s f =
    react_all-pulls sigterm es (react sigterm e p) (react-shutdown sigterm e p ∙ ground arith)
      (ground arith) (ground arith)
    ∙ react-pulls sigterm e p h (ground arith)

-- In pull mode the end of the server, also by an error such as an address in use, does not end the
-- process: as long as no signal is handled and no pull loop fails, it has no exit status.
pub exit_status-none :
    (sigterm : Bool) (systems : ℕ) (es : List Event)
    → 0 < systems
    → any (sets_flag sigterm) es ≡ false
    → any fails_pull es ≡ false
    → exit_status (react_all sigterm es (started systems)) ≡ none
unfolding exit_status started all_running
exit_status-none sigterm zero es some_system s f = absurd (omega arith)
exit_status-none sigterm (suc n) es some_system s f =
    rw (react_all-pulls sigterm es (started (suc n)) refl s f) (ground arith)

-- ===== src/Main/Shutdown/Stops.antt =====
-- The process behind a signal.
use amail_bridge.Common.{
  ℕ, zero, suc, ◌≡◌, refl, Bool, true, false, some, List, [], ◌∷◌, arith, any, ◌==◌, Bool-cases,
  inl, inr, if◌then◌else◌, ◌||◌,
}
use amail_bridge.Main.Shutdown.{
  Event, server_polls, server_drained, pull_polls, pull_fails, Tasks, is_running, end_pull, react,
  react_all, is_true, status_of, exit_status,
}

abbrev pub drains_server : Event → Bool
drains_server server_drained = true
drains_server _ = false

-- The server reads the flag, and at some later time its last connection is over.
abbrev pub stops_server : List Event → Bool
stops_server [] = false
stops_server (server_polls ∷ es) = any drains_server es || stops_server es
stops_server (_ ∷ es) = stops_server es

abbrev pub polls_pull : ℕ → Event → Bool
polls_pull i (pull_polls j) = i == j
polls_pull i _ = false

is_running-end_pull :
    (i j : ℕ) (bs : List Bool)
    → is_running i (end_pull j bs) ≡ (if i == j then false else is_running i bs)
unfolding is_running end_pull
is_running-end_pull i j [] = ground arith
is_running-end_pull zero zero (b ∷ bs) = refl
is_running-end_pull zero (suc j) (b ∷ bs) = ground arith
is_running-end_pull (suc i) zero (b ∷ bs) = ground arith
is_running-end_pull (suc i) (suc j) (b ∷ bs) = ground (arith, is_running-end_pull i j bs)

react-set :
    (sigterm : Bool) (e : Event) (p : Tasks)
    → p.shutdown ≡ true
    → (react sigterm e p).shutdown ≡ true
unfolding react
react-set sigterm e p h = ground arith

react-draining :
    (sigterm : Bool) (e : Event) (p : Tasks)
    → p.draining ≡ true
    → (react sigterm e p).draining ≡ true
unfolding react
react-draining sigterm e p h = ground arith

-- The end of the last connection ends a server that waits for it.
react-serving :
    (sigterm : Bool) (e : Event) (p : Tasks)
    → p.draining ≡ true
    → (react sigterm e p).serving ≡ true
    → (p.serving ≡ true) × (drains_server e ≡ false)
unfolding react
react-serving sigterm e p h k = ground arith

react_all-draining :
    (sigterm : Bool) (es : List Event) (p : Tasks)
    → p.draining ≡ true
    → (react_all sigterm es p).serving ≡ true
    → (p.serving ≡ true) × (any drains_server es ≡ false)
unfolding react_all
react_all-draining sigterm [] p h k = (k, refl)
react_all-draining sigterm (e ∷ es) p h k =
    let (now, later) =
      react_all-draining sigterm es (react sigterm e p) (react-draining sigterm e p h) k in
    let (before, other) = react-serving sigterm e p h now in (before, ground (arith, other, later))

react_all-serving :
    (sigterm : Bool) (es : List Event) (p : Tasks)
    → p.shutdown ≡ true
    → (react_all sigterm es p).serving ≡ true
    → stops_server es ≡ false
unfolding react_all
react_all-serving sigterm [] p h k = refl
react_all-serving sigterm (server_polls ∷ es) p h k =
    let q = react sigterm server_polls p in
    let waits : q.draining ≡ true = unfold react in ground arith in
    let (_, pending) = react_all-draining sigterm es q waits k in
    let rest = react_all-serving sigterm es q (react-set sigterm server_polls p h) k in
    ground (arith, pending, rest)
react_all-serving sigterm (e ∷ es) p h k =
    let rest = react_all-serving sigterm es (react sigterm e p) (react-set sigterm e p h) k in
    ground (arith, rest)

react-running :
    (sigterm : Bool) (i : ℕ) (e : Event) (p : Tasks)
    → p.shutdown ≡ true
    → is_running i (react sigterm e p).pulls ≡ true
    → (is_running i p.pulls ≡ true) × (polls_pull i e ≡ false)
unfolding react
react-running sigterm i (pull_polls j) p h k =
    let ended = is_running-end_pull i j p.pulls in ground (arith, ended)
react-running sigterm i (pull_fails j e) p h k =
    let ended = is_running-end_pull i j p.pulls in ground (arith, ended)
react-running sigterm i e p h k = ground arith

react_all-running :
    (sigterm : Bool) (i : ℕ) (es : List Event) (p : Tasks)
    → p.shutdown ≡ true
    → is_running i (react_all sigterm es p).pulls ≡ true
    → (is_running i p.pulls ≡ true) × (any (polls_pull i) es ≡ false)
unfolding react_all
react_all-running sigterm i [] p h k = (k, refl)
react_all-running sigterm i (e ∷ es) p h k =
    let (now, later) =
      react_all-running sigterm i es (react sigterm e p) (react-set sigterm e p h) k in
    let (before, other) = react-running sigterm i e p h now in
    (before, ground (arith, later, other))

none_running : (bs : List Bool) → ((i : ℕ) → is_running i bs ≡ false) → any is_true bs ≡ false
unfolding is_running
none_running [] h = refl
none_running (b ∷ bs) h = ground (arith, h 0, none_running bs (λ i. h (suc i)))

pub exit_status-some :
    (sigterm : Bool) (es : List Event) (p : Tasks)
    → p.shutdown ≡ true
    → stops_server es ≡ true
    → ((i : ℕ) → is_running i p.pulls ≡ true → any (polls_pull i) es ≡ true)
    → exit_status (react_all sigterm es p) ≡ some (status_of (react_all sigterm es p).error)
unfolding exit_status
exit_status-some sigterm es p h server pulls =
    let last = react_all sigterm es p in
    let stopped : last.serving ≡ false = elim (Bool-cases last.serving) [
      | inl e ↦ absurd (ground (arith, react_all-serving sigterm es p h e))
      | inr e ↦ e
    ] in
    let idle : (i : ℕ) → is_running i last.pulls ≡ false = λ i.
      elim (Bool-cases (is_running i last.pulls)) [
        | inl e ↦
            let (before, unread) = react_all-running sigterm i es p h e in
            absurd (ground (arith, pulls i before, unread))
        | inr e ↦ e
      ] in
    ground (arith, stopped, none_running last.pulls idle)

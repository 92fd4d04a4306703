-- ===== src/Acme/Challenge.antt =====
-- src/acme.rs: the thread of `serve_challenge_http`. A run is the list of what the rounds of its
-- loop meet: the instant that the round reads, in milliseconds, and what `accept` returns then.
use amail_bridge.Common.{
  ℕ, ◌+◌, ◌≤◌, ◌<◌, ◌≡◌, refl, Option, none, some, List, [], ◌∷◌, ◌++◌, All, length, ltb,
  if◌then◌else◌, arith, true, false, Bool-cases, inl, inr, nat_eq, list_eq,
}
use amail_bridge.Std.Text.{Text, str, contains}
use amail_bridge.Std.Number.{show}

-- A connection with its first line, no connection yet, or another error.
pub data Accept : Type 0 where
  connection : Text → Accept
  would_block : Accept
  broken : Accept

unfoldable pub challenge_response : Text → Text
challenge_response proof =
    str "HTTP/1.1 200 OK\r\nContent-Length: "
    ++ (show (length proof) ++ (str "\r\nConnection: close\r\n\r\n" ++ proof))

-- What a connection is sent: nothing, unless its first line asks for the token.
unfoldable pub answer_line : Text → Text → Text → Option Text
answer_line token proof line =
    if contains (str "/.well-known/acme-challenge/" ++ token) line
    then some (challenge_response proof)
    else none

-- The loop, with what it sends to each connection that it accepts.
unfoldable pub serve_loop : ℕ → Text → Text → List (ℕ × Accept) → List (Option Text)
serve_loop deadline token proof [] = []
serve_loop deadline token proof ((now, broken) ∷ rounds) = []
serve_loop deadline token proof ((now, would_block) ∷ rounds) =
    let rest = serve_loop deadline token proof rounds in if ltb now deadline then rest else []
serve_loop deadline token proof ((now, connection line) ∷ rounds) =
    let rest = serve_loop deadline token proof rounds in
    if ltb now deadline then answer_line token proof line ∷ rest else []

-- 30 seconds.
abbrev pub serve_time : ℕ
serve_time = 30_000

-- `serve_challenge_http`, started at the instant `start`, with a listener.
unfoldable pub serve_challenge_http : ℕ → Text → Text → List (ℕ × Accept) → List (Option Text)
serve_challenge_http start token proof rounds = serve_loop (start + serve_time) token proof rounds

-- What HTTP-01 asks of each connection of a run: a request for the token is answered with status 200
-- and the proof as its body, whose length is announced, and any other line with nothing.
abbrev pub IsAnswer : Text → Text → Text → Option Text → Type 0
IsAnswer token proof line none = contains (str "/.well-known/acme-challenge/" ++ token) line ≡ false
IsAnswer token proof line (some sent) =
    (contains (str "/.well-known/acme-challenge/" ++ token) line ≡ true)
    × (sent
        ≡ str "HTTP/1.1 200 OK\r\nContent-Length: "
          ++ (show (length proof) ++ (str "\r\nConnection: close\r\n\r\n" ++ proof)))

-- The answers, one for each connection of the run, in order.
abbrev pub Answered : Text → Text → List (ℕ × Accept) → List (Option Text) → Type 0
Answered token proof [] [] = Unit
Answered token proof [] (sent ∷ answers) = ⊥
Answered token proof ((now, connection line) ∷ rounds) [] = ⊥
Answered token proof ((now, connection line) ∷ rounds) (sent ∷ answers) =
    IsAnswer token proof line sent × Answered token proof rounds answers
Answered token proof ((now, would_block) ∷ rounds) answers = Answered token proof rounds answers
Answered token proof ((now, broken) ∷ rounds) answers = Answered token proof rounds answers

-- The round is in time, and the listener works.
abbrev pub InTime : ℕ → ℕ × Accept → Type 0
InTime deadline (now, broken) = ⊥
InTime deadline (now, would_block) = now < deadline
InTime deadline (now, connection line) = now < deadline

answer_line-IsAnswer :
    (token proof line : Text) → IsAnswer token proof line (answer_line token proof line)
unfolding answer_line challenge_response
answer_line-IsAnswer token proof line =
    elim (Bool-cases (contains (str "/.well-known/acme-challenge/" ++ token) line)) [
      | inl e ↦ rw e (e, refl)
      | inr e ↦ rw e e
    ]

serve_loop_lem :
    (deadline : ℕ) (token proof : Text) (early late : List (ℕ × Accept)) (now : ℕ) (end : Accept)
    → All (InTime deadline) early
    → deadline ≤ now
    → Answered token proof early (serve_loop deadline token proof (early ++ (now, end) ∷ late))
unfolding serve_loop
serve_loop_lem deadline token proof [] late now (connection line) h l =
    let over : ltb now deadline ≡ false = ground arith in rw over tt
serve_loop_lem deadline token proof [] late now would_block h l =
    let over : ltb now deadline ≡ false = ground arith in rw over tt
serve_loop_lem deadline token proof [] late now broken h l = tt
serve_loop_lem deadline token proof ((t, connection line) ∷ early) late now end (h, hs) l =
    let in_time : ltb t deadline ≡ true = ground arith in
    let rest = serve_loop_lem deadline token proof early late now end hs l in
    rw in_time (answer_line-IsAnswer token proof line, rest)
serve_loop_lem deadline token proof ((t, would_block) ∷ early) late now end (h, hs) l =
    let in_time : ltb t deadline ≡ true = ground arith in
    rw in_time (serve_loop_lem deadline token proof early late now end hs l)
serve_loop_lem deadline token proof ((t, broken) ∷ early) late now end (h, hs) l = absurd h

-- Within 30 seconds of its start, the built-in server answers the connections that it accepts, the
-- first and each later one, as long as its listener works: a request for the token gets status 200
-- and the proof, any other line nothing. It answers none after that.
pub serve_challenge_http_lem :
    (start : ℕ) (token proof : Text) (early late : List (ℕ × Accept)) (now : ℕ) (end : Accept)
    → All (InTime (start + 30_000)) early
    → start + 30_000 ≤ now
    → Answered token proof early
        (serve_challenge_http start token proof (early ++ (now, end) ∷ late))
unfolding serve_challenge_http
serve_challenge_http_lem start token proof early late now end h l =
    serve_loop_lem (start + 30_000) token proof early late now end h l

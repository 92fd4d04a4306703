-- ===== src/Router/Threads/Rounds.antt =====
-- Threads that take turns: a round gives each of them one.
use mathlib.Core.Path.{subst}
use amail_bridge.Common.{
  ℕ, zero, suc, ◌≤◌, ◌<◌, ◌≡◌, refl, sym, ◌∙◌, Bool, true, false, List, [], ◌∷◌, ◌++◌, arith, any,
  All, length, length-append, append_assoc, append-nil, Bool-cases, ◌⊎◌, inl, inr, list_eq, nat_eq,
}
use amail_bridge.Router.Table.{Crates, ProfileRouter}
use amail_bridge.Router.Threads.{
  Thread, opens, fills, unmarks, System, is_over, is_blocked, holds_read_lock, takes_write_lock,
  thread_step, turn, turn_at, move, run_threads,
}
use amail_bridge.Router.Threads.Progress.{
  steps_left, all_left, all_left-front, all_left-over, step-steps_left, all_left-run,
}
use amail_bridge.Router.Threads.Rules.{any-front}

module _ (C : Crates) where
  -- The turns of the threads from one on, each once.
  unfoldable pub count_from : ℕ → List Thread → List ℕ
  count_from i [] = []
  count_from i (t ∷ ts) = i ∷ count_from (suc i) ts

  unfoldable pub round : System C → System C
  round s = run_threads C (count_from 0 s.threads) s

  unfoldable pub rounds : ℕ → System C → System C
  rounds zero s = s
  rounds (suc n) s = rounds n (round s)

  -- What keeps a thread from a step: its end, or a lock.
  abbrev Stuck : Bool → Thread → Type 0
  Stuck held t = (steps_left t ≡ 0) ⊎ ((held ≡ true) × (takes_write_lock t ≡ true))

  turn_at-own :
      (pre before after : List Thread) (t : Thread) (r : ProfileRouter C.Regex)
      → turn_at C pre (length before) (before ++ (t ∷ after)) r
        ≡ turn_at C (pre ++ before) 0 (t ∷ after) r
  unfolding turn_at
  turn_at-own pre [] after t r = rw (append-nil pre) refl
  turn_at-own pre (x ∷ before) after t r =
      turn_at-own (pre ++ (x ∷ [])) before after t r ∙ rw (append_assoc pre (x ∷ []) before) refl

  -- The turn of a thread, by its place.
  turn-is_blocked :
      (before after : List Thread) (t : Thread) (r : ProfileRouter C.Regex)
      → is_blocked (before ++ after) t ≡ true
      → turn C (length before) (record { threads = before ++ (t ∷ after); router = r })
        ≡ record { threads = before ++ (t ∷ after); router = r }
  unfolding turn turn_at
  turn-is_blocked before after t r w = turn_at-own [] before after t r ∙ rw w refl

  turn-moves :
      (before after : List Thread) (t : Thread) (r : ProfileRouter C.Regex)
      → is_blocked (before ++ after) t ≡ false
      → turn C (length before) (record { threads = before ++ (t ∷ after); router = r }) ≡ record {
        threads = before ++ ((thread_step C t r).0 ∷ after);
        router = (thread_step C t r).1;
      }
  unfolding turn turn_at move
  turn-moves before after t r w = turn_at-own [] before after t r ∙ rw w refl

  is_blocked-Stuck :
      (before after : List Thread) (t : Thread)
      → is_blocked (before ++ after) t ≡ true
      → Stuck (any holds_read_lock (before ++ (t ∷ after))) t
  unfolding is_blocked
  is_blocked-Stuck before after t w =
      inr (ground (arith, any-front holds_read_lock before after t), ground arith)

  -- The turns of the threads behind some: the steps that are left become fewer, or these threads
  -- are all kept from a step.
  abbrev Advances : List Thread → List Thread → System C → Type 0
  Advances ts all s = (all_left s.threads < all_left all) ⊎ All (Stuck (any holds_read_lock all)) ts

  behind :
      (t : Thread) (ts all : List Thread) (s : System C)
      → Stuck (any holds_read_lock all) t
      → Advances ts all s
      → Advances (t ∷ ts) all s
  behind t ts all s stuck (inl fewer) = inl fewer
  behind t ts all s stuck (inr rest) = inr (stuck, rest)

  first_turn :
      (t : Thread) (ts : List Thread) (i : ℕ) (s : System C)
      → run_threads C (count_from i (t ∷ ts)) s ≡ run_threads C (count_from (suc i) ts) (turn C i s)
  unfolding run_threads count_from
  first_turn t ts i s = refl

  stays :
      (t : Thread) (ts : List Thread) (i : ℕ) (s : System C)
      → turn C i s ≡ s
      → Stuck (any holds_read_lock s.threads) t
      → Advances ts s.threads (run_threads C (count_from (suc i) ts) s)
      → Advances (t ∷ ts) s.threads (run_threads C (count_from i (t ∷ ts)) s)
  stays t ts i s same stuck rest =
      rw (first_turn t ts i s)
        (rw same (behind t ts s.threads (run_threads C (count_from (suc i) ts) s) stuck rest))

  advances :
      (before after : List Thread) (t : Thread) (i : ℕ) (r : ProfileRouter C.Regex)
      → i ≡ length before
      → is_blocked (before ++ after) t ≡ false
      → steps_left (thread_step C t r).0 < steps_left t
      → all_left
          (run_threads C
            (count_from i (t ∷ after))
            (record { threads = before ++ (t ∷ after); router = r })).threads
        < all_left (before ++ (t ∷ after))
  advances before after t i r l free less =
      let (t', r') = thread_step C t r in
      let s : System C = record { threads = before ++ (t' ∷ after); router = r' } in
      rw l (
        rw (first_turn t after (length before) _, turn-moves before after t r free)
          (omega (
            arith,
            all_left-front before after t,
            all_left-front before after t',
            all_left-run C (all_left s.threads) (count_from (suc (length before)) after) s,
          )))

  -- The list is split as `all`, so that the thread in front can be moved to the ones before.
  round_from :
      (before ts all : List Thread) (i : ℕ) (r : ProfileRouter C.Regex)
      → all ≡ before ++ ts
      → i ≡ length before
      → Advances ts all (run_threads C (count_from i ts) (record { threads = all; router = r }))
  round_from before [] all i r e l = inr tt
  round_from before (t ∷ after) all i r e l =
      let rest =
        round_from (before ++ (t ∷ [])) after all (suc i) r
          (e ∙ sym (append_assoc before (t ∷ []) after))
          (omega (arith, l, length-append before (t ∷ []))) in
      let s : System C = record { threads = all; router = r } in
      elim (Bool-cases (is_blocked (before ++ after) t)) [
        | inl w ↦
            stays t after i s (rw (e, l) (turn-is_blocked before after t r w))
              (rw e (is_blocked-Stuck before after t w)) rest
        | inr free ↦ elim (step-steps_left C t r) [
          | inl less ↦ inl (rw e (advances before after t i r l free less))
          | inr (zero_left, same) ↦
              stays t after i s (rw (e, l) (turn-moves before after t r free ∙ rw same refl))
                (inl zero_left) rest
        ]
      ]

  -- A thread that holds the read lock is neither over nor in need of the write lock.
  Stuck-free :
      (ts : List Thread) (held : Bool) → All (Stuck held) ts → any holds_read_lock ts ≡ false
  unfolding holds_read_lock takes_write_lock
  Stuck-free [] held h = refl
  Stuck-free (opens out ∷ ts) held h = absurd (ground arith)
  Stuck-free (fills out ∷ ts) held h = absurd (ground arith)
  Stuck-free (unmarks ∷ ts) held h = absurd (ground arith)
  Stuck-free (t ∷ ts) held (_, h) = Stuck-free ts held h

  unlocked-over : (ts : List Thread) → All (Stuck false) ts → all_left ts ≡ 0
  unlocked-over [] h = refl
  unlocked-over (t ∷ ts) (inl e, h) = omega (arith, unlocked-over ts h)
  unlocked-over (t ∷ ts) (inr (locked, _), h) = absurd (cc)

  round-le : (s : System C) → all_left (round s).threads ≤ all_left s.threads
  unfolding round
  round-le s = all_left-run C (all_left s.threads) (count_from 0 s.threads) s (omega arith)

  round-all_left :
      (s : System C) → (all_left (round s).threads < all_left s.threads) ⊎ (all_left s.threads ≡ 0)
  unfolding round
  round-all_left s = elim (round_from [] s.threads s.threads 0 s.router refl refl) [
    | inl less ↦ inl less
    | inr stuck ↦
        let free = Stuck-free s.threads _ stuck in
        inr (unlocked-over s.threads (subst (λ b. All (Stuck b) s.threads) free stuck))
  ]

  -- Threads that take turns come to an end, whatever they wait for: after as many rounds as steps
  -- are left, six for each thread at most, every lookup has its answer and every update, removal,
  -- load and event is done.
  pub rounds-ended :
      (n : ℕ) (s : System C)
      → all_left s.threads ≤ n
      → All (λ t. is_over t ≡ true) (rounds n s).threads
  unfolding rounds
  rounds-ended zero s h = all_left-over s.threads (omega arith)
  rounds-ended (suc n) s h = rounds-ended n (round s) (omega (arith, round-all_left s, round-le s))

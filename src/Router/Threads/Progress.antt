-- ===== src/Router/Threads/Progress.antt =====
-- How many steps a thread has left.
use amail_bridge.Common.{
  ℕ, ◌+◌, ◌≤◌, ◌<◌, ◌≡◌, refl, true, List, [], ◌∷◌, ◌++◌, arith, All, ◌⊎◌, inr, list_eq, nat_eq,
}
use amail_bridge.Router.Table.{Crates, ProfileRouter}
use amail_bridge.Router.Threads.{
  Thread, looks, misses, keeps, answers, updates, removes, marks, prints, opens, fills, unmarks,
  watches, resets, reads, replaces, ended, System, is_over, thread_step, run_threads,
}
use amail_bridge.Router.Threads.Rules.{run_threads-keeps}

-- At most this many steps are left to a thread.
abbrev pub steps_left : Thread → ℕ
steps_left (looks email) = 3
steps_left (misses email) = 2
steps_left (keeps email route) = 1
steps_left (answers route) = 0
steps_left (updates email host_or_url port) = 6
steps_left (removes email) = 6
steps_left marks = 5
steps_left prints = 4
steps_left (opens out) = 3
steps_left (fills out) = 2
steps_left unmarks = 1
steps_left (watches named) = 4
steps_left resets = 3
steps_left reads = 2
steps_left (replaces overrides) = 1
steps_left ended = 0

abbrev pub all_left : List Thread → ℕ
all_left [] = 0
all_left (t ∷ ts) = steps_left t + all_left ts

pub all_left-front :
    (xs ys : List Thread) (t : Thread)
    → all_left (xs ++ (t ∷ ys)) ≡ steps_left t + all_left (xs ++ ys)
all_left-front [] ys t = refl
all_left-front (x ∷ xs) ys t = omega (arith, all_left-front xs ys t)

pub all_left-over : (ts : List Thread) → all_left ts ≡ 0 → All (λ t. is_over t ≡ true) ts
unfolding is_over
all_left-over [] h = tt
all_left-over (answers route ∷ ts) h = (refl, all_left-over ts (omega arith))
all_left-over (ended ∷ ts) h = (refl, all_left-over ts (omega arith))
all_left-over (t ∷ ts) h = absurd (omega arith)

module _ (C : Crates) where
  -- A thread that is not over comes nearer to its end with each step.
  pub step-steps_left :
      (t : Thread) (r : ProfileRouter C.Regex)
      → (steps_left (thread_step C t r).0 < steps_left t)
        ⊎ ((steps_left t ≡ 0) × (thread_step C t r ≡ (t, r)))
  unfolding thread_step
  step-steps_left (answers route) r = inr (refl, refl)
  step-steps_left ended r = inr (refl, refl)
  step-steps_left t r = ground arith

  -- Some steps are left over all, at most as many as before each turn.
  pub all_left-run :
      (n : ℕ) (schedule : List ℕ) (s : System C)
      → all_left s.threads ≤ n
      → all_left (run_threads C schedule s).threads ≤ n
  all_left-run n schedule s h =
      run_threads-keeps C (λ ts r. all_left ts ≤ n)
        (record {
          front = λ before after t r k. omega (arith, all_left-front before after t);
          back = λ before after t r k. omega (arith, all_left-front before after t);
        })
        (λ others t r free k. ground (arith, step-steps_left t r)) schedule s h

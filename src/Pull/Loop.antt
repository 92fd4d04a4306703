-- ===== src/Pull/Loop.antt =====
-- src/pull.rs: `start_pull_loop`, behind the making of its HTTP client. `shutdown n` is the flag as
-- the n-th cycle reads it; a pause is part of what the world outside goes through.
use amail_bridge.Common.{
  ℕ, zero, suc, ◌+◌, ◌≤◌, ◌<◌, ◌≡◌, refl, Bool, true, [], arith, Bool-cases, inl, inr,
}
use amail_bridge.Config.{PullSystemConfig}
use amail_bridge.Router.Table.{Crates, ProfileRouter}
use amail_bridge.Pull.Forward.{Outside}
use amail_bridge.Pull.{PullState, Cycle, sleep, stop, cycle}

module _ (C : Crates) (O : Outside) (cfg : PullSystemConfig) (shutdown : ℕ → Bool) where
  -- The state that the loop starts with.
  unfoldable pub start_state : ProfileRouter C.Regex → O.World → PullState C O
  start_state router world = record {
    router = router;
    seen = [];
    consecutive_failures = 0;
    consecutive_ack_failures = 0;
    world = world;
  }

  -- The loop has ended after a number of cycles, or the cycles to go are used up.
  pub data Run : Type 0 where
    ended : ℕ → PullState C O → Run
    running : ℕ → PullState C O → Run

  unfoldable pub continue_with : (PullState C O → Run) → ℕ → Cycle C O → Run
  continue_with more n (stop s) = ended n s
  continue_with more n (sleep secs s) = more s

  unfoldable pub pull_loop : ℕ → ℕ → PullState C O → Run
  pull_loop zero n s = running n s
  pull_loop (suc fuel) n s = continue_with (pull_loop fuel (n + 1)) n (cycle C O cfg (shutdown n) s)

  unfoldable pub start_pull_loop : ℕ → ProfileRouter C.Regex → O.World → Run
  start_pull_loop fuel router world = pull_loop fuel 0 (start_state router world)

  told : (n : ℕ) (s : PullState C O) → shutdown n ≡ true → cycle C O cfg (shutdown n) s ≡ stop s
  unfolding cycle
  told n s e = rw e refl

  -- The loop ends at the k-th cycle or before.
  abbrev EndsBy : ℕ → Run → Type 0
  EndsBy k run = (m : ℕ) × (s : PullState C O) × (run ≡ ended m s) × (m ≤ k)

  continue_with-EndsBy :
      (k n : ℕ) (more : PullState C O → Run) (c : Cycle C O)
      → n ≤ k
      → ((s : PullState C O) → EndsBy k (more s))
      → EndsBy k (continue_with more n c)
  unfolding continue_with
  continue_with-EndsBy k n more (stop s) l h = (n, s, refl, l)
  continue_with-EndsBy k n more (sleep secs s) l h = h s

  pull_loop-EndsBy :
      (k fuel n : ℕ) (s : PullState C O)
      → shutdown k ≡ true
      → n ≤ k
      → k < n + fuel
      → EndsBy k (pull_loop fuel n s)
  unfolding pull_loop
  pull_loop-EndsBy k zero n s h l enough = absurd (omega arith)
  pull_loop-EndsBy k (suc fuel) n s h l enough = elim (Bool-cases (shutdown n)) [
    | inl e ↦ rw (told n s e) (unfold continue_with in (n, s, refl, l))
    | inr e ↦
        let later : n + 1 ≤ k = ground (arith, e, h, l) in
        continue_with-EndsBy k n _ (cycle C O cfg (shutdown n) s) l
          (λ s'. pull_loop-EndsBy k fuel (n + 1) s' h later (omega (arith, enough)))
  ]

  -- Once the flag is set, the loop ends: whatever the relay and the gateways answer, it makes no
  -- cycle behind the first that finds the flag set.
  pub start_pull_loop-ended :
      (k fuel : ℕ) (router : ProfileRouter C.Regex) (world : O.World)
      → shutdown k ≡ true
      → k < fuel
      → (m : ℕ) × (s : PullState C O) × (start_pull_loop fuel router world ≡ ended m s) × (m ≤ k)
  unfolding start_pull_loop
  start_pull_loop-ended k fuel router world h enough =
      pull_loop-EndsBy k fuel 0 _ h (omega arith) (omega arith)

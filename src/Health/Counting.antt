-- ===== src/Health/Counting.antt =====
-- src/health.rs: the failure counter of a target, and what is probed.
use native.Mathlib.Nat.{mod-eq_of_lt}
use amail_bridge.Common.{
  ℕ, ap, ◌∙◌, length, ◌+◌, ◌%◌, ◌^◌, ◌≤◌, ◌<◌, ◌≡◌, refl, Bool, true, false, List, [], ◌∷◌, arith,
  same_refl, leb, if◌then◌else◌, list_eq, nat_eq,
}
use amail_bridge.Std.Text.{Text}
use amail_bridge.Std.Dict
use amail_bridge.Std.Dict.{Dict, get-insert, get-remove}
use amail_bridge.Router.Route.{unwrap_or}
use amail_bridge.Health.{Counters, count_failure, settle_target}

-- The failures of a target that follow its last success, after `before` failures.
abbrev pub failures_in_a_row : ℕ → List Bool → ℕ
failures_in_a_row before [] = before
failures_in_a_row before (true ∷ oks) = failures_in_a_row 0 oks
failures_in_a_row before (false ∷ oks) = failures_in_a_row (before + 1) oks

-- The results of the probes of a target, one round each, while it is not removed.
unfoldable pub settle_all : ℕ → Text → List Bool → Counters → Counters
settle_all threshold target [] c = c
settle_all threshold target (ok ∷ oks) c =
    settle_all threshold target oks
      (settle_target threshold target ok (record c { dead_targets = [] }))

abbrev pub counter : Text → Counters → ℕ
counter target c = unwrap_or 0 (Dict.get target c.failures)

-- A success clears the counter; a failure adds one, and the target is dead from the threshold on.
settle_target-counter :
    (threshold : ℕ) (target : Text) (ok : Bool) (c : Counters)
    → counter target c + 1 < 2 ^ 32
    → counter target (settle_target threshold target ok c)
      ≡ (if ok then 0 else counter target c + 1)
unfolding settle_target count_failure
settle_target-counter threshold target true c small =
    let gone = get-remove target target c.failures in rw gone (rw (same_refl target) refl)
settle_target-counter threshold target false c small =
    let here = get-insert target target ((counter target c + 1) % 2 ^ 32) c.failures in
    rw here (rw (same_refl target) (mod-eq_of_lt small))

settle_target-dead :
    (threshold : ℕ) (target : Text) (ok : Bool) (c : Counters)
    → counter target c + 1 < 2 ^ 32
    → (settle_target threshold target ok (record c { dead_targets = [] })).dead_targets
      ≡ (if ok then [] else (if leb threshold (counter target c + 1) then target ∷ [] else []))
unfolding settle_target count_failure
settle_target-dead threshold target true c small = refl
settle_target-dead threshold target false c small = rw (mod-eq_of_lt small) refl

settle_all-counter :
    (threshold : ℕ) (target : Text) (oks : List Bool) (c : Counters)
    → counter target c + length oks < 2 ^ 32
    → counter target (settle_all threshold target oks c) ≡ failures_in_a_row (counter target c) oks
unfolding settle_all
settle_all-counter threshold target [] c small = refl
settle_all-counter threshold target (true ∷ oks) c small =
    let step =
      settle_target-counter threshold target true (record c { dead_targets = [] }) (omega arith) in
    settle_all-counter threshold target oks _ (omega (arith, step))
    ∙ ap (λ before. failures_in_a_row before oks) step
settle_all-counter threshold target (false ∷ oks) c small =
    let step =
      settle_target-counter threshold target false (record c { dead_targets = [] }) (omega arith) in
    settle_all-counter threshold target oks _ (omega (arith, step))
    ∙ ap (λ before. failures_in_a_row before oks) step

failures_in_a_row-le :
    (oks : List Bool) (before : ℕ) → failures_in_a_row before oks ≤ before + length oks
failures_in_a_row-le [] before = omega arith
failures_in_a_row-le (true ∷ oks) before = omega (arith, failures_in_a_row-le oks 0)
failures_in_a_row-le (false ∷ oks) before = omega (arith, failures_in_a_row-le oks (before + 1))

-- A probe finds a target dead exactly when it fails and the failures since the last success,
-- this one included, reach the threshold, for fewer than 2 ^ 32 probes in all.
pub settle_target-failures :
    (threshold : ℕ) (target : Text) (oks : List Bool) (ok : Bool) (c : Counters)
    → counter target c + length oks + 1 < 2 ^ 32
    → let before = settle_all threshold target oks c in
      (settle_target threshold target ok (record before { dead_targets = [] })).dead_targets ≡ (
        if ok
        then []
        else (if leb threshold (failures_in_a_row (counter target c) oks + 1)
            then target ∷ []
            else []))
settle_target-failures threshold target oks ok c small =
    let before = settle_all threshold target oks c in
    let count = settle_all-counter threshold target oks c (omega arith) in
    let le = failures_in_a_row-le oks (counter target c) in
    settle_target-dead threshold target ok before (omega (arith, count, le)) ∙ rw count refl

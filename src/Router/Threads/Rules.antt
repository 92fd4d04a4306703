-- ===== src/Router/Threads/Rules.antt =====
-- Invariants of threads: one rule that reduces a schedule to the step of a thread among others.
use amail_bridge.Common.{
  ap, ℕ, zero, suc, ◌≡◌, refl, Bool, false, List, [], ◌∷◌, ◌++◌, arith, any, All, append_assoc,
  append-nil, Bool-cases, inl, inr,
}
use amail_bridge.Router.Table.{Crates, ProfileRouter}
use amail_bridge.Router.Threads.{
  Thread, System, is_blocked, thread_step, move, turn_at, turn, run_threads,
}

-- What holds of all, or of some, of the threads does not depend on where one of them stands.
pub All-front {ℓ κ} :
    {A : Type ℓ} (P : A → Type κ) (xs ys : List A) (y : A)
    → All P (xs ++ (y ∷ ys))
    → All P (y ∷ (xs ++ ys))
All-front P [] ys y h = h
All-front P (x ∷ xs) ys y (px, hs) = let (py, rest) = All-front P xs ys y hs in (py, (px, rest))

pub All-back {ℓ κ} :
    {A : Type ℓ} (P : A → Type κ) (xs ys : List A) (y : A)
    → All P (y ∷ (xs ++ ys))
    → All P (xs ++ (y ∷ ys))
All-back P [] ys y h = h
All-back P (x ∷ xs) ys y (py, (px, rest)) = (px, All-back P xs ys y (py, rest))

pub any-front {ℓ} :
    {A : Type ℓ} (p : A → Bool) (xs ys : List A) (y : A)
    → any p (xs ++ (y ∷ ys)) ≡ any p (y ∷ (xs ++ ys))
any-front p [] ys y = refl
any-front p (x ∷ xs) ys y = ground (arith, any-front p xs ys y)

module _ (C : Crates) where
  -- A property of the threads and the router that does not depend on the order of the threads.
  pub record IsOrderless (Inv : List Thread → ProfileRouter C.Regex → Type 0) : Type 0 where
    pub front :
        (before after : List Thread) (t : Thread) (r : ProfileRouter C.Regex)
        → Inv (before ++ (t ∷ after)) r
        → Inv (t ∷ (before ++ after)) r
    pub back :
        (before after : List Thread) (t : Thread) (r : ProfileRouter C.Regex)
        → Inv (t ∷ (before ++ after)) r
        → Inv (before ++ (t ∷ after)) r

  -- The step of a thread that need not wait keeps the property.
  abbrev pub StepKeeps : (List Thread → ProfileRouter C.Regex → Type 0) → Type 0
  StepKeeps Inv =
      (others : List Thread) (t : Thread) (r : ProfileRouter C.Regex)
      → is_blocked others t ≡ false
      → Inv (t ∷ others) r
      → Inv ((thread_step C t r).0 ∷ others) (thread_step C t r).1

  -- A schedule, turn by turn and part by part.
  pub run_threads-cons :
      (i : ℕ) (schedule : List ℕ) (s s' : System C)
      → turn C i s ≡ s'
      → run_threads C (i ∷ schedule) s ≡ run_threads C schedule s'
  unfolding run_threads
  run_threads-cons i schedule s s' e = ap (run_threads C schedule) e

  pub run_threads-append :
      (is js : List ℕ) (s s' : System C)
      → run_threads C is s ≡ s'
      → run_threads C (is ++ js) s ≡ run_threads C js s'
  unfolding run_threads
  run_threads-append [] js s s' e = ap (run_threads C js) e
  run_threads-append (i ∷ is) js s s' e = run_threads-append is js (turn C i s) s' e

  module _ (Inv : List Thread → ProfileRouter C.Regex → Type 0) (orderless : IsOrderless Inv)
      (keeps : StepKeeps Inv) where
    move-keeps :
        (before after : List Thread) (t : Thread) (r : ProfileRouter C.Regex)
        → is_blocked (before ++ after) t ≡ false
        → Inv (before ++ (t ∷ after)) r
        → Inv (move C before after t r).threads (move C before after t r).router
    unfolding move
    move-keeps before after t r free h =
        orderless.back before after _ _
          (keeps (before ++ after) t r free (orderless.front before after t r h))

    turn_at-keeps :
        (before : List Thread) (i : ℕ) (ts : List Thread) (r : ProfileRouter C.Regex)
        → Inv (before ++ ts) r
        → Inv (turn_at C before i ts r).threads (turn_at C before i ts r).router
    unfolding turn_at
    turn_at-keeps before i [] r h = rw⁻¹ (append-nil before) h
    turn_at-keeps before zero (t ∷ after) r h = elim (Bool-cases (is_blocked (before ++ after) t)) [
      | inl e ↦ rw e h
      | inr e ↦ rw e (move-keeps before after t r e h)
    ]
    turn_at-keeps before (suc i) (t ∷ after) r h =
        turn_at-keeps (before ++ (t ∷ [])) i after r (rw (append_assoc before (t ∷ []) after) h)

    pub run_threads-keeps :
        (schedule : List ℕ) (s : System C)
        → Inv s.threads s.router
        → Inv (run_threads C schedule s).threads (run_threads C schedule s).router
    unfolding run_threads turn
    run_threads-keeps [] s h = h
    run_threads-keeps (i ∷ is) s h =
        run_threads-keeps is (turn C i s) (turn_at-keeps [] i s.threads s.router h)

-- ===== src/Health/Probes.antt =====
-- src/health.rs: what the probes of one round say of one target.
use mathlib.Core.Path.{ap₂, subst}
use amail_bridge.Common.{
  ℕ, ◌+◌, ◌%◌, ◌^◌, ◌≡◌, refl, ap, ◌∙◌, Bool, true, false, ◌||◌, Option, none, some, List, [], ◌∷◌,
  arith, any, any-append, leb, same, same_refl, eq_of_same, list_eq, nat_eq, Bool-cases, inl, inr,
}
use amail_bridge.Std.Text.{Text}
use amail_bridge.Std.Dict
use amail_bridge.Std.Dict.{Dict, NodupKeys, get-cons, get-insert, get-remove, insert-NodupKeys}
use amail_bridge.Router.Route.{unwrap_or}
use amail_bridge.Health.{
  Network, Counters, probe_parts, settle_target, count_failure, probe_one, probe_all,
}

-- Whether a target was found dead.
abbrev pub is_dead : Text → Counters → Bool
is_dead t c = any (same t) c.dead_targets

-- The counter of a target after one more failure.
abbrev pub next_count : Text → Counters → ℕ
next_count t c = (unwrap_or 0 (Dict.get t c.failures) + 1) % 2 ^ 32

-- The probe of another target leaves the counter and the verdict of this one.
settle_target-other :
    (threshold : ℕ) (t target : Text) (ok : Bool) (c : Counters)
    → same t target ≡ false
    → let c' = settle_target threshold target ok c in
      (Dict.get t c'.failures ≡ Dict.get t c.failures) × (is_dead t c' ≡ is_dead t c)
unfolding settle_target count_failure
settle_target-other threshold t target true c other =
    (get-remove t target c.failures ∙ rw other refl, refl)
settle_target-other threshold t target false c other =
    let count = next_count target c in
    let split = any-append (same t) c.dead_targets (target ∷ []) in
    (
      get-insert t target count c.failures ∙ rw other refl,
      elim (Bool-cases (leb threshold count)) [
        | inl e ↦ rw e (ground (arith, split, other))
        | inr e ↦ rw e refl
      ],
    )

-- A failure adds one, and the target is dead from the threshold on.
settle_target-failed :
    (threshold : ℕ) (t : Text) (c : Counters)
    → let c' = settle_target threshold t false c in
      (Dict.get t c'.failures ≡ some (next_count t c))
      × (is_dead t c' ≡ (is_dead t c || leb threshold (next_count t c)))
unfolding settle_target count_failure
settle_target-failed threshold t c =
    let count = next_count t c in
    let split = any-append (same t) c.dead_targets (t ∷ []) in
    (
      get-insert t t count c.failures ∙ rw (same_refl t) refl,
      elim (Bool-cases (leb threshold count)) [
        | inl e ↦ rw e (ground (arith, split, same_refl t))
        | inr e ↦ rw e (ground arith)
      ],
    )

module _ (N : Network) where
  -- A connection to the host and port fails, or succeeds, whenever it is tried.
  abbrev pub Answers : Bool → Text → ℕ → Type 0
  Answers ok host port = (w : N.World) → (N.probe_target host port w).0 ≡ ok

  probe_one-other :
      (threshold : ℕ) (t target : Text) (parts : Option (Text × ℕ)) (s : Counters × N.World)
      → same t target ≡ false
      → let c' = (probe_one N threshold target parts s).0 in
        (Dict.get t c'.failures ≡ Dict.get t s.0.failures) × (is_dead t c' ≡ is_dead t s.0)
  unfolding probe_one
  probe_one-other threshold t target none (c, w) other = (refl, refl)
  probe_one-other threshold t target (some (host, port)) (c, w) other =
      settle_target-other threshold t target (N.probe_target host port w).0 c other

  -- Targets that are not this one.
  probe_all-other :
      (threshold : ℕ) (t : Text) (groups : Dict Text (List Text)) (s : Counters × N.World)
      → Dict.get t groups ≡ none
      → let c' = (probe_all N threshold groups s).0 in
        (Dict.get t c'.failures ≡ Dict.get t s.0.failures) × (is_dead t c' ≡ is_dead t s.0)
  unfolding probe_all
  probe_all-other threshold t [] s h = (refl, refl)
  probe_all-other threshold t ((target, emails) ∷ groups) s h =
      let here = get-cons t target emails groups in
      let (other, rest) : (same t target ≡ false) × (Dict.get t groups ≡ none) =
        (ground (arith, here, h), ground (arith, here, h)) in
      let (count, dead) = probe_one-other threshold t target (probe_parts target) s other in
      let (counts, deads) =
        probe_all-other threshold t groups (probe_one N threshold target (probe_parts target) s)
          rest in
      (counts ∙ count, deads ∙ dead)

  module _ (threshold : ℕ) (t host : Text) (port : ℕ)
      (parts : probe_parts t ≡ some (host, port)) where
    probe_one-own :
        (ok : Bool) (s : Counters × N.World)
        → Answers ok host port
        → (probe_one N threshold t (probe_parts t) s).0 ≡ settle_target threshold t ok s.0
    unfolding probe_one
    probe_one-own ok (c, w) answers = rw (parts, answers w) refl

    -- The counter is raised by one, and the target is dead from the threshold on.
    abbrev pub Raised : Counters → Counters → Type 0
    Raised c c' =
        (Dict.get t c'.failures ≡ some (next_count t c))
        × (is_dead t c' ≡ (is_dead t c || leb threshold (next_count t c)))

    probe_all-own :
        (groups : Dict Text (List Text)) (emails : List Text) (s : Counters × N.World)
        → Answers false host port
        → Dict.get t groups ≡ none
        → Raised s.0 (probe_all N threshold ((t, emails) ∷ groups) s).0
    unfolding probe_all
    probe_all-own groups emails s fails fresh =
        let first = probe_one N threshold t (probe_parts t) s in
        let (count, dead) = settle_target-failed threshold t s.0 in
        let (counts, deads) = probe_all-other threshold t groups first fresh in
        let own = probe_one-own false s fails in
        (counts ∙ ap (λ c. Dict.get t c.failures) own ∙ count, deads ∙ ap (is_dead t) own ∙ dead)

    next_count-eq :
        (c c' : Counters)
        → Dict.get t c'.failures ≡ Dict.get t c.failures
        → next_count t c' ≡ next_count t c
    next_count-eq c c' e = ap (λ o. (unwrap_or 0 o + 1) % 2 ^ 32) e

    -- A target that fails has its counter raised, once in a round.
    pub probe_all-failed :
        (groups : Dict Text (List Text)) (emails : List Text) (s : Counters × N.World)
        → Answers false host port
        → NodupKeys groups
        → Dict.get t groups ≡ some emails
        → Raised s.0 (probe_all N threshold groups s).0
    unfolding probe_all
    probe_all-failed [] emails s fails u h = unfold Dict.get in absurd (cc)
    probe_all-failed ((target, es) ∷ groups) emails s fails (fresh, u) h =
        elim (Bool-cases (same t target)) [
          | inl e ↦
              subst
                (λ name.
                  Dict.get name groups ≡ none
                  → Raised s.0 (probe_all N threshold ((name, es) ∷ groups) s).0)
                (eq_of_same t target e) (probe_all-own groups es s fails) fresh
          | inr e ↦
              let first = probe_one N threshold target (probe_parts target) s in
              let (count, dead) = probe_one-other threshold t target (probe_parts target) s e in
              let there : Dict.get t groups ≡ some emails =
                ground (arith, get-cons t target es groups, h, e) in
              let (counts, deads) = probe_all-failed groups emails first fails u there in
              let same_count = next_count-eq s.0 first.0 count in
              (
                counts ∙ ap some same_count,
                deads ∙ ap₂ (λ d n. d || leb threshold n) dead same_count,
              )
        ]

    probe_one-alive :
        (target : Text) (s : Counters × N.World)
        → Answers true host port
        → is_dead t s.0 ≡ false
        → is_dead t (probe_one N threshold target (probe_parts target) s).0 ≡ false
    probe_one-alive target s answers h = elim (Bool-cases (same t target)) [
      | inl e ↦
          subst (λ name. is_dead t (probe_one N threshold name (probe_parts name) s).0 ≡ false)
            (eq_of_same t target e)
            (ap (is_dead t) (probe_one-own true s answers) ∙ unfold settle_target in h)
      | inr e ↦
          let (_, dead) = probe_one-other threshold t target (probe_parts target) s e in dead ∙ h
    ]

    -- A target that answers is not found dead.
    pub probe_all-alive :
        (groups : Dict Text (List Text)) (s : Counters × N.World)
        → Answers true host port
        → is_dead t s.0 ≡ false
        → is_dead t (probe_all N threshold groups s).0 ≡ false
    unfolding probe_all
    probe_all-alive [] s answers h = h
    probe_all-alive ((target, es) ∷ groups) s answers h =
        probe_all-alive groups (probe_one N threshold target (probe_parts target) s) answers
          (probe_one-alive target s answers h)

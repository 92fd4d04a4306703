-- ===== src/Push/RateLimit/Burst.antt =====
-- src/push.rs: how many requests of an address the limiter admits within any second, whatever came
-- before.
use mathlib.Core.Path.{subst}
use amail_bridge.Common.{
  ℕ, ◌+◌, ◌-◌, ◌*◌, ◌≤◌, ◌<◌, ◌≡◌, refl, ◌∙◌, Bool, true, false, Option, none, some, [], ◌∷◌, arith,
  same, same_refl, eq_of_same, ltb, if◌then◌else◌, Option-cases, Bool-cases, inl, inr,
}
use amail_bridge.Std.Dict
use amail_bridge.Std.Dict.{Dict, NodupKeys, get-retain_of_keep, get-retain_of_drop, get-retain-none}
use amail_bridge.Std.Ip.{IpAddr, ip_eq}
use amail_bridge.Push.RateLimit.{
  IpRateLimiter, new_limiter, millis_since, is_recent, entry_or, step, check,
}
use amail_bridge.Push.RateLimit.Window.{Requests, admitted, InWindow, check_lem, check_max}
use amail_bridge.Push.RateLimit.Refusal.{check-NodupKeys}

-- What an address may still get within the second that begins at `start`: an entry from before may
-- be renewed once.
abbrev left : ℕ → ℕ → Option (ℕ × ℕ) → ℕ
left max start none = max
left max start (some (ts, count)) = if ltb ts start then (max - count) + max else max - count

abbrev cost : Bool → ℕ
cost true = 1
cost false = 0

module _ (max start now : ℕ) (pos : 0 < max) (after : start ≤ now)
    (soon : millis_since start now ≤ 1000) where
  step-left :
      (o : Option (ℕ × ℕ))
      → cost (step max now (entry_or now o)).0
          + left max start (some (step max now (entry_or now o)).1)
        ≤ left max start o
  unfolding step
  step-left none = ground arith
  step-left (some (ts, count)) = ground arith

  retain-left :
      (ip : IpAddr) (w : Dict IpAddr (ℕ × ℕ))
      → NodupKeys w
      → left max start (Dict.get ip (Dict.retain (is_recent now) w))
        ≤ left max start (Dict.get ip w)
  retain-left ip w u = elim (Option-cases (Dict.get ip w)) [
    | inl e ↦ rw (e, get-retain-none (is_recent now) ip w e) (omega arith)
    | inr ((ts, count), e) ↦ elim (Bool-cases (is_recent now (ts, count))) [
      | inl k ↦ rw (e, get-retain_of_keep (is_recent now) ip w (ts, count) e k) (ground arith)
      | inr k ↦ rw (e, get-retain_of_drop (is_recent now) ip w (ts, count) u e k) (ground arith)
    ]
  ]

-- The earlier requests, whatever they are answered.
unfoldable pub check_all : Requests → IpRateLimiter → IpRateLimiter
check_all [] l = l
check_all ((j, now) ∷ rest) l = check_all rest (check j now l).1

module _ (ip : IpAddr) (max start now : ℕ) (l : IpRateLimiter) (pos : 0 < max)
    (m : l.max_per_sec ≡ max) (u : NodupKeys l.window) (after : start ≤ now)
    (soon : millis_since start now ≤ 1000) where
  abbrev spared : ℕ
  spared = left max start (Dict.get ip l.window)

  own_request :
      cost (check ip now l).0 + left max start (Dict.get ip (check ip now l).1.window) ≤ spared
  own_request =
      let (answer, entry) = check_lem ip ip now l (omega (arith, m)) in
      let kept = Dict.retain (is_recent now) l.window in
      let e = rw (same_refl ip) at entry in
      let renewed = step-left max start now pos after soon (Dict.get ip kept) in
      let cleaned = retain-left max start now pos after soon ip l.window u in
      rw (answer, e, m) (omega (arith, renewed, cleaned))

  other_request :
      (j : IpAddr)
      → same ip j ≡ false
      → left max start (Dict.get ip (check j now l).1.window) ≤ spared
  other_request j other =
      let (_, entry) = check_lem ip j now l (omega (arith, m)) in
      let e = entry ∙ rw other refl in rw e (retain-left max start now pos after soon ip l.window u)

admitted-le-left :
    (ip : IpAddr) (max start : ℕ) (rs : Requests) (l : IpRateLimiter)
    → 0 < max
    → l.max_per_sec ≡ max
    → NodupKeys l.window
    → InWindow start rs
    → admitted ip rs l ≤ left max start (Dict.get ip l.window)
unfolding admitted
admitted-le-left ip max start [] l pos m u h = omega arith
admitted-le-left ip max start ((j, now) ∷ rs) l pos m u ((after, soon), h) =
    let l' = (check j now l).1 in
    let rest =
      admitted-le-left ip max start rs l' pos (check_max j now l ∙ m) (check-NodupKeys j now l u)
        h in
    elim (Bool-cases (same ip j)) [
      | inl e ↦
          let own =
            subst
              (λ x.
                cost (check x now l).0 + left max start (Dict.get ip (check x now l).1.window)
                ≤ left max start (Dict.get ip l.window))
              (eq_of_same ip j e) (own_request ip max start now l pos m u after soon) in
          ground (arith, e, own, rest)
      | inr e ↦ ground (arith, e, other_request ip max start now l pos m u after soon j e, rest)
    ]

left-le : (max start : ℕ) (o : Option (ℕ × ℕ)) → left max start o ≤ 2 * max
left-le max start none = omega arith
left-le max start (some (ts, count)) = ground arith

check_all-facts :
    (earlier : Requests) (max : ℕ) (l : IpRateLimiter)
    → l.max_per_sec ≡ max
    → NodupKeys l.window
    → ((check_all earlier l).max_per_sec ≡ max) × NodupKeys (check_all earlier l).window
unfolding check_all
check_all-facts [] max l m u = (m, u)
check_all-facts ((j, now) ∷ rest) max l m u =
    check_all-facts rest max (check j now l).1 (check_max j now l ∙ m) (check-NodupKeys j now l u)

-- Within any second, 1000 ms and less than one more, and whatever requests came before, an address
-- gets at most twice the limit: the rest of a window that is open, and a whole new one.
pub admitted-le :
    (ip : IpAddr) (max start : ℕ) (earlier rs : Requests)
    → 0 < max
    → InWindow start rs
    → admitted ip rs (check_all earlier (new_limiter max)) ≤ 2 * max
unfolding new_limiter
admitted-le ip max start earlier rs pos h =
    let l = check_all earlier (new_limiter max) in
    let (m, u) = check_all-facts earlier max (new_limiter max) refl tt in
    omega (
      arith,
      admitted-le-left ip max start rs l pos m u h,
      left-le max start (Dict.get ip l.window),
    )

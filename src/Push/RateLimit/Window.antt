-- ===== src/Push/RateLimit/Window.antt =====
-- src/push.rs: how many requests of an address the limiter admits within one window.
use Prim.Native.Nat.{min}
use mathlib.Core.Path.{subst}
use amail_bridge.Common.{
  ℕ, suc, ◌-◌, ◌≤◌, ◌<◌, ◌≡◌, refl, ap, ◌∙◌, false, Option, none, some, List, [], ◌∷◌, arith, All,
  same, same_refl, eq_of_same, ltb, if◌then◌else◌, Option-cases, Bool-cases, inl, inr,
}
use amail_bridge.Std.Dict
use amail_bridge.Std.Dict.{
  Dict, NodupKeys, get-insert, get-retain_of_keep, get-retain-none, insert-NodupKeys,
  retain-NodupKeys,
}
use amail_bridge.Std.Ip.{IpAddr, ip_eq}
use amail_bridge.Push.RateLimit.{
  IpRateLimiter, new_limiter, millis_since, is_recent, entry_or, step, check,
}

-- Requests in their order: the address and the time of each.
abbrev pub Requests : Type 0
Requests = List (IpAddr × ℕ)

-- The requests of `ip` that the limiter admits, of all that it is given.
unfoldable pub admitted : IpAddr → Requests → IpRateLimiter → ℕ
admitted ip [] l = 0
admitted ip ((j, now) ∷ rest) l =
    let (answer, l') = check j now l in
    let more = admitted ip rest l' in
    if same ip j then (if answer then suc more else more) else more

-- The requests of `ip`.
abbrev pub requests_of : IpAddr → Requests → ℕ
requests_of ip [] = 0
requests_of ip ((j, now) ∷ rest) =
    if same ip j then suc (requests_of ip rest) else requests_of ip rest

-- Each request falls into the window that opens at `start`: at most 1000 ms behind it.
abbrev pub InWindow : ℕ → Requests → Type 0
InWindow start = All (λ (_, now). (start ≤ now) × (millis_since start now ≤ 1000))

-- What an address has used of its window, if it has an entry that opened at `start` or later.
abbrev Used : ℕ → Option (ℕ × ℕ) → ℕ → Type 0
Used start none used = used ≡ 0
Used start (some (ts, count)) used = (start ≤ ts) × (count ≡ used)

abbrev spend : ℕ → ℕ → ℕ
spend max used = if ltb used max then suc used else used

module _ (max start now : ℕ) (pos : 0 < max) (after : start ≤ now)
    (soon : millis_since start now ≤ 1000) where
  -- One step of the address itself: admitted while the window has room, and counted.
  step-Used :
      (o : Option (ℕ × ℕ)) (used : ℕ)
      → Used start o used
      → ((step max now (entry_or now o)).0 ≡ ltb used max)
        × Used start (some (step max now (entry_or now o)).1) (spend max used)
  unfolding step
  step-Used none used u = ground arith
  step-Used (some (ts, count)) used u = ground arith

  -- The cleanup keeps the entry.
  retain-Used :
      (ip : IpAddr) (w : Dict IpAddr (ℕ × ℕ)) (used : ℕ)
      → Used start (Dict.get ip w) used
      → Used start (Dict.get ip (Dict.retain (is_recent now) w)) used
  retain-Used ip w used u = elim (Option-cases (Dict.get ip w)) [
    | inl e ↦ rw (get-retain-none (is_recent now) ip w e) (rw e at u)
    | inr ((ts, count), e) ↦
        let u' : Used start (some (ts, count)) used = rw e at u in
        rw (get-retain_of_keep (is_recent now) ip w (ts, count) e (ground arith)) u'
  ]

pub check_max :
    (ip : IpAddr) (now : ℕ) (l : IpRateLimiter) → (check ip now l).1.max_per_sec ≡ l.max_per_sec
unfolding check
check_max ip now l = ground arith

-- The limiter's answer and its entries, for a limit that is not zero.
pub check_lem :
    (ip j : IpAddr) (now : ℕ) (l : IpRateLimiter)
    → 0 < l.max_per_sec
    → let w = Dict.retain (is_recent now) l.window in
      let r = step l.max_per_sec now (entry_or now (Dict.get j w)) in
      ((check j now l).0 ≡ r.0)
      × (Dict.get ip (check j now l).1.window ≡ (if same ip j then some r.1 else Dict.get ip w))
unfolding check
check_lem ip j now l pos =
    let w = Dict.retain (is_recent now) l.window in
    let r = step l.max_per_sec now (entry_or now (Dict.get j w)) in
    ground (arith, get-insert ip j r.1 w)

module _ (ip : IpAddr) (start max now used : ℕ) (l : IpRateLimiter) (pos : 0 < max)
    (m : l.max_per_sec ≡ max) (u : Used start (Dict.get ip l.window) used) (after : start ≤ now)
    (soon : millis_since start now ≤ 1000) where
  abbrev kept : Dict IpAddr (ℕ × ℕ)
  kept = Dict.retain (is_recent now) l.window

  -- A request of the address itself.
  self_step :
      ((check ip now l).0 ≡ ltb used max)
      × Used start (Dict.get ip (check ip now l).1.window) (spend max used)
  self_step =
      let (answer, entry) = check_lem ip ip now l (omega arith) in
      let (admits, u') =
        step-Used max start now pos after soon (Dict.get ip kept) used
          (retain-Used max start now pos after soon ip l.window used u) in
      let r_eq = ap (λ k. step k now (entry_or now (Dict.get ip kept))) m in
      let entry' =
        entry
        ∙ ap
            (λ b.
              if b
              then some (step l.max_per_sec now (entry_or now (Dict.get ip kept))).1
              else Dict.get ip kept)
            (same_refl ip)
        ∙ ap (λ r. some r.1) r_eq in
      (answer ∙ ap (λ r. r.0) r_eq ∙ admits, rw entry' u')

  -- A request of another address.
  other_step :
      (j : IpAddr) → same ip j ≡ false → Used start (Dict.get ip (check j now l).1.window) used
  other_step j other =
      let (_, entry) = check_lem ip j now l (omega arith) in
      let entry' =
        entry
        ∙ ap
            (λ b.
              if b
              then some (step l.max_per_sec now (entry_or now (Dict.get j kept))).1
              else Dict.get ip kept)
            other in
      rw entry' (retain-Used max start now pos after soon ip l.window used u)

admitted-eq :
    (ip : IpAddr) (start max used : ℕ) (rs : Requests) (l : IpRateLimiter)
    → 0 < max
    → l.max_per_sec ≡ max
    → Used start (Dict.get ip l.window) used
    → InWindow start rs
    → admitted ip rs l ≡ min (max - used) (requests_of ip rs)
unfolding admitted
admitted-eq ip start max used [] l pos m u h = omega arith
admitted-eq ip start max used ((j, now) ∷ rs) l pos m u ((after, soon), h) =
    let l' = (check j now l).1 in
    let m' = check_max j now l ∙ m in
    elim (Bool-cases (same ip j)) [
      | inl e ↦
          let facts =
            subst
              (λ x.
                ((check x now l).0 ≡ ltb used max)
                × Used start (Dict.get ip (check x now l).1.window) (spend max used))
              (eq_of_same ip j e) (self_step ip start max now used l pos m u after soon) in
          ground
            (arith, e, facts.0, admitted-eq ip start max (spend max used) rs l' pos m' facts.1 h)
      | inr e ↦ ground (
        arith,
        e,
        admitted-eq ip start max used rs l' pos m'
            (other_step ip start max now used l pos m u after soon j e) h,
      )
    ]

-- A new limiter admits, of all requests within 1000 ms, the first `max` of each address and
-- refuses the others, however the requests of the addresses are mixed, for a limit above zero.
pub admitted-new_limiter :
    (ip : IpAddr) (start max : ℕ) (rs : Requests)
    → 0 < max
    → InWindow start rs
    → admitted ip rs (new_limiter max) ≡ min max (requests_of ip rs)
admitted-new_limiter ip start max rs pos h =
    let none_used : Used start (Dict.get ip (new_limiter max).window) 0 =
      unfold new_limiter Dict.get in refl in
    omega (
      arith,
      admitted-eq ip start max 0 rs (new_limiter max) pos (unfold new_limiter in refl) none_used h,
    )

-- ===== src/Push/RateLimit/Refusal.antt =====
-- src/push.rs: when the limiter refuses a request.
use amail_bridge.Common.{
  ℕ, ◌≤◌, ◌<◌, ◌≡◌, sym, ◌∙◌, ◌↔◌, true, false, Option, none, some, arith, ◌==◌, Option-cases,
  Bool-cases, inl, inr,
}
use amail_bridge.Std.Dict
use amail_bridge.Std.Dict.{
  Dict, NodupKeys, get-retain_of_keep, get-retain_of_drop, get-retain-none, insert-NodupKeys,
  retain-NodupKeys,
}
use amail_bridge.Std.Ip.{IpAddr, ip_eq}
use amail_bridge.Push.RateLimit.{IpRateLimiter, millis_since, is_recent, entry_or, step, check}
use amail_bridge.Push.RateLimit.Window.{check_lem}

-- An address whose window is full: its entry is at most 1000 ms old and has the limit's count.
abbrev pub Full : ℕ → ℕ → Option (ℕ × ℕ) → Type 0
Full max now none = ⊥
Full max now (some (ts, count)) = (millis_since ts now ≤ 1000) × (max ≤ count)

step_refuses_iff :
    (max now : ℕ) (o : Option (ℕ × ℕ))
    → 0 < max
    → ((step max now (entry_or now o)).0 ≡ false) ↔ Full max now o
unfolding step
step_refuses_iff max now none pos = (λ h. ground arith, λ h. absurd h)
step_refuses_iff max now (some (ts, count)) pos = (λ h. ground arith, λ h. ground arith)

-- A stale entry is cleaned up, and it is not full.
Full-retain :
    (max now : ℕ) (ip : IpAddr) (w : Dict IpAddr (ℕ × ℕ))
    → NodupKeys w
    → Full max now (Dict.get ip (Dict.retain (is_recent now) w)) ↔ Full max now (Dict.get ip w)
Full-retain max now ip w u = elim (Option-cases (Dict.get ip w)) [
  | inl e ↦ rw (get-retain-none (is_recent now) ip w e, e) (λ f. f, λ f. f)
  | inr ((ts, count), e) ↦ elim (Bool-cases (is_recent now (ts, count))) [
    | inl keep ↦ rw (get-retain_of_keep (is_recent now) ip w (ts, count) e keep, e) (λ f. f, λ f. f)
    | inr drop ↦
        rw (get-retain_of_drop (is_recent now) ip w (ts, count) u e drop, e)
          (λ f. absurd f, λ (soon, _). absurd (ground arith))
  ]
]

-- A request is refused exactly when the limit is above zero and the address has used its window
-- up, at most 1000 ms after the window opened.
pub check_refuses_iff :
    (ip : IpAddr) (now : ℕ) (l : IpRateLimiter)
    → NodupKeys l.window
    → ((check ip now l).0 ≡ false)
      ↔ ((0 < l.max_per_sec) × Full l.max_per_sec now (Dict.get ip l.window))
check_refuses_iff ip now l u = elim (Bool-cases (l.max_per_sec == 0)) [
  | inl off ↦
      let unlimited : (check ip now l).0 ≡ true = unfold check in ground arith in
      (λ h. cc, λ (pos, _). absurd (ground arith))
  | inr on ↦
      let pos : 0 < l.max_per_sec = ground arith in
      let w = Dict.retain (is_recent now) l.window in
      let (answer, _) = check_lem ip ip now l pos in
      let (refuses, full) = step_refuses_iff l.max_per_sec now (Dict.get ip w) pos in
      let (sound, complete) = Full-retain l.max_per_sec now ip l.window u in
      (λ h. (pos, sound (refuses (sym answer ∙ h))), λ (_, f). answer ∙ full (complete f))
]

-- The window keeps one entry for an address.
pub check-NodupKeys :
    (ip : IpAddr) (now : ℕ) (l : IpRateLimiter)
    → NodupKeys l.window
    → NodupKeys (check ip now l).1.window
unfolding check
check-NodupKeys ip now l u = elim (Bool-cases (l.max_per_sec == 0)) [
  | inl off ↦ rw off u
  | inr on ↦ rw on (insert-NodupKeys ip _ _ (retain-NodupKeys (is_recent now) l.window u))
]

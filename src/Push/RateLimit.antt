-- ===== src/Push/RateLimit.antt =====
-- src/push.rs: `IpRateLimiter`. Instants are nanoseconds; `saturating_duration_since` is the
-- truncated subtraction.
pub mod Window
pub mod Refusal
pub mod Burst
use amail_bridge.Common.{
  ℕ, [], ◌+◌, ◌-◌, ◌/◌, Bool, true, false, Option, none, some, ltb, leb, ◌==◌, if◌then◌else◌,
}
use amail_bridge.Std.Dict
use amail_bridge.Std.Dict.{Dict}
use amail_bridge.Std.Ip.{IpAddr, ip_eq}

pub record IpRateLimiter : Type 0 where
  pub window : Dict IpAddr (ℕ × ℕ)
  pub max_per_sec : ℕ

unfoldable pub new_limiter : ℕ → IpRateLimiter
new_limiter max_per_sec = record { window = []; max_per_sec = max_per_sec }

-- `now.saturating_duration_since(ts).as_millis()`
abbrev pub millis_since : ℕ → ℕ → ℕ
millis_since ts now = (now - ts) / 1_000_000

abbrev pub is_recent : ℕ → ℕ × ℕ → Bool
is_recent now (ts, count) = leb (millis_since ts now) 2000

-- The entry of an address, or a new one: `entry(ip).or_insert((now, 0))`.
abbrev pub entry_or : ℕ → Option (ℕ × ℕ) → ℕ × ℕ
entry_or now none = (now, 0)
entry_or now (some e) = e

-- The part of `check` behind `or_insert`: the answer and the entry.
unfoldable pub step : ℕ → ℕ → ℕ × ℕ → Bool × (ℕ × ℕ)
step max now (start, count) =
    if ltb 1000 (millis_since start now)
    then (true, (now, 1))
    else if leb max count
    then (false, (start, count))
    else (true, (start, count + 1))

unfoldable pub check : IpAddr → ℕ → IpRateLimiter → Bool × IpRateLimiter
check ip now l =
    if l.max_per_sec == 0
    then (true, l)
    else (let w = Dict.retain (is_recent now) l.window in
        let (answer, entry) = step l.max_per_sec now (entry_or now (Dict.get ip w)) in
        (answer, record l { window = Dict.insert ip entry w }))

-- ===== src/Pull/Backoff.antt =====
-- src/pull.rs: the pause after a failed fetch.
use Prim.Native.Nat.{min}
use native.Mathlib.Nat.{mod-eq_of_lt, pow-le-pow_right, mul-le-mul_left, one-le-pow}
use amail_bridge.Common.{
  ℕ, ◌*◌, ◌%◌, ◌^◌, ◌≤◌, ◌<◌, ◌≡◌, refl, arith, leb, Bool-cases, inl, inr, ◌⊎◌,
}
use amail_bridge.Pull.{backoff_secs}

-- Below 2 ^ 58 seconds the product does not wrap.
no_wrap :
    (poll failures : ℕ)
    → poll < 2 ^ 58
    → (poll * 2 ^ min failures 6) % 2 ^ 64 ≡ poll * 2 ^ min failures 6
no_wrap poll failures small =
    let le : 2 ^ min failures 6 ≤ 2 ^ 6 =
      pow-le-pow_right (omega arith) {i = min failures 6} {j = 6} (omega arith) in
    let bound : poll * 2 ^ min failures 6 ≤ poll * 64 = mul-le-mul_left poll le in
    mod-eq_of_lt (omega (arith, bound))

-- For an interval below 2 ^ 58 seconds the pause after a failed fetch is at most five minutes,
-- never shorter than the interval unless that is above five minutes, never shrinks as failures
-- add up, and stays as it is from the sixth failure on.
pub backoff_secs-bounds :
    (poll failures more : ℕ)
    → poll < 2 ^ 58
    → failures ≤ more
    → (backoff_secs poll failures ≤ 300)
      × (min poll 300 ≤ backoff_secs poll failures)
      × (backoff_secs poll failures ≤ backoff_secs poll more)
      × ((failures < 6) ⊎ (backoff_secs poll failures ≡ backoff_secs poll more))
unfolding backoff_secs
backoff_secs-bounds poll failures more small le =
    let e1 = no_wrap poll failures small in
    let e2 = no_wrap poll more small in
    let grow : 2 ^ min failures 6 ≤ 2 ^ min more 6 =
      pow-le-pow_right (omega arith) {i = min failures 6} {j = min more 6} (omega arith) in
    let larger : poll * 2 ^ min failures 6 ≤ poll * 2 ^ min more 6 = mul-le-mul_left poll grow in
    let some_time : 1 ≤ 2 ^ min failures 6 = one-le-pow (min failures 6) 2 (omega arith) in
    let kept : poll * 1 ≤ poll * 2 ^ min failures 6 = mul-le-mul_left poll some_time in
    rw e1 (
      rw e2 (
        omega arith,
        omega (arith, kept),
        omega (arith, larger),
        elim (Bool-cases (leb 6 failures)) [
          | inl six ↦
              let same_power : min failures 6 ≡ min more 6 = ground arith in
              inr (rw same_power refl)
          | inr few ↦ inl (ground arith)
        ],
      ))

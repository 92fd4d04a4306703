-- ===== src/Tests/Access.antt =====
-- The theorems on addresses and the rate limiter, at concrete inputs.
use Prim.Native.Nat.{min}
use amail_bridge.Common.{◌≡◌, ◌↔◌, ◌≤◌, ◌*◌, refl, list_eq, nat_eq, true, [], ◌∷◌, arith}
use amail_bridge.Std.Dict
use amail_bridge.Std.Ip.{v4, ip_eq}
use amail_bridge.Security.{ip_matches}
use amail_bridge.Security.Cidr.{InNetwork, ip_matches_iff}
use amail_bridge.Push.RateLimit.{IpRateLimiter, new_limiter, check, step}
use amail_bridge.Push.RateLimit.Burst.{check_all, admitted-le}
use amail_bridge.Push.RateLimit.Window.{Requests, admitted, requests_of, admitted-new_limiter}

ip_matches_iff_example :
    (ip_matches (v4 3232235826) (v4 3232235776) 24 ≡ true)
    ↔ InNetwork (v4 3232235826) (v4 3232235776) 24
ip_matches_iff_example =
    ip_matches_iff (v4 3232235826) (v4 3232235776) 24 (omega arith) (omega arith) (omega arith)

abbrev burst : Requests
burst = (v4 1, 5) ∷ (v4 2, 6) ∷ (v4 1, 7) ∷ (v4 1, 8) ∷ []

admitted-new_limiter_example :
    admitted (v4 1) burst (new_limiter 2) ≡ min 2 (requests_of (v4 1) burst)
admitted-new_limiter_example = admitted-new_limiter (v4 1) 5 2 burst (omega arith) (
  (omega arith, omega arith),
  ((omega arith, omega arith), ((omega arith, omega arith), ((omega arith, omega arith), tt))),
)

-- The end of one window, and the requests of the next within the same second.
abbrev around_the_end : Requests
around_the_end =
    (v4 1, 900_000_000) ∷ (v4 1, 900_000_001) ∷ (v4 1, 1_001_000_005) ∷ (v4 1, 1_001_000_006) ∷ []

admitted-le_example :
    admitted (v4 1) around_the_end (check_all ((v4 1, 5) ∷ []) (new_limiter 2)) ≤ 2 * 2
admitted-le_example =
    admitted-le (v4 1) 2 900_000_000 ((v4 1, 5) ∷ []) around_the_end (omega arith) (
      (omega arith, omega arith),
      ((omega arith, omega arith), ((omega arith, omega arith), ((omega arith, omega arith), tt))),
    )

-- More than one quota within the second.
three_admitted : admitted (v4 1) around_the_end (check_all ((v4 1, 5) ∷ []) (new_limiter 2)) ≡ 3
unfolding admitted check_all check step new_limiter Dict.get Dict.insert Dict.retain ip_eq list_eq
    nat_eq
three_admitted = refl

abbrev used_up : IpRateLimiter
used_up = record { window = (v4 1, (5, 2)) ∷ []; max_per_sec = 2 }

-- ===== src/Vhost/Lookup.antt =====
-- src/vhost.rs: which site a request reaches.
use amail_bridge.Common.{ℕ, ◌≡◌, refl, sym, Option, some, List, [], ◌∷◌, ◌++◌, map, arith}
use amail_bridge.Std.Text.{Text, is_empty, to_lower, eq_ignore_ascii_case}
use amail_bridge.Std.Text.Laws.{Lacks, rsplit_once-append, rsplit_once-Lacks}
use amail_bridge.Vhost.{VhostRoute, route_of_host, strip_port, request_host, find_vhost}

eq_ignore_ascii_case-lower :
    (s t u : Text)
    → map to_lower s ≡ map to_lower t
    → eq_ignore_ascii_case s u ≡ eq_ignore_ascii_case t u
unfolding eq_ignore_ascii_case
eq_ignore_ascii_case-lower [] [] u h = refl
eq_ignore_ascii_case-lower [] (d ∷ t) u h = absurd (cc)
eq_ignore_ascii_case-lower (c ∷ s) [] u h = absurd (cc)
eq_ignore_ascii_case-lower (c ∷ s) (d ∷ t) [] h = refl
eq_ignore_ascii_case-lower (c ∷ s) (d ∷ t) (e ∷ u) h =
    let first : to_lower c ≡ to_lower d = cc in
    let rest : map to_lower s ≡ map to_lower t = cc in
    rw first (rw (eq_ignore_ascii_case-lower s t u rest) refl)

route_of_host-lower :
    (s t : Text) (routes : List (Text × VhostRoute))
    → map to_lower s ≡ map to_lower t
    → route_of_host s routes ≡ route_of_host t routes
unfolding route_of_host
route_of_host-lower s t [] h = refl
route_of_host-lower s t ((domain, route) ∷ routes) h =
    rw (eq_ignore_ascii_case-lower s t domain h) (rw (route_of_host-lower s t routes h) refl)

strip_port-append : (host port : Text) → Lacks b':' port → strip_port (host ++ (b':' ∷ port)) ≡ host
unfolding strip_port
strip_port-append host port h = ground (arith, rsplit_once-append b':' host port h)

strip_port-Lacks : (host : Text) → Lacks b':' host → strip_port host ≡ host
unfolding strip_port
strip_port-Lacks host h = ground (arith, rsplit_once-Lacks b':' host h)

-- The port of the host header and the case of its letters do not matter: a host that is not empty
-- and has no colon, and any text that differs from it in the case of letters only, with a port
-- behind it, reach the same site.
pub find_vhost-port :
    (c d : ℕ) (host other port : Text) (authority uri_host : Option Text)
    (routes : List (Text × VhostRoute))
    → Lacks b':' (c ∷ host)
    → Lacks b':' port
    → map to_lower (c ∷ host) ≡ map to_lower (d ∷ other)
    → find_vhost (some ((d ∷ other) ++ (b':' ∷ port))) authority uri_host routes
      ≡ find_vhost (some (c ∷ host)) authority uri_host routes
unfolding find_vhost request_host is_empty
find_vhost-port c d host other port authority uri_host routes plain portless lower =
    let with_port = strip_port-append (d ∷ other) port portless in
    let bare : strip_port (c ∷ host) ≡ c ∷ host = strip_port-Lacks (c ∷ host) plain in
    rw with_port (rw bare (sym (route_of_host-lower (c ∷ host) (d ∷ other) routes lower)))

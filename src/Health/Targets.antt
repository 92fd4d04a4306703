-- ===== src/Health/Targets.antt =====
-- src/health.rs: what is probed for a route.
use amail_bridge.Common.{
  ℕ, ◌+◌, ◌*◌, ◌-◌, ◌≡◌, refl, ◌≤◌, ◌∙◌, ap, none, some, [], ◌∷◌, ◌++◌, arith, append_assoc,
}
use amail_bridge.Std.Text.{Text, str, strip_prefix, split_at_char}
use amail_bridge.Std.Text.Laws.{Lacks, split_at_char-append, split_once-append}
use amail_bridge.Std.Number.{scan, parse_digits, parse_uint, is_digit, u16_max, show}
use amail_bridge.Router.Route.{
  ProfileRoute, legacy_path, strip_scheme, host_port, new, bracket, parse_u16,
}
use amail_bridge.Router.Address.{
  parse_u16-show, rsplit_once-host_port, host_port-Lacks_slash, strip_bracket-host_port,
}
use amail_bridge.Health.{authority_key, route_target_key, probe_parts, probe_one, Network, Counters}

scan_bracket : (limit : ℕ) (s t : Text) (n : ℕ) → scan limit (s ++ (b']' ∷ t)) n ≡ none
unfolding scan is_digit
scan_bracket limit [] t n = ground arith
scan_bracket limit (c ∷ s) t n = ground (arith, scan_bracket limit s t (n * 10 + (c - b'0')))

parse_digits_bracket : (limit : ℕ) (s t : Text) → parse_digits limit (s ++ (b']' ∷ t)) ≡ none
unfolding parse_digits
parse_digits_bracket limit [] t = scan_bracket limit [] t 0
parse_digits_bracket limit (c ∷ s) t = scan_bracket limit (c ∷ s) t 0

-- No number has a bracket in it.
parse_u16_bracket : (s t : Text) → parse_u16 (s ++ (b']' ∷ t)) ≡ none
unfolding parse_u16 parse_uint
parse_u16_bracket [] t = parse_digits_bracket u16_max [] t
parse_u16_bracket (c ∷ s) t =
    ground (arith, parse_digits_bracket u16_max s t, parse_digits_bracket u16_max (c ∷ s) t)

probe_parts_v6 :
    (a b : Text) (port : ℕ)
    → Lacks b':' a
    → probe_parts (host_port (bracket (a ++ (b':' ∷ b))) port) ≡ none
unfolding probe_parts host_port
probe_parts_v6 a b port h =
    let rest : Text = b':' ∷ show port in
    let shape : (a ++ (b':' ∷ b)) ++ (b']' ∷ rest) ≡ a ++ (b':' ∷ (b ++ (b']' ∷ rest))) =
      append_assoc a (b':' ∷ b) (b']' ∷ rest) in
    let front : ((a ++ (b':' ∷ b)) ++ (b']' ∷ [])) ++ rest ≡ (a ++ (b':' ∷ b)) ++ (b']' ∷ rest) =
      append_assoc (a ++ (b':' ∷ b)) (b']' ∷ []) rest in
    let target : b'[' ∷ (((a ++ (b':' ∷ b)) ++ (b']' ∷ [])) ++ rest)
        ≡ (b'[' ∷ a) ++ (b':' ∷ (b ++ (b']' ∷ rest))) =
      ap (λ s. b'[' ∷ s) (front ∙ shape) in
    rw target (
      ground (
        arith,
        split_once-append b':' (b'[' ∷ a) (b ++ (b']' ∷ rest)) (omega arith, h),
        parse_u16_bracket b rest,
      ))

-- For a target with an address in brackets that has a colon, as IPv6 addresses have, the round
-- makes no probe: the counters and the world stay as they are. The text is split at the first
-- colon, which stands within the address.
pub probe_one-v6 :
    (N : Network) (threshold : ℕ) (a b : Text) (port : ℕ) (state : Counters × N.World)
    → Lacks b':' a
    → let target = host_port (bracket (a ++ (b':' ∷ b))) port in
      probe_one N threshold target (probe_parts target) state ≡ state
unfolding probe_one
probe_one-v6 N threshold a b port (c, w) h = rw (probe_parts_v6 a b port h) refl

strip_scheme-new :
    (email host : Text) (port : ℕ)
    → strip_scheme (new email host port).target_url ≡ host_port host port ++ legacy_path
unfolding strip_scheme strip_prefix new
strip_scheme-new email host port = refl

route_target_key-stripped :
    (r : ProfileRoute) (authority path : Text) (rest : Text)
    → strip_scheme r.target_url ≡ rest
    → split_at_char b'/' rest ≡ (authority, path)
    → route_target_key r ≡ authority_key r.target_url authority
unfolding route_target_key
route_target_key-stripped r authority path rest e split = rw e (rw split refl)

authority_key-host_port :
    (url host : Text) (port : ℕ)
    → Lacks b'[' host
    → port ≤ u16_max
    → authority_key url (host_port host port) ≡ host_port host port
unfolding authority_key
authority_key-host_port url host port no_bracket le = ground (
  arith,
  strip_bracket-host_port host port no_bracket,
  rsplit_once-host_port host port,
  parse_u16-show port le,
)

-- A route made of a host and a 16-bit port is probed at that host and port, when the host has no
-- colon, slash or bracket.
pub route_target_key-new :
    (email host : Text) (port : ℕ)
    → Lacks b'/' host
    → Lacks b'[' host
    → Lacks b':' host
    → port ≤ u16_max
    → (route_target_key (new email host port) ≡ host_port host port)
      × (probe_parts (route_target_key (new email host port)) ≡ some (host, port))
route_target_key-new email host port no_slash no_bracket no_colon le =
    let parts =
      split_at_char-append b'/' (host_port host port) (str "webhooks/amail-inbound")
        (host_port-Lacks_slash host port no_slash) in
    let key =
      route_target_key-stripped (new email host port) (host_port host port) legacy_path
        (host_port host port ++ legacy_path) (strip_scheme-new email host port) parts in
    let authority =
      authority_key-host_port (new email host port).target_url host port no_bracket le in
    let probed : probe_parts (host_port host port) ≡ some (host, port) =
      unfold probe_parts in
      unfold host_port in
      ground (arith, split_once-append b':' host (show port) no_colon, parse_u16-show port le) in
    (key ∙ authority, rw key (rw authority probed))

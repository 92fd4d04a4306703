-- ===== src/Router/Route.antt =====
-- src/router.rs: a route, its construction from a URL or from a host and port, and the parser of
-- `host:port`.
use amail_bridge.Common.{
  ℕ, Bool, false, ◌&&◌, ◌||◌, Option, none, some, [], ◌∷◌, ◌++◌, ◌==◌, if◌then◌else◌,
}
use amail_bridge.Std.Text.{
  Text, str, is_empty, strip_prefix, starts_with, ends_with, contains_char, contains,
  split_once_text, rsplit_once, split_at_char, trim, trim_end_matches,
}
use amail_bridge.Std.Number.{parse_uint, u16_max, show}

pub record ProfileRoute : Type 0 where
  pub email : Text
  pub host : Text
  pub port : ℕ
  pub target_url : Text

abbrev pub http : Text
http = str "http://"

abbrev pub https : Text
https = str "https://"

abbrev pub legacy_path : Text
legacy_path = str "/webhooks/amail-inbound"

-- `p.parse::<u16>()`
unfoldable pub parse_u16 : Text → Option ℕ
parse_u16 = parse_uint u16_max

abbrev pub unwrap_or {ℓ} : {A : Type ℓ} → A → Option A → A
unwrap_or d none = d
unwrap_or d (some a) = a

-- The text behind the scheme. Without a scheme the text is taken as it is.
unfoldable pub strip_scheme : Text → Text
strip_scheme url = elim (strip_prefix http url) [
  | some s ↦ s
  | none ↦ elim (strip_prefix https url) [ some s ↦ s | none ↦ url ]
]

abbrev pub bracket : Text → Text
bracket s = b'[' ∷ (s ++ (b']' ∷ []))

-- Host and port of an authority, `[::1]:port` or `host:port`. The port is 80 where none is read.
unfoldable pub authority_parts : Text → Text × ℕ
authority_parts authority = elim (strip_prefix (str "[") authority) [
  | some b ↦ elim (split_once_text (str "]:") b) [
    | some (h, p) ↦ (bracket h, unwrap_or 80 (parse_u16 p))
    | none ↦ (bracket (trim_end_matches b']' b), 80)
  ]
  | none ↦ elim (rsplit_once b':' authority) [
    | some (h, p) ↦ (h, unwrap_or 80 (parse_u16 p))
    | none ↦ (authority, 80)
  ]
]

abbrev pub scheme_of : Text → Text
scheme_of url = if starts_with https url then https else http

-- `ProfileRoute::from_url`
unfoldable pub from_url : Text → Text → ProfileRoute
from_url email url =
    let u = trim url in
    let (authority, path) = split_at_char b'/' (strip_scheme u) in
    let (host, port) = authority_parts authority in
    record {
      email = email;
      host = host;
      port = port;
      target_url = scheme_of u ++ (authority ++ path);
    }

-- `host:port`
unfoldable pub host_port : Text → ℕ → Text
host_port host port = host ++ (b':' ∷ show port)

-- `ProfileRoute::new`
unfoldable pub new : Text → Text → ℕ → ProfileRoute
new email host port = record {
  email = email;
  host = host;
  port = port;
  target_url = http ++ (host_port host port ++ legacy_path);
}

-- The end of `parse_addr`: a bare port, or a bare host with the default port.
unfoldable pub bare_addr : Text → Option (Text × ℕ)
bare_addr s = elim (parse_u16 s) [
  | some port ↦ some (str "127.0.0.1", port)
  | none ↦ some (s, 8645)
]

-- `ProfileRouter::parse_addr`
unfoldable pub parse_addr : Text → Option (Text × ℕ)
parse_addr text =
    let s = trim text in
    if is_empty s then none else elim (strip_prefix (str "[") s) [
      | some rest ↦ elim (split_once_text (str "]:") rest) [
        | none ↦ none
        | some (addr, port_str) ↦ elim (parse_u16 port_str) [
          | none ↦ none
          | some port ↦ some (bracket addr, port)
        ]
      ]
      | none ↦ elim (rsplit_once b':' s) [
        | none ↦ bare_addr s
        | some (host, port_str) ↦ elim (parse_u16 port_str) [
          | some port ↦ some (host, port)
          | none ↦ bare_addr s
        ]
      ]
    ]

-- `ProfileRouter::is_regex_pattern`
unfoldable pub is_regex_char : ℕ → Bool
is_regex_char c =
    c == b'*'
    || c == b'+'
    || c == b'?'
    || c == b'['
    || c == b']'
    || c == b'('
    || c == b')'
    || c == b'^'
    || c == b'$'
    || c == b'|'
    || c == b'\\'

unfoldable pub is_regex_pattern : Text → Bool
is_regex_pattern [] = false
is_regex_pattern (c ∷ s) = is_regex_char c || is_regex_pattern s

-- A value with a `/` is a URL.
unfoldable pub is_url : Text → Bool
is_url value = contains_char b'/' value || contains (str "://") value

-- The test of `write_current_routes` for a route that is stored as `host:port`.
unfoldable pub is_legacy : ProfileRoute → Bool
is_legacy r =
    ends_with legacy_path r.target_url && starts_with (http ++ host_port r.host r.port) r.target_url

-- The value that `write_current_routes` stores for a route.
unfoldable pub persisted_value : ProfileRoute → Text
persisted_value r = if is_legacy r then host_port r.host r.port else r.target_url

-- One entry of `load_routes_file`: `none` where the loop skips it.
unfoldable pub route_of_entry : Text → Text → Option ProfileRoute
route_of_entry key text =
    let value = trim text in
    if is_url value
    then some (from_url key value)
    else elim (parse_addr value) [ some (host, port) ↦ some (new key host port) | none ↦ none ]

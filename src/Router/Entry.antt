-- ===== src/Router/Entry.antt =====
-- src/router.rs: one entry of the routes file. What `write_current_routes` stores for a route is
-- read back by `load_routes_file` as that route.
use amail_bridge.Common.{ℕ, ◌≤◌, ◌≡◌, true, false, some, ◌++◌, arith, ap, ◌∙◌, inl, inr, ◌⊎◌}
use amail_bridge.Std.Text.{Text, contains_char, trim}
use amail_bridge.Std.Text.Laws.{trim-NoSpace}
use amail_bridge.Std.Number.{u16_max}
use amail_bridge.Router.Route.{
  ProfileRoute, http, https, legacy_path, from_url, new, host_port, is_url, is_legacy,
  persisted_value, route_of_entry, scheme_of, strip_scheme,
}
use amail_bridge.Router.Address.{
  IsHost, host_port-NoSpace, host_port-Lacks_slash, parse_addr-host_port, is_url-Lacks,
  persisted_value-new,
}
use amail_bridge.Router.Url.{
  from_url-target_url, trim-target_url, target_url-from_url, scheme-cases,
}

-- The routes that a reload of the written file gives back: those of a plain host and port, and
-- those of a URL that does not look like the default endpoint of its host and port.
pub data IsPersistable (email : Text) : ProfileRoute → Type 0 where
  host_route :
      (host : Text) (port : ℕ)
      → IsHost host
      → port ≤ u16_max
      → IsPersistable email (new email host port)
  url_route :
      (url : Text)
      → is_legacy (from_url email url) ≡ false
      → IsPersistable email (from_url email url)

is_url_with_scheme :
    (scheme rest : Text) → (scheme ≡ http) ⊎ (scheme ≡ https) → is_url (scheme ++ rest) ≡ true
unfolding is_url contains_char
is_url_with_scheme scheme rest (inl e) = rw e
is_url_with_scheme scheme rest (inr e) = rw e

pub is_url-target_url : (email url : Text) → is_url (from_url email url).target_url ≡ true
is_url-target_url email url =
    ap is_url (target_url-from_url email url)
    ∙ is_url_with_scheme (scheme_of (trim url)) (strip_scheme (trim url)) (scheme-cases (trim url))

pub route_of_entry-host_port :
    (email host : Text) (port : ℕ)
    → IsHost host
    → port ≤ u16_max
    → route_of_entry email (host_port host port) ≡ some (new email host port)
unfolding route_of_entry
route_of_entry-host_port email host port h le = ground (
  arith,
  trim-NoSpace _ (host_port-NoSpace host port h.no_space),
  is_url-Lacks _ (host_port-Lacks_slash host port h.no_slash),
  parse_addr-host_port host port h le,
)

route_of_entry-target_url :
    (email url : Text)
    → route_of_entry email (from_url email url).target_url ≡ some (from_url email url)
unfolding route_of_entry
route_of_entry-target_url email url =
    ground
      (arith, trim-target_url email url, is_url-target_url email url, from_url-target_url email url)

persisted_value_of_url :
    (email url : Text)
    → is_legacy (from_url email url) ≡ false
    → persisted_value (from_url email url) ≡ (from_url email url).target_url
unfolding persisted_value
persisted_value_of_url email url h = rw h

-- The stored value of a persistable route is read as that route.
pub route_of_entry-persisted_value :
    (email : Text) {route : ProfileRoute}
    → IsPersistable email route
    → route_of_entry email (persisted_value route) ≡ some route
route_of_entry-persisted_value email (host_route host port h le) =
    ap (route_of_entry email) (persisted_value-new email host port)
    ∙ route_of_entry-host_port email host port h le
route_of_entry-persisted_value email (url_route url h) =
    ap (route_of_entry email) (persisted_value_of_url email url h)
    ∙ route_of_entry-target_url email url

-- A URL whose path only ends like the default endpoint.
abbrev pub deep_url : Text → ℕ → Text → Text
deep_url host port path = http ++ (host_port host port ++ (path ++ legacy_path))

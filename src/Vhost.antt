-- ===== src/Vhost.antt =====
-- src/vhost.rs: the virtual hosts. The file system and the paths are parameters; the reverse
-- proxy is not modelled.
pub mod Lookup
pub mod Files
pub mod Proxy
use amail_bridge.Common.{
  ℕ, Bool, true, false, Option, none, some, List, [], ◌∷◌, ◌++◌, ◌||◌, if◌then◌else◌, same, list_eq,
  nat_eq,
}
use amail_bridge.Std.Text.{
  Text, str, is_empty, ends_with, contains, rsplit_once, trim_start_matches, eq_ignore_ascii_case,
}
use amail_bridge.Router.Route.{unwrap_or}
use amail_bridge.Config.{VhostSiteConfig}
use amail_bridge.Push.Access.{keep_some}
use amail_bridge.Push.Webhook.{or_else_option}

-- The operations on paths and files.
pub record FileSystem : Type 0 where
  pub exists : Text → Bool
  pub join : Text → Text → Text
  pub path_starts_with : Text → Text → Bool
  pub read : Text → Option Text

pub data VhostRoute : Type 0 where
  static_dir : Text → VhostRoute
  proxy_to : Text → VhostRoute
  redirect_to : Text → VhostRoute

-- The route of a site; `client_built` is whether the HTTP client of a proxy could be made.
unfoldable pub site_route :
    FileSystem → Bool → Option Text → Option Text → Option Text → Option VhostRoute
site_route F client_built (some root) none none =
    if F.exists root then some (static_dir root) else none
site_route F client_built none (some proxy) none =
    if client_built then some (proxy_to (str "http://" ++ proxy)) else none
site_route F client_built none none (some redirect) = some (redirect_to redirect)
site_route F client_built none none none = none
site_route F client_built none (some proxy) (some redirect) = none
site_route F client_built (some root) none (some redirect) = none
site_route F client_built (some root) (some proxy) none = none
site_route F client_built (some root) (some proxy) (some redirect) = none

abbrev pub with_domain : Text → Option VhostRoute → Option (Text × VhostRoute)
with_domain domain none = none
with_domain domain (some route) = some (domain, route)

-- `build_routes`
unfoldable pub build_routes : FileSystem → Bool → List VhostSiteConfig → List (Text × VhostRoute)
build_routes F client_built [] = []
build_routes F client_built (cfg ∷ configs) =
    keep_some (with_domain cfg.domain (site_route F client_built cfg.root cfg.proxy cfg.redirect))
      (build_routes F client_built configs)

-- The first route whose domain is the host, in any case.
unfoldable pub route_of_host : Text → List (Text × VhostRoute) → Option VhostRoute
route_of_host host [] = none
route_of_host host ((domain, route) ∷ routes) =
    let rest = route_of_host host routes in
    if eq_ignore_ascii_case host domain then some route else rest

-- A host header without its port.
unfoldable pub strip_port : Text → Text
strip_port s = elim (rsplit_once b':' s) [ none ↦ s | some (name, _) ↦ name ]

-- The host of a request: the `host` header, else `:authority`; nothing counts as empty.
unfoldable pub request_host : Option Text → Option Text → Text
request_host host authority = elim (or_else_option host authority) [
  | none ↦ []
  | some s ↦ strip_port s
]

-- `find_vhost`, of the two headers as far as they are texts and of the URI's host.
unfoldable pub find_vhost :
    Option Text → Option Text → Option Text → List (Text × VhostRoute) → Option VhostRoute
find_vhost host authority uri_host routes =
    if is_empty (request_host host authority)
    then elim uri_host [ none ↦ none | some h ↦ route_of_host h routes ]
    else route_of_host (request_host host authority) routes

pub record FileResponse : Type 0 where
  pub status : ℕ
  pub content_type : Option Text
  pub body : Text

abbrev pub html : Text
html = str "text/html; charset=utf-8"

unfoldable pub mime_type : Text → Text
mime_type path =
    if ends_with (str ".html") path
    then html
    else if ends_with (str ".css") path
    then str "text/css; charset=utf-8"
    else if ends_with (str ".js") path
    then str "application/javascript"
    else str "application/octet-stream"

abbrev pub plain : ℕ → Text → FileResponse
plain status body = record { status = status; content_type = none; body = body }

-- The file of a path, or else `index.html`.
unfoldable pub serve_file : FileSystem → Text → Text → FileResponse
serve_file F root path = elim (F.read path) [
  | some body ↦ record { status = 200; content_type = some (mime_type path); body = body }
  | none ↦ elim (F.read (F.join root (str "index.html"))) [
    | some body ↦ record { status = 200; content_type = some html; body = body }
    | none ↦ plain 404 (str "not found")
  ]
]

-- The path of a file, behind the first test of `handle_vhost`.
unfoldable pub file_path : FileSystem → Text → Text → Text
file_path F root path =
    if same path (str "/") || is_empty path
    then F.join root (str "index.html")
    else F.join root (trim_start_matches b'/' path)

-- `handle_vhost` for a directory.
unfoldable pub handle_static : FileSystem → Text → Text → FileResponse
handle_static F root path =
    if contains (str "..") (trim_start_matches b'/' path)
    then plain 403 (str "forbidden")
    else if F.path_starts_with root (file_path F root path)
    then serve_file F root (file_path F root path)
    else plain 403 (str "forbidden")

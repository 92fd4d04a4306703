-- ===== src/Vhost/Proxy.antt =====
-- src/vhost.rs: the reverse proxy, and `handle_vhost` as a whole; src/push.rs: the fallback that
-- calls it. The header map of http and the HTTP client of reqwest are parameters; an address of a
-- client is given by its text.
use amail_bridge.Common.{
  ℕ, ◌*◌, ◌≡◌, refl, ap, ◌∙◌, Bool, false, ◌||◌, Option, none, some, List, [], ◌∷◌, ◌++◌, map,
  arith, same, if◌then◌else◌, list_eq, nat_eq,
}
use amail_bridge.Std.Text.{Text, str, to_lower}
use amail_bridge.Router.Route.{unwrap_or}
use amail_bridge.Vhost.{
  FileSystem, VhostRoute, static_dir, proxy_to, redirect_to, FileResponse, handle_static,
  find_vhost, plain,
}

-- `http::HeaderMap`, with names in lower case: `insert` replaces every value of the name, `remove`
-- drops every one.
pub record Headers : Type 1 where
  pub Map : Type 0
  pub Value : Type 0
  pub get : Text → Map → Option Value
  pub insert : Text → Value → Map → Map
  pub remove : Text → Map → Map
  pub entries : Map → List (Text × Value)
  pub to_str : Value → Option Text
  pub from_str : Text → Option Value
  pub from_static : Text → Value

-- What http documents of these operations.
pub record HeaderLaws (L : Headers) : Type 0 where
  pub get-insert :
      (j k : Text) (v : L.Value) (m : L.Map)
      → L.get j (L.insert k v m) ≡ (if same j k then some v else L.get j m)
  pub get-remove :
      (j k : Text) (m : L.Map) → L.get j (L.remove k m) ≡ (if same j k then none else L.get j m)

-- What a proxy takes from axum and reqwest: the collection of a body up to a limit, and the client
-- with the response of the backend, its headers and body, or an error.
pub record ProxyClient (Map Value : Type 0) : Type 1 where
  pub to_bytes : ℕ → Text → Option Text
  pub World : Type 0
  pub send : Text → Text → Map → Text → World → Option (ℕ × (List (Text × Value) × Text)) × World

-- The headers that are not copied from a backend's response.
unfoldable pub is_hop_by_hop : Text → Bool
is_hop_by_hop key =
    same key (str "transfer-encoding")
    || same key (str "connection")
    || same key (str "keep-alive")
    || same key (str "proxy-authenticate")
    || same key (str "proxy-authorization")
    || same key (str "te")
    || same key (str "trailer")
    || same key (str "upgrade")

unfoldable pub copy_headers : {V : Type 0} → List (Text × V) → List (Text × V)
copy_headers [] = []
copy_headers ((k, v) ∷ headers) =
    let rest = copy_headers headers in
    if is_hop_by_hop (map to_lower k) then rest else (k, v) ∷ rest

abbrev pub text_or {ℓ} : {V : Type ℓ} → (V → Option Text) → Option V → Option Text
text_or to_str none = none
text_or to_str (some v) = to_str v

-- A request as far as the virtual hosts read it.
pub record VhostRequest (Map : Type 0) : Type 0 where
  pub method : Text
  pub path : Text
  pub path_and_query : Option Text
  pub uri_host : Option Text
  pub headers : Map
  pub body : Text

module _ (L : Headers) where
  abbrev value_or_unknown : Option L.Value → L.Value
  value_or_unknown none = L.from_static (str "unknown")
  value_or_unknown (some v) = v

  -- The host that the client asked for.
  unfoldable pub original_host : L.Map → Text
  original_host headers = unwrap_or [] (text_or L.to_str (L.get (str "host") headers))

  unfoldable pub forwarded_host : L.Map → L.Value
  forwarded_host headers = value_or_unknown (L.from_str (original_host headers))

  unfoldable pub forwarded_for : Option Text → L.Value
  forwarded_for client_ip = value_or_unknown (L.from_str (unwrap_or (str "unknown") client_ip))

  -- The headers of the request to the backend.
  unfoldable pub proxy_headers : Option Text → L.Map → L.Map
  proxy_headers client_ip headers = L.insert (str "x-forwarded-for") (forwarded_for client_ip) (
      L.insert (str "x-forwarded-proto") (L.from_static (str "https")) (
        L.insert (str "x-forwarded-host") (forwarded_host headers) (L.remove (str "host") headers)))

  -- The names that the proxy sets or drops.
  abbrev pub is_own : Text → Bool
  is_own name =
      same name (str "x-forwarded-for")
      || same name (str "x-forwarded-proto")
      || same name (str "x-forwarded-host")
      || same name (str "host")

  -- The backend sees this request's host, where it is a text, in `x-forwarded-host` and its
  -- client's address in `x-forwarded-for`, whatever the client wrote into those headers, always the
  -- scheme https, and no `host`; every other header goes through as it is.
  pub proxy_headers_lem :
      (laws : HeaderLaws L) (ip host : Text) (headers : L.Map) (v host' ip' : L.Value)
      → L.get (str "host") headers ≡ some v
      → L.to_str v ≡ some host
      → L.from_str host ≡ some host'
      → L.from_str ip ≡ some ip'
      → let sent = proxy_headers (some ip) headers in
        (L.get (str "x-forwarded-for") sent ≡ some ip')
        × (L.get (str "x-forwarded-proto") sent ≡ some (L.from_static (str "https")))
        × (L.get (str "x-forwarded-host") sent ≡ some host')
        × (L.get (str "host") sent ≡ none)
        × ((name : Text) → is_own name ≡ false → L.get name sent ≡ L.get name headers)
  unfolding proxy_headers list_eq nat_eq
  proxy_headers_lem laws ip host headers v host' ip' there reads shown addressed =
      let client = some ip in
      let h1 = L.remove (str "host") headers in
      let h2 = L.insert (str "x-forwarded-host") (forwarded_host headers) h1 in
      let h3 = L.insert (str "x-forwarded-proto") (L.from_static (str "https")) h2 in
      let last =
        λ (name : Text). laws.get-insert name (str "x-forwarded-for") (forwarded_for client) h3 in
      let proto = λ (name : Text).
        laws.get-insert name (str "x-forwarded-proto") (L.from_static (str "https")) h2 in
      let named = λ (name : Text).
        laws.get-insert name (str "x-forwarded-host") (forwarded_host headers) h1 in
      let off = λ (name : Text). laws.get-remove name (str "host") headers in
      let own_ip : forwarded_for client ≡ ip' = unfold forwarded_for in rw addressed refl in
      let own_host : forwarded_host headers ≡ host' =
        unfold forwarded_host original_host in rw there (rw reads (rw shown refl)) in
      (
        last _ ∙ ap some own_ip,
        last _ ∙ proto _,
        last _ ∙ proto _ ∙ named _ ∙ ap some own_host,
        last _ ∙ proto _ ∙ named _ ∙ off _,
        λ name other. ground (arith, last name, proto name, named name, off name),
      )

  pub data VhostResponse : Type 0 where
    file_response : FileResponse → VhostResponse
    permanent_redirect : Text → VhostResponse
    proxy_response : ℕ → List (Text × L.Value) → Text → VhostResponse

  module _ (F : FileSystem) (P : ProxyClient L.Map L.Value) where
    -- The body that is forwarded: nothing where it cannot be collected.
    unfoldable pub body_within : ℕ → Text → Text
    body_within body_limit_mb body = unwrap_or [] (P.to_bytes (body_limit_mb * 1024 * 1024) body)

    abbrev relay_back :
        Option (ℕ × (List (Text × L.Value) × Text)) × P.World → VhostResponse × P.World
    relay_back (some (status, (headers, body)), w) =
        (proxy_response status (copy_headers headers) body, w)
    relay_back (none, w) = (file_response (plain 502 (str "bad gateway")), w)

    unfoldable pub handle_proxy :
        ℕ → Option Text → Text → VhostRequest L.Map → P.World → VhostResponse × P.World
    handle_proxy body_limit_mb client_ip backend req w = relay_back (
        P.send req.method (backend ++ unwrap_or (str "/") req.path_and_query)
          (proxy_headers client_ip req.headers) (body_within body_limit_mb req.body) w)

    -- `handle_vhost`
    unfoldable pub handle_vhost :
        ℕ → Option Text → VhostRoute → VhostRequest L.Map → P.World → VhostResponse × P.World
    handle_vhost limit client_ip (redirect_to url) req w = (permanent_redirect url, w)
    handle_vhost limit client_ip (static_dir root) req w =
        (file_response (handle_static F root req.path), w)
    handle_vhost limit client_ip (proxy_to backend) req w =
        handle_proxy limit client_ip backend req w

    unfoldable pub serve_route :
        ℕ → Option Text → Option VhostRoute → VhostRequest L.Map → P.World → VhostResponse × P.World
    serve_route limit client_ip none req w = (file_response (plain 404 (str "not found")), w)
    serve_route limit client_ip (some route) req w = handle_vhost limit client_ip route req w

    -- The fallback of `build_push_router`.
    unfoldable pub vhost_fallback :
        ℕ
        → Option Text
        → List (Text × VhostRoute)
        → VhostRequest L.Map
        → P.World
        → VhostResponse × P.World
    vhost_fallback limit client_ip routes req w =
        serve_route limit client_ip
          (find_vhost (text_or L.to_str (L.get (str "host") req.headers))
            (text_or L.to_str (L.get (str ":authority") req.headers)) req.uri_host routes)
          req w

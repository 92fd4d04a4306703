-- ===== src/Router/Custom.antt =====
-- src/router.rs: URLs of a plain `host:port` authority: what `from_url` makes of them, and what
-- becomes of a custom path that ends like the default endpoint.
use amail_bridge.Common.{
  ℕ, ◌≤◌, ◌≡◌, refl, ◌≢◌, ap, ◌∙◌, true, some, ◌∷◌, ◌++◌, arith, All-append, append_assoc, length,
  length-append,
}
use amail_bridge.Std.Text.{Text, is_whitespace}
use amail_bridge.Std.Text.Laws.{
  NoSpace, trim-NoSpace, ends_with-append, starts_with-append, split_at_char-append,
}
use amail_bridge.Std.Number.{u16_max}
use amail_bridge.Router.Route.{
  ProfileRoute, http, https, legacy_path, from_url, new, host_port, is_legacy, persisted_value,
  route_of_entry, scheme_of, strip_scheme,
}
use amail_bridge.Router.Address.{
  IsHost, host_port-NoSpace, host_port-Lacks_slash, authority_parts-host_port,
}
use amail_bridge.Router.Url.{
  from_url-eq, route_of_parts, http-NoSpace, scheme_of-http, strip_scheme-http, https-NoSpace,
  scheme_of-https, strip_scheme-https,
}
use amail_bridge.Router.Entry.{route_of_entry-host_port}

-- `host:port/path`
abbrev pub url_rest : Text → ℕ → Text → Text
url_rest host port path = host_port host port ++ (b'/' ∷ path)

-- The route that keeps a URL verbatim.
abbrev pub verbatim : Text → Text → ℕ → Text → ProfileRoute
verbatim email host port url = record { email = email; host = host; port = port; target_url = url }

module _ (email host : Text) (port : ℕ) (path : Text) (ok : IsHost host) (le : port ≤ u16_max)
    (no_space : NoSpace path) where
  rest-NoSpace : NoSpace (url_rest host port path)
  unfolding is_whitespace
  rest-NoSpace =
      All-append _ (host_port host port) (b'/' ∷ path) (host_port-NoSpace host port ok.no_space)
        (refl, no_space)

  route_of_parts-plain :
      (scheme : Text)
      → route_of_parts email scheme (url_rest host port path) ≡ record {
        email = email;
        host = host;
        port = port;
        target_url = scheme ++ (url_rest host port path);
      }
  route_of_parts-plain scheme = ground (
    arith,
    split_at_char-append b'/' (host_port host port) path
        (host_port-Lacks_slash host port ok.no_slash),
    authority_parts-host_port host port ok.no_bracket le,
  )

  from_url-http :
      from_url email (http ++ (url_rest host port path))
      ≡ verbatim email host port (http ++ url_rest host port path)
  from_url-http =
      let t =
        trim-NoSpace (http ++ (url_rest host port path))
          (All-append _ http (url_rest host port path) http-NoSpace rest-NoSpace) in
      from_url-eq email (http ++ (url_rest host port path)) http (url_rest host port path)
        (ap scheme_of t ∙ scheme_of-http (url_rest host port path))
        (ap strip_scheme t ∙ strip_scheme-http (url_rest host port path))
      ∙ route_of_parts-plain http

  from_url-https :
      from_url email (https ++ (url_rest host port path))
      ≡ verbatim email host port (https ++ url_rest host port path)
  from_url-https =
      let t =
        trim-NoSpace (https ++ (url_rest host port path))
          (All-append _ https (url_rest host port path) https-NoSpace rest-NoSpace) in
      from_url-eq email (https ++ (url_rest host port path)) https (url_rest host port path)
        (ap scheme_of t ∙ scheme_of-https (url_rest host port path))
        (ap strip_scheme t ∙ strip_scheme-https (url_rest host port path))
      ∙ route_of_parts-plain https

  -- An `http` or `https` URL with a host, a port and a path is kept verbatim, and its host and port
  -- are read, for a plain host, a 16-bit port and a path without white space.
  pub from_url_plain :
      (from_url email (http ++ url_rest host port path)
        ≡ verbatim email host port (http ++ url_rest host port path))
      × (from_url email (https ++ url_rest host port path)
          ≡ verbatim email host port (https ++ url_rest host port path))
  from_url_plain = (from_url-http, from_url-https)

-- A URL whose path is longer than the default one and ends with it.
abbrev pub deep_path : Text → Text
deep_path p = p ++ legacy_path

module _ (email host : Text) (port : ℕ) (p : Text) where
  abbrev deep_route : ProfileRoute
  deep_route = verbatim email host port (http ++ url_rest host port (deep_path p))

  is_legacy_deep : is_legacy deep_route ≡ true
  unfolding is_legacy
  is_legacy_deep = ground (
    arith,
    append_assoc (http ++ host_port host port) (b'/' ∷ p) legacy_path,
    ends_with-append ((http ++ host_port host port) ++ (b'/' ∷ p)) legacy_path,
    starts_with-append (http ++ host_port host port) (b'/' ∷ (p ++ legacy_path)),
    append_assoc http (host_port host port) (b'/' ∷ (p ++ legacy_path)),
  )

  persisted_value_deep : persisted_value deep_route ≡ host_port host port
  unfolding persisted_value
  persisted_value_deep = rw is_legacy_deep

  new-ne-deep : (new email host port).target_url ≢ deep_route.target_url
  unfolding new
  new-ne-deep e = omega (
    arith,
    ap length e,
    length-append http (host_port host port ++ legacy_path),
    length-append (host_port host port) legacy_path,
    length-append http (url_rest host port (deep_path p)),
    length-append (host_port host port) (b'/' ∷ deep_path p),
    length-append p legacy_path,
  )

-- A custom `http` URL of a plain host and a 16-bit port whose path ends like the default endpoint
-- does not survive a restart: the route of the URL is the URL verbatim, and what is stored for it
-- is read back as the default endpoint, which is another URL.
pub deep_url_lost :
    (email host : Text) (port : ℕ) (p : Text)
    → IsHost host
    → port ≤ u16_max
    → NoSpace (deep_path p)
    → let route = from_url email (http ++ url_rest host port (deep_path p)) in
      let reloaded = new email host port in
      (route ≡ verbatim email host port (http ++ url_rest host port (deep_path p)))
      × (route_of_entry email (persisted_value route) ≡ some reloaded)
      × (reloaded.target_url ≢ route.target_url)
deep_url_lost email host port p ok le no_space =
    let e = (from_url_plain email host port (deep_path p) ok le no_space).0 in
    (
      e,
      ap (λ r. route_of_entry email (persisted_value r)) e
          ∙ ap (route_of_entry email) (persisted_value_deep email host port p)
          ∙ route_of_entry-host_port email host port ok le,
      λ same_url. new-ne-deep email host port p (same_url ∙ ap (λ r. r.target_url) e),
    )

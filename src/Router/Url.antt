-- ===== src/Router/Url.antt =====
-- src/router.rs: what `from_url` keeps of a URL.
use amail_bridge.Common.{
  ◌≡◌, refl, sym, ap, ◌∙◌, ◌⊎◌, inl, inr, some, [], ◌∷◌, ◌++◌, arith, Option-cases, Bool-cases,
}
use amail_bridge.Std.Text.{
  Text, str, strip_prefix, starts_with, split_at_char, trim, trim_end_by, is_whitespace,
}
use amail_bridge.Std.Text.Laws.{NoSpace, append-split_at_char}
use amail_bridge.Std.Text.Trim.{trim_end_suffix, trim-append, trim_end-trim}
use amail_bridge.Router.Route.{
  ProfileRoute, http, https, strip_scheme, scheme_of, authority_parts, from_url,
}

append_of_strip_prefix : (p s t : Text) → strip_prefix p s ≡ some t → p ++ t ≡ s
unfolding strip_prefix
append_of_strip_prefix [] s t h = ground arith
append_of_strip_prefix (c ∷ p) [] t h = cc
append_of_strip_prefix (c ∷ p) (d ∷ s) t h = ground (arith, append_of_strip_prefix p s t)

-- What `strip_scheme` leaves is an end of the text.
strip_scheme_suffix : (u : Text) → (a : Text) × (a ++ strip_scheme u ≡ u)
unfolding strip_scheme
strip_scheme_suffix u = elim (Option-cases (strip_prefix http u)) [
  | inr (s, e) ↦ (http, ground (arith, append_of_strip_prefix http u s e))
  | inl none_http ↦ elim (Option-cases (strip_prefix https u)) [
    | inr (s, e) ↦ (https, ground (arith, append_of_strip_prefix https u s e))
    | inl none_https ↦ ([], ground arith)
  ]
]

-- The parts that `from_url` is made of.
abbrev pub route_of_parts : Text → Text → Text → ProfileRoute
route_of_parts email scheme rest =
    let (authority, path) = split_at_char b'/' rest in
    let (host, port) = authority_parts authority in
    record { email = email; host = host; port = port; target_url = scheme ++ (authority ++ path) }

pub target_url-from_url :
    (email url : Text)
    → (from_url email url).target_url ≡ scheme_of (trim url) ++ strip_scheme (trim url)
unfolding from_url
target_url-from_url email url = rw (append-split_at_char b'/' (strip_scheme (trim url)))

pub scheme-cases : (u : Text) → (scheme_of u ≡ http) ⊎ (scheme_of u ≡ https)
scheme-cases u = elim (Bool-cases (starts_with https u)) [ inl h ↦ inr (rw h) | inr h ↦ inl (rw h) ]

pub strip_scheme-http : (rest : Text) → strip_scheme (http ++ rest) ≡ rest
unfolding strip_scheme strip_prefix
strip_scheme-http rest = refl

pub strip_scheme-https : (rest : Text) → strip_scheme (https ++ rest) ≡ rest
unfolding strip_scheme strip_prefix
strip_scheme-https rest = refl

pub scheme_of-http : (rest : Text) → scheme_of (http ++ rest) ≡ http
unfolding starts_with
scheme_of-http rest = refl

pub scheme_of-https : (rest : Text) → scheme_of (https ++ rest) ≡ https
unfolding starts_with
scheme_of-https rest = refl

pub http-NoSpace : NoSpace http
unfolding is_whitespace
http-NoSpace = ground arith

pub https-NoSpace : NoSpace https
unfolding is_whitespace
https-NoSpace = ground arith

-- A scheme in front of a rest with a trimmed end is taken apart again.
pub url_parts :
    (scheme rest : Text)
    → (scheme ≡ http) ⊎ (scheme ≡ https)
    → trim_end_by is_whitespace rest ≡ rest
    → (trim (scheme ++ rest) ≡ scheme ++ rest)
      × (scheme_of (scheme ++ rest) ≡ scheme)
      × (strip_scheme (scheme ++ rest) ≡ rest)
url_parts scheme rest (inl e) h = rw e (
  trim-append b'h' (str "ttp://") rest http-NoSpace h,
  scheme_of-http rest,
  strip_scheme-http rest,
)
url_parts scheme rest (inr e) h = rw e (
  trim-append b'h' (str "ttps://") rest https-NoSpace h,
  scheme_of-https rest,
  strip_scheme-https rest,
)

trim_end-strip_scheme :
    (url : Text) → trim_end_by is_whitespace (strip_scheme (trim url)) ≡ strip_scheme (trim url)
trim_end-strip_scheme url =
    let (a, e) = strip_scheme_suffix (trim url) in
    trim_end_suffix is_whitespace a _ (rw e (trim_end-trim url))

-- A route depends on the URL by its scheme and its rest alone.
pub from_url-eq :
    (email url scheme rest : Text)
    → scheme_of (trim url) ≡ scheme
    → strip_scheme (trim url) ≡ rest
    → from_url email url ≡ route_of_parts email scheme rest
unfolding from_url
from_url-eq email url scheme rest p q = λ i. route_of_parts email (p i) (q i)

-- The target URL of a route, read again, gives the route again: host, port and path are kept.
pub from_url-target_url :
    (email url : Text) → from_url email (from_url email url).target_url ≡ from_url email url
from_url-target_url email url =
    let scheme = scheme_of (trim url) in
    let rest = strip_scheme (trim url) in
    let (t, s, r) = url_parts scheme rest (scheme-cases (trim url)) (trim_end-strip_scheme url) in
    ap (from_url email) (target_url-from_url email url)
    ∙ from_url-eq email (scheme ++ rest) scheme rest (ap scheme_of t ∙ s) (ap strip_scheme t ∙ r)
    ∙ sym (from_url-eq email url scheme rest refl refl)

-- The target URL has no white space around it.
pub trim-target_url :
    (email url : Text) → trim (from_url email url).target_url ≡ (from_url email url).target_url
trim-target_url email url =
    let e = target_url-from_url email url in
    let (t, _, _) =
      url_parts (scheme_of (trim url)) (strip_scheme (trim url)) (scheme-cases (trim url))
        (trim_end-strip_scheme url) in
    ap trim e ∙ t ∙ sym e

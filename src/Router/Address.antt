-- ===== src/Router/Address.antt =====
-- src/router.rs: texts of the shape `host:port`, which the parsers read back.
use amail_bridge.Common.{
  ℕ, ◌≤◌, ◌≡◌, refl, true, false, some, none, [], ◌∷◌, ◌++◌, arith, All-map, All-append,
  append_assoc, ◌⊎◌, inl, inr,
}
use amail_bridge.Std.Text.{
  Text, str, is_empty, strip_prefix, starts_with, contains_char, contains, rsplit_once,
  is_whitespace,
}
use amail_bridge.Std.Text.Laws.{
  Lacks, NoSpace, contains_char-Lacks, rsplit_once-append, trim-NoSpace, ends_with-append,
  starts_with-append,
}
use amail_bridge.Std.Number.{show, u16_max}
use amail_bridge.Std.Number.RoundTrip.{show-IsDigit, parse_uint-show}
use amail_bridge.Router.Route.{
  http, legacy_path, parse_u16, authority_parts, host_port, new, parse_addr, is_url, is_legacy,
  persisted_value,
}

-- A host without white space, `/` and `[`.
pub record IsHost (host : Text) : Type 0 where
  pub no_space : NoSpace host
  pub no_slash : Lacks b'/' host
  pub no_bracket : Lacks b'[' host

show-NoSpace : (n : ℕ) → NoSpace (show n)
unfolding is_whitespace
show-NoSpace n = All-map (λ c h. ground arith) (show n) (show-IsDigit n)

show-Lacks : (c n : ℕ) → (c ≡ b':') ⊎ (c ≡ b'/') → Lacks c (show n)
show-Lacks c n e = All-map (λ d h. ground arith) (show n) (show-IsDigit n)

pub parse_u16-show : (n : ℕ) → n ≤ u16_max → parse_u16 (show n) ≡ some n
unfolding parse_u16
parse_u16-show n h = parse_uint-show u16_max n h

pub host_port-NoSpace : (host : Text) (port : ℕ) → NoSpace host → NoSpace (host_port host port)
unfolding host_port is_whitespace
host_port-NoSpace host port h = All-append _ host (b':' ∷ show port) h (refl, show-NoSpace port)

pub host_port-Lacks_slash :
    (host : Text) (port : ℕ) → Lacks b'/' host → Lacks b'/' (host_port host port)
unfolding host_port
host_port-Lacks_slash host port h =
    All-append _ host (b':' ∷ show port) h (omega arith, show-Lacks b'/' port (inr refl))

pub rsplit_once-host_port :
    (host : Text) (port : ℕ) → rsplit_once b':' (host_port host port) ≡ some (host, show port)
unfolding host_port
rsplit_once-host_port host port =
    rsplit_once-append b':' host (show port) (show-Lacks b':' port (inl refl))

-- The text does not begin with a bracket.
pub strip_bracket-host_port :
    (host : Text) (port : ℕ) → Lacks b'[' host → strip_prefix (str "[") (host_port host port) ≡ none
unfolding host_port strip_prefix
strip_bracket-host_port [] port h = refl
strip_bracket-host_port (c ∷ host) port (hc, h) = ground arith

is_empty-host_port : (host : Text) (port : ℕ) → is_empty (host_port host port) ≡ false
unfolding host_port is_empty
is_empty-host_port [] port = refl
is_empty-host_port (c ∷ host) port = refl

-- `from_url` reads `host:port` in an authority.
pub authority_parts-host_port :
    (host : Text) (port : ℕ)
    → Lacks b'[' host
    → port ≤ u16_max
    → authority_parts (host_port host port) ≡ (host, port)
unfolding authority_parts
authority_parts-host_port host port h le = ground (
  arith,
  strip_bracket-host_port host port h,
  rsplit_once-host_port host port,
  parse_u16-show port le,
)

-- `parse_addr` reads `host:port`.
pub parse_addr-host_port :
    (host : Text) (port : ℕ)
    → IsHost host
    → port ≤ u16_max
    → parse_addr (host_port host port) ≡ some (host, port)
unfolding parse_addr
parse_addr-host_port host port h le = ground (
  arith,
  trim-NoSpace _ (host_port-NoSpace host port h.no_space),
  is_empty-host_port host port,
  strip_bracket-host_port host port h.no_bracket,
  rsplit_once-host_port host port,
  parse_u16-show port le,
)

starts_with-Lacks :
    (c : ℕ) (p s : Text) → contains_char c p ≡ true → Lacks c s → starts_with p s ≡ false
unfolding starts_with contains_char
starts_with-Lacks c [] s h k = cc
starts_with-Lacks c (d ∷ p) [] h k = refl
starts_with-Lacks c (d ∷ p) (e ∷ s) h (ke, k) = ground (arith, starts_with-Lacks c p s)

contains-Lacks : (c : ℕ) (p s : Text) → contains_char c p ≡ true → Lacks c s → contains p s ≡ false
unfolding contains
contains-Lacks c p [] h k = starts_with-Lacks c p [] h k
contains-Lacks c p (d ∷ s) h (kd, k) =
    ground (arith, starts_with-Lacks c p (d ∷ s) h (kd, k), contains-Lacks c p s h k)

-- A text without `/` is no URL.
pub is_url-Lacks : (s : Text) → Lacks b'/' s → is_url s ≡ false
unfolding is_url
is_url-Lacks s h = ground (
  arith,
  contains_char-Lacks b'/' s h,
  contains-Lacks b'/' (str "://") s (unfold contains_char in refl) h,
)

pub is_legacy-new : (email host : Text) (port : ℕ) → is_legacy (new email host port) ≡ true
unfolding is_legacy new
is_legacy-new email host port =
    rw
      (
        ← append_assoc http (host_port host port) legacy_path,
        ends_with-append (http ++ host_port host port) legacy_path,
      )
      (starts_with-append (http ++ host_port host port) legacy_path)

pub persisted_value-new :
    (email host : Text) (port : ℕ) → persisted_value (new email host port) ≡ host_port host port
unfolding persisted_value
persisted_value-new email host port = rw (is_legacy-new email host port) (unfold new in refl)

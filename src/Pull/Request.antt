-- ===== src/Pull/Request.antt =====
-- src/pull.rs: the headers of a forward, and the domains of a fetch.
use amail_bridge.Common.{
  ◌≡◌, refl, Bool, true, false, List, [], ◌∷◌, any, arith, All, All-map, same, same_refl,
  Bool-cases, inl, inr, if◌then◌else◌, list_eq, nat_eq,
}
use amail_bridge.Std.Text.{Text, str, to_lower, eq_ignore_ascii_case}
use amail_bridge.Std.Dict.{Dict}
use amail_bridge.Pull.Forward.{relay_headers}
use amail_bridge.Pull.{domains, domain_of}

abbrev is_content_type : Text → Bool
is_content_type k = eq_ignore_ascii_case k (str "content-type")

is_content_type_self : is_content_type (str "content-type") ≡ true
unfolding eq_ignore_ascii_case to_lower
is_content_type_self = refl

-- The headers whose name is `content-type`, in any case.
unfoldable pub content_types : List (Text × Text) → List (Text × Text)
content_types [] = []
content_types ((k, v) ∷ headers) =
    let rest = content_types headers in if is_content_type k then (k, v) ∷ rest else rest

-- The other headers.
unfoldable pub other_headers : List (Text × Text) → List (Text × Text)
other_headers [] = []
other_headers ((k, v) ∷ headers) =
    let rest = other_headers headers in if is_content_type k then rest else (k, v) ∷ rest

-- A forward has one `content-type`, which is the bridge's, whatever case the relay writes the
-- name in; the relay's other headers go through in their order.
pub relay_headers_lem :
    (headers : Dict Text Text)
    → (content_types (relay_headers headers) ≡ (str "content-type", str "application/json") ∷ [])
      × (other_headers (relay_headers headers) ≡ other_headers headers)
unfolding relay_headers content_types other_headers
relay_headers_lem [] = ground (arith, is_content_type_self)
relay_headers_lem ((k, v) ∷ headers) =
    let (one, others) = relay_headers_lem headers in
    elim (Bool-cases (is_content_type k)) [
      | inl e ↦ (ground arith, ground arith)
      | inr e ↦ (ground arith, ground arith)
    ]

-- No text occurs twice.
abbrev pub Nodup : List Text → Type 0
Nodup [] = Unit
Nodup (x ∷ xs) = (any (same x) xs ≡ false) × Nodup xs

-- A set of domains that has one more, if it is new.
unfoldable add_domain : Text → List Text → List Text
add_domain domain rest = if any (same domain) rest then rest else domain ∷ rest

add_domain-Nodup : (domain : Text) (rest : List Text) → Nodup rest → Nodup (add_domain domain rest)
unfolding add_domain
add_domain-Nodup domain rest once = elim (Bool-cases (any (same domain) rest)) [
  | inl e ↦ rw e once
  | inr e ↦ rw e (e, once)
]

add_domain_self :
    (domain : Text) (rest : List Text) → any (same domain) (add_domain domain rest) ≡ true
unfolding add_domain
add_domain_self domain rest = ground (arith, same_refl domain)

add_domain-any :
    (domain other : Text) (rest : List Text)
    → any (same other) rest ≡ true
    → any (same other) (add_domain domain rest) ≡ true
unfolding add_domain
add_domain-any domain other rest h = ground arith

domains-cons :
    (email : Text) (emails : List Text)
    → domains (email ∷ emails) ≡ add_domain (domain_of email) (domains emails)
unfolding domains add_domain
domains-cons email emails = refl

-- A fetch asks for each domain once, and for the domain of every routed address.
pub domains_lem :
    (emails : List Text)
    → Nodup (domains emails)
      × All (λ email. any (same (domain_of email)) (domains emails) ≡ true) emails
unfolding domains add_domain
domains_lem [] = (tt, tt)
domains_lem (email ∷ emails) =
    let (once, covered) = domains_lem emails in
    let domain = domain_of email in
    rw (domains-cons email emails) (
      add_domain-Nodup domain (domains emails) once,
      (
        add_domain_self domain (domains emails),
        All-map (λ other. add_domain-any domain (domain_of other) (domains emails)) emails covered,
      ),
    )

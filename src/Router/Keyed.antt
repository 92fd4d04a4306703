-- ===== src/Router/Keyed.antt =====
-- src/router.rs: tables that have one entry for a key, under the route's own email.
use amail_bridge.Common.{
  ℕ, ◌≡◌, refl, ◌∙◌, Option, none, some, [], ◌∷◌, arith, same, same_refl, eq_of_same, list_eq,
  nat_eq, Bool-cases, inl, inr,
}
use amail_bridge.Std.Text.{Text}
use amail_bridge.Std.Dict
use amail_bridge.Std.Dict.{
  Dict, NodupKeys, get-cons, get-insert, get-remove, insert-NodupKeys, remove-NodupKeys,
}
use amail_bridge.Router.Route.{
  ProfileRoute, new, from_url, route_of_entry, is_regex_pattern, is_url,
}
use amail_bridge.Router.Table.{first_pass, build_overrides, add_entry, parsed_overrides}
use amail_bridge.Router.Update.{route_for}

-- Every route is stored under its own email.
abbrev pub IsKeyed : Dict Text ProfileRoute → Type 0
IsKeyed d = (k : Text) (route : ProfileRoute) → Dict.get k d ≡ some route → route.email ≡ k

-- A table that has one entry for a key, under the route's own email.
pub record IsTable (d : Dict Text ProfileRoute) : Type 0 where
  pub nodup : NodupKeys d
  pub keyed : IsKeyed d

pub nil-IsTable : IsTable []
nil-IsTable = record { nodup = tt; keyed = λ k route h. unfold Dict.get in absurd (cc) }

pub insert-IsTable :
    (k : Text) (route : ProfileRoute) (d : Dict Text ProfileRoute)
    → route.email ≡ k
    → IsTable d
    → IsTable (Dict.insert k route d)
insert-IsTable k route d e t = record {
  nodup = insert-NodupKeys k route d t.nodup;
  keyed = λ j found h. elim (Bool-cases (same j k)) [
    | inl s ↦ ground (arith, s, h, e, get-insert j k route d, eq_of_same j k s)
    | inr s ↦ t.keyed j found (ground (arith, s, h, get-insert j k route d))
  ];
}

pub remove-IsTable : (k : Text) (d : Dict Text ProfileRoute) → IsTable d → IsTable (Dict.remove k d)
remove-IsTable k d t = record {
  nodup = remove-NodupKeys k d t.nodup;
  keyed = λ j found h. t.keyed j found (ground (arith, h, get-remove j k d));
}

pub route_of_entry-email :
    (key value : Text) (route : ProfileRoute)
    → route_of_entry key value ≡ some route
    → route.email ≡ key
unfolding route_of_entry from_url new
route_of_entry-email key value route h = ground arith

pub route_for-email :
    (email host_or_url : Text) (port : ℕ) → (route_for email host_or_url port).email ≡ email
unfolding from_url new
route_for-email email host_or_url port = elim (Bool-cases (is_url host_or_url)) [
  | inl e ↦ rw e refl
  | inr e ↦ rw e refl
]

pub head-IsTable :
    (k : Text) (route : ProfileRoute) (d : Dict Text ProfileRoute)
    → IsTable ((k, route) ∷ d)
    → (route.email ≡ k) × IsTable d
head-IsTable k route d t = (
  t.keyed k route (get-cons k k route d ∙ rw (same_refl k) refl),
  record {
    nodup = t.nodup.1;
    keyed = λ j found h. elim (Bool-cases (same j k)) [
      | inl s ↦ absurd (ground (arith, h, t.nodup, eq_of_same j k s))
      | inr s ↦ t.keyed j found (get-cons j k route d ∙ rw s h)
    ];
  },
)

pub first_pass-IsTable :
    (overrides routes : Dict Text ProfileRoute)
    → IsTable overrides
    → IsTable routes
    → IsTable (first_pass overrides routes)
unfolding first_pass
first_pass-IsTable [] routes o t = t
first_pass-IsTable ((key, route) ∷ overrides) routes o t =
    let (email, rest) = head-IsTable key route overrides o in
    elim (Bool-cases (is_regex_pattern key)) [
      | inl e ↦ rw e (first_pass-IsTable overrides routes rest t)
      | inr e ↦ rw e (first_pass-IsTable overrides _ rest (insert-IsTable key route routes email t))
    ]

pub add_entry-IsTable :
    (key : Text) (o : Option ProfileRoute) (acc : Dict Text ProfileRoute)
    → ((route : ProfileRoute) → o ≡ some route → route.email ≡ key)
    → IsTable acc
    → IsTable (add_entry key o acc)
unfolding add_entry
add_entry-IsTable key none acc e t = t
add_entry-IsTable key (some route) acc e t = insert-IsTable key route acc (e route refl) t

pub build_overrides-IsTable :
    (parsed : Dict Text Text) (acc : Dict Text ProfileRoute)
    → IsTable acc
    → IsTable (build_overrides parsed acc)
unfolding build_overrides
build_overrides-IsTable [] acc t = t
build_overrides-IsTable ((key, value) ∷ parsed) acc t =
    build_overrides-IsTable parsed _
      (add_entry-IsTable key (route_of_entry key value) acc (route_of_entry-email key value) t)

pub parsed_overrides-IsTable : (o : Option (Dict Text Text)) → IsTable (parsed_overrides o)
unfolding parsed_overrides
parsed_overrides-IsTable none = nil-IsTable
parsed_overrides-IsTable (some parsed) = build_overrides-IsTable parsed [] nil-IsTable

-- ===== src/Router/Load.antt =====
-- src/router.rs: the passes of `load_from_file`, entry by entry.
use amail_bridge.Common.{
  ◌≡◌, refl, true, false, Option, none, some, List, [], ◌∷◌, ◌++◌, arith, All, same, if◌then◌else◌,
  list_eq, nat_eq, ◌∙◌, same_refl, sym, append-nil, append_assoc,
}
use mathlib.Core.Path.{subst}
use amail_bridge.Std.Text.{Text}
use amail_bridge.Std.Dict
use amail_bridge.Std.Dict.{
  Dict, NodupKeys, get-insert, get-cons, insert-NodupKeys, contains_key-get,
}
use amail_bridge.Router.Route.{ProfileRoute, is_regex_pattern, route_of_entry}
use amail_bridge.Router.Table.{
  Crates, Pattern, first_pass, build_overrides, expand, second_pass, add_entry, add_pattern,
}

abbrev pub or_else {ℓ} : {A : Type ℓ} → Option A → Option A → Option A
or_else none b = b
or_else (some a) b = some a

or_else-none {ℓ} : {A : Type ℓ} (o : Option A) → or_else o none ≡ o
or_else-none none = refl
or_else-none (some a) = refl

abbrev pub read_entry : Text → Option Text → Option ProfileRoute
read_entry k none = none
read_entry k (some v) = route_of_entry k v

get-add_entry :
    (k key : Text) (o : Option ProfileRoute) (acc : Dict Text ProfileRoute)
    → Dict.get k (add_entry key o acc)
      ≡ (if same k key then or_else o (Dict.get k acc) else Dict.get k acc)
unfolding add_entry
get-add_entry k key none acc = ground arith
get-add_entry k key (some route) acc = ground (arith, get-insert k key route acc)

-- What the loop of `load_routes_file` makes of a file without a repeated key.
get-build_overrides_onto :
    (k : Text) (parsed : Dict Text Text) (acc : Dict Text ProfileRoute)
    → NodupKeys parsed
    → Dict.get k (build_overrides parsed acc)
      ≡ or_else (read_entry k (Dict.get k parsed)) (Dict.get k acc)
unfolding build_overrides
get-build_overrides_onto k [] acc u = unfold Dict.get in refl
get-build_overrides_onto k ((key, value) ∷ parsed) acc (fresh, u) =
    get-build_overrides_onto k parsed _ u
    ∙ ground
        (arith, get-cons k key value parsed, get-add_entry k key (route_of_entry key value) acc)

pub get-build_overrides :
    (k : Text) (parsed : Dict Text Text)
    → NodupKeys parsed
    → Dict.get k (build_overrides parsed []) ≡ read_entry k (Dict.get k parsed)
unfolding Dict.get
get-build_overrides k parsed u =
    get-build_overrides_onto k parsed [] u ∙ or_else-none (read_entry k (Dict.get k parsed))

add_entry-NodupKeys :
    (key : Text) (o : Option ProfileRoute) (acc : Dict Text ProfileRoute)
    → NodupKeys acc
    → NodupKeys (add_entry key o acc)
unfolding add_entry
add_entry-NodupKeys key none acc u = u
add_entry-NodupKeys key (some route) acc u = insert-NodupKeys key route acc u

pub build_overrides-NodupKeys :
    (parsed : Dict Text Text) (acc : Dict Text ProfileRoute)
    → NodupKeys acc
    → NodupKeys (build_overrides parsed acc)
unfolding build_overrides
build_overrides-NodupKeys [] acc u = u
build_overrides-NodupKeys ((key, value) ∷ parsed) acc u =
    build_overrides-NodupKeys parsed _ (add_entry-NodupKeys key (route_of_entry key value) acc u)

abbrev pub exact_only : Text → Option ProfileRoute → Option ProfileRoute
exact_only k o = if is_regex_pattern k then none else o

get-first_pass_onto :
    (k : Text) (overrides routes : Dict Text ProfileRoute)
    → NodupKeys overrides
    → Dict.get k (first_pass overrides routes)
      ≡ or_else (exact_only k (Dict.get k overrides)) (Dict.get k routes)
unfolding first_pass
get-first_pass_onto k [] routes u = unfold Dict.get in ground arith
get-first_pass_onto k ((key, route) ∷ overrides) routes (fresh, u) =
    get-first_pass_onto k overrides _ u
    ∙ ground (arith, get-cons k key route overrides, get-insert k key route routes)

pub get-first_pass :
    (k : Text) (overrides : Dict Text ProfileRoute)
    → NodupKeys overrides
    → Dict.get k (first_pass overrides []) ≡ exact_only k (Dict.get k overrides)
unfolding Dict.get
get-first_pass k overrides u =
    get-first_pass_onto k overrides [] u ∙ or_else-none (exact_only k (Dict.get k overrides))

-- The keys of a map are its keys.
keys-contains :
    (d e : Dict Text ProfileRoute)
    → ((k : Text) → Dict.contains_key k d ≡ true → Dict.contains_key k e ≡ true)
    → All (λ k. Dict.contains_key k e ≡ true) (Dict.keys d)
unfolding Dict.keys Dict.contains_key
keys-contains [] e h = tt
keys-contains ((j, v) ∷ d) e h = (h j (rw same_refl), keys-contains d e (λ k m. h k (ground arith)))

module _ (C : Crates) where
  open C use {Regex, compile}

  expand_of_known :
      (re : Regex) (route : ProfileRoute) (emails : List Text) (routes : Dict Text ProfileRoute)
      → All (λ k. Dict.contains_key k routes ≡ true) emails
      → expand C re route emails routes ≡ routes
  unfolding expand
  expand_of_known re route [] routes h = refl
  expand_of_known re route (email ∷ emails) routes (he, h) =
      ground (arith, expand_of_known re route emails routes h)

  add_pattern_of_known :
      (emails : List Text) (key : Text) (route : ProfileRoute) (o : Option Regex)
      (state : Dict Text ProfileRoute × List (Pattern Regex))
      → All (λ k. Dict.contains_key k state.0 ≡ true) emails
      → (add_pattern C emails key route o state).0 ≡ state.0
  unfolding add_pattern
  add_pattern_of_known emails key route none (routes, ps) h = refl
  add_pattern_of_known emails key route (some re) (routes, ps) h =
      expand_of_known re route emails routes h

  second_pass_of_known :
      (emails : List Text) (overrides routes : Dict Text ProfileRoute)
      (state : Dict Text ProfileRoute × List (Pattern Regex))
      → state.0 ≡ routes
      → All (λ k. Dict.contains_key k routes ≡ true) emails
      → (second_pass C emails overrides state).0 ≡ routes
  unfolding second_pass
  second_pass_of_known emails [] routes state e h = e
  second_pass_of_known emails ((key, route) ∷ overrides) routes state e h =
      second_pass_of_known emails overrides routes _
        (add_pattern_of_known emails key route _ state
            (subst (λ d. All (λ k. Dict.contains_key k d ≡ true) emails) (sym e) h)
          ∙ e)
        h

  -- Over the emails of the first pass, the second pass adds no route: each is already there.
  pub second_pass-routes :
      (overrides routes : Dict Text ProfileRoute) (ps : List (Pattern Regex))
      → (second_pass C (Dict.keys routes) overrides (routes, ps)).0 ≡ routes
  second_pass-routes overrides routes ps =
      second_pass_of_known (Dict.keys routes) overrides routes (routes, ps) refl
        (keys-contains routes routes (λ k h. h))

  -- The regexes that the second pass makes of a file's entries, in order.
  abbrev pub compiled : Dict Text ProfileRoute → List (Pattern Regex)
  compiled [] = []
  compiled ((key, route) ∷ overrides) =
      let rest = compiled overrides in
      elim (if is_regex_pattern key then compile key else none) [
        | none ↦ rest
        | some re ↦ record { regex = re; key = key; host = route.host; port = route.port } ∷ rest
      ]

  second_pass-patterns_onto :
      (emails : List Text) (overrides : Dict Text ProfileRoute)
      (state : Dict Text ProfileRoute × List (Pattern Regex))
      → (second_pass C emails overrides state).1 ≡ state.1 ++ compiled overrides
  unfolding second_pass add_pattern
  second_pass-patterns_onto emails [] (routes, ps) = sym (append-nil ps)
  second_pass-patterns_onto emails ((key, route) ∷ overrides) (routes, ps) =
      second_pass-patterns_onto emails overrides _
      ∙ compiled_step (if is_regex_pattern key then compile key else none)
    where
      compiled_step :
          (o : Option Regex)
          → (add_pattern C emails key route o (routes, ps)).1 ++ compiled overrides
            ≡ ps ++ (elim o [
              | none ↦ compiled overrides
              | some re ↦
                  record { regex = re; key = key; host = route.host; port = route.port }
                  ∷ compiled overrides
            ])
      compiled_step none = refl
      compiled_step (some re) = append_assoc ps _ (compiled overrides)

  -- The patterns of a load are those of the file, in its order.
  pub second_pass-patterns :
      (emails : List Text) (overrides routes : Dict Text ProfileRoute)
      → (second_pass C emails overrides (routes, [])).1 ≡ compiled overrides
  second_pass-patterns emails overrides routes =
      second_pass-patterns_onto emails overrides (routes, [])

  pub compiled-nil :
      (overrides : Dict Text ProfileRoute)
      → ((k : Text) → Dict.contains_key k overrides ≡ true → is_regex_pattern k ≡ false)
      → compiled overrides ≡ []
  unfolding Dict.contains_key
  compiled-nil [] h = refl
  compiled-nil ((key, route) ∷ overrides) h =
      let rest : compiled overrides ≡ [] = compiled-nil overrides (λ k m. h k (ground arith)) in
      let exact : is_regex_pattern key ≡ false = h key (rw same_refl) in ground (arith, rest, exact)

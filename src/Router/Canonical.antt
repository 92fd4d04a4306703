-- ===== src/Router/Canonical.antt =====
-- src/router.rs: the file that is written is the same for every iteration order of the map.
use amail_bridge.Common.{
  ◌≡◌, refl, sym, ap, ◌∙◌, Bool, true, false, ◌||◌, Option, none, some, List, [], ◌∷◌, ◌++◌, arith,
  any, All, All-map, ◌==◌, same, same_refl, eq_of_same, Bool-cases, inl, inr, list_eq, nat_eq,
}
use mathlib.Core.Path.{ap₂}
use amail_bridge.Std.Text.{Text}
use amail_bridge.Std.Dict
use amail_bridge.Std.Dict.{Dict, NodupKeys, contains_key-get}
use amail_bridge.Router.Route.{ProfileRoute}
use amail_bridge.Router.Table.{
  text_lt, insert_sorted, sort, store_entry, file_entries, current_entries, render_routes,
  render_entries, file_header,
}

text_lt_irrefl : (s : Text) → text_lt s s ≡ false
unfolding text_lt
text_lt_irrefl [] = refl
text_lt_irrefl (c ∷ s) = ground (arith, text_lt_irrefl s)

text_lt_trans : (s t u : Text) → text_lt s t ≡ true → text_lt t u ≡ true → text_lt s u ≡ true
unfolding text_lt
text_lt_trans s t [] h k = absurd (cc)
text_lt_trans s [] (e ∷ u) h k = absurd (cc)
text_lt_trans [] (d ∷ t) (e ∷ u) h k = refl
text_lt_trans (c ∷ s) (d ∷ t) (e ∷ u) h k = ground (arith, text_lt_trans s t u)

text_lt_total : (s t : Text) → text_lt s t ≡ false → text_lt t s ≡ false → s ≡ t
unfolding text_lt
text_lt_total [] [] h k = refl
text_lt_total [] (d ∷ t) h k = absurd (cc)
text_lt_total (c ∷ s) [] h k = absurd (cc)
text_lt_total (c ∷ s) (d ∷ t) h k = elim (Bool-cases (c == d)) [
  | inl e ↦ ground (arith, text_lt_total s t)
  | inr e ↦ absurd (ground (arith, h, k, e))
]

-- Each text is before all that follow.
abbrev pub IsSorted : List Text → Type 0
IsSorted [] = Unit
IsSorted (k ∷ ks) = All (λ j. text_lt k j ≡ true) ks × IsSorted ks

abbrev pub has : Text → List Text → Bool
has k ks = any (same k) ks

insert_sorted-has :
    (k j : Text) (ks : List Text) → has k (insert_sorted j ks) ≡ (same k j || has k ks)
unfolding insert_sorted
insert_sorted-has k j [] = refl
insert_sorted-has k j (i ∷ ks) = ground (arith, insert_sorted-has k j ks)

sort-has : (k : Text) (ks : List Text) → has k (sort ks) ≡ has k ks
unfolding sort
sort-has k [] = refl
sort-has k (j ∷ ks) = ground (arith, insert_sorted-has k j (sort ks), sort-has k ks)

All-has : (P : Text → Type 0) (ks : List Text) → ((k : Text) → has k ks ≡ true → P k) → All P ks
All-has P [] h = tt
All-has P (k ∷ ks) h =
    (h k (ground (arith, same_refl k)), All-has P ks (λ j m. h j (ground (arith, m))))

has-All : (P : Text → Type 0) (k : Text) (ks : List Text) → All P ks → has k ks ≡ true → P k
has-All P k [] h m = absurd (cc)
has-All P k (j ∷ ks) (h, hs) m = elim (Bool-cases (same k j)) [
  | inl e ↦ rw (eq_of_same k j e) h
  | inr e ↦ has-All P k ks hs (ground (arith, m, e))
]

insert_sorted-All :
    (P : Text → Type 0) (j : Text) (ks : List Text) → P j → All P ks → All P (insert_sorted j ks)
unfolding insert_sorted
insert_sorted-All P j [] p h = (p, tt)
insert_sorted-All P j (i ∷ ks) p (h, hs) = elim (Bool-cases (text_lt i j)) [
  | inl e ↦ rw e (h, insert_sorted-All P j ks p hs)
  | inr e ↦ rw e (p, (h, hs))
]

insert_sorted-IsSorted :
    (j : Text) (ks : List Text) → has j ks ≡ false → IsSorted ks → IsSorted (insert_sorted j ks)
unfolding insert_sorted
insert_sorted-IsSorted j [] new sorted = (tt, tt)
insert_sorted-IsSorted j (i ∷ ks) new (first, sorted) = elim (Bool-cases (text_lt i j)) [
  | inl e ↦
      rw e
        (insert_sorted-All _ j ks e first, insert_sorted-IsSorted j ks (ground (arith, new)) sorted)
  | inr e ↦
      let before : text_lt j i ≡ true = elim (Bool-cases (text_lt j i)) [
        | inl f ↦ f
        | inr f ↦
            let equal = text_lt_total i j e f in absurd (ground (arith, new, equal, same_refl j))
      ] in
      rw e
        ((before, All-map (λ k later. text_lt_trans j i k before later) ks first), (first, sorted))
]

-- No text occurs twice.
abbrev pub IsNodup : List Text → Type 0
IsNodup [] = Unit
IsNodup (k ∷ ks) = (has k ks ≡ false) × IsNodup ks

pub sort-IsSorted : (ks : List Text) → IsNodup ks → IsSorted (sort ks)
unfolding sort
sort-IsSorted [] once = tt
sort-IsSorted (k ∷ ks) (new, once) =
    insert_sorted-IsSorted k (sort ks) (sort-has k ks ∙ new) (sort-IsSorted ks once)

-- Two sorted lists with the same members are the same list.
pub before_self : (k : Text) (ks : List Text) → All (λ j. text_lt k j ≡ true) ks → has k ks ≡ false
before_self k ks first = elim (Bool-cases (has k ks)) [
  | inr e ↦ e
  | inl e ↦
      let loop = has-All (λ j. text_lt k j ≡ true) k ks first e in
      absurd (ground (arith, loop, text_lt_irrefl k))
]

same_heads :
    (j k : Text) (js ks : List Text)
    → IsSorted (j ∷ js)
    → IsSorted (k ∷ ks)
    → ((i : Text) → has i (j ∷ js) ≡ has i (k ∷ ks))
    → j ≡ k
same_heads j k js ks (first, _) (first', _) h = elim (Bool-cases (same j k)) [
  | inl e ↦ eq_of_same j k e
  | inr e ↦
      let in_ks : has j ks ≡ true = ground (arith, h j, same_refl j, e) in
      let in_js : has k js ≡ true = ground (arith, h k, same_refl k, e) in
      let k_before = has-All (λ i. text_lt k i ≡ true) j ks first' in_ks in
      let j_before = has-All (λ i. text_lt j i ≡ true) k js first in_js in
      absurd (ground (arith, text_lt_trans j k j j_before k_before, text_lt_irrefl j))
]

sorted_unique :
    (js ks : List Text) → IsSorted js → IsSorted ks → ((i : Text) → has i js ≡ has i ks) → js ≡ ks
sorted_unique [] [] s t h = refl
sorted_unique [] (k ∷ ks) s t h = absurd (ground (arith, h k, same_refl k))
sorted_unique (j ∷ js) [] s t h = absurd (ground (arith, h j, same_refl j))
sorted_unique (j ∷ js) (k ∷ ks) (first, s) (first', t) h =
    let heads = same_heads j k js ks (first, s) (first', t) h in
    let tails : (i : Text) → has i js ≡ has i ks = λ i. elim (Bool-cases (same i j)) [
      | inl e ↦
          let here = eq_of_same i j e in
          rw here (before_self j js first ∙ sym (rw heads (before_self k ks first')))
      | inr e ↦ ground (arith, h i, heads, e)
    ] in
    ap₂ ◌∷◌ heads (sorted_unique js ks s t tails)

abbrev is_there : Option ProfileRoute → Bool
is_there none = false
is_there (some route) = true

keys-has : (k : Text) (d : Dict Text ProfileRoute) → has k (Dict.keys d) ≡ is_there (Dict.get k d)
unfolding Dict.keys Dict.get
keys-has k [] = refl
keys-has k ((j, route) ∷ d) = ground (arith, keys-has k d)

pub keys-IsNodup : (d : Dict Text ProfileRoute) → NodupKeys d → IsNodup (Dict.keys d)
unfolding Dict.keys
keys-IsNodup [] once = tt
keys-IsNodup ((k, route) ∷ d) (new, once) = (keys-has k d ∙ ap is_there new, keys-IsNodup d once)

file_entries-get :
    (d e : Dict Text ProfileRoute) (ks : List Text)
    → ((k : Text) → Dict.get k d ≡ Dict.get k e)
    → file_entries d ks ≡ file_entries e ks
unfolding file_entries
file_entries-get d e [] h = refl
file_entries-get d e (k ∷ ks) h = ap₂ (store_entry k) (h k) (file_entries-get d e ks h)

-- Two tables that give every email the same route are written as the same file: the order in which
-- the map yields its entries, or in which they were added, does not show.
pub render_routes-get :
    (d e : Dict Text ProfileRoute)
    → NodupKeys d
    → NodupKeys e
    → ((k : Text) → Dict.get k d ≡ Dict.get k e)
    → render_routes d ≡ render_routes e
unfolding render_routes current_entries
render_routes-get d e once once' h =
    let keys : sort (Dict.keys d) ≡ sort (Dict.keys e) =
      sorted_unique (sort (Dict.keys d)) (sort (Dict.keys e))
        (sort-IsSorted (Dict.keys d) (keys-IsNodup d once))
        (sort-IsSorted (Dict.keys e) (keys-IsNodup e once'))
        (λ i.
          sort-has i (Dict.keys d)
          ∙ keys-has i d
          ∙ ap is_there (h i)
          ∙ sym (sort-has i (Dict.keys e) ∙ keys-has i e)) in
    ap (λ entries. file_header ++ render_entries entries)
      (file_entries-get d e (sort (Dict.keys d)) h ∙ ap (file_entries e) keys)

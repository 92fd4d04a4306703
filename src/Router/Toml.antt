-- ===== src/Router/Toml.antt =====
-- src/router.rs: the text that `write_current_routes` writes, against the grammar of TOML v1.0.
-- The parser is the toml crate's, of which `ReadsToml` states what the format documents.
use mathlib.Core.Path.{subst}
use amail_bridge.Common.{
  same, eq_of_same, Bool-cases, ◌≡◌, refl, Bool, false, ◌||◌, none, some, List, [], ◌∷◌, ◌++◌,
  append_assoc, arith, any, All, ltb, ◌==◌, list_eq, nat_eq, ℕ, Option-cases, inl, inr,
}
use amail_bridge.Std.Text.{Text, str}
use amail_bridge.Std.Dict
use amail_bridge.Std.Dict.{Dict, NodupKeys, get-insert}
use amail_bridge.Router.Route.{ProfileRoute, persisted_value}
use amail_bridge.Router.Table.{
  Crates, sort, store_entry, file_entries, current_entries, render_entries, render_routes,
}
use amail_bridge.Router.Canonical.{IsSorted, sort-IsSorted, keys-IsNodup, before_self}
use amail_bridge.Router.Persist.{ReadsBack, get-file_entries}

-- A control character, and a character that a basic string has to escape.
abbrev pub is_control : ℕ → Bool
is_control c = ltb c 32 || c == 127

abbrev pub is_special : ℕ → Bool
is_special c = c == b'"' || c == b'\\' || is_control c

abbrev pub IsPlain : Text → Type 0
IsPlain s = any is_special s ≡ false

-- The files of comments and of pairs of basic strings without an escape, each on a line, with the
-- pairs that TOML gives them.
pub data IsToml : Text → Dict Text Text → Type 0 where
  nothing : IsToml [] []
  comment :
      (line rest : Text) (pairs : Dict Text Text)
      → any is_control line ≡ false
      → IsToml rest pairs
      → IsToml (b'#' ∷ (line ++ (b'\n' ∷ rest))) pairs
  pair :
      (k v rest : Text) (pairs : Dict Text Text)
      → IsPlain k
      → IsPlain v
      → IsToml rest pairs
      → IsToml (b'"' ∷ (k ++ (str "\" = \"" ++ (v ++ (str "\"\n" ++ rest))))) ((k, v) ∷ pairs)

-- The parser gives such a file the map of its pairs, in any order, if no key occurs twice.
abbrev pub ReadsToml : Crates → Type 0
ReadsToml C =
    (text : Text) (pairs : Dict Text Text)
    → IsToml text pairs
    → NodupKeys pairs
    → (parsed : Dict Text Text) × (C.parse_toml text ≡ some parsed)
      × NodupKeys parsed
      × ((k : Text) → Dict.get k parsed ≡ Dict.get k pairs)

-- The emails of a table and the values that are written for their routes need no escape.
abbrev pub IsPlainTable : Dict Text ProfileRoute → Type 0
IsPlainTable d =
    (k : Text) (route : ProfileRoute)
    → Dict.get k d ≡ some route
    → IsPlain k × IsPlain (persisted_value route)

abbrev IsPlainPair : Text × Text → Type 0
IsPlainPair entry = IsPlain entry.0 × IsPlain entry.1

file_entries-All :
    (d : Dict Text ProfileRoute) (ks : List Text)
    → IsPlainTable d
    → All IsPlainPair (file_entries d ks)
unfolding file_entries store_entry
file_entries-All d [] plain = tt
file_entries-All d (k ∷ ks) plain = elim (Option-cases (Dict.get k d)) [
  | inl e ↦ rw e (file_entries-All d ks plain)
  | inr (route, e) ↦ rw e (plain k route e, file_entries-All d ks plain)
]

file_entries-NodupKeys :
    (d : Dict Text ProfileRoute) (ks : List Text) → IsSorted ks → NodupKeys (file_entries d ks)
unfolding file_entries store_entry
file_entries-NodupKeys d [] sorted = tt
file_entries-NodupKeys d (k ∷ ks) (first, sorted) = elim (Option-cases (Dict.get k d)) [
  | inl e ↦ rw e (file_entries-NodupKeys d ks sorted)
  | inr (route, e) ↦
      let new : Dict.get k (file_entries d ks) ≡ none =
        ground (arith, get-file_entries k d ks, before_self k ks first) in
      rw e (new, file_entries-NodupKeys d ks sorted)
]

render_entries-IsToml : (es : Dict Text Text) → All IsPlainPair es → IsToml (render_entries es) es
unfolding render_entries
render_entries-IsToml [] plain = nothing
render_entries-IsToml ((k, v) ∷ es) ((plain_key, plain_value), plain) = rw (append_assoc k) (
    rw (append_assoc v)
      (pair k v (render_entries es) es plain_key plain_value (render_entries-IsToml es plain)))

-- A written file is TOML with the written pairs.
pub render_routes-IsToml :
    (d : Dict Text ProfileRoute) → IsPlainTable d → IsToml (render_routes d) (current_entries d)
unfolding render_routes current_entries
render_routes-IsToml d plain = comment (str " Auto-generated by aimail-bridge.") _ _ refl (
    comment (str " File changes take effect immediately.") _ _ refl
      (render_entries-IsToml _ (file_entries-All d (sort (Dict.keys d)) plain)))

-- What the parser makes of a written file.
pub ReadsToml-ReadsBack :
    (C : Crates) (d : Dict Text ProfileRoute)
    → ReadsToml C
    → NodupKeys d
    → IsPlainTable d
    → (parsed : Dict Text Text) × ReadsBack C d parsed
ReadsToml-ReadsBack C d reads once plain =
    let sorted = sort-IsSorted (Dict.keys d) (keys-IsNodup d once) in
    let entries : NodupKeys (current_entries d) =
      unfold current_entries in file_entries-NodupKeys d (sort (Dict.keys d)) sorted in
    let (parsed, parses, nodup, same_pairs) =
      reads (render_routes d) (current_entries d) (render_routes-IsToml d plain) entries in
    (parsed, record { parses = parses; nodup = nodup; same_pairs = same_pairs })

-- Adding a route whose email and written value need no escape.
pub insert-IsPlainTable :
    (d : Dict Text ProfileRoute) (email : Text) (route : ProfileRoute)
    → IsPlain email
    → IsPlain (persisted_value route)
    → IsPlainTable d
    → IsPlainTable (Dict.insert email route d)
insert-IsPlainTable d email route plain_key plain_value plain k found h =
    elim (Bool-cases (same k email)) [
      | inl e ↦
          let value : route ≡ found = ground (arith, get-insert k email route d) in
          (
            rw (eq_of_same k email e) plain_key,
            subst (λ r. IsPlain (persisted_value r)) value plain_value,
          )
      | inr e ↦ plain k found (ground (arith, get-insert k email route d))
    ]

-- ===== src/Std/Text.antt =====
-- `str` as the list of its characters' code points. A byte offset that the source finds and
-- slices at is here the pair of the two parts.
pub mod Laws
pub mod Trim
use Prim.Native.Char.{code}
use Prim.Native.String.{String}
use amail_bridge.Common.{
  ℕ, ◌+◌, Bool, true, false, ◌&&◌, ◌||◌, Option, none, some, List, [], ◌∷◌, ◌++◌, leb, ◌==◌,
  if◌then◌else◌,
}

abbrev pub Text : Type 0
Text = List ℕ

abbrev pub str : String → Text
str String.[] = []
str (String.◌∷◌ c s) = code c ∷ str s

unfoldable pub is_empty : Text → Bool
is_empty [] = true
is_empty (c ∷ s) = false

-- `s.strip_prefix(p)`
unfoldable pub strip_prefix : Text → Text → Option Text
strip_prefix [] s = some s
strip_prefix (p ∷ ps) [] = none
strip_prefix (p ∷ ps) (c ∷ s) = let rest = strip_prefix ps s in if p == c then rest else none

unfoldable pub starts_with : Text → Text → Bool
starts_with [] s = true
starts_with (p ∷ ps) [] = false
starts_with (p ∷ ps) (c ∷ s) = p == c && starts_with ps s

-- `s.ends_with(p)`: some tail of `s` is `p`.
unfoldable pub text_eq : Text → Text → Bool
text_eq [] [] = true
text_eq [] (d ∷ t) = false
text_eq (c ∷ s) [] = false
text_eq (c ∷ s) (d ∷ t) = c == d && text_eq s t

unfoldable pub ends_with : Text → Text → Bool
ends_with p [] = text_eq p []
ends_with p (c ∷ s) = text_eq p (c ∷ s) || ends_with p s

-- `s.contains(c)` for a character, and for a text.
unfoldable pub contains_char : ℕ → Text → Bool
contains_char c [] = false
contains_char c (d ∷ s) = c == d || contains_char c s

unfoldable pub contains : Text → Text → Bool
contains p [] = starts_with p []
contains p (c ∷ s) = starts_with p (c ∷ s) || contains p s

-- `s.split_once(c)` for a character: the parts around its first occurrence.
unfoldable pub split_once : ℕ → Text → Option (Text × Text)
split_once c [] = none
split_once c (d ∷ s) = elim (c == d) [
  | true ↦ some ([], s)
  | false ↦ elim (split_once c s) [ none ↦ none | some (a, b) ↦ some (d ∷ a, b) ]
]

-- `s.split_once(p)` for a text.
unfoldable pub split_once_text : Text → Text → Option (Text × Text)
split_once_text p [] = elim (strip_prefix p []) [ none ↦ none | some b ↦ some ([], b) ]
split_once_text p (d ∷ s) = elim (strip_prefix p (d ∷ s)) [
  | some b ↦ some ([], b)
  | none ↦ elim (split_once_text p s) [ none ↦ none | some (a, b) ↦ some (d ∷ a, b) ]
]

-- `s.rsplit_once(c)`: the parts around its last occurrence.
unfoldable pub rsplit_once : ℕ → Text → Option (Text × Text)
rsplit_once c [] = none
rsplit_once c (d ∷ s) = elim (rsplit_once c s) [
  | some (a, b) ↦ some (d ∷ a, b)
  | none ↦ if c == d then some ([], s) else none
]

-- `match s.find(c) { Some(i) => (&s[..i], &s[i..]), None => (s, "") }`
unfoldable pub split_at_char : ℕ → Text → Text × Text
split_at_char c [] = ([], [])
split_at_char c (d ∷ s) = elim (c == d) [
  | true ↦ ([], d ∷ s)
  | false ↦ let (a, b) = split_at_char c s in (d ∷ a, b)
]

-- `char::is_whitespace`: the code points with Unicode's property White_Space.
unfoldable pub is_whitespace : ℕ → Bool
is_whitespace c =
    (leb 0x09 c && leb c 0x0d)
    || (c == 0x20 || c == 0x85 || c == 0xa0 || c == 0x1680)
    || (leb 0x2000 c && leb c 0x200a)
    || (c == 0x2028 || c == 0x2029 || c == 0x202f || c == 0x205f || c == 0x3000)

unfoldable pub trim_start_by : (ℕ → Bool) → Text → Text
trim_start_by p [] = []
trim_start_by p (c ∷ s) = let rest = trim_start_by p s in if p c then rest else c ∷ s

-- A character goes if it fits and nothing is left behind it.
unfoldable pub trim_end_by : (ℕ → Bool) → Text → Text
trim_end_by p [] = []
trim_end_by p (c ∷ s) = elim (trim_end_by p s) [
  | [] ↦ if p c then [] else c ∷ []
  | d ∷ t ↦ c ∷ d ∷ t
]

-- `s.trim()`
unfoldable pub trim : Text → Text
trim s = trim_end_by is_whitespace (trim_start_by is_whitespace s)

-- `s.trim_end_matches(c)` and `s.trim_start_matches(c)`
unfoldable pub trim_end_matches : ℕ → Text → Text
trim_end_matches c s = trim_end_by (λ d. c == d) s

unfoldable pub trim_start_matches : ℕ → Text → Text
trim_start_matches c s = trim_start_by (λ d. c == d) s

-- `s.split(c)`
unfoldable pub split : ℕ → Text → List Text
split c [] = [] ∷ []
split c (d ∷ s) = elim (split c s) [
  | [] ↦ []
  | part ∷ parts ↦ if c == d then [] ∷ part ∷ parts else (d ∷ part) ∷ parts
]

-- `a.eq_ignore_ascii_case(b)`, through the lower case of each character.
unfoldable pub to_lower : ℕ → ℕ
to_lower c = if leb b'A' c && leb c b'Z' then c + 32 else c

unfoldable pub eq_ignore_ascii_case : Text → Text → Bool
eq_ignore_ascii_case [] [] = true
eq_ignore_ascii_case [] (d ∷ t) = false
eq_ignore_ascii_case (c ∷ s) [] = false
eq_ignore_ascii_case (c ∷ s) (d ∷ t) = to_lower c == to_lower d && eq_ignore_ascii_case s t

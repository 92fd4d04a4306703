-- ===== src/Tests/Toml.antt =====
-- A reader of flat TOML files, to run the router's files on: comments and pairs of basic strings.
use amail_bridge.Common.{
  ℕ, ◌≡◌, refl, ◌∙◌, ap, false, Option, none, some, [], ◌∷◌, ◌++◌, append_assoc, append-nil, arith,
  any, ◌==◌, if◌then◌else◌,
}
use amail_bridge.Std.Text.{Text}
use amail_bridge.Std.Dict.{Dict}
use amail_bridge.Router.Table.{Crates}
use amail_bridge.Router.Toml.{IsPlain, is_control, IsToml, nothing, comment, pair, ReadsToml}
use amail_bridge.Tests.Stubs.{disk}

-- Where the reader is: at the start of a line, in a comment, in a key, behind a key, in a value
-- with its key, or behind a value.
pub data Place : Type 0 where
  line_start : Place
  in_comment : Place
  in_key : Text → Place
  after_key : Text → Place
  in_value : Text → Text → Place
  after_value : Place

abbrev with_pair : Text → Text → Option (Dict Text Text) → Option (Dict Text Text)
with_pair k v none = none
with_pair k v (some pairs) = some ((k, v) ∷ pairs)

pub read : Place → Text → Option (Dict Text Text)
read line_start [] = some []
read in_comment [] = none
read (in_key k) [] = none
read (after_key k) [] = none
read (in_value k v) [] = none
read after_value [] = none
read line_start (c ∷ s) =
    let skipped = read in_comment s in
    let keyed = read (in_key []) s in
    if c == b'#' then skipped else if c == b'"' then keyed else none
read in_comment (c ∷ s) =
    let next = read line_start s in
    let more = read in_comment s in if c == b'\n' then next else more
read (in_key k) (c ∷ s) =
    let end = read (after_key k) s in
    let more = read (in_key (k ++ (c ∷ []))) s in if c == b'"' then end else more
read (after_key k) (c ∷ s) =
    let begin = read (in_value k []) s in
    let more = read (after_key k) s in if c == b'"' then begin else more
read (in_value k v) (c ∷ s) =
    let end = with_pair k v (read after_value s) in
    let more = read (in_value k (v ++ (c ∷ []))) s in if c == b'"' then end else more
read after_value (c ∷ s) = let next = read line_start s in if c == b'\n' then next else none

IsPlain-cons : (c : ℕ) (s : Text) → IsPlain (c ∷ s) → (c == b'"' ≡ false) × IsPlain s
IsPlain-cons c s h = ground arith

no_newline : (c : ℕ) → is_control c ≡ false → c == b'\n' ≡ false
no_newline c h = ground arith

is_control-cons :
    (c : ℕ) (s : Text)
    → any is_control (c ∷ s) ≡ false
    → (is_control c ≡ false) × (any is_control s ≡ false)
is_control-cons c s h = ground arith

read-comment :
    (line s : Text)
    → any is_control line ≡ false
    → read in_comment (line ++ (b'\n' ∷ s)) ≡ read line_start s
unfolding read
read-comment [] s h = refl
read-comment (c ∷ line) s h =
    let (own, rest) = is_control-cons c line h in rw (no_newline c own) (read-comment line s rest)

read-key :
    (k acc s : Text)
    → IsPlain k
    → read (in_key acc) (k ++ (b'"' ∷ s)) ≡ read (after_key (acc ++ k)) s
unfolding read
read-key [] acc s h = rw (append-nil acc) refl
read-key (c ∷ k) acc s h =
    let (other, plain) = IsPlain-cons c k h in
    rw other (
      read-key k (acc ++ (c ∷ [])) s plain
      ∙ ap (λ key. read (after_key key) s) (append_assoc acc (c ∷ []) k))

read-value :
    (k v acc s : Text)
    → IsPlain v
    → read (in_value k acc) (v ++ (b'"' ∷ s)) ≡ with_pair k (acc ++ v) (read after_value s)
unfolding read
read-value k [] acc s h = rw (append-nil acc) refl
read-value k (c ∷ v) acc s h =
    let (other, plain) = IsPlain-cons c v h in
    rw other (
      read-value k v (acc ++ (c ∷ [])) s plain
      ∙ ap (λ value. with_pair k value (read after_value s)) (append_assoc acc (c ∷ []) v))

read-IsToml :
    (text : Text) (pairs : Dict Text Text) → IsToml text pairs → read line_start text ≡ some pairs
unfolding read
read-IsToml text pairs nothing = refl
read-IsToml text pairs (comment line rest _ plain toml) =
    read-comment line rest plain ∙ read-IsToml rest pairs toml
read-IsToml text pairs (pair k v rest others plain_key plain_value toml) =
    read-key k [] _ plain_key
    ∙ read-value k v [] _ plain_value
    ∙ ap (with_pair k v) (read-IsToml rest others toml)

-- The router's crates with this reader.
abbrev pub toml_disk : Crates
toml_disk = record disk { parse_toml = read line_start }

pub toml_disk-ReadsToml : ReadsToml toml_disk
toml_disk-ReadsToml text pairs toml once = (pairs, read-IsToml text pairs toml, once, λ k. refl)

-- ===== src/Std/Text/Laws.antt =====
-- What splitting, stripping and trimming do to texts of a known shape.
use amail_bridge.Common.{
  ℕ, ◌≡◌, refl, ◌≢◌, true, false, ◌||◌, none, some, [], ◌∷◌, ◌++◌, arith, All,
}
use amail_bridge.Std.Text.{
  Text, strip_prefix, starts_with, text_eq, ends_with, contains_char, split_once, rsplit_once,
  split_at_char, trim_start_by, trim_end_by, trim, is_whitespace,
}

-- No character of the text is `c`.
abbrev pub Lacks : ℕ → Text → Type 0
Lacks c = All (λ d. d ≢ c)

-- No character of the text is white space.
abbrev pub NoSpace : Text → Type 0
NoSpace = All (λ c. is_whitespace c ≡ false)

pub strip_prefix-append : (p s : Text) → strip_prefix p (p ++ s) ≡ some s
unfolding strip_prefix
strip_prefix-append [] s = refl
strip_prefix-append (c ∷ p) s = ground (arith, strip_prefix-append p s)

pub starts_with-append : (p s : Text) → starts_with p (p ++ s) ≡ true
unfolding starts_with
starts_with-append [] s = refl
starts_with-append (c ∷ p) s = ground (arith, starts_with-append p s)

pub text_eq_refl : (s : Text) → text_eq s s ≡ true
unfolding text_eq
text_eq_refl [] = refl
text_eq_refl (c ∷ s) = ground (arith, text_eq_refl s)

pub ends_with-append : (s p : Text) → ends_with p (s ++ p) ≡ true
unfolding ends_with text_eq
ends_with-append [] [] = refl
ends_with-append [] (c ∷ p) = ground (arith, text_eq_refl (c ∷ p))
ends_with-append (c ∷ s) p = ground (arith, ends_with-append s p)

pub contains_char-append :
    (c : ℕ) (s t : Text) → contains_char c (s ++ t) ≡ (contains_char c s || contains_char c t)
unfolding contains_char
contains_char-append c [] t = refl
contains_char-append c (d ∷ s) t = ground (arith, contains_char-append c s t)

pub contains_char-Lacks : (c : ℕ) (s : Text) → Lacks c s → contains_char c s ≡ false
unfolding contains_char
contains_char-Lacks c [] h = refl
contains_char-Lacks c (d ∷ s) (hd, hs) = ground (arith, contains_char-Lacks c s hs)

pub Lacks-of_contains_char : (c : ℕ) (s : Text) → contains_char c s ≡ false → Lacks c s
unfolding contains_char
Lacks-of_contains_char c [] h = tt
Lacks-of_contains_char c (d ∷ s) h = (ground arith, Lacks-of_contains_char c s (ground arith))

pub split_at_char-append :
    (c : ℕ) (s t : Text) → Lacks c s → split_at_char c (s ++ c ∷ t) ≡ (s, c ∷ t)
unfolding split_at_char
split_at_char-append c [] t h = ground arith
split_at_char-append c (d ∷ s) t (hd, hs) = ground (arith, split_at_char-append c s t hs)

pub split_at_char-Lacks : (c : ℕ) (s : Text) → Lacks c s → split_at_char c s ≡ (s, [])
unfolding split_at_char
split_at_char-Lacks c [] h = refl
split_at_char-Lacks c (d ∷ s) (hd, hs) = ground (arith, split_at_char-Lacks c s hs)

-- The two parts spell the text again.
pub append-split_at_char : (c : ℕ) (s : Text) → (split_at_char c s).0 ++ (split_at_char c s).1 ≡ s
unfolding split_at_char
append-split_at_char c [] = refl
append-split_at_char c (d ∷ s) = ground (arith, append-split_at_char c s)

pub rsplit_once-Lacks : (c : ℕ) (s : Text) → Lacks c s → rsplit_once c s ≡ none
unfolding rsplit_once
rsplit_once-Lacks c [] h = refl
rsplit_once-Lacks c (d ∷ s) (hd, hs) = ground (arith, rsplit_once-Lacks c s hs)

pub rsplit_once-append : (c : ℕ) (s t : Text) → Lacks c t → rsplit_once c (s ++ c ∷ t) ≡ some (s, t)
unfolding rsplit_once
rsplit_once-append c [] t h = ground (arith, rsplit_once-Lacks c t h)
rsplit_once-append c (d ∷ s) t h = ground (arith, rsplit_once-append c s t h)

pub split_once-append : (c : ℕ) (s t : Text) → Lacks c s → split_once c (s ++ c ∷ t) ≡ some (s, t)
unfolding split_once
split_once-append c [] t h = ground arith
split_once-append c (d ∷ s) t (hd, hs) = ground (arith, split_once-append c s t hs)

pub trim_start-NoSpace : (s : Text) → NoSpace s → trim_start_by is_whitespace s ≡ s
unfolding trim_start_by
trim_start-NoSpace [] h = refl
trim_start-NoSpace (c ∷ s) (hc, hs) = ground arith

pub trim_end-NoSpace : (s : Text) → NoSpace s → trim_end_by is_whitespace s ≡ s
unfolding trim_end_by
trim_end-NoSpace [] h = refl
trim_end-NoSpace (c ∷ []) (hc, hs) = ground arith
trim_end-NoSpace (c ∷ d ∷ s) (hc, hs) = ground (arith, trim_end-NoSpace (d ∷ s) hs)

-- A text without white space is its own trimming.
pub trim-NoSpace : (s : Text) → NoSpace s → trim s ≡ s
unfolding trim
trim-NoSpace s h = ground (arith, trim_start-NoSpace s h, trim_end-NoSpace s h)

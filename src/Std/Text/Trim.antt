-- ===== src/Std/Text/Trim.antt =====
-- Trimming the end of a text, by parts.
use amail_bridge.Common.{ℕ, ◌≡◌, refl, Bool, false, [], ◌∷◌, ◌++◌, arith, All}
use amail_bridge.Std.Text.{Text, trim_start_by, trim_end_by, trim, is_whitespace}

module _ (p : ℕ → Bool) where
  pub trim_end_idem : (s : Text) → trim_end_by p (trim_end_by p s) ≡ trim_end_by p s
  unfolding trim_end_by
  trim_end_idem [] = refl
  trim_end_idem (c ∷ s) = ground (arith, trim_end_idem s)

  -- The end of a trimmed text is trimmed.
  pub trim_end_suffix : (a b : Text) → trim_end_by p (a ++ b) ≡ a ++ b → trim_end_by p b ≡ b
  unfolding trim_end_by
  trim_end_suffix [] b h = h
  trim_end_suffix (c ∷ a) b h = trim_end_suffix a b (ground arith)

  -- A text without trimmed characters in front of a trimmed text.
  pub trim_end-append :
      (a b : Text)
      → All (λ c. p c ≡ false) a
      → trim_end_by p b ≡ b
      → trim_end_by p (a ++ b) ≡ a ++ b
  unfolding trim_end_by
  trim_end-append [] b h e = e
  trim_end-append (c ∷ a) b (hc, ha) e = ground (arith, trim_end-append a b ha e)

-- A text without white space, not empty, in front of a text with a trimmed end.
pub trim-append :
    (c : ℕ) (a b : Text)
    → All (λ d. is_whitespace d ≡ false) (c ∷ a)
    → trim_end_by is_whitespace b ≡ b
    → trim (c ∷ (a ++ b)) ≡ c ∷ (a ++ b)
unfolding trim trim_start_by
trim-append c a b h e = rw (h.0, trim_end-append is_whitespace (c ∷ a) b h e)

pub trim_end-trim : (s : Text) → trim_end_by is_whitespace (trim s) ≡ trim s
unfolding trim
trim_end-trim s = trim_end_idem is_whitespace (trim_start_by is_whitespace s)

-- ===== src/Std/Number/RoundTrip.antt =====
-- A printed number is read back, and its print is made of digits.
use amail_bridge.Common.{
  ℕ, zero, suc, ◌+◌, ◌-◌, ◌*◌, ◌/◌, ◌%◌, ◌≤◌, ◌<◌, ◌≡◌, refl, ◌≢◌, some, [], ◌∷◌, arith, All,
}
use amail_bridge.Std.Text.{Text}
use amail_bridge.Std.Number.{is_digit, scan, parse_digits, parse_uint, emit, show}

abbrev pub IsDigit : ℕ → Type 0
IsDigit c = (b'0' ≤ c) × (c ≤ b'9')

-- Reading the last digit of `n` behind the digits before it gives `n`.
scan_last :
    (limit n : ℕ) (out : Text)
    → n ≤ limit
    → scan limit ((b'0' + n % 10) ∷ out) (n / 10) ≡ scan limit out n
unfolding scan is_digit
scan_last limit n out le = ground arith

scan_small :
    (limit n : ℕ) (out : Text)
    → n ≤ limit
    → n < 10
    → scan limit ((b'0' + n) ∷ out) 0 ≡ scan limit out n
unfolding scan is_digit
scan_small limit n out le lt = ground arith

scan-emit :
    (limit f n : ℕ) (out : Text)
    → n < f
    → n ≤ limit
    → scan limit (emit f n out) 0 ≡ scan limit out n
unfolding emit
scan-emit limit zero n out lt le = absurd (omega arith)
scan-emit limit (suc f) n out lt le = ground (
  arith,
  scan-emit limit f (n / 10) ((b'0' + n % 10) ∷ out),
  scan_last limit n out le,
  scan_small limit n out le,
)

emit-IsDigit : (f n : ℕ) (out : Text) → n < f → All IsDigit out → All IsDigit (emit f n out)
unfolding emit
emit-IsDigit zero n out lt h = absurd (omega arith)
emit-IsDigit (suc f) n out lt h = ground (arith, emit-IsDigit f (n / 10) ((b'0' + n % 10) ∷ out))

pub show-IsDigit : (n : ℕ) → All IsDigit (show n)
unfolding show
show-IsDigit n = emit-IsDigit (suc n) n [] (omega arith) tt

emit-ne-nil : (f n : ℕ) (out : Text) → n < f → emit f n out ≢ []
unfolding emit
emit-ne-nil zero n out lt = absurd (omega arith)
emit-ne-nil (suc f) n out lt = ground (arith, emit-ne-nil f (n / 10) ((b'0' + n % 10) ∷ out))

parse_uint-IsDigit :
    (limit : ℕ) (s : Text) → s ≢ [] → All IsDigit s → parse_uint limit s ≡ scan limit s 0
unfolding parse_uint parse_digits
parse_uint-IsDigit limit [] ne h = absurd (ne refl)
parse_uint-IsDigit limit (c ∷ s) ne (hc, hs) = ground arith

-- A number within the type's range is read back from its print.
pub parse_uint-show : (limit n : ℕ) → n ≤ limit → parse_uint limit (show n) ≡ some n
parse_uint-show limit n h =
    rw
      (parse_uint-IsDigit limit (show n) (unfold show in emit-ne-nil (suc n) n [] (omega arith))
        (show-IsDigit n))
      (unfold show scan in scan-emit limit (suc n) n [] (omega arith) h)

-- What is read is within the type's range.
scan-le : (limit : ℕ) (s : Text) (n r : ℕ) → n ≤ limit → scan limit s n ≡ some r → r ≤ limit
unfolding scan is_digit
scan-le limit [] n r le h = ground arith
scan-le limit (c ∷ s) n r le h = ground (arith, scan-le limit s (n * 10 + (c - b'0')) r)

pub parse_uint-le : (limit : ℕ) (s : Text) (r : ℕ) → parse_uint limit s ≡ some r → r ≤ limit
unfolding parse_uint parse_digits
parse_uint-le limit [] r h = cc
parse_uint-le limit (c ∷ []) r h = ground (arith, scan-le limit (c ∷ []) 0 r)
parse_uint-le limit (c ∷ d ∷ s) r h =
    ground (arith, scan-le limit (c ∷ d ∷ s) 0 r, scan-le limit (d ∷ s) 0 r)

-- ===== src/Std/Number.antt =====
-- Numbers as text: `str::parse` for the unsigned types, and their decimal print.
pub mod RoundTrip
use amail_bridge.Common.{
  ℕ, zero, suc, ◌+◌, ◌-◌, ◌*◌, ◌/◌, ◌%◌, ◌^◌, Bool, true, false, ◌&&◌, Option, none, some, [], ◌∷◌,
  leb, ◌==◌, if◌then◌else◌,
}
use amail_bridge.Std.Text.{Text}

unfoldable pub is_digit : ℕ → Bool
is_digit c = leb b'0' c && leb c b'9'

-- The digits behind the value `n`. A value above `limit` is an overflow.
unfoldable pub scan : ℕ → Text → ℕ → Option ℕ
scan limit [] n = some n
scan limit (c ∷ s) n =
    let rest = scan limit s (n * 10 + (c - b'0')) in
    if is_digit c && leb (n * 10 + (c - b'0')) limit then rest else none

unfoldable pub parse_digits : ℕ → Text → Option ℕ
parse_digits limit [] = none
parse_digits limit (c ∷ s) = scan limit (c ∷ s) 0

-- `s.parse::<uN>()` with `limit` as the type's maximum: a `+` in front is allowed.
unfoldable pub parse_uint : ℕ → Text → Option ℕ
parse_uint limit [] = none
parse_uint limit (c ∷ s) = if c == b'+' then parse_digits limit s else parse_digits limit (c ∷ s)

abbrev pub u8_max : ℕ
u8_max = 255

abbrev pub u16_max : ℕ
u16_max = 65535

abbrev pub u64_max : ℕ
u64_max = 2 ^ 64 - 1

-- The decimal digits of `n` in front of `out`. `suc n` rounds are always enough.
unfoldable pub emit : ℕ → ℕ → Text → Text
emit zero n out = out
emit (suc f) n out = elim (leb 10 n) [
  | true ↦ emit f (n / 10) ((b'0' + n % 10) ∷ out)
  | false ↦ (b'0' + n) ∷ out
]

-- `n.to_string()`
unfoldable pub show : ℕ → Text
show n = emit (suc n) n []

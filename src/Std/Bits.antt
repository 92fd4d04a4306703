-- ===== src/Std/Bits.antt =====
-- `&` with a mask of high bits, for every width: it keeps the quotient by a power of two.
use Prim.Native.Nat.{
  ℕ, zero, suc, ◌+◌, ◌-◌, ◌*◌, ◌/◌, ◌%◌, ◌^◌, ◌≤◌, ◌<◌, min, bit_and, bit_and-bitwise, digits,
}
use mathlib.Core.Path.{◌≡◌, refl, ap, ◌∙◌}
use native.Mathlib.Omega.{arith}
use native.Mathlib.Nat.{pow-suc, div-div-eq-div-mul}

-- The recursion that `bit_and` stands for, with `fuel` digits to go.
abbrev and_with : ℕ → ℕ → ℕ → ℕ
and_with fuel x y = digits (λ _. 0) min fuel x y

-- Any two fuels that reach all of `x`'s digits agree.
and_with_any_fuel : (f g x y : ℕ) → x ≤ f → x ≤ g → and_with f x y ≡ and_with g x y
and_with_any_fuel zero zero x y p q = refl
and_with_any_fuel (suc f) (suc g) zero y p q = refl
and_with_any_fuel zero (suc g) zero y p q = refl
and_with_any_fuel (suc f) zero zero y p q = refl
and_with_any_fuel zero (suc g) (suc x) y p q = absurd (omega arith)
and_with_any_fuel (suc f) zero (suc x) y p q = absurd (omega arith)
and_with_any_fuel (suc f) (suc g) (suc x) y p q =
    let rest = and_with_any_fuel f g (suc x / 2) (y / 2) (omega arith) (omega arith) in
    ap (λ r. r * 2 + min (suc x % 2) (y % 2)) rest

-- The lowest digit, and the digits above it.
pub bit_and_lowest : (x y : ℕ) → bit_and x y ≡ bit_and (x / 2) (y / 2) * 2 + min (x % 2) (y % 2)
bit_and_lowest zero y = omega (arith, bit_and-bitwise 0 y, bit_and-bitwise 0 (y / 2))
bit_and_lowest (suc x) y =
    let half = suc x / 2 in
    let whole = bit_and-bitwise (suc x) y in
    let above = bit_and-bitwise half (y / 2) in
    let level = and_with_any_fuel x half half (y / 2) (omega arith) (omega arith) in
    omega (arith, whole, above, level)

-- A mask of `j` ones keeps a number of `j` digits.
bit_and_ones : (j x : ℕ) → x < 2 ^ j → bit_and x (2 ^ j - 1) ≡ x
bit_and_ones zero zero h = refl
bit_and_ones zero (suc x) h = absurd (omega arith)
bit_and_ones (suc j) x h =
    let p = pow-suc 2 j in
    let halved : (2 ^ suc j - 1) / 2 ≡ 2 ^ j - 1 = omega arith in
    bit_and_lowest x (2 ^ suc j - 1)
    ∙ ap (λ m. bit_and (x / 2) m * 2 + min (x % 2) ((2 ^ suc j - 1) % 2)) halved
    ∙ omega (arith, bit_and_ones j (x / 2) (omega arith))

-- A shifted mask is a mask of the shifted number.
bit_and_shifted : (k x m : ℕ) → bit_and x (m * 2 ^ k) ≡ bit_and (x / 2 ^ k) m * 2 ^ k
bit_and_shifted zero x m =
    let same_mask : m * 2 ^ 0 ≡ m = omega arith in
    let same_number : x / 2 ^ 0 ≡ x = omega arith in rw (same_mask, same_number) (omega arith)
bit_and_shifted (suc k) x m =
    let p = pow-suc 2 k in
    let y = m * 2 ^ k in
    let doubled : m * 2 ^ suc k ≡ y * 2 = rw p (omega arith) in
    let halved : y * 2 / 2 ≡ y = omega arith in
    let quotient : x / 2 / 2 ^ k ≡ x / 2 ^ suc k =
      div-div-eq-div-mul x 2 (2 ^ k) ∙ ap (λ t. x / t) (omega arith) in
    let rest = bit_and_shifted k (x / 2) m ∙ ap (λ t. bit_and t m * 2 ^ k) quotient in
    ap (bit_and x) doubled
    ∙ bit_and_lowest x (y * 2)
    ∙ ap (λ t. bit_and (x / 2) t * 2 + min (x % 2) (y * 2 % 2)) halved
    ∙ omega (arith, rest, ap (λ t. bit_and (x / 2 ^ suc k) m * t) p)

-- With `j` high ones above `k` zeros, a number of `j + k` digits keeps its quotient by `2 ^ k`.
pub bit_and_mask :
    (j k x : ℕ) → x / 2 ^ k < 2 ^ j → bit_and x ((2 ^ j - 1) * 2 ^ k) ≡ x / 2 ^ k * 2 ^ k
bit_and_mask j k x h =
    bit_and_shifted k x (2 ^ j - 1) ∙ ap (λ t. t * 2 ^ k) (bit_and_ones j (x / 2 ^ k) h)

-- ===== src/Std/Ip.antt =====
-- `std::net::IpAddr` and its parser, `s.parse::<IpAddr>()`, reader by reader.
pub mod Bounds
use Prim.Native.Nat.{ℕ, zero, suc, ◌+◌, ◌-◌, ◌*◌, ◌/◌, ◌%◌, ◌^◌, ◌≤◌, ◌<◌}
use amail_bridge.Common.{
  Bool, true, false, ◌&&◌, ◌||◌, not, Option, none, some, List, [], ◌∷◌, ◌++◌, ltb, leb, ◌==◌,
  if◌then◌else◌, length, Eq,
}
use mathlib.Core.Path.{ap}
use mathlib.Core.Logic.{dite}
use native.Mathlib.Decide.{ℕ_discrete}
use amail_bridge.Std.Text.{Text, str, strip_prefix, starts_with}

-- An address by its number, as `u32::from` and `u128::from` give it.
pub data IpAddr : Type 0 where
  v4 : ℕ → IpAddr
  v6 : ℕ → IpAddr

ip_dec : Discrete IpAddr
ip_dec (v4 m) (v4 n) = dite (ℕ_discrete m n) (λ p. yes (ap v4 p)) (λ d. no (λ p. d (cc)))
ip_dec (v6 m) (v6 n) = dite (ℕ_discrete m n) (λ p. yes (ap v6 p)) (λ d. no (λ p. d (cc)))
ip_dec (v4 m) (v6 n) = no (λ p. cc)
ip_dec (v6 m) (v4 n) = no (λ p. cc)

instance unfoldable pub ip_eq : Eq IpAddr
unfolding ip_dec ℕ_discrete
ip_eq = record { dec = ip_dec }

-- The number of bits.
abbrev pub width : IpAddr → ℕ
width (v4 n) = 32
width (v6 n) = 128

-- The number is within the type's range.
abbrev pub IsIp : IpAddr → Type 0
IsIp (v4 n) = n < 2 ^ 32
IsIp (v6 n) = n < 2 ^ 128

infixl 5 ◌>>=◌
abbrev pub ◌>>=◌ {ℓ κ} : {A : Type ℓ} {B : Type κ} → Option A → (A → Option B) → Option B
none >>= f = none
some a >>= f = f a

-- `c.to_digit(radix)`, for the radices 10 and 16.
unfoldable pub to_digit : ℕ → ℕ → Option ℕ
to_digit radix c =
    if leb b'0' c && leb c b'9'
    then some (c - b'0')
    else if radix == 16 && leb b'a' c && leb c b'f'
    then some (c - b'a' + 10)
    else if radix == 16 && leb b'A' c && leb c b'F'
    then some (c - b'A' + 10)
    else none

-- The loop of `read_number`: the value, the count of digits and the rest.
unfoldable pub read_digits : ℕ → ℕ → ℕ → Text → ℕ → ℕ → Option (ℕ × ℕ × Text)
read_digits radix max_digits limit [] n count = some (n, count, [])
read_digits radix max_digits limit (c ∷ s) n count = elim (to_digit radix c) [
  | none ↦ some (n, count, c ∷ s)
  | some d ↦
      let rest = read_digits radix max_digits limit s (n * radix + d) (count + 1) in
      if leb (n * radix + d) limit && ltb count max_digits then rest else none
]

unfoldable pub read_number : ℕ → ℕ → Bool → ℕ → Text → Option (ℕ × Text)
read_number radix max_digits allow_zero_prefix limit s =
    read_digits radix max_digits limit s 0 0 >>= λ (n, count, rest).
    if count == 0
    then none
    else if not allow_zero_prefix && starts_with (str "0") s && ltb 1 count
    then none
    else some (n, rest)

-- `read_separator`: no separator in front of the first item.
unfoldable pub read_separator : ℕ → Bool → Text → Option Text
read_separator sep true s = some s
read_separator sep false s = strip_prefix (sep ∷ []) s

unfoldable pub read_octet : Bool → Text → Option (ℕ × Text)
read_octet first s = read_separator b'.' first s >>= read_number 10 3 false 255

unfoldable pub read_ipv4 : Text → Option (ℕ × Text)
read_ipv4 s = read_octet true s >>= λ (a, s1). read_octet false s1 >>= λ (b, s2).
    read_octet false s2 >>= λ (c, s3).
    read_octet false s3 >>= λ (d, s4). some (((a * 256 + b) * 256 + c) * 256 + d, s4)

-- An IPv4 address at the end, if two slots are left, `n` being the slots behind the first.
unfoldable pub try_ipv4 : ℕ → Bool → Text → Option (ℕ × Text)
try_ipv4 n first s = if n == 0 then none else (read_separator b':' first s >>= read_ipv4)

unfoldable pub try_group : Bool → Text → Option (ℕ × Text)
try_group first s = read_separator b':' first s >>= read_number 16 4 true 65535

-- One round of `read_groups`, from what was read at the slot.
unfoldable pub groups_step :
    Option (ℕ × Text)
    → Option (ℕ × Text)
    → (Text → List ℕ × Bool × Text)
    → Text
    → List ℕ × Bool × Text
groups_step (some (v, rest)) group more s = (v / 65536 ∷ v % 65536 ∷ [], true, rest)
groups_step none (some (g, rest)) more s =
    let (gs, ipv4, rest') = more rest in (g ∷ gs, ipv4, rest')
groups_step none none more s = ([], false, s)

-- `read_groups` with the slots left: the groups, whether they end with an IPv4 address, the rest.
unfoldable pub read_groups : ℕ → Bool → Text → List ℕ × Bool × Text
read_groups zero first s = ([], false, s)
read_groups (suc n) first s =
    groups_step (try_ipv4 n first s) (try_group first s) (read_groups n false) s

abbrev pub zeros : ℕ → List ℕ
zeros zero = []
zeros (suc n) = 0 ∷ zeros n

abbrev pub join_groups : List ℕ → ℕ → ℕ
join_groups [] n = n
join_groups (g ∷ gs) n = join_groups gs (n * 65536 + g)

-- The part of `read_ipv6` behind `::`, after the groups in front of it.
unfoldable pub ipv6_back : List ℕ → Text → ℕ × Text
ipv6_back head back =
    let (tail, _, rest) = read_groups (7 - length head) true back in
    (join_groups (head ++ (zeros (8 - length head - length tail) ++ tail)) 0, rest)

unfoldable pub ipv6_of_head : List ℕ × Bool × Text → Option (ℕ × Text)
ipv6_of_head (head, head_ipv4, rest) =
    if length head == 8
    then some (join_groups head 0, rest)
    else if head_ipv4
    then none
    else strip_prefix (str "::") rest >>= λ back. some (ipv6_back head back)

unfoldable pub read_ipv6 : Text → Option (ℕ × Text)
read_ipv6 s = ipv6_of_head (read_groups 8 true s)

-- The whole text has to be read.
unfoldable pub whole : (ℕ → IpAddr) → ℕ × Text → Option IpAddr
whole make (n, []) = some (make n)
whole make (n, c ∷ s) = none

unfoldable pub parse_ip : Text → Option IpAddr
parse_ip s = elim (read_ipv4 s) [ some result ↦ whole v4 result | none ↦ read_ipv6 s >>= whole v6 ]

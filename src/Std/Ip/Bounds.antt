-- ===== src/Std/Ip/Bounds.antt =====
-- A parsed address is within its type's range.
use Prim.Native.Nat.{ℕ, zero, suc, ◌+◌, ◌-◌, ◌*◌, ◌^◌, ◌≤◌, ◌<◌}
use mathlib.Core.Path.{subst}
use native.Mathlib.Nat.{pow-suc}
use amail_bridge.Common.{
  ◌≡◌, refl, ap, Bool, true, false, Option, none, some, List, [], ◌∷◌, ◌++◌, arith, length,
  length-append, All, All-append, Option-cases, Bool-cases, inl, inr, ◌==◌,
}
use amail_bridge.Std.Text.{Text, str, strip_prefix}
use amail_bridge.Std.Ip.{
  IpAddr, v4, v6, IsIp, to_digit, read_digits, read_number, read_separator, read_octet, read_ipv4,
  try_ipv4, try_group, groups_step, read_groups, ipv6_back, ipv6_of_head, read_ipv6, join_groups,
  zeros, whole, parse_ip, ◌>>=◌,
}

pub >>=-eq-some {ℓ κ} :
    {A : Type ℓ} {B : Type κ} (m : Option A) (f : A → Option B) {b : B}
    → (m >>= f) ≡ some b
    → (a : A) × (m ≡ some a) × (f a ≡ some b)
>>=-eq-some none f h = cc
>>=-eq-some (some a) f h = (a, refl, h)

read_digits-le :
    (radix max_digits limit : ℕ) (s : Text) (n count r k : ℕ) (rest : Text)
    → n ≤ limit
    → read_digits radix max_digits limit s n count ≡ some (r, k, rest)
    → r ≤ limit
unfolding read_digits
read_digits-le radix max_digits limit [] n count r k rest le h = ground arith
read_digits-le radix max_digits limit (c ∷ s) n count r k rest le h =
    elim (Option-cases (to_digit radix c)) [
      | inl e ↦ ground arith
      | inr (d, e) ↦
          ground
            (arith, read_digits-le radix max_digits limit s (n * radix + d) (count + 1) r k rest)
    ]

read_number-le :
    (radix max_digits : ℕ) (allow : Bool) (limit : ℕ) (s : Text) (r : ℕ) (rest : Text)
    → read_number radix max_digits allow limit s ≡ some (r, rest)
    → r ≤ limit
unfolding read_number
read_number-le radix max_digits allow limit s r rest h =
    let ((n, count, rest'), read, e) = >>=-eq-some (read_digits radix max_digits limit s 0 0) _ h in
    ground (arith, read_digits-le radix max_digits limit s 0 0 n count rest' (omega arith) read)

read_octet-le :
    (first : Bool) (s : Text) (r : ℕ) (rest : Text) → read_octet first s ≡ some (r, rest) → r ≤ 255
unfolding read_octet
read_octet-le first s r rest h =
    let (s', _, e) = >>=-eq-some (read_separator b'.' first s) _ h in
    read_number-le 10 3 false 255 s' r rest e

pub read_ipv4-lt : (s : Text) (r : ℕ) (rest : Text) → read_ipv4 s ≡ some (r, rest) → r < 2 ^ 32
unfolding read_ipv4
read_ipv4-lt s r rest h =
    let ((a, s1), ea, h1) = >>=-eq-some (read_octet true s) _ h in
    let ((b, s2), eb, h2) = >>=-eq-some (read_octet false s1) _ h1 in
    let ((c, s3), ec, h3) = >>=-eq-some (read_octet false s2) _ h2 in
    let ((d, s4), ed, h4) = >>=-eq-some (read_octet false s3) _ h3 in
    ground (
      arith,
      read_octet-le true s a s1 ea,
      read_octet-le false s1 b s2 eb,
      read_octet-le false s2 c s3 ec,
      read_octet-le false s3 d s4 ed,
    )

-- The groups that are read: at most the slots, each of 16 bits.
abbrev AreGroups : ℕ → List ℕ → Type 0
AreGroups n gs = (length gs ≤ n) × All (λ g. g < 65536) gs

groups_step-AreGroups :
    (n : ℕ) (o g : Option (ℕ × Text)) (more : Text → List ℕ × Bool × Text) (s : Text)
    → ((v : ℕ) (rest : Text) → o ≡ some (v, rest) → (0 < n) × (v < 2 ^ 32))
    → ((v : ℕ) (rest : Text) → g ≡ some (v, rest) → v < 65536)
    → ((t : Text) → AreGroups n (more t).0)
    → AreGroups (suc n) (groups_step o g more s).0
unfolding groups_step
groups_step-AreGroups n (some (v, rest)) g more s ho hg hm =
    let (pos, lt) = ho v rest refl in (omega arith, omega arith)
groups_step-AreGroups n none (some (v, rest)) more s ho hg hm =
    let (le, all) = hm rest in (omega arith, (hg v rest refl, all))
groups_step-AreGroups n none none more s ho hg hm = (omega arith, tt)

try_ipv4-lt :
    (n : ℕ) (first : Bool) (s : Text) (v : ℕ) (rest : Text)
    → try_ipv4 n first s ≡ some (v, rest)
    → (0 < n) × (v < 2 ^ 32)
unfolding try_ipv4
try_ipv4-lt zero first s v rest h = cc
try_ipv4-lt (suc n) first s v rest h =
    let (s', _, e) =
      >>=-eq-some (read_separator b':' first s) read_ipv4 {b = (v, rest)} (ground arith) in
    (omega arith, read_ipv4-lt s' v rest e)

try_group-lt :
    (first : Bool) (s : Text) (v : ℕ) (rest : Text) → try_group first s ≡ some (v, rest) → v < 65536
unfolding try_group
try_group-lt first s v rest h =
    let (s', _, e) = >>=-eq-some (read_separator b':' first s) _ h in
    omega (arith, read_number-le 16 4 true 65535 s' v rest e)

read_groups-AreGroups : (n : ℕ) (first : Bool) (s : Text) → AreGroups n (read_groups n first s).0
unfolding read_groups
read_groups-AreGroups zero first s = (omega arith, tt)
read_groups-AreGroups (suc n) first s =
    groups_step-AreGroups n _ _ (read_groups n false) s (try_ipv4-lt n first s)
      (try_group-lt first s) (read_groups-AreGroups n false)

-- Joining `k` groups onto a number of `j` groups gives one of `j + k` groups.
join_groups-lt :
    (gs : List ℕ) (n b : ℕ)
    → All (λ g. g < 65536) gs
    → n < b
    → join_groups gs n < b * 65536 ^ length gs
join_groups-lt [] n b h lt = omega arith
join_groups-lt (g ∷ gs) n b (hg, h) lt = omega (
  arith,
  join_groups-lt gs (n * 65536 + g) (b * 65536) h (omega arith),
  ap (λ t. b * t) (pow-suc 65536 (length gs)),
)

All-zeros : (n : ℕ) → All (λ g. g < 65536) (zeros n)
All-zeros zero = tt
All-zeros (suc n) = (omega arith, All-zeros n)

length-zeros : (n : ℕ) → length (zeros n) ≡ n
length-zeros zero = refl
length-zeros (suc n) = ap suc (length-zeros n)

join_eight-lt : (gs : List ℕ) → All (λ g. g < 65536) gs → length gs ≡ 8 → join_groups gs 0 < 2 ^ 128
join_eight-lt gs h e =
    let bound : join_groups gs 0 < 1 * 65536 ^ length gs = join_groups-lt gs 0 1 h (omega arith) in
    subst (λ n. join_groups gs 0 < 1 * 65536 ^ n) e bound

ipv6_back-lt :
    (head : List ℕ) (back : Text)
    → length head ≤ 7
    → All (λ g. g < 65536) head
    → (ipv6_back head back).0 < 2 ^ 128
unfolding ipv6_back
ipv6_back-lt head back le h =
    let tail = (read_groups (7 - length head) true back).0 in
    let (tail_le, tail_h) = read_groups-AreGroups (7 - length head) true back in
    let gap = 8 - length head - length tail in
    join_eight-lt (head ++ (zeros gap ++ tail))
      (All-append _ head (zeros gap ++ tail) h
        (All-append _ (zeros gap) tail (All-zeros gap) tail_h))
      (omega (
        arith,
        length-append head (zeros gap ++ tail),
        length-append (zeros gap) tail,
        length-zeros gap,
      ))

ipv6_of_head-lt :
    (head : List ℕ) (ipv4 : Bool) (s : Text) (r : ℕ) (rest : Text)
    → AreGroups 8 head
    → ipv6_of_head (head, ipv4, s) ≡ some (r, rest)
    → r < 2 ^ 128
unfolding ipv6_of_head
ipv6_of_head-lt head ipv4 s r rest (le, h) e = elim (Bool-cases (length head == 8)) [
  | inl full ↦
      let r_eq : join_groups head 0 ≡ r = ground arith in
      rw (← r_eq) (join_eight-lt head h (ground arith))
  | inr short ↦ elim (Option-cases (strip_prefix (str "::") s)) [
    | inl missing ↦ absurd (ground arith)
    | inr (back, found) ↦
        let r_eq : (ipv6_back head back).0 ≡ r = ground arith in
        rw (← r_eq) (ipv6_back-lt head back (ground arith) h)
  ]
]

pub read_ipv6-lt : (s : Text) (r : ℕ) (rest : Text) → read_ipv6 s ≡ some (r, rest) → r < 2 ^ 128
unfolding read_ipv6
read_ipv6-lt s r rest h =
    let (head, ipv4, back) = read_groups 8 true s in
    ipv6_of_head-lt head ipv4 back r rest (read_groups-AreGroups 8 true s) h

whole-IsIp :
    (make : ℕ → IpAddr) (n : ℕ) (rest : Text) (ip : IpAddr)
    → IsIp (make n)
    → whole make (n, rest) ≡ some ip
    → IsIp ip
unfolding whole
whole-IsIp make n [] ip ok h = let e : make n ≡ ip = ground arith in subst IsIp e ok
whole-IsIp make n (c ∷ rest) ip ok h = cc

-- What is parsed is a 32-bit or a 128-bit number.
pub parse_ip-IsIp : (s : Text) (ip : IpAddr) → parse_ip s ≡ some ip → IsIp ip
unfolding parse_ip
parse_ip-IsIp s ip h = elim (Option-cases (read_ipv4 s)) [
  | inr ((n, rest), e) ↦ whole-IsIp v4 n rest ip (read_ipv4-lt s n rest e) (ground arith)
  | inl e ↦
      let ((n, rest), e6, hw) = >>=-eq-some (read_ipv6 s) (whole v6) {b = ip} (ground arith) in
      whole-IsIp v6 n rest ip (read_ipv6-lt s n rest e6) hw
]

-- ===== src/Security/Cidr.antt =====
-- src/security.rs: which addresses a CIDR entry matches.
use Prim.Native.Nat.{bit_and}
use mathlib.Core.Path.{subst}
use native.Mathlib.Nat.{div-lt_iff_lt-mul, mul-div_cancel, one-le-pow}
use amail_bridge.Common.{
  ℕ, zero, suc, ◌-◌, ◌*◌, ◌/◌, ◌^◌, ◌≤◌, ◌<◌, ◌≡◌, refl, sym, ap, ◌∙◌, ◌↔◌, Bool, true, ◌&&◌, some,
  arith, ◌==◌, ==_iff,
}
use amail_bridge.Std.Text.{Text}
use amail_bridge.Std.Bits.{bit_and_mask}
use amail_bridge.Std.Ip.{IpAddr, v4, v6, width, IsIp, parse_ip}
use amail_bridge.Std.Ip.Bounds.{>>=-eq-some, parse_ip-IsIp}
use amail_bridge.Security.{prefix_mask, ip_matches, cidr_parts, cidr_check, parse_cidr}

-- Every value below a bound, by evaluation.
check_below : ℕ → (ℕ → Bool) → Bool
check_below zero p = true
check_below (suc n) p = p n && check_below n p

check_below_sound : (n : ℕ) (p : ℕ → Bool) (x : ℕ) → check_below n p ≡ true → x < n → p x ≡ true
unfolding check_below
check_below_sound zero p x h lt = absurd (omega arith)
check_below_sound (suc n) p x h lt = ground (arith, check_below_sound n p x)

-- `w` bits with the highest `prefix` set.
abbrev high_ones : ℕ → ℕ → ℕ
high_ones w prefix = (2 ^ prefix - 1) * 2 ^ (w - prefix)

masks_32 : check_below 33 (λ p. prefix_mask 32 p == high_ones 32 p) ≡ true
unfolding check_below
masks_32 = refl

masks_128 : check_below 129 (λ p. prefix_mask 128 p == high_ones 128 p) ≡ true
unfolding check_below
masks_128 = refl

powers_32 : check_below 33 (λ p. 2 ^ p * 2 ^ (32 - p) == 2 ^ 32) ≡ true
unfolding check_below
powers_32 = refl

powers_128 : check_below 129 (λ p. 2 ^ p * 2 ^ (128 - p) == 2 ^ 128) ≡ true
unfolding check_below
powers_128 = refl

-- The network part of a number: its highest `prefix` bits of `w`.
abbrev pub network : ℕ → ℕ → ℕ → ℕ
network w prefix n = n / 2 ^ (w - prefix)

-- Two masked numbers of `w` bits are equal exactly when their network parts are.
masked_iff :
    (w prefix mask x y : ℕ)
    → mask ≡ high_ones w prefix
    → 2 ^ prefix * 2 ^ (w - prefix) ≡ 2 ^ w
    → x < 2 ^ w
    → y < 2 ^ w
    → (bit_and x mask ≡ bit_and y mask) ↔ (network w prefix x ≡ network w prefix y)
masked_iff w prefix mask x y m e hx hy =
    let q = 2 ^ (w - prefix) in
    let q_pos : 0 < q = one-le-pow (w - prefix) 2 (omega arith) in
    let keep : (n : ℕ) → n < 2 ^ w → bit_and n mask ≡ n / q * q =
      λ n h. rw m (bit_and_mask prefix (w - prefix) n ((div-lt_iff_lt-mul q_pos).1 (rw e h))) in
    (
      λ same.
          sym (mul-div_cancel (x / q) q_pos)
          ∙ ap (λ t. t / q) (sym (keep x hx) ∙ same ∙ keep y hy)
          ∙ mul-div_cancel (y / q) q_pos,
      λ same. keep x hx ∙ ap (λ t. t * q) same ∙ sym (keep y hy),
    )

-- An entry's network is that of the address: the highest `prefix` bits agree, and the addresses
-- are of one family.
abbrev pub InNetwork : IpAddr → IpAddr → ℕ → Type 0
InNetwork (v4 ip) (v4 net) prefix = network 32 prefix ip ≡ network 32 prefix net
InNetwork (v6 ip) (v6 net) prefix = network 128 prefix ip ≡ network 128 prefix net
InNetwork (v4 ip) (v6 net) prefix = ⊥
InNetwork (v6 ip) (v4 net) prefix = ⊥

-- An address matches an entry exactly when it lies in the entry's network, for a prefix of at most
-- the entry's width. Addresses of different families never match.
pub ip_matches_iff :
    (ip net : IpAddr) (prefix : ℕ)
    → IsIp ip
    → IsIp net
    → prefix ≤ width net
    → (ip_matches ip net prefix ≡ true) ↔ InNetwork ip net prefix
unfolding ip_matches
ip_matches_iff (v4 ip) (v4 net) prefix hi hn le =
    let small : prefix < 33 = omega arith in
    let mask = (==_iff _ _).0 (check_below_sound 33 _ prefix masks_32 small) in
    let power = (==_iff _ _).0 (check_below_sound 33 _ prefix powers_32 small) in
    let masked = masked_iff 32 prefix (prefix_mask 32 prefix) ip net mask power hi hn in
    let test = ==_iff (bit_and ip (prefix_mask 32 prefix)) (bit_and net (prefix_mask 32 prefix)) in
    (λ h. masked.0 (test.0 h), λ h. test.1 (masked.1 h))
ip_matches_iff (v6 ip) (v6 net) prefix hi hn le =
    let small : prefix < 129 = omega arith in
    let mask = (==_iff _ _).0 (check_below_sound 129 _ prefix masks_128 small) in
    let power = (==_iff _ _).0 (check_below_sound 129 _ prefix powers_128 small) in
    let masked = masked_iff 128 prefix (prefix_mask 128 prefix) ip net mask power hi hn in
    let test =
      ==_iff (bit_and ip (prefix_mask 128 prefix)) (bit_and net (prefix_mask 128 prefix)) in
    (λ h. masked.0 (test.0 h), λ h. test.1 (masked.1 h))
ip_matches_iff (v4 ip) (v6 net) prefix hi hn le = (λ h. cc, λ h. absurd h)
ip_matches_iff (v6 ip) (v4 net) prefix hi hn le = (λ h. cc, λ h. absurd h)

cidr_check_lem :
    (prefix : ℕ) (ip net : IpAddr) (p : ℕ)
    → cidr_check prefix ip ≡ some (net, p)
    → (ip ≡ net) × (prefix ≡ p) × (p ≤ width net)
unfolding cidr_check
cidr_check_lem prefix ip net p h = ground arith

-- A parsed entry is an address of its family's range with a prefix of at most its width: so the
-- shift of the mask never overflows.
pub parse_cidr-IsIp :
    (s : Text) (net : IpAddr) (prefix : ℕ)
    → parse_cidr s ≡ some (net, prefix)
    → IsIp net × (prefix ≤ width net)
unfolding parse_cidr
parse_cidr-IsIp s net prefix h =
    let ((ip_s, pfx), parts, h1) = >>=-eq-some (cidr_parts s) _ h in
    let (ip, parsed, h2) = >>=-eq-some (parse_ip ip_s) _ h1 in
    let (ip_eq, _, le) = cidr_check_lem pfx ip net prefix h2 in
    (subst IsIp ip_eq (parse_ip-IsIp ip_s ip parsed), le)

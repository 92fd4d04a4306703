-- ===== src/Security.antt =====
-- src/security.rs: the CIDR test and the CIDR parser. A response's headers are modelled for the
-- layer that adds the security headers.
pub mod Cidr
use Prim.Native.Nat.{bit_and}
use amail_bridge.Common.{
  ℕ, ◌-◌, ◌*◌, ◌%◌, ◌^◌, Bool, false, Option, none, some, ltb, ◌==◌, if◌then◌else◌, list_eq, nat_eq,
}
use amail_bridge.Std.Text.{Text, str, split_once, contains_char}
use amail_bridge.Std.Number.{parse_uint, u8_max}
use amail_bridge.Std.Dict
use amail_bridge.Std.Dict.{Dict}
use amail_bridge.Std.Ip.{IpAddr, v4, v6, width, parse_ip, ◌>>=◌}

-- `if prefix == 0 { 0 } else { !0 << (w - prefix) }` at `w` bits, for a prefix of at most `w`.
abbrev pub prefix_mask : ℕ → ℕ → ℕ
prefix_mask w prefix = if prefix == 0 then 0 else (2 ^ w - 1) * 2 ^ (w - prefix) % 2 ^ w

unfoldable pub ip_matches : IpAddr → IpAddr → ℕ → Bool
ip_matches (v4 ip) (v4 net) prefix =
    bit_and ip (prefix_mask 32 prefix) == bit_and net (prefix_mask 32 prefix)
ip_matches (v6 ip) (v6 net) prefix =
    bit_and ip (prefix_mask 128 prefix) == bit_and net (prefix_mask 128 prefix)
ip_matches (v4 ip) (v6 net) prefix = false
ip_matches (v6 ip) (v4 net) prefix = false

-- The text of the address and the prefix length, of which a missing one is implicit.
unfoldable pub cidr_parts : Text → Option (Text × ℕ)
cidr_parts s = elim (split_once b'/' s) [
  | some (ip, pfx) ↦ parse_uint u8_max pfx >>= λ prefix. some (ip, prefix)
  | none ↦ some (s, if contains_char b':' s then 128 else 32)
]

-- `is_ipv4` decides the largest prefix.
unfoldable pub cidr_check : ℕ → IpAddr → Option (IpAddr × ℕ)
cidr_check prefix ip = if ltb (width ip) prefix then none else some (ip, prefix)

unfoldable pub parse_cidr : Text → Option (IpAddr × ℕ)
parse_cidr s = cidr_parts s >>= λ (ip_s, prefix). parse_ip ip_s >>= cidr_check prefix

-- `add_security_headers`: each `insert` replaces what the handler set.
unfoldable pub add_security_headers : Dict Text Text → Dict Text Text
add_security_headers headers =
    Dict.insert (str "referrer-policy") (str "strict-origin-when-cross-origin") (
      Dict.insert (str "x-frame-options") (str "DENY")
        (Dict.insert (str "x-content-type-options") (str "nosniff") headers))

-- ===== src/Config/Defaults.antt =====
-- src/config.rs: the defaults of the fields that a configuration leaves out.
use amail_bridge.Common.{
  ℕ, ◌≡◌, refl, ap, ◌↔◌, ◌⊎◌, inl, inr, true, some, List, [], ◌∷◌, arith, Bool-cases, list_eq,
  nat_eq,
}
use amail_bridge.Std.Text.{Text, str, split_once, contains_char, strip_prefix, starts_with}
use amail_bridge.Std.Ip.{
  IpAddr, v4, v6, width, IsIp, parse_ip, read_ipv4, read_ipv6, read_octet, read_number, read_digits,
  read_separator, try_ipv4, try_group, groups_step, read_groups, ipv6_back, ipv6_of_head, whole,
  to_digit,
}
use amail_bridge.Security.{ip_matches, parse_cidr, cidr_parts, cidr_check}
use amail_bridge.Security.Cidr.{ip_matches_iff}
use amail_bridge.Push.Access.{parse_ip_list, matches_any, is_nil, admin_allows}
use amail_bridge.Config.{PullConfig}

unfoldable pub default_mode : Text
default_mode = str "push"

unfoldable pub default_listen_bind : Text
default_listen_bind = str "0.0.0.0:38080"

unfoldable pub default_poll_interval : ℕ
default_poll_interval = 10

unfoldable pub default_log_level : Text
default_log_level = str "info"

unfoldable pub default_health_check_interval : ℕ
default_health_check_interval = 60

unfoldable pub default_health_fail_threshold : ℕ
default_health_fail_threshold = 3

unfoldable pub default_health_connect_timeout : ℕ
default_health_connect_timeout = 3

unfoldable pub default_admin_allowed_ips : List Text
default_admin_allowed_ips = str "127.0.0.1" ∷ str "::1" ∷ []

-- `PullConfig::default`
unfoldable pub default_pull : PullConfig
default_pull = record {
  amail_url = [];
  admin_key = [];
  api_key = [];
  poll_interval_sec = 10;
  system_id = [];
  systems = [];
}

parsed_default : parse_ip_list default_admin_allowed_ips ≡ (v4 2130706433, 32) ∷ (v6 1, 128) ∷ []
unfolding parse_ip_list default_admin_allowed_ips parse_cidr cidr_parts cidr_check split_once
    contains_char parse_ip whole read_ipv4 read_ipv6 ipv6_back ipv6_of_head try_ipv4 try_group
    groups_step read_groups read_octet read_number read_digits read_separator to_digit strip_prefix
    starts_with
parsed_default = refl

abbrev number : IpAddr → ℕ
number (v4 n) = n
number (v6 n) = n

-- An entry for a single address matches that address only.
single_address :
    (ip net : IpAddr) → IsIp ip → IsIp net → (ip_matches ip net (width net) ≡ true) ↔ (ip ≡ net)
single_address (v4 m) (v4 n) hm hn =
    let test = ip_matches_iff (v4 m) (v4 n) 32 hm hn (omega arith) in
    (λ h. let e = test.0 h in ap v4 (omega arith), λ h. let e = ap number h in test.1 (omega arith))
single_address (v6 m) (v6 n) hm hn =
    let test = ip_matches_iff (v6 m) (v6 n) 128 hm hn (omega arith) in
    (λ h. let e = test.0 h in ap v6 (omega arith), λ h. let e = ap number h in test.1 (omega arith))
single_address (v4 m) (v6 n) hm hn = (λ h. absurd (unfold ip_matches in cc), λ h. absurd (cc))
single_address (v6 m) (v4 n) hm hn = (λ h. absurd (unfold ip_matches in cc), λ h. absurd (cc))

-- Without a list of its own, the admin API admits 127.0.0.1 and ::1, and no other peer.
pub default_admin_allowed_ips_lem :
    (ip : IpAddr)
    → IsIp ip
    → (admin_allows (parse_ip_list default_admin_allowed_ips) (some ip) ≡ true)
      ↔ ((ip ≡ v4 2130706433) ⊎ (ip ≡ v6 1))
unfolding admin_allows matches_any is_nil
default_admin_allowed_ips_lem ip ok =
    let local = single_address ip (v4 2130706433) ok (omega arith) in
    let local_v6 = single_address ip (v6 1) ok (omega arith) in
    rw parsed_default (
      λ h. elim (Bool-cases (ip_matches ip (v4 2130706433) 32)) [
        | inl e ↦ inl (local.0 e)
        | inr e ↦ inr (local_v6.0 (ground (arith, h, e)))
      ],
      λ h. elim h [ inl e ↦ ground (arith, local.1 e) | inr e ↦ ground (arith, local_v6.1 e) ],
    )

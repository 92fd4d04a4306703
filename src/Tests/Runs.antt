-- ===== src/Tests/Runs.antt =====
-- Runs of the parsers at concrete inputs.
use amail_bridge.Common.{◌≡◌, refl, some, none}
use amail_bridge.Std.Text.{str, strip_prefix, starts_with}
use amail_bridge.Std.Ip.{
  parse_ip, v4, v6, whole, read_ipv4, read_ipv6, ipv6_back, ipv6_of_head, try_ipv4, try_group,
  groups_step, read_groups, read_octet, read_number, read_digits, read_separator, to_digit,
}

ip_runs : Unit {0}
unfolding parse_ip whole read_ipv4 read_ipv6 ipv6_back ipv6_of_head try_ipv4 try_group groups_step
    read_groups read_octet read_number read_digits read_separator to_digit strip_prefix starts_with
ip_runs = tt

parse_v4 : parse_ip (str "192.168.1.50") ≡ some (v4 3232235826)
unfolding ip_runs
parse_v4 = refl

parse_v6_loopback : parse_ip (str "::1") ≡ some (v6 1)
unfolding ip_runs
parse_v6_loopback = refl

parse_v6_net : parse_ip (str "2001:db8::") ≡ some (v6 0x20010db8000000000000000000000000)
unfolding ip_runs
parse_v6_net = refl

parse_v6_embedded : parse_ip (str "::ffff:192.168.1.1") ≡ some (v6 0xffffc0a80101)
unfolding ip_runs
parse_v6_embedded = refl

parse_domain : parse_ip (str "not-an-ip") ≡ none
unfolding ip_runs
parse_domain = refl

parse_leading_zero : parse_ip (str "10.0.0.01") ≡ none
unfolding ip_runs
parse_leading_zero = refl

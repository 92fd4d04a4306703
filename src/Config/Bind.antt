-- ===== src/Config/Bind.antt =====
-- src/config.rs: the listen address and the host name.
use amail_bridge.Common.{
  ℕ, ◌≡◌, refl, ◌≤◌, true, false, none, some, List, [], ◌∷◌, arith, inl, inr, ◌==◌, ◌⊎◌, Bool-cases,
  if◌then◌else◌,
}
use amail_bridge.Std.Text.{Text, split, strip_prefix}
use amail_bridge.Std.Ip.{
  parse_ip, read_ipv4, read_ipv6, read_octet, read_number, read_digits, read_separator, try_ipv4,
  try_group, groups_step, read_groups, ipv6_back, ipv6_of_head, whole, to_digit,
}
use amail_bridge.Std.Number.{u16_max}
use amail_bridge.Router.Route.{host_port}
use amail_bridge.Router.Address.{rsplit_once-host_port, parse_u16-show}
use amail_bridge.Config.{BridgeConfig, parsed_bind, is_ip_address, has_tls, is_dual_port, head_or}

-- The listen address is read back from the text `host:port`, whatever the host is, for a 16-bit
-- port.
pub parsed_bind-host_port :
    (host : Text) (port : ℕ) → port ≤ u16_max → parsed_bind (host_port host port) ≡ (host, port)
unfolding parsed_bind
parsed_bind-host_port host port le =
    ground (arith, rsplit_once-host_port host port, parse_u16-show port le)

split-cons : (c : ℕ) (s : Text) → (part : Text) × ((parts : List Text) × (split c s ≡ part ∷ parts))
unfolding split
split-cons c [] = ([], ([], refl))
split-cons c (d ∷ s) =
    let (part, (parts, e)) = split-cons c s in
    elim (Bool-cases (c == d)) [
      | inl b ↦ ([], (part ∷ parts, rw e (rw b refl)))
      | inr b ↦ (d ∷ part, (parts, rw e (rw b refl)))
    ]

split_first :
    (c d : ℕ) (host s : Text)
    → (part : Text) × (head_or host (split c (d ∷ s)) ≡ (if c == d then [] else d ∷ part))
unfolding split
split_first c d host s =
    let (part, (parts, e)) = split-cons c s in
    (part, rw e (elim (Bool-cases (c == d)) [ inl b ↦ rw b refl | inr b ↦ rw b refl ]))

-- No address begins with a bracket.
parse_ip-bracket : (s : Text) → parse_ip (b'[' ∷ s) ≡ none
unfolding parse_ip whole read_ipv4 read_ipv6 ipv6_back ipv6_of_head try_ipv4 try_group groups_step
    read_groups read_octet read_number read_digits read_separator to_digit strip_prefix
parse_ip-bracket s = refl

parse_ip-nil : parse_ip [] ≡ none
unfolding parse_ip whole read_ipv4 read_ipv6 ipv6_back ipv6_of_head try_ipv4 try_group groups_step
    read_groups read_octet read_number read_digits read_separator to_digit strip_prefix
parse_ip-nil = refl

is_ip_address-v6 : (c : ℕ) (s : Text) → (c ≡ b':') ⊎ (c ≡ b'[') → is_ip_address (c ∷ s) ≡ false
unfolding is_ip_address
is_ip_address-v6 c s (inl e) =
    let (part, first) = split_first b':' b':' (b':' ∷ s) s in rw e (rw first (rw parse_ip-nil refl))
is_ip_address-v6 c s (inr e) =
    let (part, first) = split_first b':' b'[' (b'[' ∷ s) s in
    rw e (rw first (rw (parse_ip-bracket part) refl))

-- A host name that begins with `:` or `[`, as the IPv6 addresses `::1` and `[::1]:443` do, is taken
-- for a domain: with a listen address on port 80, TLS and the dual-port mode are on.
pub has_tls-v6 :
    (cfg : BridgeConfig) (c : ℕ) (s host : Text)
    → cfg.hostname ≡ some (c ∷ s)
    → (c ≡ b':') ⊎ (c ≡ b'[')
    → cfg.bind ≡ host_port host 80
    → (has_tls cfg ≡ true) × (is_dual_port cfg ≡ true)
unfolding has_tls is_dual_port
has_tls-v6 cfg c s host name shape listen =
    let no_ip = is_ip_address-v6 c s shape in
    let parts = parsed_bind-host_port host 80 (omega arith) in
    (rw name (rw no_ip refl), rw name (rw no_ip (rw listen (rw parts refl))))

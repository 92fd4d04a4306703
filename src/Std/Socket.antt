-- ===== src/Std/Socket.antt =====
-- `std::net::SocketAddr` and its parser, `s.parse::<SocketAddr>()`.
use amail_bridge.Common.{ℕ, true, Option, none, some, [], ◌∷◌, length}
use amail_bridge.Std.Text.{Text, str, strip_prefix}
use amail_bridge.Std.Ip
use amail_bridge.Std.Ip.{IpAddr, v4, v6, read_ipv4, read_ipv6, read_number}

-- `std::net::SocketAddr`, less the scope of an IPv6 address.
pub record SocketAddr : Type 0 where
  pub ip : IpAddr
  pub port : ℕ

-- The port at the end: a `u16` of any number of digits.
unfoldable pub read_port : IpAddr → Text → Option SocketAddr
read_port ip s =
    ended (Ip.◌>>=◌ (strip_prefix (str ":") s) (λ t. read_number 10 (length t) true 65535 t))
  where
    ended : Option (ℕ × Text) → Option SocketAddr
    ended (some (port, [])) = some (record { ip = ip; port = port })
    ended (some (port, c ∷ s)) = none
    ended none = none

-- `%` and a number, or nothing: the scope of an IPv6 address.
unfoldable pub skip_scope : Text → Text
skip_scope s =
    elim (Ip.◌>>=◌ (strip_prefix (str "%") s)
      (λ t. read_number 10 (length t) true (4294967295) t)) [ none ↦ s | some (scope, rest) ↦ rest ]

unfoldable pub parse_socket_v6 : Text → Option SocketAddr
parse_socket_v6 s = Ip.◌>>=◌ (strip_prefix (str "[") s) λ s1.
    Ip.◌>>=◌ (read_ipv6 s1)
      λ (n, s2). Ip.◌>>=◌ (strip_prefix (str "]") (skip_scope s2)) (read_port (v6 n))

-- `s.parse::<SocketAddr>()`
unfoldable pub parse_socket_addr : Text → Option SocketAddr
parse_socket_addr s = elim (Ip.◌>>=◌ (read_ipv4 s) (λ (n, rest). read_port (v4 n) rest)) [
  | some addr ↦ some addr
  | none ↦ parse_socket_v6 s
]

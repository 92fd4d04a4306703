-- ===== src/Tests/Webhooks.antt =====
-- The theorems on the webhook handlers and the admin API, at concrete inputs.
use amail_bridge.Common.{
  ◌≡◌, ◌↔◌, refl, false, some, [], ◌∷◌, ◌++◌, arith, inl, All, map, list_eq, nat_eq,
}
use amail_bridge.Std.Text.{
  Text, str, to_lower, split_once, strip_prefix, starts_with, contains_char,
}
use amail_bridge.Std.Dict
use amail_bridge.Std.Dict.{get-insert}
use amail_bridge.Http.{HeaderLibLaws}
use amail_bridge.Std.Ip.{
  IpAddr, v4, parse_ip, whole, read_ipv4, read_octet, read_number, read_digits, read_separator,
  to_digit,
}
use amail_bridge.Security.{parse_cidr, cidr_parts, cidr_check}
use amail_bridge.Router.Table.{remove_route}
use amail_bridge.Router.Update.{route_for}
use amail_bridge.Push.Access.{Listed}
use amail_bridge.Push.Webhook.{
  State, signatures, is_batch, request_email, handle_webhook, handle_batch_webhook, response_text,
  batch_headers,
}
use amail_bridge.Push.Webhook.Batch.{
  AllDelivered, IsContentType, handle_batch_webhook-status, batch_headers-lower,
}
use amail_bridge.Push.Webhook.Single.{
  AreForwarded, IsRelayed, with_router, handle_webhook-remove_route,
}
use amail_bridge.Config.{default_forward_headers}
use amail_bridge.Admin.{CreateRouteBody, post_route, created, serve, webhook_url}
use amail_bridge.Bridge.Requests.{IsComplete, handle_webhook-serve}
use amail_bridge.Tests.Stubs.{
  alice, bob, local, disk, alice_router, json, header_lib, gateway, batch, entry, bridge_config,
}

abbrev start : State disk json header_lib gateway
start = record { router = alice_router; world = [] }

abbrev from_alice : Dict.Dict Text Text
from_alice = (str "X-AIMail-Email", alice) ∷ []

single : is_batch disk json header_lib gateway [] ≡ false
unfolding is_batch
single = refl

alice_asks : request_email disk json header_lib gateway from_alice ≡ some alice
unfolding request_email Dict.get list_eq nat_eq
alice_asks = refl

handle_webhook-remove_route_example :
    let r = remove_route disk alice alice_router in
    handle_webhook disk json header_lib gateway default_forward_headers from_alice []
      (with_router disk json header_lib gateway r start)
    ≡ (
      response_text 502 (str "No route for " ++ alice),
      with_router disk json header_lib gateway r start,
    )
handle_webhook-remove_route_example =
    handle_webhook-remove_route disk json header_lib gateway default_forward_headers from_alice []
      alice start single alice_asks tt

two_signed :
    signatures disk json header_lib gateway (batch (alice ∷ bob ∷ []))
    ≡ some (entry alice ∷ entry bob ∷ [])
unfolding signatures list_eq nat_eq
two_signed = refl

handle_batch_webhook-status_example :
    (((handle_batch_webhook disk json header_lib gateway default_forward_headers
          (str "{}")
          start).0.status
        ≡ 200)
      ↔ AllDelivered disk json header_lib gateway default_forward_headers
          (str "{}")
          (entry alice ∷ entry bob ∷ [])
          start)
    × (((handle_batch_webhook disk json header_lib gateway default_forward_headers
            (str "{}")
            start).0.status
          ≡ 207)
        ↔ (¬ AllDelivered disk json header_lib gateway default_forward_headers
            (str "{}")
            (entry alice ∷ entry bob ∷ [])
            start))
handle_batch_webhook-status_example =
    handle_batch_webhook-status disk json header_lib gateway default_forward_headers (str "{}")
      (str "{}") (batch (alice ∷ bob ∷ [])) (entry alice ∷ entry bob ∷ []) start refl two_signed
      refl

batch_headers-lower_example :
    All IsContentType
      (batch_headers (map (map to_lower) default_forward_headers) alice (str "s") (str "1"))
batch_headers-lower_example =
    batch_headers-lower header_lib default_forward_headers alice (str "s") (str "1")

admin_entry : parse_cidr (str "10.0.0.1") ≡ some (v4 167772161, 32)
unfolding parse_cidr cidr_parts cidr_check split_once parse_ip whole read_ipv4 read_octet
    read_number read_digits read_separator to_digit strip_prefix starts_with contains_char
admin_entry = refl

abbrev admin_ip : IpAddr
admin_ip = v4 167772161

listed : Listed admin_ip bridge_config.admin_allowed_ips
listed = inl (rw admin_entry refl)

abbrev alice_body : CreateRouteBody
alice_body = record { email = alice; host = local; port = 9000 }

complete : IsComplete alice_body
complete = (λ h. cc, λ h. cc, λ h. absurd (omega (arith, h)))

header_lib-HeaderLibLaws : HeaderLibLaws header_lib
unfolding Dict.get
header_lib-HeaderLibLaws = record {
  get-empty = λ n. refl;
  get-insert = λ j k v m. get-insert (map to_lower j) (map to_lower k) v m;
}

handle_webhook-serve_example :
    let (answer, r) =
      serve disk bridge_config (some admin_ip) (post_route alice_body) alice_router in
    let (relayed, st') =
      handle_webhook disk json header_lib gateway default_forward_headers from_alice []
        (with_router disk json header_lib gateway r start) in
    (answer ≡ created (webhook_url bridge_config))
    × (fwd : Dict.Dict Text Text) × AreForwarded header_lib default_forward_headers from_alice fwd
    × let url = (route_for alice local 9000).target_url in
      let (result, world) = gateway.send_map url fwd [] [] in
      IsRelayed result relayed × (st' ≡ record { router = r; world = world })
handle_webhook-serve_example =
    handle_webhook-serve disk json header_lib header_lib-HeaderLibLaws gateway bridge_config
      admin_ip alice_body default_forward_headers from_alice [] start (omega arith) listed complete
      single alice_asks

-- ===== src/Tests/Pulls.antt =====
-- The theorems on the pull loop and the health checker, at concrete inputs.
use amail_bridge.Common.{
  ℕ, ◌+◌, none, some, if◌then◌else◌, ◌≡◌, ◌⊎◌, ◌||◌, refl, true, false, List, [], ◌∷◌, ◌++◌, arith,
  All, any, same, same_refl, list_eq, nat_eq,
}
use amail_bridge.Std.Text.{Text, str}
use amail_bridge.Std.Number.{show, emit}
use amail_bridge.Std.Dict
use amail_bridge.Std.Dict.{Dict}
use amail_bridge.Std.Int.{pos, int_eq}
use amail_bridge.Router.Route.{host_port, bracket, new}
use amail_bridge.Router.Table.{lookup}
use amail_bridge.Pull.Forward.{
  Outside, Progress, BatchDelivery, PendingBatch, deliver, run_deliveries, run_batches, check_seen,
  forward, forward_along, settle,
}
use amail_bridge.Push.Webhook.{delivered_by}
use amail_bridge.Pull.Ack.{Kept, is_fresh, is_taken, deliver_lem, run_batches-Kept}
use amail_bridge.Pull.Redelivery.{InTime, acked_quietly, run_deliveries-redelivered}
use amail_bridge.Health.{Counters}
use amail_bridge.Health.Counting.{counter}
use amail_bridge.Tests.Stubs.{alice, local, disk, alice_router}
use amail_bridge.Http.{response, failed}

-- A clock in nanoseconds that goes on with each reading and each request, the URLs that were called,
-- and the gateway of `alice` alone that takes anything.
abbrev pub ticking : Outside
ticking = record {
  Value = Text;
  to_vec = λ v. some v;
  header_map = λ v. none;
  pending_body = λ limit filter. [];
  ack_body = λ ids. [];
  parse_batches = λ text. some none;
  parse_acked = λ text. some none;
  sha256_hex = λ s. s;
  hmac_sha256_hex = λ key s. s;
  World = ℕ × List Text;
  instant = λ w. (w.0, (w.0 + 1_000, w.1));
  unix_ms = λ w. (some w.0, w);
  send = λ url headers body w. (
    if same url (new alice local 8645).target_url
        then response 200 (str "ok")
        else failed (str "no answer"),
    (w.0 + 1_000_000, url ∷ w.1),
  );
}

abbrev delivery : BatchDelivery disk ticking
delivery = record { id = pos 7; email = alice; headers = [] }

abbrev fresh_start : Progress disk ticking
fresh_start = record {
  seen = [];
  router = alice_router;
  world = (0, []);
  ack_ids = [];
  forwarded_emails = [];
}

deliver_lem_example :
    let p' = deliver disk ticking (str "{}") delivery fresh_start in
    let acks =
      is_fresh disk ticking delivery fresh_start
      || is_taken disk ticking (str "{}") delivery fresh_start in
    ((acks ≡ true) × (p'.ack_ids ≡ [] ++ (pos 7 ∷ [])))
    ⊎ ((acks ≡ false) × (p'.ack_ids ≡ []) × (p'.seen ≡ []))
deliver_lem_example = deliver_lem disk ticking (str "{}") delivery fresh_start

abbrev one_batch : List (PendingBatch disk ticking)
one_batch = record { body = str "{}"; deliveries = delivery ∷ [] } ∷ []

run_batches-Kept_example : Kept disk ticking (run_batches disk ticking one_batch fresh_start).1
run_batches-Kept_example = run_batches-Kept disk ticking one_batch fresh_start tt

after_one : (run_batches disk ticking one_batch fresh_start).1.ack_ids ≡ pos 7 ∷ []
unfolding run_batches run_deliveries deliver check_seen forward forward_along settle lookup
    delivered_by Dict.get list_eq nat_eq int_eq new host_port show emit
after_one = refl

after_one_seen : (run_batches disk ticking one_batch fresh_start).1.seen ≡ (pos 7, 1_000_000) ∷ []
unfolding run_batches run_deliveries deliver check_seen forward forward_along settle lookup
    delivered_by Dict.get Dict.insert list_eq nat_eq int_eq new host_port show emit
after_one_seen = refl

-- A cycle one hour later.
abbrev next_cycle : Progress disk ticking
next_cycle = record fresh_start {
  seen = (run_batches disk ticking one_batch fresh_start).1.seen;
  world = (3_600_000_000_000, []);
}

an_hour-InTime : InTime disk ticking next_cycle.seen (delivery ∷ []) next_cycle.world
an_hour-InTime = (λ t h. omega arith, tt)

seen_again :
    All
      (λ d. any (same d.id) (run_batches disk ticking one_batch fresh_start).1.ack_ids ≡ true)
      (delivery ∷ [])
seen_again = (rw after_one (ground (arith, same_refl (pos 7))), tt)

run_deliveries-redelivered_example :
    run_deliveries disk ticking (str "{}") (delivery ∷ []) next_cycle
    ≡ acked_quietly disk ticking (delivery ∷ []) next_cycle
run_deliveries-redelivered_example =
    run_deliveries-redelivered disk ticking (str "{}") one_batch fresh_start next_cycle
      (delivery ∷ []) refl refl an_hour-InTime seen_again

abbrev relay_pairs : Dict Text Text
relay_pairs = (str "Content-Type", str "text/plain") ∷ (str "x", str "1") ∷ []

abbrev groups : Dict Text (List Text)
groups = (str "10.0.0.5:8645", alice ∷ []) ∷ []

abbrev no_failures : Counters
no_failures = record { failures = []; dead_targets = [] }

no_count : counter (str "t") no_failures ≡ 0
unfolding Dict.get
no_count = refl

abbrev loopback : Text
loopback = host_port (bracket ([] ++ (b':' ∷ str ":1"))) 8645

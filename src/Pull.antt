-- ===== src/Pull.antt =====
-- src/pull.rs: the pull loop. A cycle drops old dedup entries, fetches the pending deliveries,
-- forwards each along its route, and acknowledges those that the gateway took.
-- Instants are nanoseconds; each reading of a clock is an action of the world.
pub mod Backoff
pub mod Forward
pub mod Ack
pub mod Redelivery
pub mod Request
pub mod Complete
pub mod Loop
use amail_bridge.Pull.Forward.{Outside, seen_ttl, BatchDelivery, PendingBatch, run_batches}
use Prim.Native.Nat.{min}
use amail_bridge.Common.{
  ℕ, ◌+◌, ◌-◌, ◌*◌, ◌%◌, ◌^◌, Bool, Option, none, some, List, [], ◌∷◌, ◌++◌, any, same, ltb,
  if◌then◌else◌, list_eq, nat_eq,
}
use amail_bridge.Std.Text.{Text, str, rsplit_once, trim_end_matches}
use amail_bridge.Std.Number.{show}
use amail_bridge.Std.Dict
use amail_bridge.Std.Dict.{Dict}
use amail_bridge.Std.Int.{ℤ, int_eq}
use amail_bridge.Config.{PullSystemConfig, effective_key}
use amail_bridge.Http.{response, failed}
use amail_bridge.Router.Route.{unwrap_or}
use amail_bridge.Router.Table.{Crates, ProfileRouter, list_emails}

abbrev pub max_backoff : ℕ
max_backoff = 300

-- The pause after a failed fetch; the product wraps as a `u64`.
unfoldable pub backoff_secs : ℕ → ℕ → ℕ
backoff_secs poll_interval failures =
    min ((poll_interval * 2 ^ min failures 6) % 2 ^ 64) max_backoff

-- A counter of type `u32`.
abbrev pub bump : ℕ → ℕ
bump n = (n + 1) % 2 ^ 32

-- `email.rsplit('@').next()`
unfoldable pub domain_of : Text → Text
domain_of email = elim (rsplit_once b'@' email) [ none ↦ email | some (_, domain) ↦ domain ]

-- The set of the domains.
unfoldable pub domains : List Text → List Text
domains [] = []
domains (email ∷ emails) =
    let rest = domains emails in
    if any (same (domain_of email)) rest then rest else domain_of email ∷ rest

module _ (C : Crates) (O : Outside) where
  -- `api_sign`: the timestamp and the signature.
  unfoldable pub api_sign : Text → Text → Text → Text → O.World → (Text × Text) × O.World
  api_sign api_key method path body w =
      let (clock, w1) = O.unix_ms w in
      let now_ms : Text = elim clock [ none ↦ str "0" | some ms ↦ show ms ] in
      let key_hash = O.sha256_hex api_key in
      let base =
        method ++ str "\n" ++ path ++ str "\n" ++ now_ms ++ str "\n" ++ O.sha256_hex body in
      ((now_ms, O.hmac_sha256_hex key_hash base), w1)

  -- A signed request to the relay: the body of a response without error status.
  unfoldable pub signed_post : PullSystemConfig → Text → Text → O.World → Option Text × O.World
  signed_post cfg path body w =
      let url = trim_end_matches b'/' cfg.amail_url ++ path in
      let ((ts, sig), w1) = api_sign (effective_key cfg) (str "POST") path body w in
      let headers =
        (str "X-Api-Identity", cfg.system_id)
        ∷ (str "X-Api-Timestamp", ts)
        ∷ (str "X-Api-Signature", sig)
        ∷ (str "content-type", str "application/json")
        ∷ [] in
      let (result, w2) = O.send url headers body w1 in
      (
        elim result [
          | response status text ↦ if ltb status 400 then some text else none
          | failed error ↦ none
        ],
        w2,
      )

  abbrev pub delivery_of : ℤ × (Text × O.Value) → BatchDelivery C O
  delivery_of (id, (email, headers)) = record { id = id; email = email; headers = headers }

  unfoldable pub deliveries_of : List (ℤ × (Text × O.Value)) → List (BatchDelivery C O)
  deliveries_of [] = []
  deliveries_of (d ∷ ds) = delivery_of d ∷ deliveries_of ds

  unfoldable pub batches_of : List (O.Value × List (ℤ × (Text × O.Value))) → List (PendingBatch C O)
  batches_of [] = []
  batches_of ((body, ds) ∷ bs) =
      record { body = body; deliveries = deliveries_of ds } ∷ batches_of bs

  -- A response that is no JSON is an error; one whose batches do not parse is empty.
  unfoldable pub read_batches : Option Text → Option (List (PendingBatch C O))
  read_batches none = none
  read_batches (some text) = elim (O.parse_batches text) [
    | none ↦ none
    | some parsed ↦ some (batches_of (unwrap_or [] parsed))
  ]

  unfoldable pub fetch_for :
      PullSystemConfig → List Text → O.World → Option (List (PendingBatch C O)) × O.World
  fetch_for cfg [] w = (some [], w)
  fetch_for cfg (email ∷ emails) w =
      let body = O.pending_body 50 (domains (email ∷ emails)) in
      let (text, w1) = signed_post cfg (str "/api/v1/admin/pending") body w in
      (read_batches text, w1)

  -- `fetch_pending`
  unfoldable pub fetch_pending :
      PullSystemConfig
      → ProfileRouter C.Regex
      → O.World
      → Option (List (PendingBatch C O)) × O.World
  fetch_pending cfg router w = fetch_for cfg (list_emails C router) w

  -- `ack_deliveries`: the number that the relay took, 0 where the field is missing.
  unfoldable pub ack_deliveries : PullSystemConfig → List ℤ → O.World → Option ℕ × O.World
  ack_deliveries cfg ids w =
      let (text, w1) = signed_post cfg (str "/api/v1/admin/pending/ack") (O.ack_body ids) w in
      (
        elim text [
          | none ↦ none
          | some t ↦ elim (O.parse_acked t) [ none ↦ none | some acked ↦ some (unwrap_or 0 acked) ]
        ],
        w1,
      )

  -- What the loop keeps from one cycle to the next.
  pub record PullState : Type 0 where
    pub router : ProfileRouter C.Regex
    pub seen : Dict ℤ ℕ
    pub consecutive_failures : ℕ
    pub consecutive_ack_failures : ℕ
    pub world : O.World

  -- The end of a cycle: a pause in seconds, or the end of the loop.
  pub data Cycle : Type 0 where
    sleep : ℕ → PullState → Cycle
    stop : PullState → Cycle

  unfoldable pub ack_failures_after : Option ℕ → ℕ → ℕ
  ack_failures_after none failures = bump failures
  ack_failures_after (some acked) failures = 0

  -- The acknowledgement, when there is something to acknowledge.
  unfoldable pub acknowledge : PullSystemConfig → List ℤ → PullState → PullState
  acknowledge cfg [] s = s
  acknowledge cfg (id ∷ ids) s =
      let (acked, world) = ack_deliveries cfg (id ∷ ids) s.world in
      record s {
        world = world;
        consecutive_ack_failures = ack_failures_after acked s.consecutive_ack_failures;
      }

  -- The cycle behind a successful fetch.
  unfoldable pub work : PullSystemConfig → List (PendingBatch C O) → PullState → Cycle
  work cfg batches s =
      let (complete, p) = run_batches C O batches (record {
        seen = s.seen;
        router = s.router;
        world = s.world;
        ack_ids = [];
        forwarded_emails = [];
      }) in
      let after : PullState = record {
        router = p.router;
        seen = p.seen;
        consecutive_failures = 0;
        consecutive_ack_failures = s.consecutive_ack_failures;
        world = p.world;
      } in
      if complete then sleep cfg.poll_interval_sec (acknowledge cfg p.ack_ids after) else stop after

  unfoldable pub after_fetch :
      PullSystemConfig → Option (List (PendingBatch C O)) → PullState → Cycle
  after_fetch cfg none s =
      let failures = bump s.consecutive_failures in
      sleep (backoff_secs cfg.poll_interval_sec failures)
        (record s { consecutive_failures = failures })
  after_fetch cfg (some batches) s = work cfg batches s

  -- One round of the loop of `start_pull_loop`, with the shutdown flag that it reads.
  unfoldable pub cycle : PullSystemConfig → Bool → PullState → Cycle
  cycle cfg shutdown s =
      if shutdown
      then stop s
      else (let (now, w) = O.instant s.world in
          let seen = Dict.retain (λ t. ltb (now - t) seen_ttl) s.seen in
          let (batches, world) = fetch_pending cfg s.router w in
          after_fetch cfg batches (record s { seen = seen; world = world }))

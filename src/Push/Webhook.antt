-- ===== src/Push/Webhook.antt =====
-- src/push.rs: `handle_webhook` and `handle_batch_webhook`. The routes are part of the state, since
-- a lookup may keep a route that a pattern gave.
pub mod Batch
pub mod Single
use amail_bridge.Common.{
  ℕ, suc, Bool, true, false, not, Option, none, some, List, [], ◌∷◌, ◌++◌, any, same, ◌==◌,
  if◌then◌else◌, length, map, list_eq, nat_eq,
}
use amail_bridge.Std.Text.{Text, str}
use amail_bridge.Std.Number.{show}
use amail_bridge.Std.Ip.{◌>>=◌}
use amail_bridge.Http.{Json, HeaderLib, Client, SendResult, response, failed, Response, is_success}
use amail_bridge.Router.Route.{ProfileRoute, unwrap_or}
use amail_bridge.Router.Table.{Crates, ProfileRouter, lookup}
use amail_bridge.Push.Access.{is_nil}

abbrev pub or_else_option {ℓ} : {A : Type ℓ} → Option A → Option A → Option A
or_else_option none b = b
or_else_option (some a) b = some a

-- `batch_header_value`: the header that a configured name stands for in a batch.
unfoldable pub batch_header_value : Text → Text → Text → Text → Option (Text × Text)
batch_header_value name email sig ts =
    if any (same name) (str "X-AIMail-Email" ∷ str "X-Amail-Email" ∷ [])
    then some (str "X-AIMail-Email", email)
    else if same name (str "X-Webhook-Signature")
    then some (str "X-Webhook-Signature", sig)
    else if any (same name) (str "X-AIMail-Timestamp" ∷ str "X-Mailrelay-Timestamp" ∷ [])
    then some (str "X-AIMail-Timestamp", ts)
    else if same name (str "content-type")
    then some (str "content-type", str "application/json")
    else none

-- One round of the header loop: a header whose name was emitted before is left out.
unfoldable pub add_header :
    Option (Text × Text) → List Text × List (Text × Text) → List Text × List (Text × Text)
add_header none (emitted, headers) = (emitted, headers)
add_header (some (name, value)) (emitted, headers) =
    if any (same name) emitted
    then (emitted, headers)
    else (name ∷ emitted, headers ++ ((name, value) ∷ []))

-- The header loop over the configured names.
unfoldable pub header_loop :
    List Text → Text → Text → Text → List Text × List (Text × Text) → List Text × List (Text × Text)
header_loop [] email sig ts state = state
header_loop (name ∷ names) email sig ts state =
    header_loop names email sig ts (add_header (batch_header_value name email sig ts) state)

unfoldable pub batch_headers : List Text → Text → Text → Text → List (Text × Text)
batch_headers names email sig ts = (header_loop names email sig ts ([], [])).1

abbrev pub response_text : ℕ → Text → Response
response_text status body = record { status = status; body = body }

-- A batch entry counts as delivered when the answer is a success.
unfoldable pub delivered_by : SendResult → Bool
delivered_by (response status body) = is_success status
delivered_by (failed error) = false

-- The last response of a batch.
unfoldable pub batch_response : ℕ → ℕ → Response
batch_response delivered total =
    response_text (if delivered == total then 200 else 207)
      (show delivered ++ str "/" ++ show total ++ str " delivered")

-- The answer to a relayed request.
unfoldable pub relay_response : SendResult → Response
relay_response (response status body) = response_text status body
relay_response (failed error) = response_text 502 (str "Forward failed: " ++ error)

module _ (C : Crates) (J : Json) (H : HeaderLib) (N : Client H.Map) where
  pub record State : Type 0 where
    pub router : ProfileRouter C.Regex
    pub world : N.World

  -- `forward_headers`: the configured names that are headers present in the request.
  unfoldable pub filter_headers : List H.Name → H.Map → H.Map → H.Map
  filter_headers [] headers fwd = fwd
  filter_headers (name ∷ names) headers fwd =
      filter_headers names headers
        (elim (H.get (H.as_str name) headers) [ none ↦ fwd | some val ↦ H.insert name val fwd ])

  abbrev pub text_field : Text → J.Value → Option Text
  text_field key v = J.field key v >>= J.as_str

  -- The signatures of a payload.
  unfoldable pub signatures : J.Value → Option (List J.Value)
  signatures v = J.field (str "signatures") v >>= J.as_array

  -- A header map made for one entry of a batch, and the delivery along a found route.
  unfoldable pub deliver_found :
      List H.Name → Text → Text → J.Value → Option ProfileRoute → State → Bool × State
  deliver_found names body email entry none st = (false, st)
  deliver_found names body email entry (some route) st =
      let sig = unwrap_or [] (text_field (str "signature") entry) in
      let ts = unwrap_or [] (text_field (str "timestamp") entry) in
      let headers = batch_headers (map H.as_str names) email sig ts in
      let (result, world) = N.send_list route.target_url headers body st.world in
      (delivered_by result, record { router = st.router; world = world })

  unfoldable pub deliver_to : List H.Name → Text → Option Text → J.Value → State → Bool × State
  deliver_to names body none entry st = (false, st)
  deliver_to names body (some email) entry st =
      let (found, router) = lookup C email st.router in
      deliver_found names body email entry found (record { router = router; world = st.world })

  -- The round of the loop for one entry: whether it was delivered.
  unfoldable pub deliver_entry : List H.Name → Text → J.Value → State → Bool × State
  deliver_entry names body entry st =
      deliver_to names body (text_field (str "email") entry) entry st

  -- The loop over the entries: the number that were delivered.
  unfoldable pub deliver_all : List H.Name → Text → List J.Value → State → ℕ × State
  deliver_all names body [] st = (0, st)
  deliver_all names body (entry ∷ entries) st =
      let (ok, st1) = deliver_entry names body entry st in
      let (delivered, st2) = deliver_all names body entries st1 in
      (if ok then suc delivered else delivered, st2)

  -- The rest of `handle_batch_webhook` once the signatures are known.
  unfoldable pub fan_out : List H.Name → List J.Value → Option Text → State → Response × State
  fan_out names sigs none st = (response_text 500 (str "Batch body serialization failed"), st)
  fan_out names sigs (some body) st =
      let (delivered, st1) = deliver_all names body sigs st in
      (batch_response delivered (length sigs), st1)

  unfoldable pub batch_of : List H.Name → J.Value → Option (List J.Value) → State → Response × State
  batch_of names batch none st = (response_text 400 (str "Missing 'signatures' array"), st)
  batch_of names batch (some sigs) st =
      fan_out names sigs (J.to_vec (J.remove_field (str "signatures") batch)) st

  -- `handle_batch_webhook`
  unfoldable pub handle_batch_webhook : List H.Name → Text → State → Response × State
  handle_batch_webhook names body st = elim (J.from_slice body) [
    | none ↦ (response_text 400 (str "Invalid batch JSON"), st)
    | some batch ↦ batch_of names batch (signatures batch) st
  ]

  -- The address of a request in single mode.
  unfoldable pub request_email : H.Map → Option Text
  request_email headers =
      or_else_option (H.get (str "X-AIMail-Email") headers) (H.get (str "X-Amail-Email") headers)
      >>= H.to_str

  unfoldable pub forward_to :
      List H.Name → H.Map → Text → Text → Option ProfileRoute → State → Response × State
  forward_to names headers body email none st =
      (response_text 502 (str "No route for " ++ email), st)
  forward_to names headers body email (some route) st =
      let fwd = filter_headers names headers H.empty in
      let (result, world) = N.send_map route.target_url fwd body st.world in
      (relay_response result, record { router = st.router; world = world })

  -- `handle_webhook` from the single mode on.
  unfoldable pub handle_single : List H.Name → H.Map → Text → Option Text → State → Response × State
  handle_single names headers body none st =
      (response_text 400 (str "Missing X-AIMail-Email header"), st)
  handle_single names headers body (some email) st =
      let (found, router) = lookup C email st.router in
      forward_to names headers body email found (record { router = router; world = st.world })

  -- Whether a body is a batch: it has a list of signatures that is not empty.
  unfoldable pub is_batch : Text → Bool
  is_batch body = elim (J.from_slice body >>= signatures) [
    | none ↦ false
    | some sigs ↦ not (is_nil sigs)
  ]

  -- `handle_webhook`
  unfoldable pub handle_webhook : List H.Name → H.Map → Text → State → Response × State
  handle_webhook names headers body st =
      if is_batch body
      then handle_batch_webhook names body st
      else handle_single names headers body (request_email headers) st

-- ===== src/Push/Webhook/Batch.antt =====
-- src/push.rs: what a batch answers, and the headers that its entries carry.
use mathlib.Core.Path.{subst}
use amail_bridge.Common.{
  sym, ◌<◌, ℕ, suc, ◌≡◌, ◌≢◌, ◌≤◌, ◌↔◌, refl, ap, Bool, true, false, Option, none, some, List, [],
  ◌∷◌, arith, Bool-cases, inl, inr, length, map, same, eq_of_same, if◌then◌else◌, list_eq, nat_eq,
  any, All, All-append,
}
use amail_bridge.Std.Text.{Text, str, to_lower}
use amail_bridge.Http.{Json, HeaderLib, Client, SendResult, response, failed, is_success}
use amail_bridge.Std.Ip.{◌>>=◌}
use amail_bridge.Router.Route.{ProfileRoute, unwrap_or}
use amail_bridge.Router.Table.{Crates, lookup}
use amail_bridge.Push.Webhook.{
  State, deliver_to, deliver_found, delivered_by, deliver_entry, deliver_all, batch_response,
  fan_out, batch_of, handle_batch_webhook, signatures, batch_header_value, batch_headers,
  add_header, header_loop,
}

batch_response-status :
    (delivered total : ℕ)
    → (((batch_response delivered total).status ≡ 200) ↔ (delivered ≡ total))
      × (((batch_response delivered total).status ≡ 207) ↔ (delivered ≢ total))
unfolding batch_response
batch_response-status delivered total = ground arith

module _ (C : Crates) (J : Json) (H : HeaderLib) (N : Client H.Map) where
  -- What the delivery of an entry is: the entry names an address, the table or a pattern has a
  -- route for it, and the one request, to the route's URL with the shared body, is answered with a
  -- status of 200 to 299. The last argument is the state behind the request.
  abbrev pub Delivered : List H.Name → Text → J.Value → State C J H N → State C J H N → Type 0
  Delivered names body entry st st' =
      (email : Text) × ((J.field (str "email") entry >>= J.as_str) ≡ some email)
      × (route : ProfileRoute) × ((lookup C email st.router).0 ≡ some route)
      × (status : ℕ) × (answer : Text) × let sig =
            unwrap_or [] (J.field (str "signature") entry >>= J.as_str) in
          let ts = unwrap_or [] (J.field (str "timestamp") entry >>= J.as_str) in
          let headers = batch_headers (map H.as_str names) email sig ts in
          let sent = N.send_list route.target_url headers body st.world in
          (sent.0 ≡ response status answer)
          × (200 ≤ status)
          × (status < 300)
          × (st' ≡ record { router = (lookup C email st.router).1; world = sent.1 })

  -- Every entry is delivered, in the order of the list.
  abbrev pub AllDelivered : List H.Name → Text → List J.Value → State C J H N → Type 0
  AllDelivered names body [] st = Unit
  AllDelivered names body (entry ∷ entries) st =
      (st' : State C J H N) × Delivered names body entry st st'
      × AllDelivered names body entries st'

  delivered_by-response :
      (result : SendResult)
      → delivered_by result ≡ true
      → (status : ℕ) × (answer : Text) × (result ≡ response status answer)
        × (200 ≤ status)
        × (status < 300)
  unfolding delivered_by
  delivered_by-response (response status answer) h =
      (status, answer, refl, ground arith, ground arith)
  delivered_by-response (failed error) h = absurd (cc)

  deliver_found-Delivered :
      (names : List H.Name) (body email : Text) (entry : J.Value) (st : State C J H N)
      (o : Option ProfileRoute)
      → (J.field (str "email") entry >>= J.as_str) ≡ some email
      → (lookup C email st.router).0 ≡ o
      → let st1 : State C J H N = record {
        router = (lookup C email st.router).1;
        world = st.world;
      } in
        (deliver_found C J H N names body email entry o st1).0 ≡ true
        → Delivered names body entry st (deliver_found C J H N names body email entry o st1).1
  unfolding deliver_found
  deliver_found-Delivered names body email entry st none e found h = absurd (cc)
  deliver_found-Delivered names body email entry st (some route) e found h =
      let (status, answer, sent, low, high) = delivered_by-response _ h in
      (email, e, route, found, status, answer, (sent, low, high, refl))

  deliver_to-Delivered :
      (names : List H.Name) (body : Text) (entry : J.Value) (st : State C J H N) (o : Option Text)
      → (J.field (str "email") entry >>= J.as_str) ≡ o
      → (deliver_to C J H N names body o entry st).0 ≡ true
      → Delivered names body entry st (deliver_to C J H N names body o entry st).1
  unfolding deliver_to
  deliver_to-Delivered names body entry st none e h = absurd (cc)
  deliver_to-Delivered names body entry st (some email) e h =
      deliver_found-Delivered names body email entry st _ e refl h

  deliver_entry-Delivered :
      (names : List H.Name) (body : Text) (entry : J.Value) (st : State C J H N)
      → (deliver_entry C J H N names body entry st).0 ≡ true
      → Delivered names body entry st (deliver_entry C J H N names body entry st).1
  unfolding deliver_entry
  deliver_entry-Delivered names body entry st h = deliver_to-Delivered names body entry st _ refl h

  Delivered-deliver_entry :
      (names : List H.Name) (body : Text) (entry : J.Value) (st st' : State C J H N)
      → Delivered names body entry st st'
      → deliver_entry C J H N names body entry st ≡ (true, st')
  unfolding deliver_entry deliver_to deliver_found delivered_by
  Delivered-deliver_entry names body entry st st'
        (email, e, route, found, status, answer, (sent, low, high, after)) =
      let success : is_success status ≡ true = ground arith in
      rw e (rw found (rw sent (rw success (rw after refl))))

  deliver_all-le :
      (names : List H.Name) (body : Text) (entries : List J.Value) (st : State C J H N)
      → (deliver_all C J H N names body entries st).0 ≤ length entries
  unfolding deliver_all
  deliver_all-le names body [] st = omega arith
  deliver_all-le names body (entry ∷ entries) st =
      let rest = deliver_all-le names body entries (deliver_entry C J H N names body entry st).1 in
      ground (arith, rest)

  deliver_all-length :
      (names : List H.Name) (body : Text) (entries : List J.Value) (st : State C J H N)
      → ((deliver_all C J H N names body entries st).0 ≡ length entries)
        ↔ AllDelivered names body entries st
  unfolding deliver_all
  deliver_all-length names body [] st = (λ _. tt, λ _. refl)
  deliver_all-length names body (entry ∷ entries) st =
      let st1 = (deliver_entry C J H N names body entry st).1 in
      let le = deliver_all-le names body entries st1 in
      let rest = deliver_all-length names body entries st1 in
      elim (Bool-cases (deliver_entry C J H N names body entry st).0) [
        | inl e ↦ rw e (
          λ h. (st1, deliver_entry-Delivered names body entry st e, rest.0 (omega arith)),
          λ (st', one, all).
              let same_state : st' ≡ st1 =
                sym (ap (λ r. r.1) (Delivered-deliver_entry names body entry st st' one)) in
              ap suc (rest.1 (subst (AllDelivered names body entries) same_state all)),
        )
        | inr e ↦ rw e (
          λ h. absurd (omega (arith, le)),
          λ (st', one, _). absurd (cc (Delivered-deliver_entry names body entry st st' one, e)),
        )
      ]

  handle_batch_webhook-eq :
      (names : List H.Name) (raw body : Text) (batch : J.Value) (sigs : List J.Value)
      (st : State C J H N)
      → J.from_slice raw ≡ some batch
      → signatures C J H N batch ≡ some sigs
      → J.to_vec (J.remove_field (str "signatures") batch) ≡ some body
      → (handle_batch_webhook C J H N names raw st).0
        ≡ batch_response (deliver_all C J H N names body sigs st).0 (length sigs)
  unfolding handle_batch_webhook batch_of fan_out
  handle_batch_webhook-eq names raw body batch sigs st e1 e2 e3 = ground (arith)

  -- A batch that parses, has a list of signatures and whose shared body can be written answers 200
  -- exactly when every entry names an address with a route and the one request along it is answered
  -- with a status of 200 to 299, in the order of the list, and 207 exactly when that is not so.
  pub handle_batch_webhook-status :
      (names : List H.Name) (raw body : Text) (batch : J.Value) (sigs : List J.Value)
      (st : State C J H N)
      → J.from_slice raw ≡ some batch
      → signatures C J H N batch ≡ some sigs
      → J.to_vec (J.remove_field (str "signatures") batch) ≡ some body
      → (((handle_batch_webhook C J H N names raw st).0.status ≡ 200)
          ↔ AllDelivered names body sigs st)
        × (((handle_batch_webhook C J H N names raw st).0.status ≡ 207)
            ↔ (¬ AllDelivered names body sigs st))
  handle_batch_webhook-status names raw body batch sigs st e1 e2 e3 =
      let (to, from) = deliver_all-length names body sigs st in
      let e = handle_batch_webhook-eq names raw body batch sigs st e1 e2 e3 in
      let (ok, partial) =
        batch_response-status (deliver_all C J H N names body sigs st).0 (length sigs) in
      rw e (
        (λ h. to (ok.0 h), λ all. ok.1 (from all)),
        (λ h all. partial.0 h (from all), λ bad. partial.1 (λ p. bad (to p))),
      )

to_lower-X : to_lower b'X' ≢ b'X'
unfolding to_lower
to_lower-X h = omega (arith, h)

not_lower : (t n : Text) → map to_lower n ≡ n → same n (b'X' ∷ t) ≡ false
not_lower t n h = elim (Bool-cases (same n (b'X' ∷ t))) [
  | inl e ↦
      let p = eq_of_same n (b'X' ∷ t) e in
      let q : map to_lower (b'X' ∷ t) ≡ b'X' ∷ t = rw p at h in absurd (to_lower-X (cc))
  | inr e ↦ e
]

-- Of the names in lower case, `batch_header_value` knows `content-type` alone.
batch_header_value_lower :
    (name email sig ts : Text)
    → map to_lower name ≡ name
    → batch_header_value name email sig ts ≡ (
        if same name (str "content-type")
        then some (str "content-type", str "application/json")
        else none)
unfolding batch_header_value
batch_header_value_lower name email sig ts h =
    let a = not_lower (str "-AIMail-Email") name h in
    let b = not_lower (str "-Amail-Email") name h in
    let c = not_lower (str "-Webhook-Signature") name h in
    let d = not_lower (str "-AIMail-Timestamp") name h in
    let e = not_lower (str "-Mailrelay-Timestamp") name h in rw a (rw b (rw c (rw d (rw e refl))))

-- What every header of a batch entry is, when the configured names are in lower case.
abbrev pub IsContentType : Text × Text → Type 0
IsContentType header = header ≡ (str "content-type", str "application/json")

add_header-All :
    (o : Option (Text × Text)) (b : Bool) (state : List Text × List (Text × Text))
    → o ≡ (if b then some (str "content-type", str "application/json") else none)
    → All IsContentType state.1
    → All IsContentType (add_header o state).1
add_header-All o false (emitted, headers) e h = rw e (unfold add_header in h)
add_header-All o true (emitted, headers) e h =
    rw e (elim (Bool-cases (any (same (str "content-type")) emitted)) [
      | inl seen ↦ unfold add_header in rw seen h
      | inr new ↦ unfold add_header in rw new (All-append IsContentType headers _ h (refl, tt))
    ])

module _ (H : HeaderLib) where
  header_loop-All :
      (names : List H.Name) (email sig ts : Text) (state : List Text × List (Text × Text))
      → All IsContentType state.1
      → All IsContentType (header_loop (map H.as_str names) email sig ts state).1
  unfolding header_loop
  header_loop-All [] email sig ts state h = h
  header_loop-All (name ∷ names) email sig ts state h =
      let lower = H.as_str_lower name in
      let value = batch_header_value_lower (H.as_str name) email sig ts lower in
      header_loop-All names email sig ts _
        (add_header-All _ (same (H.as_str name) (str "content-type")) state value h)

  -- Whatever the configured header names are, a batch entry carries no header but
  -- `content-type: application/json`: the names of `HeaderName` are in lower case, and
  -- `batch_header_value` knows only that one in lower case.
  pub batch_headers-lower :
      (names : List H.Name) (email sig ts : Text)
      → All IsContentType (batch_headers (map H.as_str names) email sig ts)
  unfolding batch_headers
  batch_headers-lower names email sig ts = header_loop-All names email sig ts ([], []) tt

-- ===== src/Push/Webhook/Single.antt =====
-- src/push.rs: where a request in single mode goes.
use amail_bridge.Common.{
  ℕ, ◌≡◌, refl, false, none, some, List, same_refl, same, any, arith, if◌then◌else◌, Option, [],
  ◌∷◌, Option-cases, Bool-cases, inl, inr, eq_of_same, list_eq, nat_eq, ◌∙◌, ◌++◌,
}
use amail_bridge.Std.Text.{Text, str}
use amail_bridge.Std.Dict
use amail_bridge.Http.{
  Json, HeaderLib, Client, HeaderLibLaws, SendResult, response, failed, Response,
}
use amail_bridge.Router.Route.{ProfileRoute}
use amail_bridge.Router.Table.{Crates, ProfileRouter, lookup, update_route, remove_route}
use amail_bridge.Router.Update.{route_for, update_route_lem, remove_route_lem}
use amail_bridge.Router.Patterns.{NoMatch, lookup-exact, lookup-none}
use amail_bridge.Push.Webhook.{
  State, filter_headers, request_email, relay_response, forward_to, handle_single, response_text,
  is_batch, handle_webhook,
}

-- What a request is answered with: the gateway's status and body, or 502 without an answer of it.
abbrev pub IsRelayed : SendResult → Response → Type 0
IsRelayed (response status body) answer = (answer.status ≡ status) × (answer.body ≡ body)
IsRelayed (failed error) answer = answer.status ≡ 502

pub relay_response-IsRelayed : (result : SendResult) → IsRelayed result (relay_response result)
unfolding relay_response
relay_response-IsRelayed (response status body) = (refl, refl)
relay_response-IsRelayed (failed error) = refl

-- The headers of a forward: of the request's headers those that are configured.
abbrev pub AreForwarded : (H : HeaderLib) → List H.Name → H.Map → H.Map → Type 0
AreForwarded H names headers fwd =
    (n : H.Name)
    → H.get (H.as_str n) fwd ≡ (
        if any (λ m. same (H.as_str n) (H.as_str m)) names
        then H.get (H.as_str n) headers
        else none)

module _ (C : Crates) (J : Json) (H : HeaderLib) (N : Client H.Map) (laws : HeaderLibLaws H) where
  or_kept {ℓ} : {A : Type ℓ} → Option A → Option A → Option A
  or_kept none kept = kept
  or_kept (some v) kept = some v

  filter_headers-get :
      (names : List H.Name) (headers fwd : H.Map) (n : H.Name)
      → H.get (H.as_str n) (filter_headers C J H N names headers fwd) ≡ (
          if any (λ m. same (H.as_str n) (H.as_str m)) names
          then or_kept (H.get (H.as_str n) headers) (H.get (H.as_str n) fwd)
          else H.get (H.as_str n) fwd)
  unfolding filter_headers or_kept
  filter_headers-get [] headers fwd n = refl
  filter_headers-get (m ∷ names) headers fwd n = elim (Option-cases (H.get (H.as_str m) headers)) [
    | inl e ↦ rw e (
        let rest = filter_headers-get names headers fwd n in
        elim (Bool-cases (same (H.as_str n) (H.as_str m))) [
          | inl own ↦
              let absent : H.get (H.as_str n) headers ≡ none =
                rw (eq_of_same (H.as_str n) (H.as_str m) own) e in
              ground (arith, rest, own, absent)
          | inr other ↦ ground (arith, rest, other)
        ])
    | inr (v, e) ↦ rw e (
        let rest = filter_headers-get names headers (H.insert m v fwd) n in
        let set = laws.get-insert n m v fwd in
        elim (Bool-cases (same (H.as_str n) (H.as_str m))) [
          | inl own ↦
              let there : H.get (H.as_str n) headers ≡ some v =
                rw (eq_of_same (H.as_str n) (H.as_str m) own) e in
              ground (arith, rest, set, own, there)
          | inr other ↦ ground (arith, rest, set, other)
        ])
  ]

  pub filter_headers-AreForwarded :
      (names : List H.Name) (headers : H.Map)
      → AreForwarded H names headers (filter_headers C J H N names headers H.empty)
  unfolding or_kept
  filter_headers-AreForwarded names headers n =
      let nothing = laws.get-empty n in ground (arith, filter_headers-get names headers H.empty n)

module _ (C : Crates) (J : Json) (H : HeaderLib) (N : Client H.Map) where
  -- The state with another router.
  abbrev pub with_router : ProfileRouter C.Regex → State C J H N → State C J H N
  with_router r st = record { router = r; world = st.world }

  forward_found :
      (names : List H.Name) (headers : H.Map) (body email : Text) (route : ProfileRoute)
      (st : State C J H N)
      → is_batch C J H N body ≡ false
      → request_email C J H N headers ≡ some email
      → lookup C email st.router ≡ (some route, st.router)
      → handle_webhook C J H N names headers body st ≡ (
          let (result, world) =
            N.send_map route.target_url
              (filter_headers C J H N names headers H.empty)
              body
              st.world in
          (relay_response result, record { router = st.router; world = world }))
  unfolding handle_webhook handle_single forward_to
  forward_found names headers body email route st single from found =
      rw single (rw from (rw found refl))

  -- After `update_route`, a request in single mode for the address is sent once, to the URL of
  -- the new route, and is answered with the gateway's status and body or with 502; the router
  -- stays as it is.
  pub handle_webhook-update_route :
      (names : List H.Name) (headers : H.Map) (body email host_or_url : Text) (port : ℕ)
      (st : State C J H N)
      → is_batch C J H N body ≡ false
      → request_email C J H N headers ≡ some email
      → let r = update_route C email host_or_url port st.router in
        handle_webhook C J H N names headers body (with_router r st) ≡ (
          let (result, world) =
            N.send_map
              (route_for email host_or_url port).target_url
              (filter_headers C J H N names headers H.empty)
              body
              st.world in
          (relay_response result, record { router = r; world = world }))
  handle_webhook-update_route names headers body email host_or_url port st single from =
      let r = update_route C email host_or_url port st.router in
      let (stored, _, _, _) = update_route_lem C email host_or_url port st.router email in
      let here : Dict.get email r.routes ≡ some (route_for email host_or_url port) =
        stored ∙ rw (same_refl email) refl in
      forward_found names headers body email (route_for email host_or_url port) (with_router r st)
        single from (lookup-exact C email r (route_for email host_or_url port) here)

  -- After `remove_route`, a request in single mode for the address is answered with 502 and
  -- nothing is sent, when no pattern of the routes file matches the address.
  pub handle_webhook-remove_route :
      (names : List H.Name) (headers : H.Map) (body email : Text) (st : State C J H N)
      → is_batch C J H N body ≡ false
      → request_email C J H N headers ≡ some email
      → NoMatch C email st.router.regex_patterns
      → let r = remove_route C email st.router in
        handle_webhook C J H N names headers body (with_router r st)
        ≡ (response_text 502 (str "No route for " ++ email), with_router r st)
  unfolding handle_webhook handle_single forward_to
  handle_webhook-remove_route names headers body email st single from unmatched =
      let r = remove_route C email st.router in
      let (gone, same_patterns, _, _) = remove_route_lem C email st.router email in
      let absent : Dict.get email r.routes ≡ none = gone ∙ rw (same_refl email) refl in
      let unmatched' : NoMatch C email r.regex_patterns = rw same_patterns unmatched in
      rw single (rw from (rw (lookup-none C email r absent unmatched') refl))

-- ===== src/Bridge/Webhooks.antt =====
-- What a webhook does to the route table: lookups only.
use amail_bridge.Common.{
  ◌≡◌, refl, sym, Option, none, some, List, [], ◌∷◌, Bool-cases, Option-cases, inl, inr, arith,
}
use mathlib.Core.Path.{subst}
use amail_bridge.Std.Text.{Text}
use amail_bridge.Http.{Json, HeaderLib, Client}
use amail_bridge.Router.Route.{ProfileRoute}
use amail_bridge.Router.Table.{Crates}
use amail_bridge.Router.Steps.{Reachable, next, looks}
use amail_bridge.Push.Webhook.{
  State, deliver_found, deliver_to, deliver_entry, deliver_all, fan_out, batch_of,
  handle_batch_webhook, forward_to, handle_single, is_batch, handle_webhook, signatures,
}

module _ (C : Crates) (J : Json) (H : HeaderLib) (N : Client H.Map) where
  abbrev Good : State C J H N → Type 0
  Good st = Reachable C st.router

  deliver_found-router :
      (names : List H.Name) (body email : Text) (entry : J.Value) (o : Option ProfileRoute)
      (st : State C J H N)
      → (deliver_found C J H N names body email entry o st).1.router ≡ st.router
  unfolding deliver_found
  deliver_found-router names body email entry none st = refl
  deliver_found-router names body email entry (some route) st = refl

  forward_to-router :
      (names : List H.Name) (headers : H.Map) (body email : Text) (o : Option ProfileRoute)
      (st : State C J H N)
      → (forward_to C J H N names headers body email o st).1.router ≡ st.router
  unfolding forward_to
  forward_to-router names headers body email none st = refl
  forward_to-router names headers body email (some route) st = refl

  deliver_to-Good :
      (names : List H.Name) (body : Text) (o : Option Text) (entry : J.Value) (st : State C J H N)
      → Good st
      → Good (deliver_to C J H N names body o entry st).1
  unfolding deliver_to
  deliver_to-Good names body none entry st h = h
  deliver_to-Good names body (some email) entry st h =
      subst (Reachable C) (sym (deliver_found-router names body email entry _ _))
        (next h (looks email st.router))

  deliver_all-Good :
      (names : List H.Name) (body : Text) (entries : List J.Value) (st : State C J H N)
      → Good st
      → Good (deliver_all C J H N names body entries st).1
  unfolding deliver_all deliver_entry
  deliver_all-Good names body [] st h = h
  deliver_all-Good names body (entry ∷ entries) st h =
      deliver_all-Good names body entries _ (deliver_to-Good names body _ entry st h)

  fan_out-Good :
      (names : List H.Name) (sigs : List J.Value) (o : Option Text) (st : State C J H N)
      → Good st
      → Good (fan_out C J H N names sigs o st).1
  unfolding fan_out
  fan_out-Good names sigs none st h = h
  fan_out-Good names sigs (some body) st h = deliver_all-Good names body sigs st h

  batch_of-Good :
      (names : List H.Name) (batch : J.Value) (o : Option (List J.Value)) (st : State C J H N)
      → Good st
      → Good (batch_of C J H N names batch o st).1
  unfolding batch_of
  batch_of-Good names batch none st h = h
  batch_of-Good names batch (some sigs) st h = fan_out-Good names sigs _ st h

  handle_batch_webhook-none :
      (names : List H.Name) (body : Text) (st : State C J H N)
      → J.from_slice body ≡ none
      → (handle_batch_webhook C J H N names body st).1 ≡ st
  unfolding handle_batch_webhook
  handle_batch_webhook-none names body st e = ground arith

  handle_batch_webhook-some :
      (names : List H.Name) (body : Text) (st : State C J H N) (batch : J.Value)
      → J.from_slice body ≡ some batch
      → handle_batch_webhook C J H N names body st
        ≡ batch_of C J H N names batch (signatures C J H N batch) st
  unfolding handle_batch_webhook
  handle_batch_webhook-some names body st batch e = ground arith

  handle_batch_webhook-Good :
      (names : List H.Name) (body : Text) (st : State C J H N)
      → Good st
      → Good (handle_batch_webhook C J H N names body st).1
  handle_batch_webhook-Good names body st h = elim (Option-cases (J.from_slice body)) [
    | inl e ↦ rw (handle_batch_webhook-none names body st e) h
    | inr (batch, e) ↦
        rw (handle_batch_webhook-some names body st batch e) (batch_of-Good names batch _ st h)
  ]

  handle_single-Good :
      (names : List H.Name) (headers : H.Map) (body : Text) (o : Option Text) (st : State C J H N)
      → Good st
      → Good (handle_single C J H N names headers body o st).1
  unfolding handle_single
  handle_single-Good names headers body none st h = h
  handle_single-Good names headers body (some email) st h =
      subst (Reachable C) (sym (forward_to-router names headers body email _ _))
        (next h (looks email st.router))

  pub handle_webhook-Reachable :
      (names : List H.Name) (headers : H.Map) (body : Text) (st : State C J H N)
      → Reachable C st.router
      → Reachable C (handle_webhook C J H N names headers body st).1.router
  unfolding handle_webhook
  handle_webhook-Reachable names headers body st h = elim (Bool-cases (is_batch C J H N body)) [
    | inl e ↦ rw e (handle_batch_webhook-Good names body st h)
    | inr e ↦ rw e (handle_single-Good names headers body _ st h)
  ]

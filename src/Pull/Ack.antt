-- ===== src/Pull/Ack.antt =====
-- src/pull.rs: which deliveries of a cycle are acknowledged.
use amail_bridge.Common.{
  ℕ, ◌-◌, ◌≡◌, refl, Bool, true, false, ◌||◌, Option, none, some, List, [], ◌∷◌, ◌++◌, arith, All,
  All-append, same, same_refl, ltb, Bool-cases, Option-cases, inl, inr, ◌⊎◌,
}
use amail_bridge.Std.Text.{Text}
use amail_bridge.Std.Dict
use amail_bridge.Std.Dict.{Dict, get-insert, contains_key-get}
use amail_bridge.Std.Int.{ℤ, int_eq}
use amail_bridge.Router.Route.{ProfileRoute, unwrap_or}
use amail_bridge.Router.Table.{Crates, lookup}
use amail_bridge.Push.Webhook.{delivered_by}
use amail_bridge.Pull.Forward.{
  Outside, BatchDelivery, PendingBatch, Progress, settle, forward_along, forward, check_seen,
  deliver, run_deliveries, run_batches, relay_headers, seen_ttl,
}

contains_key-insert :
    (j k : ℤ) (t : ℕ) (d : Dict ℤ ℕ)
    → Dict.contains_key j (Dict.insert k t d) ≡ same j k || Dict.contains_key j d
contains_key-insert j k t d =
    ground (arith, contains_key-get j (Dict.insert k t d), contains_key-get j d, get-insert j k t d)

-- Every identifier of a list is in the dedup map.
abbrev pub Remembered : Dict ℤ ℕ → List ℤ → Type 0
Remembered seen = All (λ id. Dict.contains_key id seen ≡ true)

Remembered-insert :
    (k : ℤ) (t : ℕ) (seen : Dict ℤ ℕ) (ids : List ℤ)
    → Remembered seen ids
    → Remembered (Dict.insert k t seen) ids
Remembered-insert k t seen [] h = tt
Remembered-insert k t seen (id ∷ ids) (h, hs) =
    (ground (arith, contains_key-insert id k t seen), Remembered-insert k t seen ids hs)

module _ (C : Crates) (O : Outside) where
  -- The acknowledged deliveries are all in the dedup map.
  abbrev pub Kept : Progress C O → Type 0
  Kept p = Remembered p.seen p.ack_ids

  settle-Kept :
      (d : BatchDelivery C O) (ok : Bool) (p : Progress C O) → Kept p → Kept (settle C O d ok p)
  unfolding settle
  settle-Kept d false p h = h
  settle-Kept d true p h =
      let now = (O.instant p.world).0 in
      All-append _ p.ack_ids _ (Remembered-insert d.id now p.seen p.ack_ids h)
        (ground (arith, contains_key-insert d.id d.id now p.seen, same_refl d.id), tt)

  forward_along-Kept :
      (body : Text) (d : BatchDelivery C O) (o : Option ProfileRoute) (p : Progress C O)
      → Kept p
      → Kept (forward_along C O body d o p)
  unfolding forward_along
  forward_along-Kept body d none p h = h
  forward_along-Kept body d (some route) p h = settle-Kept d _ _ h

  forward-Kept :
      (body : Text) (d : BatchDelivery C O) (p : Progress C O)
      → Kept p
      → Kept (forward C O body d p)
  unfolding forward
  forward-Kept body d p h = forward_along-Kept body d _ _ h

  check_seen-Kept :
      (body : Text) (d : BatchDelivery C O) (o : Option ℕ) (p : Progress C O)
      → Dict.get d.id p.seen ≡ o
      → Kept p
      → Kept (check_seen C O body d o p)
  check_seen-Kept body d none p e h = unfold check_seen in forward-Kept body d p h
  check_seen-Kept body d (some t) p e h =
      elim (Bool-cases (ltb ((O.instant p.world).0 - t) seen_ttl)) [
        | inl fresh ↦
            unfold check_seen in
            rw fresh (All-append _ p.ack_ids _ h (ground (arith, contains_key-get d.id p.seen), tt))
        | inr stale ↦ unfold check_seen in rw stale (forward-Kept body d _ h)
      ]

  deliver-Kept :
      (body : Text) (d : BatchDelivery C O) (p : Progress C O)
      → Kept p
      → Kept (deliver C O body d p)
  unfolding deliver
  deliver-Kept body d p h = check_seen-Kept body d (Dict.get d.id p.seen) p refl h

  run_deliveries-Kept :
      (body : Text) (ds : List (BatchDelivery C O)) (p : Progress C O)
      → Kept p
      → Kept (run_deliveries C O body ds p)
  unfolding run_deliveries
  run_deliveries-Kept body [] p h = h
  run_deliveries-Kept body (d ∷ ds) p h =
      run_deliveries-Kept body ds (deliver C O body d p) (deliver-Kept body d p h)

  pub run_batches-none :
      (b : PendingBatch C O) (bs : List (PendingBatch C O)) (p : Progress C O)
      → O.to_vec b.body ≡ none
      → run_batches C O (b ∷ bs) p ≡ (false, p)
  unfolding run_batches
  run_batches-none b bs p e = ground arith

  pub run_batches-some :
      (b : PendingBatch C O) (bs : List (PendingBatch C O)) (p : Progress C O) (body : Text)
      → O.to_vec b.body ≡ some body
      → run_batches C O (b ∷ bs) p ≡ run_batches C O bs (run_deliveries C O body b.deliveries p)
  unfolding run_batches
  run_batches-some b bs p body e = ground arith

  -- Through all batches of a cycle, whether they complete or stop early, every identifier that is
  -- to be acknowledged is in the dedup map, if that holds at the start (where none is).
  pub run_batches-Kept :
      (bs : List (PendingBatch C O)) (p : Progress C O) → Kept p → Kept (run_batches C O bs p).1
  run_batches-Kept [] p h = unfold run_batches in h
  run_batches-Kept (b ∷ bs) p h = elim (Option-cases (O.to_vec b.body)) [
    | inl e ↦ rw (run_batches-none b bs p e) h
    | inr (body, e) ↦
        rw (run_batches-some b bs p body e)
          (run_batches-Kept bs _ (run_deliveries-Kept body b.deliveries p h))
  ]

  -- Whether the dedup map has the delivery, younger than the time to live.
  unfoldable pub is_fresh : BatchDelivery C O → Progress C O → Bool
  is_fresh d p = elim (Dict.get d.id p.seen) [
    | none ↦ false
    | some t ↦ ltb ((O.instant p.world).0 - t) seen_ttl
  ]

  -- The world once the dedup entry, if there is one, has been compared with the clock.
  unfoldable pub world_at_send : BatchDelivery C O → Progress C O → O.World
  world_at_send d p = elim (Dict.get d.id p.seen) [
    | none ↦ p.world
    | some t ↦ (O.instant p.world).1
  ]

  -- Whether a route exists and the gateway at its end answers with a success.
  unfoldable pub is_taken : Text → BatchDelivery C O → Progress C O → Bool
  is_taken body d p = elim (lookup C d.email p.router).0 [
    | none ↦ false
    | some route ↦
        delivered_by
          (O.send route.target_url (relay_headers (unwrap_or [] (O.header_map d.headers))) body
            (world_at_send d p)).0
  ]

  -- A delivery is put on the list to acknowledge exactly when it was forwarded within the time to
  -- live, or its gateway takes it now; otherwise neither the dedup map nor the list changes.
  pub deliver_lem :
      (body : Text) (d : BatchDelivery C O) (p : Progress C O)
      → let p' = deliver C O body d p in
        (((is_fresh d p || is_taken body d p) ≡ true) × (p'.ack_ids ≡ p.ack_ids ++ (d.id ∷ [])))
        ⊎ (((is_fresh d p || is_taken body d p) ≡ false)
            × (p'.ack_ids ≡ p.ack_ids)
            × (p'.seen ≡ p.seen))
  unfolding deliver check_seen forward forward_along settle is_fresh is_taken world_at_send
  deliver_lem body d p = elim (Bool-cases (is_fresh d p || is_taken body d p)) [
    | inl e ↦ inl (e, ground arith)
    | inr e ↦ inr (e, ground arith, ground arith)
  ]

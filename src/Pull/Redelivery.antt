-- ===== src/Pull/Redelivery.antt =====
-- src/pull.rs: a delivery that the gateway took is not forwarded again within the time to live.
use amail_bridge.Common.{
  ℕ, ◌-◌, ◌<◌, ◌≡◌, refl, ◌∙◌, true, some, List, [], ◌∷◌, ◌++◌, append_assoc, append-nil, map, any,
  arith, All, All-map, same, eq_of_same, Bool-cases, Option-cases, inl, inr,
}
use amail_bridge.Std.Text.{Text}
use amail_bridge.Std.Dict
use amail_bridge.Std.Dict.{Dict, contains_key-get}
use amail_bridge.Std.Int.{ℤ, int_eq}
use amail_bridge.Router.Table.{Crates}
use amail_bridge.Pull.Forward.{
  Outside, BatchDelivery, PendingBatch, Progress, check_seen, deliver, run_deliveries, run_batches,
}
use amail_bridge.Pull.Ack.{Remembered, Kept, run_batches-Kept}

module _ (C : Crates) (O : Outside) where
  -- A world in which only the clock was read, once per delivery.
  abbrev pub ticks : List (BatchDelivery C O) → O.World → O.World
  ticks [] w = w
  ticks (d ∷ ds) w = ticks ds (O.instant w).1

  -- The readings of the clock, one per delivery and from this world on, are each less than two
  -- hours, in nanoseconds, behind the dedup entry of their delivery.
  abbrev pub InTime : Dict ℤ ℕ → List (BatchDelivery C O) → O.World → Type 0
  InTime seen [] w = Unit
  InTime seen (d ∷ ds) w =
      ((t : ℕ) → Dict.get d.id seen ≡ some t → (O.instant w).0 - t < 7_200_000_000_000)
      × InTime seen ds (O.instant w).1

  -- The progress that acknowledges deliveries without sending anything.
  abbrev pub acked_quietly : List (BatchDelivery C O) → Progress C O → Progress C O
  acked_quietly ds p = record p {
    world = ticks ds p.world;
    ack_ids = p.ack_ids ++ map (λ d. d.id) ds;
    forwarded_emails = p.forwarded_emails ++ map (λ d. d.email) ds;
  }

  deliver-fresh :
      (body : Text) (d : BatchDelivery C O) (p : Progress C O)
      → InTime p.seen (d ∷ []) p.world
      → Dict.contains_key d.id p.seen ≡ true
      → deliver C O body d p ≡ acked_quietly (d ∷ []) p
  unfolding deliver check_seen
  deliver-fresh body d p (time, _) h = elim (Option-cases (Dict.get d.id p.seen)) [
    | inl e ↦ absurd (ground (arith, contains_key-get d.id p.seen))
    | inr (t, e) ↦ let early = time t e in ground arith
  ]

  run_deliveries-fresh :
      (body : Text) (ds : List (BatchDelivery C O)) (p : Progress C O)
      → InTime p.seen ds p.world
      → All (λ d. Dict.contains_key d.id p.seen ≡ true) ds
      → run_deliveries C O body ds p ≡ acked_quietly ds p
  unfolding run_deliveries
  run_deliveries-fresh body [] p time h =
      rw (append-nil p.ack_ids) (rw (append-nil p.forwarded_emails) refl)
  run_deliveries-fresh body (d ∷ ds) p (time, times) (h, hs) =
      rw (deliver-fresh body d p (time, tt) h) (
        run_deliveries-fresh body ds (acked_quietly (d ∷ []) p) times hs
        ∙ rw (append_assoc p.ack_ids) (rw (append_assoc p.forwarded_emails) refl))

  Remembered-any :
      (k : ℤ) (seen : Dict ℤ ℕ) (ids : List ℤ)
      → Remembered seen ids
      → any (same k) ids ≡ true
      → Dict.contains_key k seen ≡ true
  Remembered-any k seen [] h m = cc
  Remembered-any k seen (id ∷ ids) (h, hs) m = elim (Bool-cases (same k id)) [
    | inl e ↦ rw (eq_of_same k id e) h
    | inr e ↦ Remembered-any k seen ids hs (ground arith)
  ]

  -- Deliveries that a cycle, which began with nothing to acknowledge, put on its list and that the
  -- relay sends again are put on the list of a later cycle with the same dedup map without another
  -- request to the gateway and without a change of the routes or that map, when that cycle reads the
  -- clock less than two hours behind the dedup entry of each.
  pub run_deliveries-redelivered :
      (body : Text) (bs : List (PendingBatch C O)) (p q : Progress C O)
      (ds : List (BatchDelivery C O))
      → p.ack_ids ≡ []
      → q.seen ≡ (run_batches C O bs p).1.seen
      → InTime q.seen ds q.world
      → All (λ d. any (same d.id) (run_batches C O bs p).1.ack_ids ≡ true) ds
      → run_deliveries C O body ds q ≡ acked_quietly ds q
  run_deliveries-redelivered body bs p q ds none_yet kept time again =
      let start : Kept C O p = rw none_yet tt in
      let known = run_batches-Kept C O bs p start in
      run_deliveries-fresh body ds q time (
        rw kept (
          All-map
            (λ d.
              Remembered-any d.id (run_batches C O bs p).1.seen (run_batches C O bs p).1.ack_ids
                known)
            ds again))

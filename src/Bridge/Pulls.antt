-- ===== src/Bridge/Pulls.antt =====
-- What a pull cycle does to the route table: lookups only.
use amail_bridge.Common.{
  ℕ, ◌-◌, ◌≡◌, refl, sym, Bool, true, false, Option, none, some, List, [], ◌∷◌, ltb, Bool-cases,
  Option-cases, inl, inr, if◌then◌else◌,
}
use mathlib.Core.Path.{subst}
use amail_bridge.Std.Text.{Text}
use amail_bridge.Std.Dict
use amail_bridge.Std.Int.{ℤ, int_eq}
use amail_bridge.Config.{PullSystemConfig}
use amail_bridge.Router.Table.{Crates, ProfileRouter}
use amail_bridge.Router.Steps.{Reachable, next, looks}
use amail_bridge.Pull.Forward.{
  Outside, BatchDelivery, PendingBatch, Progress, forward, check_seen, deliver, run_deliveries,
  run_batches, seen_ttl,
}
use amail_bridge.Pull.{PullState, Cycle, sleep, stop, work, acknowledge, after_fetch, cycle}
use amail_bridge.Pull.Ack.{run_batches-some, run_batches-none}
use amail_bridge.Pull.Complete.{forward_along-router}

module _ (C : Crates) (O : Outside) where
  -- The table that a cycle leaves.
  abbrev pub router_after : Cycle C O → ProfileRouter C.Regex
  router_after (sleep secs s) = s.router
  router_after (stop s) = s.router

  abbrev Good : Progress C O → Type 0
  Good p = Reachable C p.router

  forward-Good :
      (body : Text) (d : BatchDelivery C O) (p : Progress C O)
      → Good p
      → Good (forward C O body d p)
  unfolding forward
  forward-Good body d p h =
      subst (Reachable C) (sym (forward_along-router C O body d _ _))
        (next h (looks d.email p.router))

  check_seen-Good :
      (body : Text) (d : BatchDelivery C O) (o : Option ℕ) (p : Progress C O)
      → Good p
      → Good (check_seen C O body d o p)
  unfolding check_seen
  check_seen-Good body d none p h = forward-Good body d p h
  check_seen-Good body d (some t) p h =
      elim (Bool-cases (ltb ((O.instant p.world).0 - t) seen_ttl)) [
        | inl fresh ↦ rw fresh h
        | inr stale ↦ rw stale (forward-Good body d _ h)
      ]

  run_deliveries-Good :
      (body : Text) (ds : List (BatchDelivery C O)) (p : Progress C O)
      → Good p
      → Good (run_deliveries C O body ds p)
  unfolding run_deliveries deliver
  run_deliveries-Good body [] p h = h
  run_deliveries-Good body (d ∷ ds) p h =
      run_deliveries-Good body ds _ (check_seen-Good body d (Dict.get d.id p.seen) p h)

  run_batches-Good :
      (bs : List (PendingBatch C O)) (p : Progress C O) → Good p → Good (run_batches C O bs p).1
  run_batches-Good [] p h = unfold run_batches in h
  run_batches-Good (b ∷ bs) p h = elim (Option-cases (O.to_vec b.body)) [
    | inl e ↦ rw (run_batches-none C O b bs p e) h
    | inr (body, e) ↦
        rw (run_batches-some C O b bs p body e)
          (run_batches-Good bs _ (run_deliveries-Good body b.deliveries p h))
  ]

  acknowledge-router :
      (cfg : PullSystemConfig) (ids : List ℤ) (s : PullState C O)
      → (acknowledge C O cfg ids s).router ≡ s.router
  unfolding acknowledge
  acknowledge-router cfg [] s = refl
  acknowledge-router cfg (id ∷ ids) s = refl

  router_after-if :
      (complete : Bool) (secs : ℕ) (s t : PullState C O)
      → Reachable C s.router
      → Reachable C t.router
      → Reachable C (router_after (if complete then sleep secs s else stop t))
  router_after-if true secs s t hs ht = hs
  router_after-if false secs s t hs ht = ht

  work-Reachable :
      (cfg : PullSystemConfig) (bs : List (PendingBatch C O)) (s : PullState C O)
      → Reachable C s.router
      → Reachable C (router_after (work C O cfg bs s))
  unfolding work
  work-Reachable cfg bs s h =
      let forwarded =
        run_batches-Good bs
          (record {
            seen = s.seen;
            router = s.router;
            world = s.world;
            ack_ids = [];
            forwarded_emails = [];
          })
          h in
      router_after-if _ _ _ _ (subst (Reachable C) (sym (acknowledge-router cfg _ _)) forwarded)
        forwarded

  after_fetch-Reachable :
      (cfg : PullSystemConfig) (o : Option (List (PendingBatch C O))) (s : PullState C O)
      → Reachable C s.router
      → Reachable C (router_after (after_fetch C O cfg o s))
  unfolding after_fetch
  after_fetch-Reachable cfg none s h = h
  after_fetch-Reachable cfg (some bs) s h = work-Reachable cfg bs s h

  pub cycle-Reachable :
      (cfg : PullSystemConfig) (shutdown : Bool) (s : PullState C O)
      → Reachable C s.router
      → Reachable C (router_after (cycle C O cfg shutdown s))
  unfolding cycle
  cycle-Reachable cfg true s h = h
  cycle-Reachable cfg false s h = after_fetch-Reachable cfg _ _ h

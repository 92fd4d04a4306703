-- ===== src/Bridge.antt =====
-- The parts of the bridge around the route table that they share (src/main.rs hands one router to
-- all of them): webhooks of push mode, cycles of pull mode, requests of the admin API, rounds of the
-- health checker, events of the watcher and edits of the routes file, in any order.
pub mod Webhooks
pub mod Pulls
pub mod Removals
pub mod Requests
use amail_bridge.Common.{ℕ, Bool, Option, List}
use amail_bridge.Std.Text.{Text}
use amail_bridge.Std.Dict.{Dict}
use amail_bridge.Std.Ip.{IpAddr}
use amail_bridge.Config.{BridgeConfig, PullSystemConfig}
use amail_bridge.Http.{Json, HeaderLib, Client}
use amail_bridge.Router.Table.{Crates, ProfileRouter, new_router, load_from_file, on_event}
use amail_bridge.Router.Steps.{
  IsWellFormed, Reachable, next, start, loads, watches, edits, Reachable-IsWellFormed,
}
use amail_bridge.Push.Webhook.{handle_webhook}
use amail_bridge.Pull.Forward.{Outside}
use amail_bridge.Pull.{PullState, cycle}
use amail_bridge.Health.{Network, check_routes}
use amail_bridge.Admin.{AdminRequest, serve}
use amail_bridge.Bridge.Webhooks.{handle_webhook-Reachable}
use amail_bridge.Bridge.Pulls.{router_after, cycle-Reachable}
use amail_bridge.Bridge.Removals.{check_routes-Reachable, serve-Reachable}

module _ (C : Crates) (J : Json) (H : HeaderLib) (N : Client H.Map) (O : Outside)
    (T : Network) where
  -- One turn of a part of the bridge, as far as the route table is concerned.
  pub data Turn : ProfileRouter C.Regex → ProfileRouter C.Regex → Type 0 where
    webhook :
        (names : List H.Name) (headers : H.Map) (body : Text) (world : N.World)
        (r : ProfileRouter C.Regex)
        → Turn r
            (handle_webhook C J H N names headers body
              (record { router = r; world = world })).1.router
    pulls :
        (cfg : PullSystemConfig) (shutdown : Bool) (s : PullState C O)
        → Turn s.router (router_after C O (cycle C O cfg shutdown s))
    admin :
        (cfg : BridgeConfig) (peer : Option IpAddr) (request : AdminRequest)
        (r : ProfileRouter C.Regex)
        → Turn r (serve C cfg peer request r).1
    probes :
        (threshold : ℕ) (failures : Dict Text ℕ) (world : T.World) (r : ProfileRouter C.Regex)
        → Turn r (check_routes T C threshold r failures world).0.0
    watcher : (named : Bool) (r : ProfileRouter C.Regex) → Turn r (on_event C named r)
    edit :
        (file : Option Text) (writable : Bool) (r : ProfileRouter C.Regex)
        → Turn r (record r { file = file; writable = writable })

  -- The tables of a bridge that has started and made any turns.
  pub data Running : ProfileRouter C.Regex → Type 0 where
    boot :
        (file : Option Text) (writable : Bool)
        → Running (load_from_file C (new_router C file writable))
    turn : {r r' : ProfileRouter C.Regex} → Running r → Turn r r' → Running r'

  Turn-Reachable : {r r' : ProfileRouter C.Regex} → Turn r r' → Reachable C r → Reachable C r'
  Turn-Reachable (webhook names headers body world r) h =
      handle_webhook-Reachable C J H N names headers body (record { router = r; world = world }) h
  Turn-Reachable (pulls cfg shutdown s) h = cycle-Reachable C O cfg shutdown s h
  Turn-Reachable (admin cfg peer request r) h = serve-Reachable C cfg peer request r h
  Turn-Reachable (probes threshold failures world r) h =
      check_routes-Reachable T C threshold r failures world h
  Turn-Reachable (watcher named r) h = next h (watches named r)
  Turn-Reachable (edit file writable r) h = next h (edits file writable r)

  Running-Reachable : {r : ProfileRouter C.Regex} → Running r → Reachable C r
  Running-Reachable (boot file writable) = next (start file writable) (loads _)
  Running-Reachable (turn running step) = Turn-Reachable step (Running-Reachable running)

  -- Whatever turns the webhooks, the pull loops, the admin API, the health checker, the watcher and
  -- editors of the file take, in any order: every email has at most one route in the shared table,
  -- each route is stored under its own email, and the watcher's guard is not left set.
  pub Running-IsWellFormed : {r : ProfileRouter C.Regex} → Running r → IsWellFormed C r
  Running-IsWellFormed running = Reachable-IsWellFormed C (Running-Reachable running)

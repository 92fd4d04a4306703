-- ===== src/Router/Threads/Tables.antt =====
-- The table and the flag of the watcher while the operations of the router interleave.
use amail_bridge.Common.{
  ℕ, ◌≡◌, refl, ◌∙◌, Bool, true, false, List, [], ◌∷◌, arith, any, All, All-map, ◌⊎◌, Bool-cases,
  inl, inr, list_eq, nat_eq,
}
use amail_bridge.Std.Text.{Text}
use amail_bridge.Std.Dict.{Dict}
use amail_bridge.Router.Route.{ProfileRoute, new}
use amail_bridge.Router.Load.{second_pass-routes}
use amail_bridge.Router.Update.{route_for}
use amail_bridge.Router.Keyed.{
  IsTable, nil-IsTable, insert-IsTable, remove-IsTable, route_for-email, first_pass-IsTable,
}
use amail_bridge.Router.Steps.{IsWellFormed, content_overrides-IsTable}
use amail_bridge.Router.Table.{Crates, ProfileRouter, first_pass, load_routes_file}
use amail_bridge.Router.Threads.{
  Thread, looks, keeps, updates, removes, prints, opens, fills, unmarks, watches, resets, reads,
  replaces, System, is_blocked, thread_step, replace_table, run_threads,
}
use amail_bridge.Router.Threads.Rules.{
  All-front, All-back, any-front, IsOrderless, run_threads-keeps,
}

-- What a thread carries into the table is fit for it.
abbrev pub Carries : Thread → Type 0
Carries (keeps email route) = route.email ≡ email
Carries (replaces overrides) = IsTable overrides
Carries _ = Unit

-- A thread that has set the flag of the watcher and has yet to reset it.
abbrev pub guards : Thread → Bool
guards prints = true
guards (opens out) = true
guards (fills out) = true
guards unmarks = true
guards _ = false

module _ (C : Crates) where
  pub record IsSound (ts : List Thread) (r : ProfileRouter C.Regex) : Type 0 where
    pub table : IsTable r.routes
    pub carried : All Carries ts
    pub guarded : any guards ts ≡ false → r.writing_routes ≡ false

  replace_table-IsTable :
      (overrides : Dict Text ProfileRoute) (r : ProfileRouter C.Regex)
      → IsTable overrides
      → IsTable (replace_table C overrides r).routes
  unfolding replace_table
  replace_table-IsTable overrides r t =
      rw (second_pass-routes C overrides (first_pass overrides []) [])
        (first_pass-IsTable overrides [] t nil-IsTable)

  step-IsTable :
      (t : Thread) (r : ProfileRouter C.Regex)
      → Carries t
      → IsTable r.routes
      → IsTable (thread_step C t r).1.routes
  unfolding thread_step
  step-IsTable (keeps email route) r c t = insert-IsTable email route r.routes c t
  step-IsTable (updates email host_or_url port) r c t =
      insert-IsTable email (route_for email host_or_url port) r.routes
        (route_for-email email host_or_url port) t
  step-IsTable (removes email) r c t = remove-IsTable email r.routes t
  step-IsTable (replaces overrides) r c t = replace_table-IsTable overrides r c
  step-IsTable s r c t = ground arith

  step-Carries :
      (t : Thread) (r : ProfileRouter C.Regex) → Carries t → Carries (thread_step C t r).0
  unfolding thread_step load_routes_file new
  step-Carries reads r c = content_overrides-IsTable C r.file
  step-Carries t r c = ground arith

  step-guarded :
      (others : List Thread) (t : Thread) (r : ProfileRouter C.Regex)
      → (any guards (t ∷ others) ≡ false → r.writing_routes ≡ false)
      → any guards ((thread_step C t r).0 ∷ others) ≡ false
      → (thread_step C t r).1.writing_routes ≡ false
  unfolding thread_step
  step-guarded others unmarks r g h = refl
  step-guarded others t r g h = ground arith

  IsSound-IsOrderless : IsOrderless C IsSound
  IsSound-IsOrderless = record {
    front = λ before after t r h. record {
      table = h.table;
      carried = All-front Carries before after t h.carried;
      guarded = λ e. h.guarded (any-front guards before after t ∙ e);
    };
    back = λ before after t r h. record {
      table = h.table;
      carried = All-back Carries before after t h.carried;
      guarded = λ e. h.guarded (rw⁻¹ (any-front guards before after t) e);
    };
  }

  step-IsSound :
      (others : List Thread) (t : Thread) (r : ProfileRouter C.Regex)
      → is_blocked others t ≡ false
      → IsSound (t ∷ others) r
      → IsSound ((thread_step C t r).0 ∷ others) (thread_step C t r).1
  step-IsSound others t r free h = record {
    table = step-IsTable t r h.carried.0 h.table;
    carried = (step-Carries t r h.carried.0, h.carried.1);
    guarded = step-guarded others t r h.guarded;
  }

  pub run_threads-IsSound :
      (schedule : List ℕ) (s : System C)
      → IsSound s.threads s.router
      → IsSound (run_threads C schedule s).threads (run_threads C schedule s).router
  run_threads-IsSound schedule s h =
      run_threads-keeps C IsSound IsSound-IsOrderless step-IsSound schedule s h

  -- A thread at the start of an operation.
  abbrev pub IsStart : Thread → Type 0
  IsStart (looks email) = Unit
  IsStart (updates email host_or_url port) = Unit
  IsStart (removes email) = Unit
  IsStart (watches named) = Unit
  IsStart resets = Unit
  IsStart _ = ⊥

  IsStart-Carries : (t : Thread) → IsStart t → Carries t × (guards t ≡ false)
  IsStart-Carries resets h = (tt, refl)
  IsStart-Carries t h = ground arith

  start-IsSound :
      (ts : List Thread) (r : ProfileRouter C.Regex)
      → All IsStart ts
      → IsWellFormed C r
      → IsSound ts r
  start-IsSound ts r h w = record {
    table = w.table;
    carried = All-map (λ t start. (IsStart-Carries t start).0) ts h;
    guarded = λ _. w.unguarded;
  }

  -- However the critical sections of lookups, updates, removals, loads and events of the watcher are
  -- interleaved, every email has at most one route in the table and each route is stored under its
  -- own email; and the watcher's guard is not set while no
  -- thread is between setting and resetting it.
  pub run_threads-IsWellFormed :
      (schedule : List ℕ) (ts : List Thread) (r : ProfileRouter C.Regex)
      → All IsStart ts
      → IsWellFormed C r
      → let s = run_threads C schedule (record { threads = ts; router = r }) in
        IsTable s.router.routes × ((any guards s.threads ≡ true) ⊎ IsWellFormed C s.router)
  run_threads-IsWellFormed schedule ts r h w =
      let s = run_threads C schedule (record { threads = ts; router = r }) in
      let sound = run_threads-IsSound schedule _ (start-IsSound ts r h w) in
      (
        sound.table,
        elim (Bool-cases (any guards s.threads)) [
          | inl e ↦ inl e
          | inr e ↦ inr (record { table = sound.table; unguarded = sound.guarded e })
        ],
      )

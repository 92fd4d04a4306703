-- ===== src/Router/Threads/Lossless.antt =====
-- Changes of the table that are made at the same time, and the file.
use amail_bridge.Common.{
  ap, sym, ◌∙◌, ℕ, ◌≡◌, refl, true, false, some, List, [], ◌∷◌, arith, any, All, list_eq, nat_eq,
}
use amail_bridge.Std.Text.{Text}
use amail_bridge.Std.Dict
use amail_bridge.Std.Dict.{Dict}
use amail_bridge.Router.Route.{ProfileRoute}
use amail_bridge.Router.Persist.{IsPersistableTable, load_from_file-eq, get-load_from_file-write}
use amail_bridge.Router.Table.{
  load_from_file, load_routes_file, content_overrides, first_pass, write_current_routes, Crates,
  ProfileRouter, render_routes,
}
use amail_bridge.Router.Threads.{
  Thread, looks, updates, removes, answers, ended, System, is_over, run_threads,
}
use amail_bridge.Router.Toml.{ReadsToml, IsPlainTable, ReadsToml-ReadsBack}
use amail_bridge.Router.Steps.{IsWellFormed}
use amail_bridge.Router.Threads.Tables.{IsStart, run_threads-IsWellFormed}
use amail_bridge.Router.Threads.Rules.{run_threads-keeps}
use amail_bridge.Router.Threads.Saved.{
  Agrees, Prints, unsaved, sets, IsSaving, IsSaving-IsOrderless, step-IsSaving,
}

module _ (C : Crates) (k : Text) (route : ProfileRoute) where
  -- The threads at their start: lookups, and changes of the table.
  abbrev pub IsCall : Thread → Type 0
  IsCall (looks email) = Unit
  IsCall (updates email host_or_url port) = Unit
  IsCall (removes email) = Unit
  IsCall _ = ⊥

  calls-IsStart : (ts : List Thread) → All IsCall ts → All (IsStart C) ts
  calls-IsStart [] h = tt
  calls-IsStart (looks email ∷ ts) (_, h) = (tt, calls-IsStart ts h)
  calls-IsStart (updates email host_or_url port ∷ ts) (_, h) = (tt, calls-IsStart ts h)
  calls-IsStart (removes email ∷ ts) (_, h) = (tt, calls-IsStart ts h)
  calls-IsStart (t ∷ ts) (no_call, h) = absurd (ground arith)

  over-unsaved :
      (ts : List Thread)
      → All (λ t. is_over t ≡ true) ts
      → (any unsaved ts ≡ false) × (any (sets k) ts ≡ false)
  unfolding is_over
  over-unsaved [] h = (refl, refl)
  over-unsaved (answers found ∷ ts) (_, h) = over-unsaved ts h
  over-unsaved (ended ∷ ts) (_, h) = over-unsaved ts h
  over-unsaved (t ∷ ts) (over, h) = absurd (ground arith)

  calls-Prints :
      (ts : List Thread) (routes : Dict Text ProfileRoute) → All IsCall ts → All (Prints routes) ts
  calls-Prints [] routes h = tt
  calls-Prints (looks email ∷ ts) routes (_, h) = (tt, calls-Prints ts routes h)
  calls-Prints (updates email host_or_url port ∷ ts) routes (_, h) = (tt, calls-Prints ts routes h)
  calls-Prints (removes email ∷ ts) routes (_, h) = (tt, calls-Prints ts routes h)
  calls-Prints (t ∷ ts) routes (no_call, h) = absurd (ground arith)

  sets-unsaved : (ts : List Thread) → any unsaved ts ≡ false → any (sets k) ts ≡ false
  sets-unsaved [] h = refl
  sets-unsaved (t ∷ ts) h = ground (arith, sets-unsaved ts)

  calls-IsSaving :
      (ts : List Thread) (r : ProfileRouter C.Regex)
      → All IsCall ts
      → All (Agrees k route) ts
      → any (sets k) ts ≡ true
      → r.writable ≡ true
      → r.regex_patterns ≡ []
      → IsSaving C k route ts r
  calls-IsSaving ts r calls agree set writes plain = record {
    agree = agree;
    printed = calls-Prints ts r.routes calls;
    saved = λ e. absurd (ground (arith, sets-unsaved ts e));
    stored = λ e. absurd (cc);
    writes = writes;
    plain = plain;
  }

  over-IsSaving :
      (s : System C)
      → All (λ t. is_over t ≡ true) s.threads
      → IsSaving C k route s.threads s.router
      → (Dict.get k s.router.routes ≡ some route)
        × (s.router.file ≡ some (render_routes s.router.routes))
  over-IsSaving s over h =
      let (none_unsaved, none_sets) = over-unsaved s.threads over in
      (h.stored none_sets, h.saved none_unsaved)

  run_threads-IsSaving :
      (schedule : List ℕ) (ts : List Thread) (r : ProfileRouter C.Regex)
      → All IsCall ts
      → All (Agrees k route) ts
      → any (sets k) ts ≡ true
      → r.writable ≡ true
      → r.regex_patterns ≡ []
      → IsSaving C k route
          (run_threads C schedule (record { threads = ts; router = r })).threads
          (run_threads C schedule (record { threads = ts; router = r })).router
  run_threads-IsSaving schedule ts r calls agree set writes plain =
      run_threads-keeps C (IsSaving C k route) (IsSaving-IsOrderless C k route)
        (step-IsSaving C k route) schedule (record { threads = ts; router = r })
        (calls-IsSaving ts r calls agree set writes plain)

  -- Lookups, updates and removals that run at the same time lose no route: when they are all over,
  -- an email that some of them set to the route, and that none of them sets to another or removes,
  -- has the route in the table, and the file is the print of the table, however their critical
  -- sections, the flag and the halves of the writes of the file were interleaved. It takes a file
  -- that can be written, no pattern, and no load meanwhile.
  pub run_threads-saved :
      (schedule : List ℕ) (ts : List Thread) (r : ProfileRouter C.Regex)
      → All IsCall ts
      → All (Agrees k route) ts
      → any (sets k) ts ≡ true
      → r.writable ≡ true
      → r.regex_patterns ≡ []
      → All
          (λ t. is_over t ≡ true)
          (run_threads C schedule (record { threads = ts; router = r })).threads
      → let s = run_threads C schedule (record { threads = ts; router = r }) in
        (Dict.get k s.router.routes ≡ some route)
        × (s.router.file ≡ some (render_routes s.router.routes))
  run_threads-saved schedule ts r calls agree set writes plain over =
      over-IsSaving (run_threads C schedule (record { threads = ts; router = r })) over
        (run_threads-IsSaving schedule ts r calls agree set writes plain)

  -- A load takes what the file holds.
  loaded_as_written :
      (r : ProfileRouter C.Regex)
      → r.writable ≡ true
      → r.file ≡ some (render_routes r.routes)
      → (load_from_file C r).routes ≡ (load_from_file C (write_current_routes C r)).routes
  loaded_as_written r writes saved =
      let same_file : load_routes_file C r ≡ load_routes_file C (write_current_routes C r) =
        unfold load_routes_file write_current_routes in
        rw writes (ap (content_overrides C) saved) in
      (load_from_file-eq C r).0
      ∙ ap (λ o. first_pass o []) same_file
      ∙ sym (load_from_file-eq C (write_current_routes C r)).0

  -- A restart after lookups, updates and removals that were made at the same time, once they are
  -- all over, gives the email the route that some of them set it to, when none of them sets it to
  -- another or removes it. It takes a file that can be written, no pattern and no load meanwhile,
  -- a table at the start with each email once, one at the end whose routes are persistable and whose
  -- emails and written values have no quote, backslash or control character, and a parser that
  -- reads TOML.
  pub run_threads-restart :
      (schedule : List ℕ) (ts : List Thread) (r : ProfileRouter C.Regex)
      → ReadsToml C
      → All IsCall ts
      → All (Agrees k route) ts
      → any (sets k) ts ≡ true
      → r.writable ≡ true
      → r.regex_patterns ≡ []
      → IsWellFormed C r
      → All
          (λ t. is_over t ≡ true)
          (run_threads C schedule (record { threads = ts; router = r })).threads
      → IsPersistableTable
          (run_threads C schedule (record { threads = ts; router = r })).router.routes
      → IsPlainTable (run_threads C schedule (record { threads = ts; router = r })).router.routes
      → Dict.get k
          (load_from_file C
            (run_threads C schedule (record { threads = ts; router = r })).router).routes
        ≡ some route
  run_threads-restart schedule ts r reads calls agree set writes no_pattern formed over ok plain =
      let s = run_threads C schedule (record { threads = ts; router = r }) in
      let kept = run_threads-IsSaving schedule ts r calls agree set writes no_pattern in
      let (stored, saved) = over-IsSaving s over kept in
      let (table, _) = run_threads-IsWellFormed C schedule ts r (calls-IsStart ts calls) formed in
      let (parsed, rb) = ReadsToml-ReadsBack C s.router.routes reads table.nodup plain in
      ap (Dict.get k) (loaded_as_written s.router kept.writes saved)
      ∙ get-load_from_file-write C s.router parsed kept.writes rb ok k
      ∙ stored

-- ===== src/Main/Finish.antt =====
-- src/main.rs: how `async_main` ends, and the exit status of `main`. The results of the server and
-- of the pull loops are given, in the order in which they come in.
use amail_bridge.Common.{
  ℕ, ◌∙◌, sym, ◌≡◌, ◌↔◌, ◌⊎◌, inl, inr, refl, Bool, true, false, Option, none, some, List, [], ◌∷◌,
  ◌++◌, arith, if◌then◌else◌,
}
use amail_bridge.Std.Text.{Text}
use amail_bridge.Std.Files.{Host}
use amail_bridge.Config.{BridgeConfig}
use amail_bridge.Acme.{AcmeClient, World}
use amail_bridge.Main.Tls.{TlsLib, Dirs}
use amail_bridge.Main.Startup.{
  Launch, launch, Failure, pull_failed, server_failed, note_failure, first_err,
}

-- The errors of the pull loops before the server ends, its own error, and those that come later.
pub record TaskEnds : Type 0 where
  pub pulls_before : List Text
  pub server : Option Text
  pub pulls_after : List Text

unfoldable pub pull_failures : List Text → List Failure
pull_failures [] = []
pull_failures (e ∷ es) = pull_failed e ∷ pull_failures es

unfoldable pub server_failure : Option Text → List Failure
server_failure none = []
server_failure (some e) = server_failed e ∷ []

-- What `first_err` holds when all tasks are over.
unfoldable pub pull_mode_error : TaskEnds → Option Text
pull_mode_error e =
    first_err none
      (pull_failures e.pulls_before ++ (server_failure e.server ++ pull_failures e.pulls_after))

abbrev pub first_of : List Text → Option Text
first_of [] = none
first_of (e ∷ es) = some e

abbrev pub or_error : Option Text → Option Text → Option Text
or_error none o = o
or_error (some e) o = some e

first_err-pulls :
    (first : Option Text) (es : List Text) (fs : List Failure)
    → first_err first (pull_failures es ++ fs) ≡ first_err (or_error first (first_of es)) fs
unfolding first_err note_failure pull_failures
first_err-pulls none [] fs = refl
first_err-pulls (some e) [] fs = refl
first_err-pulls none (e ∷ es) fs = first_err-pulls (some e) es fs
first_err-pulls (some first) (e ∷ es) fs = first_err-pulls (some first) es fs

first_err-server :
    (first server : Option Text) (fs : List Failure)
    → first_err first (server_failure server ++ fs) ≡ first_err (or_error server first) fs
unfolding first_err note_failure server_failure
first_err-server first none fs = refl
first_err-server none (some e) fs = refl
first_err-server (some first) (some e) fs = refl

first_err-rest :
    (first : Option Text) (es : List Text)
    → first_err first (pull_failures es) ≡ or_error first (first_of es)
unfolding first_err note_failure pull_failures
first_err-rest none [] = refl
first_err-rest (some e) [] = refl
first_err-rest none (e ∷ es) = first_err-rest (some e) es
first_err-rest (some first) (e ∷ es) = first_err-rest (some first) es

first_of-append :
    (server : Option Text) (es es' : List Text)
    → or_error (or_error server (first_of es)) (first_of es')
      ≡ or_error server (first_of (es ++ es'))
first_of-append none [] es' = refl
first_of-append none (e ∷ es) es' = refl
first_of-append (some e) es es' = refl

-- In pull mode the error of the server is the one that is reported, if it has one, otherwise the
-- first one of a pull loop, whenever these come in.
pub pull_mode_error_lem :
    (e : TaskEnds)
    → pull_mode_error e ≡ or_error e.server (first_of (e.pulls_before ++ e.pulls_after))
unfolding pull_mode_error
pull_mode_error_lem e =
    first_err-pulls none e.pulls_before (server_failure e.server ++ pull_failures e.pulls_after)
    ∙ first_err-server (first_of e.pulls_before) e.server (pull_failures e.pulls_after)
    ∙ first_err-rest (or_error e.server (first_of e.pulls_before)) e.pulls_after
    ∙ first_of-append e.server e.pulls_before e.pulls_after

no_error :
    (server : Option Text) (es es' : List Text)
    → or_error server (first_of (es ++ es')) ≡ none
    → (server ≡ none) × (es ≡ []) × (es' ≡ [])
no_error none [] [] h = (refl, refl, refl)
no_error none [] (e ∷ es') h = absurd (cc)
no_error none (e ∷ es) es' h = absurd (cc)
no_error (some e) es es' h = absurd (cc)

module _ (H : Host) (A : AcmeClient) (T : TlsLib) (D : Dirs) where
  -- The error with which the started program ends: in push mode that of the server.
  unfoldable pub final_error : Launch H A T D → TaskEnds → Option Text
  final_error l e = if l.webhooks then e.server else pull_mode_error e

  abbrev status_of : Option Text → ℕ
  status_of none = 0
  status_of (some e) = 1

  abbrev launched_status : (Launch H A T D → TaskEnds) → Option (Launch H A T D) → ℕ
  launched_status ends none = 1
  launched_status ends (some l) = status_of (final_error l (ends l))

  -- `main` behind the command line: the exit status, with the configuration, if it can be loaded.
  unfoldable pub main_status :
      Bool → (Launch H A T D → TaskEnds) → Option BridgeConfig → World H A → ℕ
  main_status client_built ends none w = 1
  main_status client_built ends (some config) w =
      launched_status ends (launch H A T D client_built config w).0

  -- What a program that ends well has behind it: a start, and tasks that all ended well.
  abbrev pub EndsWell : (Launch H A T D → TaskEnds) → Option (Launch H A T D) → Type 0
  EndsWell ends none = ⊥
  EndsWell ends (some l) =
      ((ends l).server ≡ none)
      × ((l.webhooks ≡ true) ⊎ (((ends l).pulls_before ≡ []) × ((ends l).pulls_after ≡ [])))

  status_of-none : (o : Option Text) → status_of o ≡ 0 → o ≡ none
  status_of-none none h = refl
  status_of-none (some e) h = absurd (omega arith)

  ended_well :
      (push : Bool) (e : TaskEnds)
      → (status_of (if push then e.server else pull_mode_error e) ≡ 0)
        ↔ ((e.server ≡ none) × ((push ≡ true) ⊎ ((e.pulls_before ≡ []) × (e.pulls_after ≡ []))))
  ended_well true e = (λ h. (status_of-none e.server h, inl refl), λ h. rw h.0 refl)
  ended_well false e = (
    λ h.
        let (server, before, after) =
          no_error e.server e.pulls_before e.pulls_after
            (sym (pull_mode_error_lem e) ∙ status_of-none (pull_mode_error e) h) in
        (server, inr (before, after)),
    λ h. elim h.1 [
      | inl push ↦ absurd (cc)
      | inr quiet ↦ rw (pull_mode_error_lem e, h.0, quiet.0, quiet.1) refl
    ],
  )

  status_of-cases : (o : Option Text) → (status_of o ≡ 0) ⊎ (status_of o ≡ 1)
  status_of-cases none = inl refl
  status_of-cases (some e) = inr refl

  launched_iff :
      (ends : Launch H A T D → TaskEnds) (o : Option (Launch H A T D))
      → ((launched_status ends o ≡ 0) ↔ EndsWell ends o)
        × ((launched_status ends o ≡ 0) ⊎ (launched_status ends o ≡ 1))
  unfolding final_error
  launched_iff ends none = ((λ h. absurd (omega arith), λ h. absurd h), inr refl)
  launched_iff ends (some l) =
      (ended_well l.webhooks (ends l), status_of-cases (final_error l (ends l)))

  -- The exit status is 0 exactly when the configuration gives a start, the server ends without an
  -- error and, in pull mode, no pull loop has ended with one; it is 1 in every other case.
  pub main_status_iff :
      (client_built : Bool) (ends : Launch H A T D → TaskEnds) (config : BridgeConfig)
      (w : World H A)
      → ((main_status client_built ends (some config) w ≡ 0)
          ↔ EndsWell ends (launch H A T D client_built config w).0)
        × ((main_status client_built ends (some config) w ≡ 0)
            ⊎ (main_status client_built ends (some config) w ≡ 1))
  unfolding main_status
  main_status_iff client_built ends config w =
      launched_iff ends (launch H A T D client_built config w).0

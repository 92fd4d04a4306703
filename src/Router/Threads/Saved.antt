-- ===== src/Router/Threads/Saved.antt =====
-- The invariant of threads that change the table and write the file, for one email and its route.
use mathlib.Core.Path.{subst, sym}
use amail_bridge.Common.{
  ◌≡◌, ◌∙◌, Bool, true, false, some, List, [], ◌∷◌, arith, any, All, ◌⊎◌, inl, inr, same, list_eq,
  nat_eq,
}
use amail_bridge.Std.Text.{Text}
use amail_bridge.Std.Dict
use amail_bridge.Std.Dict.{Dict, get-insert, get-remove}
use amail_bridge.Router.Route.{ProfileRoute}
use amail_bridge.Router.Update.{route_for}
use amail_bridge.Router.Table.{Crates, ProfileRouter, render_routes, find_pattern}
use amail_bridge.Router.Threads.{
  Thread, misses, keeps, updates, removes, marks, prints, opens, fills, watches, resets, reads,
  replaces, is_blocked, holds_read_lock, takes_write_lock, thread_step,
}
use amail_bridge.Router.Threads.Rules.{All-front, All-back, any-front, IsOrderless}

-- A thread that looks up or changes the table, and sets the email to the route if it changes it.
abbrev pub Agrees : Text → ProfileRoute → Thread → Type 0
Agrees k route (keeps email found) = ⊥
Agrees k route (updates email host_or_url port) =
    same k email ≡ true → route_for email host_or_url port ≡ route
Agrees k route (removes email) = same k email ≡ false
Agrees k route (watches named) = ⊥
Agrees k route resets = ⊥
Agrees k route reads = ⊥
Agrees k route (replaces overrides) = ⊥
Agrees k route _ = Unit

-- A thread that is yet to write the file.
abbrev pub unsaved : Thread → Bool
unsaved (updates email host_or_url port) = true
unsaved (removes email) = true
unsaved marks = true
unsaved prints = true
unsaved (opens out) = true
unsaved (fills out) = true
unsaved _ = false

abbrev pub sets : Text → Thread → Bool
sets k (updates email host_or_url port) = same k email
sets k _ = false

-- What a thread writes is the table, which it keeps locked.
abbrev pub Prints : Dict Text ProfileRoute → Thread → Type 0
Prints routes (opens out) = out ≡ render_routes routes
Prints routes (fills out) = out ≡ render_routes routes
Prints routes _ = Unit

-- Where no thread holds the read lock, none carries a text for the file.
unlocked-Prints :
    (ts : List Thread) (routes : Dict Text ProfileRoute)
    → any holds_read_lock ts ≡ false
    → All (Prints routes) ts
unfolding holds_read_lock
unlocked-Prints [] routes h = tt
unlocked-Prints (opens out ∷ ts) routes h = absurd (cc)
unlocked-Prints (fills out ∷ ts) routes h = absurd (cc)
unlocked-Prints (t ∷ ts) routes h = ground (arith, unlocked-Prints ts routes)

module _ (C : Crates) (k : Text) (route : ProfileRoute) where
  pub record IsSaving (ts : List Thread) (r : ProfileRouter C.Regex) : Type 0 where
    pub agree : All (Agrees k route) ts
    pub printed : All (Prints r.routes) ts
    pub saved : any unsaved ts ≡ false → r.file ≡ some (render_routes r.routes)
    pub stored : any (sets k) ts ≡ false → Dict.get k r.routes ≡ some route
    pub writes : r.writable ≡ true
    pub plain : r.regex_patterns ≡ []

  step-Agrees :
      (t : Thread) (r : ProfileRouter C.Regex)
      → r.regex_patterns ≡ []
      → Agrees k route t
      → Agrees k route (thread_step C t r).0
  unfolding thread_step find_pattern
  step-Agrees (misses email) r e h = rw e tt
  step-Agrees t r e h = ground arith

  step-plain :
      (t : Thread) (r : ProfileRouter C.Regex)
      → Agrees k route t
      → r.regex_patterns ≡ []
      → r.writable ≡ true
      → ((thread_step C t r).1.regex_patterns ≡ []) × ((thread_step C t r).1.writable ≡ true)
  unfolding thread_step
  step-plain t r h e w = ground arith

  step-stored :
      (others : List Thread) (t : Thread) (r : ProfileRouter C.Regex)
      → Agrees k route t
      → (any (sets k) (t ∷ others) ≡ false → Dict.get k r.routes ≡ some route)
      → any (sets k) ((thread_step C t r).0 ∷ others) ≡ false
      → Dict.get k (thread_step C t r).1.routes ≡ some route
  unfolding thread_step
  step-stored others (updates email host_or_url port) r a g h =
      ground (arith, get-insert k email (route_for email host_or_url port) r.routes)
  step-stored others (removes email) r a g h = ground (arith, get-remove k email r.routes)
  step-stored others t r a g h = ground arith

  step-saved :
      (others : List Thread) (t : Thread) (r : ProfileRouter C.Regex)
      → Agrees k route t
      → Prints r.routes t
      → r.writable ≡ true
      → (any unsaved (t ∷ others) ≡ false → r.file ≡ some (render_routes r.routes))
      → any unsaved ((thread_step C t r).0 ∷ others) ≡ false
      → (thread_step C t r).1.file ≡ some (render_routes (thread_step C t r).1.routes)
  unfolding thread_step
  step-saved others t r a p w g h = ground arith

  step-routes :
      (t : Thread) (r : ProfileRouter C.Regex)
      → (takes_write_lock t ≡ true) ⊎ ((thread_step C t r).1.routes ≡ r.routes)
  unfolding thread_step takes_write_lock
  step-routes t r = ground arith

  step-Prints :
      (t : Thread) (r : ProfileRouter C.Regex)
      → Agrees k route t
      → Prints r.routes t
      → Prints (thread_step C t r).1.routes (thread_step C t r).0
  unfolding thread_step
  step-Prints t r a p = ground arith

  -- A step that changes the table needs the lock that no printing thread may hold.
  others-Prints :
      (others : List Thread) (t : Thread) (r : ProfileRouter C.Regex)
      → is_blocked others t ≡ false
      → All (Prints r.routes) others
      → All (Prints (thread_step C t r).1.routes) others
  unfolding is_blocked
  others-Prints others t r free h = elim (step-routes t r) [
    | inl locks ↦ unlocked-Prints others _ (ground arith)
    | inr same_routes ↦ subst (λ routes. All (Prints routes) others) (sym same_routes) h
  ]

  pub IsSaving-IsOrderless : IsOrderless C IsSaving
  IsSaving-IsOrderless = record {
    front = λ before after t r h. record {
      agree = All-front (Agrees k route) before after t h.agree;
      printed = All-front (Prints r.routes) before after t h.printed;
      saved = λ e. h.saved (any-front unsaved before after t ∙ e);
      stored = λ e. h.stored (any-front (sets k) before after t ∙ e);
      writes = h.writes;
      plain = h.plain;
    };
    back = λ before after t r h. record {
      agree = All-back (Agrees k route) before after t h.agree;
      printed = All-back (Prints r.routes) before after t h.printed;
      saved = λ e. h.saved (rw⁻¹ (any-front unsaved before after t) e);
      stored = λ e. h.stored (rw⁻¹ (any-front (sets k) before after t) e);
      writes = h.writes;
      plain = h.plain;
    };
  }

  pub step-IsSaving :
      (others : List Thread) (t : Thread) (r : ProfileRouter C.Regex)
      → is_blocked others t ≡ false
      → IsSaving (t ∷ others) r
      → IsSaving ((thread_step C t r).0 ∷ others) (thread_step C t r).1
  step-IsSaving others t r free h =
      let (a, rest) = h.agree in
      let (p, printed) = h.printed in
      let (plain, writes) = step-plain t r a h.plain h.writes in
      record {
        agree = (step-Agrees t r h.plain a, rest);
        printed = (step-Prints t r a p, others-Prints others t r free printed);
        saved = step-saved others t r a p h.writes h.saved;
        stored = step-stored others t r a h.stored;
        writes = writes;
        plain = plain;
      }

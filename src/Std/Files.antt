-- ===== src/Std/Files.antt =====
-- `std::fs` and `std::path` on a Unix system: the files by their paths, with their contents, their
-- permission bits and the instants of their last changes. Which paths the process may write to or
-- change is a parameter; a write that starts is taken to finish.
use amail_bridge.Common.{
  ℕ, ◌≡◌, Bool, true, false, ◌||◌, Option, none, some, [], ◌∷◌, ◌++◌, ◌-◌, leb, same, same_refl,
  Option-cases, inl, inr, if◌then◌else◌, arith, list_eq, nat_eq,
}
use amail_bridge.Std.Text.{Text, str, is_empty, starts_with, ends_with}
use amail_bridge.Std.Dict
use amail_bridge.Std.Dict.{Dict, get-insert}

pub record File : Type 0 where
  pub content : Text
  pub mode : ℕ
  pub modified : ℕ

-- `new_mode` is the mode that a new file gets.
pub record Host : Type 0 where
  pub can_create_dir : Text → Bool
  pub can_write : Text → Bool
  pub can_chmod : Text → Bool
  pub new_mode : ℕ

-- `Path::join`: an absolute name replaces the path in front.
unfoldable pub join : Text → Text → Text
join dir name =
    if starts_with (str "/") name
    then name
    else if is_empty dir || ends_with (str "/") dir
    then dir ++ name
    else dir ++ str "/" ++ name

abbrev pub mode_or : ℕ → Option File → ℕ
mode_or new_mode none = new_mode
mode_or new_mode (some file) = file.mode

abbrev pub new_file : Host → ℕ → Text → Option File → File
new_file H now content old = record {
  content = content;
  mode = mode_or H.new_mode old;
  modified = now;
}

-- `fs::write` at the instant `now`: a file that is there keeps its mode.
unfoldable pub write : Host → ℕ → Text → Text → Dict Text File → Option (Dict Text File)
write H now path content files =
    if H.can_write path
    then some (Dict.insert path (new_file H now content (Dict.get path files)) files)
    else none

-- `fs::metadata` and `fs::set_permissions`
unfoldable pub chmod : Host → ℕ → Text → Dict Text File → Option (Dict Text File)
chmod H mode path files = elim (Dict.get path files) [
  | none ↦ none
  | some file ↦
      if H.can_chmod path then some (Dict.insert path (record file { mode = mode }) files) else none
]

-- `t.elapsed()`: an instant in the future is an error.
unfoldable pub elapsed : ℕ → ℕ → Option ℕ
elapsed now t = if leb t now then some (now - t) else none

abbrev pub IsUnchangedOff : Text → Dict Text File → Dict Text File → Type 0
IsUnchangedOff path files files' =
    (other : Text) → same other path ≡ false → Dict.get other files' ≡ Dict.get other files

-- A write changes its own file only.
pub write_lem :
    (H : Host) (now : ℕ) (path content : Text) (files files' : Dict Text File)
    → write H now path content files ≡ some files'
    → (Dict.get path files' ≡ some (new_file H now content (Dict.get path files)))
      × IsUnchangedOff path files files'
unfolding write
write_lem H now path content files files' h =
    let file = new_file H now content (Dict.get path files) in
    (
      ground (arith, get-insert path path file files, same_refl path),
      λ other d. ground (arith, get-insert other path file files),
    )

-- A change of permissions changes the mode of its own file only, which is there.
pub chmod_lem :
    (H : Host) (mode : ℕ) (path : Text) (files files' : Dict Text File)
    → chmod H mode path files ≡ some files'
    → ((file : File) × (Dict.get path files ≡ some file)
        × (Dict.get path files' ≡ some (record file { mode = mode })))
      × IsUnchangedOff path files files'
unfolding chmod
chmod_lem H mode path files files' h = elim (Option-cases (Dict.get path files)) [
  | inl e ↦ absurd (ground arith)
  | inr (old, e) ↦
      let file : File = record old { mode = mode } in
      (
        (old, e, ground (arith, get-insert path path file files, same_refl path)),
        λ other d. ground (arith, get-insert other path file files),
      )
]

append_cancel : (xs ys zs : Text) → xs ++ ys ≡ xs ++ zs → ys ≡ zs
append_cancel [] ys zs h = h
append_cancel (x ∷ xs) ys zs h = append_cancel xs ys zs (cc)

abbrev joined : Bool → Bool → Text → Text → Text
joined absolute ended dir name =
    if absolute then name else if ended then dir ++ name else dir ++ str "/" ++ name

joined_cancel :
    (absolute ended : Bool) (dir name other : Text)
    → joined absolute ended dir name ≡ joined absolute ended dir other
    → name ≡ other
joined_cancel true ended dir name other h = h
joined_cancel false true dir name other h = append_cancel dir name other h
joined_cancel false false dir name other h = append_cancel (dir ++ str "/") name other h

-- Two names that start with the same character are joined alike.
join_cancel : (dir : Text) (x : ℕ) (s t : Text) → join dir (x ∷ s) ≡ join dir (x ∷ t) → s ≡ t
unfolding join starts_with
join_cancel dir x s t h = append_cancel (x ∷ []) s t (
    joined_cancel (starts_with (str "/") (x ∷ s)) (is_empty dir || ends_with (str "/") dir) dir
      (x ∷ s) (x ∷ t) h)

-- Files of one name with different extensions are different files.
pub join_extension :
    (dir name : Text) (dot : ℕ) (s t : Text)
    → join dir (name ++ (dot ∷ s)) ≡ join dir (name ++ (dot ∷ t))
    → s ≡ t
join_extension dir [] dot s t h = join_cancel dir dot s t h
join_extension dir (x ∷ name) dot s t h =
    append_cancel (dot ∷ []) s t (append_cancel name _ _ (join_cancel dir x _ _ h))

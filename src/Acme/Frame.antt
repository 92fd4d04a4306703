-- ===== src/Acme/Frame.antt =====
-- src/acme.rs: the files that an order touches, whether it succeeds or fails.
use amail_bridge.Common.{
  ◌≡◌, refl, ◌∙◌, Bool, true, false, Option, none, some, List, [], ◌∷◌, same, Bool-cases,
  Option-cases, inl, inr, list_eq, nat_eq,
}
use amail_bridge.Common.Action.{ensure, Keeps, bind-Keeps}
use amail_bridge.Std.Text.{Text}
use amail_bridge.Std.Dict
use amail_bridge.Std.Dict.{Dict}
use amail_bridge.Std.Files.{File, Host, write, chmod, write_lem, chmod_lem}
use amail_bridge.Acme.{
  AcmeClient, Request, World, write_file, set_key_permissions, cert_path, key_path,
  credentials_path, owner_only, serve_challenge, restore_account, create_account, account_from,
  open_account, answer_challenge, authorize, authorize_all, save_pair, acquire_cert_inner,
}

-- The path is none of the three files in the cache directory.
abbrev pub IsOther : Request → Text → Type 0
IsOther r path =
    (same path (credentials_path r) ≡ false)
    × (same path (key_path r) ≡ false)
    × (same path (cert_path r) ≡ false)

module _ (H : Host) (A : AcmeClient) (path : Text) (old : Option File) where
  -- The file at the path is the old one, and challenges go to the built-in server.
  abbrev Kept : World H A → Type 0
  Kept w = (w.registry ≡ none) × (Dict.get path w.files ≡ old)

  write_file-Keeps :
      (target content : Text)
      → same path target ≡ false
      → Keeps Kept (write_file H A target content)
  write_file-Keeps target content d w (reg, kept) =
      elim (Option-cases (write H (A.now w.remote) target content w.files)) [
        | inl e ↦ rw e (reg, kept)
        | inr (files, e) ↦
            let (_, off) = write_lem H (A.now w.remote) target content w.files files e in
            rw e (reg, off path d ∙ kept)
      ]

  set_key_permissions-Keeps :
      (target : Text) → same path target ≡ false → Keeps Kept (set_key_permissions H A target)
  set_key_permissions-Keeps target d w (reg, kept) =
      elim (Option-cases (chmod H owner_only target w.files)) [
        | inl e ↦ rw e (reg, kept)
        | inr (files, e) ↦
            let (_, off) = chmod_lem H owner_only target w.files files e in
            rw e (reg, off path d ∙ kept)
      ]

  ensure-Keeps : (b : Bool) → Keeps Kept (ensure {S = World H A} b)
  ensure-Keeps true w kept = kept
  ensure-Keeps false w kept = kept

  serve_challenge-Keeps :
      (r : Request) (token proof : Text)
      → r.challenge_path ≡ none
      → Keeps Kept (serve_challenge H A r token proof)
  unfolding serve_challenge
  serve_challenge-Keeps r token proof e w (reg, kept) = rw (reg, e) (refl, kept)

  create_account-Keeps :
      (r : Request) (builder : A.Builder)
      → IsOther r path
      → Keeps Kept (create_account H A r builder)
  unfolding create_account
  create_account-Keeps r builder (account, _, _) =
      bind-Keeps Kept _ _ (λ w kept. kept)
        (λ _.
          bind-Keeps Kept _ _ (λ w kept. kept)
            (λ json. bind-Keeps Kept _ _ (write_file-Keeps (credentials_path r) json account) (λ _.
              bind-Keeps Kept _ _ (set_key_permissions-Keeps (credentials_path r) account)
                (λ _ w kept. kept))))

  open_account-Keeps :
      (r : Request) (builder : A.Builder) → IsOther r path → Keeps Kept (open_account H A r builder)
  unfolding open_account
  open_account-Keeps r builder other w kept =
      account_from-Keeps (Dict.get (credentials_path r) w.files) w kept
    where
      account_from-Keeps : (o : Option File) → Keeps Kept (account_from H A r builder o)
      account_from-Keeps none = unfold account_from in create_account-Keeps r builder other
      account_from-Keeps (some file) =
          unfold account_from restore_account in
          bind-Keeps Kept _ _ (λ w kept. kept) (λ _ w kept. kept)

  authorize-Keeps :
      (r : Request) (authz : A.Authz) → r.challenge_path ≡ none → Keeps Kept (authorize H A r authz)
  unfolding authorize answer_challenge
  authorize-Keeps r authz e w kept = elim (Bool-cases (A.is_pending authz)) [
    | inr settled ↦ rw settled (ensure-Keeps (A.is_valid authz) w kept)
    | inl pending ↦ rw pending (
        bind-Keeps Kept _ _ (λ w kept. kept)
          (λ challenge.
            bind-Keeps Kept _ _
              (serve_challenge-Keeps r (A.token challenge) (A.key_authorization challenge) e)
              (λ _ w kept. kept))
          w kept)
  ]

  authorize_all-Keeps :
      (r : Request) (urls : List A.AuthzUrl)
      → r.challenge_path ≡ none
      → Keeps Kept (authorize_all H A r urls)
  unfolding authorize_all
  authorize_all-Keeps r [] e = λ w kept. kept
  authorize_all-Keeps r (url ∷ urls) e =
      bind-Keeps Kept _ _ (λ w kept. kept)
        (λ authz.
          bind-Keeps Kept _ _ (authorize-Keeps r authz e) (λ _. authorize_all-Keeps r urls e))

  save_pair-Keeps :
      (r : Request) (key chain : Text) → IsOther r path → Keeps Kept (save_pair H A r key chain)
  unfolding save_pair
  save_pair-Keeps r key chain (_, not_key, not_cert) =
      bind-Keeps Kept _ _ (write_file-Keeps (key_path r) key not_key) (λ _.
        bind-Keeps Kept _ _ (write_file-Keeps (cert_path r) chain not_cert) (λ _.
          bind-Keeps Kept _ _ (set_key_permissions-Keeps (key_path r) not_key) (λ _ w kept. kept)))

  acquire_cert_inner-Keeps :
      (r : Request)
      → r.challenge_path ≡ none
      → IsOther r path
      → Keeps Kept (acquire_cert_inner H A r)
  unfolding acquire_cert_inner
  acquire_cert_inner-Keeps r e other =
      bind-Keeps Kept _ _ (λ w kept. kept)
        (λ builder. bind-Keeps Kept _ _ (open_account-Keeps r builder other) (λ account.
          bind-Keeps Kept _ _ (λ w kept. kept)
            (λ order. bind-Keeps Kept _ _ (authorize_all-Keeps r (A.authorizations order) e) (λ _.
              bind-Keeps Kept _ _ (λ w kept. kept)
                (λ ready. bind-Keeps Kept _ _ (ensure-Keeps ready) (λ _.
                  bind-Keeps Kept _ _ (λ w kept. kept)
                    (λ key.
                      bind-Keeps Kept _ _ (λ w kept. kept)
                        (λ chain. save_pair-Keeps r key chain other))))))))

-- An order with the built-in challenge server changes no file but the account, the key and the
-- certificate of its cache directory, whether it succeeds or ends with an error at any step.
pub acquire_cert_inner-others :
    (H : Host) (A : AcmeClient) (r : Request) (path : Text) (w : World H A)
    → r.challenge_path ≡ none
    → w.registry ≡ none
    → IsOther r path
    → Dict.get path ((acquire_cert_inner H A r w).1).files ≡ Dict.get path w.files
acquire_cert_inner-others H A r path w e reg other =
    (acquire_cert_inner-Keeps H A path (Dict.get path w.files) r e other w (reg, refl)).1

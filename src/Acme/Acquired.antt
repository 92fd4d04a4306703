-- ===== src/Acme/Acquired.antt =====
-- src/acme.rs: what an order that succeeds leaves in the cache directory.
use amail_bridge.Common.{
  ℕ, ◌≡◌, refl, sym, ap, ◌∙◌, true, false, Option, none, some, arith, same, eq_of_same, Bool-cases,
  Option-cases, inl, inr, list_eq, nat_eq,
}
use amail_bridge.Common.Action.{
  OnSuccess, bind-OnSuccess, skip-OnSuccess, on_success, ensure-OnSuccess,
}
use amail_bridge.Std.Text.{Text, str}
use amail_bridge.Std.Dict
use amail_bridge.Std.Dict.{Dict}
use amail_bridge.Std.Files.{
  File, Host, write, chmod, IsUnchangedOff, new_file, write_lem, chmod_lem, join_extension,
}
use amail_bridge.Acme.{
  AcmeClient, AcmeCertPaths, Request, World, write_file, set_key_permissions, cert_path, key_path,
  cert_paths, owner_only, check_existing_cert, save_pair, acquire_cert_inner, acquire_new,
  cached_or_new, check_then_acquire, get_or_acquire_cert,
}
use amail_bridge.Acme.Cached.{check_existing_cert_iff, get_or_acquire_cert_cached, IsFresh}

key_path_other : (r : Request) → same (key_path r) (cert_path r) ≡ false
unfolding key_path cert_path
key_path_other r = elim (Bool-cases (same (key_path r) (cert_path r))) [
  | inl e ↦ absurd (
      cc (
        join_extension r.cache_dir r.domain b'.' (str "key.pem") (str "cert.pem")
          (eq_of_same (key_path r) (cert_path r) e)))
  | inr e ↦ e
]

cert_path_other : (r : Request) → same (cert_path r) (key_path r) ≡ false
cert_path_other r = ground (arith, key_path_other r)

module _ (H : Host) (A : AcmeClient) where
  -- A step changes one file at most, and neither the clock nor anything outside.
  abbrev StepOn : Text → World H A → World H A → Type 0
  StepOn path w w' = (w'.remote ≡ w.remote) × IsUnchangedOff path w.files w'.files

  write_file_lem :
      (path content : Text) (w : World H A)
      → OnSuccess
          (λ _ w'.
            StepOn path w w'
            × (Dict.get path w'.files
                ≡ some (new_file H (A.now w.remote) content (Dict.get path w.files))))
          (write_file H A path content w)
  write_file_lem path content w =
      elim (Option-cases (write H (A.now w.remote) path content w.files)) [
        | inl e ↦ rw e tt
        | inr (files, e) ↦
            let (there, off) = write_lem H (A.now w.remote) path content w.files files e in
            rw e ((refl, off), there)
      ]

  set_key_permissions_lem :
      (path : Text) (w : World H A)
      → OnSuccess
          (λ _ w'.
            StepOn path w w'
            × (file : File) × (Dict.get path w'.files ≡ some file)
            × (file.mode ≡ owner_only))
          (set_key_permissions H A path w)
  set_key_permissions_lem path w = elim (Option-cases (chmod H owner_only path w.files)) [
    | inl e ↦ rw e tt
    | inr (files, e) ↦
        let ((_, _, there), off) = chmod_lem H owner_only path w.files files e in
        rw e ((refl, off), _, there, refl)
  ]

  -- What is left behind: a pair that counts as cached, the key for the owner only.
  abbrev pub Saved : Request → AcmeCertPaths → World H A → Type 0
  Saved r paths w =
      (paths ≡ cert_paths r)
      × (check_existing_cert (A.now w.remote) r w.files ≡ some (cert_paths r))
      × (key : File) × (Dict.get (key_path r) w.files ≡ some key)
      × (key.mode ≡ owner_only)

  locked :
      (r : Request) (w : World H A) (cert : File)
      → Dict.get (cert_path r) w.files ≡ some cert
      → IsFresh (A.now w.remote) cert
      → OnSuccess (λ _ w'. Saved r (cert_paths r) w') (set_key_permissions H A (key_path r) w)
  locked r w cert there fresh = elim (Option-cases (chmod H owner_only (key_path r) w.files)) [
    | inl e ↦ rw e tt
    | inr (files, e) ↦
        let ((_, _, key), off) = chmod_lem H owner_only (key_path r) w.files files e in
        let cert_there = off (cert_path r) (cert_path_other r) ∙ there in
        let cached = check_existing_cert_iff (A.now w.remote) r files (cert_paths r) in
        rw e (refl, cached.1 (refl, cert, _, cert_there, key, fresh), _, key, refl)
  ]

  IsFresh-now : (now : ℕ) (file : File) → file.modified ≡ now → IsFresh now file
  IsFresh-now now file e = (omega arith, omega arith)

  save_pair_lem :
      (r : Request) (key chain : Text) (w : World H A)
      → OnSuccess (Saved r) (save_pair H A r key chain w)
  unfolding save_pair
  save_pair_lem r key chain w =
      bind-OnSuccess _ (Saved r) (write_file H A (key_path r) key) _ w
        (write_file_lem (key_path r) key w)
        (λ _ w1 _.
          bind-OnSuccess _ (Saved r) (write_file H A (cert_path r) chain) _ w1
            (write_file_lem (cert_path r) chain w1)
            (λ _ w2 ((clock, _), there).
              bind-OnSuccess _ (Saved r) (set_key_permissions H A (key_path r)) _ w2
                (locked r w2 (new_file H (A.now w1.remote) chain (Dict.get (cert_path r) w1.files))
                  there
                  (IsFresh-now (A.now w2.remote)
                    (new_file H (A.now w1.remote) chain (Dict.get (cert_path r) w1.files))
                    (ap A.now (sym clock))))
                (λ _ w3 saved. saved)))

  acquire_cert_inner_lem :
      (r : Request) (w : World H A) → OnSuccess (Saved r) (acquire_cert_inner H A r w)
  unfolding acquire_cert_inner
  acquire_cert_inner_lem r w = skip-OnSuccess (Saved r) _ _ w (λ _ w1.
      skip-OnSuccess (Saved r) _ _ w1 (λ _ w2. skip-OnSuccess (Saved r) _ _ w2 (λ _ w3.
        skip-OnSuccess (Saved r) _ _ w3 (λ _ w4. skip-OnSuccess (Saved r) _ _ w4 (λ _ w5.
          skip-OnSuccess (Saved r) _ _ w5 (λ _ w6. skip-OnSuccess (Saved r) _ _ w6 (λ key w7.
            skip-OnSuccess (Saved r) _ _ w7 (λ chain w8. save_pair_lem r key chain w8))))))))

  -- A pair that is taken from the cache is in the cache.
  cached_paths :
      (r : Request) (w : World H A) (paths : AcmeCertPaths)
      → check_existing_cert (A.now w.remote) r w.files ≡ some paths
      → paths ≡ cert_paths r
  cached_paths r w paths h = ((check_existing_cert_iff (A.now w.remote) r w.files paths).0 h).0

  acquire_new_lem : (r : Request) (w : World H A) → OnSuccess (Saved r) (acquire_new H A r w)
  unfolding acquire_new cert_paths
  acquire_new_lem r w =
      bind-OnSuccess _ (Saved r) _ _ w (acquire_cert_inner_lem r w)
        (λ paths w1 (own, saved, _, _, _).
          let (_, cert, _, there, _, fresh) =
            (check_existing_cert_iff (A.now w1.remote) r w1.files (cert_paths r)).0 saved in
          let locks : OnSuccess (λ _ w2. Saved r (cert_paths r) w2)
              (set_key_permissions H A paths.key w1) =
            rw own (locked r w1 cert there fresh) in
          bind-OnSuccess (λ _ w2. Saved r (cert_paths r) w2) (Saved r) _ _ w1 locks
            (λ _ w2 (_, left, key, there, mode). (own, left, key, there, mode)))

  new_lem :
      (r : Request) (w : World H A)
      → check_existing_cert (A.now w.remote) r w.files ≡ none
      → OnSuccess (Saved r) (get_or_acquire_cert H A r w)
  unfolding get_or_acquire_cert check_then_acquire cached_or_new
  new_lem r w missing =
      bind-OnSuccess _ (Saved r) _ _ w (ensure-OnSuccess (H.can_create_dir r.cache_dir) w)
        (λ _ w1 (same_world, _). rw (same_world, missing) (acquire_new_lem r w))

  -- The pair that the function returns is the domain's, and would be taken from the cache.
  abbrev pub Reusable : Request → AcmeCertPaths → World H A → Type 0
  Reusable r paths w =
      (paths ≡ cert_paths r)
      × (check_existing_cert (A.now w.remote) r w.files ≡ some paths)
      × (H.can_create_dir r.cache_dir ≡ true)

  Saved-Reusable :
      (r : Request) (result : Option AcmeCertPaths × World H A)
      → H.can_create_dir r.cache_dir ≡ true
      → OnSuccess (Saved r) result
      → OnSuccess (Reusable r) result
  Saved-Reusable r (none, w) ok saved = tt
  Saved-Reusable r (some paths, w) ok (own, saved, _, _, _) = (own, saved ∙ ap some (sym own), ok)

  check_then_acquire_lem :
      (r : Request) (w : World H A)
      → H.can_create_dir r.cache_dir ≡ true
      → OnSuccess (Reusable r) (check_then_acquire H A r w)
  unfolding check_then_acquire cached_or_new
  check_then_acquire_lem r w ok =
      elim (Option-cases (check_existing_cert (A.now w.remote) r w.files)) [
        | inl missing ↦ rw missing (Saved-Reusable r _ ok (acquire_new_lem r w))
        | inr (paths, h) ↦ rw h (cached_paths r w paths h, h, ok)
      ]

  pub reusable_lem :
      (r : Request) (w : World H A) → OnSuccess (Reusable r) (get_or_acquire_cert H A r w)
  unfolding get_or_acquire_cert
  reusable_lem r w =
      bind-OnSuccess _ (Reusable r) _ _ w (ensure-OnSuccess (H.can_create_dir r.cache_dir) w)
        (λ _ w1 (_, ok). check_then_acquire_lem r w1 ok)

  -- A restart reuses what a success has left: the function that succeeded returns the same pair
  -- when it is called again in the world it leaves, and changes nothing, outside or in the files.
  pub get_or_acquire_cert_again :
      (r : Request) (w w' : World H A) (paths : AcmeCertPaths)
      → get_or_acquire_cert H A r w ≡ (some paths, w')
      → (paths ≡ cert_paths r) × (get_or_acquire_cert H A r w' ≡ (some paths, w'))
  get_or_acquire_cert_again r w w' paths e =
      let (own, saved, ok) = on_success (Reusable r) _ paths w' (reusable_lem r w) e in
      (own, get_or_acquire_cert_cached H A r w' paths ok saved)

  -- When the cached pair is not taken and the function succeeds, it returns the domain's pair, and
  -- the private key is a file that its owner alone can read and write.
  pub get_or_acquire_cert_new :
      (r : Request) (w w' : World H A) (paths : AcmeCertPaths)
      → check_existing_cert (A.now w.remote) r w.files ≡ none
      → get_or_acquire_cert H A r w ≡ (some paths, w')
      → (paths ≡ cert_paths r)
        × (key : File) × (Dict.get (key_path r) w'.files ≡ some key)
        × (key.mode ≡ owner_only)
  get_or_acquire_cert_new r w w' paths none_cached e =
      let (own, _, key, there, mode) =
        on_success (Saved r) _ paths w' (new_lem r w none_cached) e in
      (own, key, there, mode)

-- ===== src/Acme/Cached.antt =====
-- src/acme.rs: when the cached certificate is taken.
use amail_bridge.Common.{
  ℕ, ◌-◌, ◌≤◌, ◌≡◌, refl, ◌↔◌, ap, true, Option, none, some, arith, list_eq, nat_eq,
}
use amail_bridge.Common.Action.{◌>>=◌}
use amail_bridge.Std.Text.{Text}
use amail_bridge.Std.Dict
use amail_bridge.Std.Dict.{Dict}
use amail_bridge.Std.Files.{File, Host, elapsed}
use amail_bridge.Acme.{
  AcmeClient, AcmeCertPaths, Request, World, cert_path, key_path, cert_paths, max_age, reuse,
  check_files, check_existing_cert, cached_or_new, check_then_acquire, get_or_acquire_cert,
}

-- A certificate that was written at most 60 days ago.
abbrev pub IsFresh : ℕ → File → Type 0
IsFresh now cert = (cert.modified ≤ now) × (now - cert.modified ≤ max_age)

reuse_iff :
    (now : ℕ) (r : Request) (cert : File) (paths : AcmeCertPaths)
    → (reuse r (elapsed now cert.modified) ≡ some paths)
      ↔ ((paths ≡ cert_paths r) × IsFresh now cert)
unfolding reuse elapsed
reuse_iff now r cert paths = ground arith

refreshed : (c cert : File) (now : ℕ) → some c ≡ some cert → IsFresh now cert → IsFresh now c
refreshed c cert now h fresh =
    let modified : c.modified ≡ cert.modified = ap (λ o. modified_or c o) h in rw modified fresh
  where
    modified_or : File → Option File → ℕ
    modified_or c none = c.modified
    modified_or c (some file) = file.modified

check_files_iff :
    (now : ℕ) (r : Request) (o p : Option File) (paths : AcmeCertPaths)
    → (check_files now r o p ≡ some paths) ↔ (
        (paths ≡ cert_paths r)
        × (cert : File) × (key : File) × (o ≡ some cert)
        × (p ≡ some key)
        × IsFresh now cert)
unfolding check_files
check_files_iff now r none p paths = (λ h. absurd (cc), λ (_, cert, key, h, _, _). absurd (cc))
check_files_iff now r (some c) none paths =
    (λ h. absurd (cc), λ (_, cert, key, _, h, _). absurd (cc))
check_files_iff now r (some c) (some k) paths =
    let young = reuse_iff now r c paths in
    (
      λ h. let (e, fresh) = young.0 h in (e, c, k, refl, refl, fresh),
      λ (e, cert, key, h, _, fresh). young.1 (e, refreshed c cert now h fresh),
    )

-- The cached pair is taken exactly when both files are there and the certificate was written at
-- most 60 days ago, and it is the domain's pair.
pub check_existing_cert_iff :
    (now : ℕ) (r : Request) (files : Dict Text File) (paths : AcmeCertPaths)
    → (check_existing_cert now r files ≡ some paths) ↔ (
        (paths ≡ cert_paths r)
        × (cert : File) × (key : File) × (Dict.get (cert_path r) files ≡ some cert)
        × (Dict.get (key_path r) files ≡ some key)
        × IsFresh now cert)
unfolding check_existing_cert
check_existing_cert_iff now r files paths =
    check_files_iff now r (Dict.get (cert_path r) files) (Dict.get (key_path r) files) paths

module _ (H : Host) (A : AcmeClient) where
  -- When the cached pair is taken, nothing else happens: no request goes out, no file changes.
  pub get_or_acquire_cert_cached :
      (r : Request) (w : World H A) (paths : AcmeCertPaths)
      → H.can_create_dir r.cache_dir ≡ true
      → check_existing_cert (A.now w.remote) r w.files ≡ some paths
      → get_or_acquire_cert H A r w ≡ (some paths, w)
  unfolding get_or_acquire_cert check_then_acquire cached_or_new ◌>>=◌
  get_or_acquire_cert_cached r w paths e h = rw (e, h) refl

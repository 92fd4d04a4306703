-- ===== src/Acme/Renew.antt =====
-- src/acme.rs: the renewal task. `stop n` is the value of the stop flag at its n-th reading.
use amail_bridge.Common.{
  ℕ, zero, suc, ◌+◌, ◌*◌, ◌/◌, ◌≤◌, ◌<◌, ◌≡◌, refl, Bool, true, false, not, Option, none, some, ltb,
  arith, Bool-cases, inl, inr, ◌⊎◌, if◌then◌else◌, list_eq, nat_eq,
}
use amail_bridge.Std.Text.{Text}
use amail_bridge.Std.Dict
use amail_bridge.Std.Dict.{Dict}
use amail_bridge.Std.Files.{File, Host, elapsed}
use amail_bridge.Acme.{
  AcmeClient, AcmeCertPaths, Request, World, cert_path, key_path, max_age, reuse, check_files,
  check_existing_cert, set_key_permissions, acquire_cert_inner,
}

unfoldable pub too_old : Option ℕ → Bool
too_old none = true
too_old (some age) = ltb max_age age

-- `needs_renew`
unfoldable pub needs_renew_file : ℕ → Option File → Bool
needs_renew_file now none = true
needs_renew_file now (some cert) = too_old (elapsed now cert.modified)

unfoldable pub needs_renew : ℕ → Request → Dict Text File → Bool
needs_renew now r files = needs_renew_file now (Dict.get (cert_path r) files)

-- The readings of the flag in one wait of 12 hours.
unfoldable pub wait_readings : ℕ
wait_readings = 12 * 3600 / 10

abbrev pub is_missing {ℓ} : {A : Type ℓ} → Option A → Bool
is_missing none = true
is_missing (some a) = false

check_files_missing :
    (now : ℕ) (r : Request) (o : Option File) (key : File)
    → needs_renew_file now o ≡ is_missing (check_files now r o (some key))
unfolding needs_renew_file too_old check_files reuse
check_files_missing now r none key = refl
check_files_missing now r (some cert) key = ground arith

-- Where the key is there, the task renews exactly the certificates that a start would not reuse.
pub needs_renew-check_existing_cert :
    (now : ℕ) (r : Request) (files : Dict Text File) (key : File)
    → Dict.get (key_path r) files ≡ some key
    → needs_renew now r files ≡ is_missing (check_existing_cert now r files)
unfolding needs_renew check_existing_cert
needs_renew-check_existing_cert now r files key h =
    rw h (check_files_missing now r (Dict.get (cert_path r) files) key)

module _ (H : Host) (A : AcmeClient) (stop : ℕ → Bool) where
  -- The task has ended, or goes on; `n` counts the readings of the flag.
  pub data Task : Type 0 where
    stopped : ℕ → World H A → Task
    goes_on : ℕ → World H A → Task

  abbrev pub sleep : World H A → World H A
  sleep w = record w { remote = A.sleep_10s w.remote }

  -- The inner loop, with `left` readings to go.
  unfoldable pub wait : ℕ → ℕ → World H A → Task
  wait zero n w = goes_on n w
  wait (suc left) n w =
      let rest = wait left (n + 1) (sleep w) in if stop n then stopped (n + 1) w else rest

  -- A renewal; its error is only logged.
  unfoldable pub lock_after : Option AcmeCertPaths × World H A → World H A
  lock_after (none, w) = w
  lock_after (some paths, w) = (set_key_permissions H A paths.key w).1

  unfoldable pub renew : Request → World H A → World H A
  renew r w = lock_after (acquire_cert_inner H A r w)

  unfoldable pub after_wait : Request → Task → Task
  after_wait r (stopped n w) = stopped n w
  after_wait r (goes_on n w) =
      if not (needs_renew (A.now w.remote) r w.files)
      then goes_on n w
      else if stop n
      then stopped (n + 1) w
      else goes_on (n + 1) (renew r w)

  unfoldable pub then_loop : (ℕ → World H A → Task) → Task → Task
  then_loop more (stopped n w) = stopped n w
  then_loop more (goes_on n w) = more n w

  -- `renew_loop`, for a number of rounds.
  unfoldable pub renew_loop : ℕ → Request → ℕ → World H A → Task
  renew_loop zero r n w = goes_on n w
  renew_loop (suc fuel) r n w =
      then_loop (renew_loop fuel r) (after_wait r (wait wait_readings n w))

  -- The flag is set at the reading `k`, and the task that has read `n` times ends there or before,
  -- or has not come so far.
  abbrev Ends : ℕ → Task → Type 0
  Ends k t = (m : ℕ) × (w : World H A) × (t ≡ stopped m w) × (m ≤ k + 1)

  abbrev Passes : ℕ → ℕ → Task → Type 0
  Passes k n t = (m : ℕ) × (w : World H A) × (t ≡ goes_on m w) × (n ≤ m) × (m ≤ k)

  wait_lem :
      (k left n : ℕ) (w : World H A)
      → stop k ≡ true
      → n ≤ k
      → Ends k (wait left n w) ⊎ Passes k (n + left) (wait left n w)
  unfolding wait
  wait_lem k zero n w h l = inr (n, w, refl, omega arith, l)
  wait_lem k (suc left) n w h l = elim (Bool-cases (stop n)) [
    | inl e ↦ inl (rw e (n + 1, w, refl, omega arith))
    | inr e ↦
        let later : n + 1 ≤ k = ground (arith, e, h, l) in
        elim (wait_lem k left (n + 1) (sleep w) h later) [
          | inl ends ↦ inl (rw e ends)
          | inr (m, w', eq, far, near) ↦ inr (rw e (m, w', eq, omega arith, near))
        ]
  ]

  after_wait_lem :
      (k n : ℕ) (r : Request) (w : World H A)
      → stop k ≡ true
      → n ≤ k
      → Ends k (after_wait r (goes_on n w)) ⊎ Passes k n (after_wait r (goes_on n w))
  unfolding after_wait
  after_wait_lem k n r w h l = elim (Bool-cases (needs_renew (A.now w.remote) r w.files)) [
    | inr young ↦ inr (rw young (n, w, refl, omega arith, l))
    | inl old ↦ elim (Bool-cases (stop n)) [
      | inl e ↦ inl (rw (old, e) (n + 1, w, refl, omega arith))
      | inr e ↦
          let later : n + 1 ≤ k = ground (arith, e, h, l) in
          inr (rw (old, e) (n + 1, renew r w, refl, omega arith, later))
    ]
  ]

  waits : 0 < wait_readings
  unfolding wait_readings
  waits = omega arith

  round_lem :
      (k n : ℕ) (r : Request) (w : World H A)
      → stop k ≡ true
      → n ≤ k
      → let t = after_wait r (wait wait_readings n w) in Ends k t ⊎ Passes k (n + 1) t
  round_lem k n r w h l = elim (wait_lem k wait_readings n w h l) [
    | inl (m, w', e, near) ↦ inl (rw e (unfold after_wait in (m, w', refl, near)))
    | inr (m, w', e, far, near) ↦ elim (after_wait_lem k m r w' h near) [
      | inl ends ↦ inl (rw e ends)
      | inr (j, v, q, far', near') ↦ inr (rw e (j, v, q, omega (arith, waits, far, far'), near'))
    ]
  ]

  -- Once the flag is set, the renewal task ends: it reads the flag until it finds it set, at the
  -- first set reading at the latest, and each round of its loop makes a reading.
  pub renew_loop-stopped :
      (k fuel n : ℕ) (r : Request) (w : World H A)
      → stop k ≡ true
      → n ≤ k
      → k < n + fuel
      → (m : ℕ) × (w' : World H A) × (renew_loop fuel r n w ≡ stopped m w') × (m ≤ k + 1)
  unfolding renew_loop then_loop
  renew_loop-stopped k zero n r w h l enough = absurd (omega arith)
  renew_loop-stopped k (suc fuel) n r w h l enough = elim (round_lem k n r w h l) [
    | inl (m, w', e, near) ↦ rw e (m, w', refl, near)
    | inr (m, w', e, far, near) ↦
        rw e (renew_loop-stopped k fuel m r w' h near (omega (arith, far, enough)))
  ]

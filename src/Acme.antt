-- ===== src/Acme.antt =====
-- src/acme.rs: the certificate of a domain, from the cache directory or by an HTTP-01 order.
-- instant-acme, the network and the clock are parameters; the files are those of Std.Files, on a
-- Unix system. An error is `none`: its text is only logged.
pub mod Cached
pub mod Acquired
pub mod Frame
pub mod Challenge
pub mod Renew
use amail_bridge.Common.{
  ℕ, Bool, true, false, ◌&&◌, Option, none, some, List, [], ◌∷◌, ◌++◌, ◌*◌, leb, if◌then◌else◌,
  list_eq, nat_eq,
}
use amail_bridge.Common.Action.{Action, ◌>>=◌, ◌>>◌, pure, lift, ensure}
use amail_bridge.Std.Text.{Text, str}
use amail_bridge.Std.Dict
use amail_bridge.Std.Dict.{Dict}
use amail_bridge.Std.Files.{File, Host, join, write, chmod, elapsed}
use amail_bridge.Router.Route.{unwrap_or}

-- What the flow takes from instant-acme, serde_json and the system. `Remote` is the state of the
-- world outside, with its clock in nanoseconds; an authorization says whether it is pending or
-- valid and has an HTTP-01 challenge or none.
pub record AcmeClient : Type 1 where
  pub Remote : Type 0
  pub now : Remote → ℕ
  pub sleep_10s : Remote → Remote
  pub Builder : Type 0
  pub Account : Type 0
  pub Credentials : Type 0
  pub Order : Type 0
  pub AuthzUrl : Type 0
  pub Authz : Type 0
  pub ChallengeOf : Type 0
  pub builder : Option Builder
  pub credentials_of_json : Text → Option Credentials
  pub json_of_credentials : Credentials → Option Text
  pub from_credentials : Builder → Credentials → Remote → Option Account × Remote
  pub create : Builder → Text → Remote → Option (Account × Credentials) × Remote
  pub new_order : Account → Text → Remote → Option Order × Remote
  pub authorizations : Order → List AuthzUrl
  pub open_authorization : AuthzUrl → Remote → Option Authz × Remote
  pub is_pending : Authz → Bool
  pub is_valid : Authz → Bool
  pub http01 : Authz → Option ChallengeOf
  pub token : ChallengeOf → Text
  pub key_authorization : ChallengeOf → Text
  pub set_ready : ChallengeOf → Remote → Option (Unit {0}) × Remote
  pub poll_ready : Order → Remote → Option Bool × Remote
  pub finalize : Order → Remote → Option Text × Remote
  pub poll_certificate : Order → Remote → Option Text × Remote
  pub listen_80 : Remote → Option (Unit {0}) × Remote

pub record AcmeCertPaths : Type 0 where
  pub cert : Text
  pub key : Text

-- The arguments that the functions hand on.
pub record Request : Type 0 where
  pub domain : Text
  pub cache_dir : Text
  pub acme_email : Option Text
  pub challenge_path : Option Text

unfoldable pub cert_path : Request → Text
cert_path r = join r.cache_dir (r.domain ++ str ".cert.pem")

unfoldable pub key_path : Request → Text
key_path r = join r.cache_dir (r.domain ++ str ".key.pem")

unfoldable pub credentials_path : Request → Text
credentials_path r = join r.cache_dir (str "account.json")

unfoldable pub cert_paths : Request → AcmeCertPaths
cert_paths r = record { cert = cert_path r; key = key_path r }

-- 60 days, in nanoseconds.
abbrev pub max_age : ℕ
max_age = 60 * 86400 * 1_000_000_000

-- `0o600`
abbrev pub owner_only : ℕ
owner_only = 384

-- The pair of a certificate that is young enough.
unfoldable pub reuse : Request → Option ℕ → Option AcmeCertPaths
reuse r none = none
reuse r (some age) = if leb age max_age then some (cert_paths r) else none

unfoldable pub check_files : ℕ → Request → Option File → Option File → Option AcmeCertPaths
check_files now r none key = none
check_files now r (some cert) none = none
check_files now r (some cert) (some key) = reuse r (elapsed now cert.modified)

-- `check_existing_cert`
unfoldable pub check_existing_cert : ℕ → Request → Dict Text File → Option AcmeCertPaths
check_existing_cert now r files =
    check_files now r (Dict.get (cert_path r) files) (Dict.get (key_path r) files)

module _ (H : Host) (A : AcmeClient) where
  -- `registry` is the in-memory map of challenges, where the caller has one; no thread fails while
  -- it holds its lock.
  pub record World : Type 0 where
    pub files : Dict Text File
    pub registry : Option (Dict Text Text)
    pub remote : A.Remote

  abbrev pub ask {ℓ} : {B : Type ℓ} → (A.Remote → Option B × A.Remote) → Action World B
  ask call w = let (answer, remote) = call w.remote in (answer, record w { remote = remote })

  abbrev pub with_files : World → Option (Dict Text File) → Option (Unit {0}) × World
  with_files w none = (none, w)
  with_files w (some files) = (some tt, record w { files = files })

  abbrev pub write_file : Text → Text → Action World (Unit {0})
  write_file path content w = with_files w (write H (A.now w.remote) path content w.files)

  -- `set_key_permissions`
  abbrev pub set_key_permissions : Text → Action World (Unit {0})
  set_key_permissions path w = with_files w (chmod H owner_only path w.files)

  abbrev pub create_dir_all : Text → Action World (Unit {0})
  create_dir_all dir = ensure (H.can_create_dir dir)

  unfoldable pub well_known : Text → Text
  well_known dir = join (join dir (str ".well-known")) (str "acme-challenge")

  abbrev pub write_challenge : Text → Text → Text → Action World (Unit {0})
  write_challenge token proof dir = do
    create_dir_all (well_known dir)
    write_file (join (well_known dir) token) proof

  -- `serve_challenge`: in memory, in a file, or by the listener on port 80.
  unfoldable pub serve_challenge : Request → Text → Text → Action World (Unit {0})
  serve_challenge r token proof w = elim w.registry [
    | some map ↦ (some tt, record w { registry = some (Dict.insert token proof map) })
    | none ↦ elim r.challenge_path [
      | some dir ↦ write_challenge token proof dir w
      | none ↦ ask A.listen_80 w
    ]
  ]

  -- The account of `account.json`, or a new one, whose credentials go to that file.
  unfoldable pub restore_account : A.Builder → Text → Action World A.Account
  restore_account builder json = do
    creds ← lift (A.credentials_of_json json)
    ask (A.from_credentials builder creds)

  unfoldable pub create_account : Request → A.Builder → Action World A.Account
  create_account r builder = do
    let contact = str "mailto:" ++ unwrap_or (str "acme@agent-mail-relay.local") r.acme_email
    (account, credentials) ← ask (A.create builder contact)
    json ← lift (A.json_of_credentials credentials)
    write_file (credentials_path r) json
    set_key_permissions (credentials_path r)
    pure account

  unfoldable pub account_from : Request → A.Builder → Option File → Action World A.Account
  account_from r builder (some file) = restore_account builder file.content
  account_from r builder none = create_account r builder

  unfoldable pub open_account : Request → A.Builder → Action World A.Account
  open_account r builder w = account_from r builder (Dict.get (credentials_path r) w.files) w

  -- The body of the loop over the authorizations: only a pending one needs its challenge.
  unfoldable pub answer_challenge : Request → A.Authz → Action World (Unit {0})
  answer_challenge r authz = do
    challenge ← lift (A.http01 authz)
    serve_challenge r (A.token challenge) (A.key_authorization challenge)
    ask (A.set_ready challenge)

  unfoldable pub authorize : Request → A.Authz → Action World (Unit {0})
  authorize r authz =
      if A.is_pending authz then answer_challenge r authz else ensure (A.is_valid authz)

  unfoldable pub authorize_all : Request → List A.AuthzUrl → Action World (Unit {0})
  authorize_all r [] = pure tt
  authorize_all r (url ∷ urls) = do
    authz ← ask (A.open_authorization url)
    authorize r authz
    authorize_all r urls

  -- The end of `acquire_cert_inner`: the key is written first, and locked last.
  unfoldable pub save_pair : Request → Text → Text → Action World AcmeCertPaths
  save_pair r private_key_pem cert_chain_pem = do
    write_file (key_path r) private_key_pem
    write_file (cert_path r) cert_chain_pem
    set_key_permissions (key_path r)
    pure (cert_paths r)

  -- `acquire_cert_inner`
  unfoldable pub acquire_cert_inner : Request → Action World AcmeCertPaths
  acquire_cert_inner r = do
    builder ← lift A.builder
    account ← open_account r builder
    order ← ask (A.new_order account r.domain)
    authorize_all r (A.authorizations order)
    ready ← ask (A.poll_ready order)
    ensure ready
    private_key_pem ← ask (A.finalize order)
    cert_chain_pem ← ask (A.poll_certificate order)
    save_pair r private_key_pem cert_chain_pem

  unfoldable pub acquire_new : Request → Action World AcmeCertPaths
  acquire_new r = do paths ← acquire_cert_inner r; set_key_permissions paths.key; pure paths

  unfoldable pub cached_or_new : Request → Option AcmeCertPaths → Action World AcmeCertPaths
  cached_or_new r (some paths) w = (some paths, w)
  cached_or_new r none w = acquire_new r w

  unfoldable pub check_then_acquire : Request → Action World AcmeCertPaths
  check_then_acquire r w = cached_or_new r (check_existing_cert (A.now w.remote) r w.files) w

  -- `get_or_acquire_cert`, less the task that it starts, which is in Acme.Renew.
  unfoldable pub get_or_acquire_cert : Request → Action World AcmeCertPaths
  get_or_acquire_cert r = create_dir_all r.cache_dir >> check_then_acquire r

-- ===== src/Tests/Certificates.antt =====
-- The theorems on certificates, TLS and the start, at concrete inputs.
use amail_bridge.Common.{
  ℕ, ◌+◌, ◌≡◌, refl, true, false, some, none, List, [], ◌∷◌, ◌++◌, arith, list_eq, nat_eq,
}
use amail_bridge.Common.Action.{◌>>=◌}
use amail_bridge.Std.Text.{Text, str, starts_with, is_empty, ends_with, text_eq}
use amail_bridge.Std.Dict
use amail_bridge.Std.Dict.{Dict}
use amail_bridge.Std.Files.{File, Host, join, write, chmod, elapsed}
use amail_bridge.Acme.{
  AcmeClient, Request, World, cert_path, key_path, credentials_path, cert_paths, owner_only,
  check_existing_cert, check_files, reuse, get_or_acquire_cert, check_then_acquire, cached_or_new,
  acquire_new, acquire_cert_inner, open_account, account_from, create_account, authorize_all,
  save_pair,
}
use amail_bridge.Acme.Acquired.{get_or_acquire_cert_again, get_or_acquire_cert_new}
use amail_bridge.Acme.Frame.{IsOther, acquire_cert_inner-others}
use amail_bridge.Acme.Challenge.{
  Accept, connection, would_block, serve_challenge_http, Answered, serve_challenge_http_lem,
}

-- A server that grants every order at once, to a client that knows nothing of it; the world
-- outside is its clock.
abbrev pub acme : AcmeClient
acme = record {
  Remote = ℕ;
  now = λ t. t;
  sleep_10s = λ t. t + 10_000_000_000;
  Builder = Unit {0};
  Account = Unit {0};
  Credentials = Unit {0};
  Order = Unit {0};
  AuthzUrl = Unit {0};
  Authz = Unit {0};
  ChallengeOf = Unit {0};
  builder = some tt;
  credentials_of_json = λ s. some tt;
  json_of_credentials = λ c. some (str "{}");
  from_credentials = λ b c t. (some tt, t);
  create = λ b contact t. (some (tt, tt), t);
  new_order = λ a domain t. (some tt, t);
  authorizations = λ o. [];
  open_authorization = λ url t. (some tt, t);
  is_pending = λ a. true;
  is_valid = λ a. false;
  http01 = λ a. some tt;
  token = λ c. str "t";
  key_authorization = λ c. str "p";
  set_ready = λ c t. (some tt, t);
  poll_ready = λ o t. (some true, t);
  finalize = λ o t. (some (str "key"), t);
  poll_certificate = λ o t. (some (str "chain"), t);
  listen_80 = λ t. (some tt, t);
}

-- New files are readable by all.
abbrev pub host : Host
host = record {
  can_create_dir = λ d. true;
  can_write = λ p. true;
  can_chmod = λ p. true;
  new_mode = 420;
}

abbrev request : Request
request = record {
  domain = str "a.b";
  cache_dir = str "/c";
  acme_email = none;
  challenge_path = none;
}

abbrev pub before : World host acme
before = record { files = []; registry = none; remote = 5 }

abbrev after : World host acme
after = (get_or_acquire_cert host acme request before).1

nothing_cached : check_existing_cert 5 request [] ≡ none
unfolding check_existing_cert check_files Dict.get
nothing_cached = refl

granted : get_or_acquire_cert host acme request before ≡ (some (cert_paths request), after)
unfolding get_or_acquire_cert check_then_acquire cached_or_new check_existing_cert check_files reuse
    acquire_new acquire_cert_inner open_account account_from create_account authorize_all save_pair
    ◌>>=◌ write chmod elapsed join cert_path key_path credentials_path cert_paths starts_with
    is_empty ends_with text_eq Dict.get Dict.insert list_eq nat_eq
granted = refl

get_or_acquire_cert_again_example :
    (cert_paths request ≡ cert_paths request)
    × (get_or_acquire_cert host acme request after ≡ (some (cert_paths request), after))
get_or_acquire_cert_again_example =
    get_or_acquire_cert_again host acme request before after (cert_paths request) granted

get_or_acquire_cert_new_example :
    (cert_paths request ≡ cert_paths request)
    × (key : File) × (Dict.get (key_path request) after.files ≡ some key)
    × (key.mode ≡ owner_only)
get_or_acquire_cert_new_example =
    get_or_acquire_cert_new host acme request before after (cert_paths request) nothing_cached
      granted

abbrev some_file : File
some_file = record { content = []; mode = 384; modified = 7 }

abbrev cache : Dict Text File
cache = (cert_path request, some_file) ∷ (key_path request, some_file) ∷ []

hosts-IsOther : IsOther request (str "/etc/hosts")
unfolding credentials_path key_path cert_path join starts_with is_empty ends_with text_eq list_eq
    nat_eq
hosts-IsOther = (refl, refl, refl)

acquire_cert_inner-others_example :
    Dict.get (str "/etc/hosts") ((acquire_cert_inner host acme request before).1).files
    ≡ Dict.get (str "/etc/hosts") before.files
acquire_cert_inner-others_example =
    acquire_cert_inner-others host acme request (str "/etc/hosts") before refl refl hosts-IsOther

key_there : Dict.get (key_path request) cache ≡ some some_file
unfolding key_path cert_path join starts_with is_empty ends_with text_eq Dict.get list_eq nat_eq
key_there = refl

abbrev asked : Accept
asked = connection (str "GET /.well-known/acme-challenge/t HTTP/1.1")

abbrev two_asks : List (ℕ × Accept)
two_asks = (10, asked) ∷ (110, would_block) ∷ (210, asked) ∷ []

serve_challenge_http_lem_example :
    Answered
      (str "t")
      (str "p")
      two_asks
      (serve_challenge_http 5 (str "t") (str "p") (two_asks ++ (30_005, asked) ∷ []))
serve_challenge_http_lem_example =
    serve_challenge_http_lem 5 (str "t") (str "p") two_asks [] 30_005 asked
      (omega arith, (omega arith, (omega arith, tt))) (omega arith)

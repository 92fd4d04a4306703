-- ===== src/Tests/Stubs.antt =====
-- Small stand-ins for the code outside the repository, to run the model on.
use mathlib.Core.Path.{ap₂}
use amail_bridge.Common.{
  ℕ, suc, ◌≡◌, refl, true, false, Option, none, some, List, [], ◌∷◌, map, same, if◌then◌else◌,
  list_eq, nat_eq, arith,
}
use amail_bridge.Std.Text.{Text, str, to_lower}
use amail_bridge.Std.Dict
use amail_bridge.Std.Dict.{Dict}
use amail_bridge.Http.{Json, HeaderLib, Client, response}
use amail_bridge.Router.Route.{ProfileRoute, new}
use amail_bridge.Router.Table.{Crates, ProfileRouter, Pattern, current_entries}
use amail_bridge.Pull.Forward.{Outside}
use amail_bridge.Health.{Network}
use amail_bridge.Vhost.{FileSystem}
use amail_bridge.Config.{
  System, BridgeConfig, PullConfig, default_push, default_forward_headers, default_health,
  default_logging,
}

abbrev pub alice : Text
alice = str "alice@a.b"

abbrev pub bob : Text
bob = str "bob@a.b"

abbrev pub local : Text
local = str "10.0.0.5"

abbrev pub alice_routes : Dict Text ProfileRoute
alice_routes = (alice, new alice local 8645) ∷ []

-- A regex matches its own text; every file reads as the given pairs.
abbrev pub crates : Dict Text Text → Crates
crates pairs = record {
  Regex = Text;
  compile = λ t. some t;
  is_match = λ re s. same re s;
  parse_toml = λ content. some pairs;
}

-- The file that holds the route of `alice`.
abbrev pub disk : Crates
disk = crates (current_entries alice_routes)

abbrev pub empty_router : ProfileRouter Text
empty_router = record {
  routes = [];
  file = none;
  writable = true;
  regex_patterns = [];
  writing_routes = false;
}

abbrev pub alice_router : ProfileRouter Text
alice_router = record {
  routes = alice_routes;
  file = none;
  writable = true;
  regex_patterns = [];
  writing_routes = false;
}

abbrev pub bob_pattern : Pattern Text
bob_pattern = record { regex = bob; key = bob; host = local; port = 9000 }

abbrev pub pattern_router : ProfileRouter Text
pattern_router = record {
  routes = alice_routes;
  file = none;
  writable = true;
  regex_patterns = bob_pattern ∷ [];
  writing_routes = false;
}

-- A payload with its recipients, one of its entries, and a field of an entry.
pub data Doc : Type 0 where
  batch : List Text → Doc
  entry : Text → Doc
  word : Text → Doc

abbrev pub doc_field : Text → Doc → Option Doc
doc_field key (batch emails) = if same key (str "signatures") then some (batch emails) else none
doc_field key (entry email) = if same key (str "email") then some (word email) else none
doc_field key (word text) = none

abbrev pub doc_array : Doc → Option (List Doc)
doc_array (batch emails) = some (map (λ e. entry e) emails)
doc_array (entry email) = none
doc_array (word text) = none

abbrev pub doc_text : Doc → Option Text
doc_text (batch emails) = none
doc_text (entry email) = none
doc_text (word text) = some text

-- The empty body is no JSON, any other is a batch for the two addresses.
abbrev pub doc_of : Text → Option Doc
doc_of [] = none
doc_of (c ∷ s) = some (batch (alice ∷ bob ∷ []))

abbrev pub json : Json
json = record {
  Value = Doc;
  from_slice = doc_of;
  to_vec = λ v. some (str "{}");
  field = doc_field;
  remove_field = λ key v. v;
  as_array = doc_array;
  as_str = doc_text;
}

lower_char : (c : ℕ) → to_lower (to_lower c) ≡ to_lower c
unfolding to_lower
lower_char c = ground arith

pub lower_again : (s : Text) → map to_lower (map to_lower s) ≡ map to_lower s
lower_again [] = refl
lower_again (c ∷ s) = ap₂ ◌∷◌ (lower_char c) (lower_again s)

abbrev pub header_lib : HeaderLib
header_lib = record {
  Name = Text;
  Value = Text;
  Map = Dict Text Text;
  from_bytes = λ s. some s;
  as_str = map to_lower;
  as_str_lower = lower_again;
  to_str = λ v. some v;
  empty = [];
  get = λ key headers. Dict.get key headers;
  insert = λ name v headers. Dict.insert (map to_lower name) v headers;
}

-- A gateway that takes everything; the world is the list of the URLs that were called.
abbrev pub gateway : Client (Dict Text Text)
gateway = record {
  World = List Text;
  send_map = λ url headers body w. (response 200 (str "ok"), url ∷ w);
  send_list = λ url headers body w. (response 200 (str "ok"), url ∷ w);
}

-- The clock shows the number of the requests so far.
abbrev pub outside : Outside
outside = record {
  Value = Text;
  to_vec = λ v. some v;
  header_map = λ v. none;
  pending_body = λ limit filter. [];
  ack_body = λ ids. [];
  parse_batches = λ text. some none;
  parse_acked = λ text. some none;
  sha256_hex = λ s. s;
  hmac_sha256_hex = λ key s. s;
  World = List Text;
  instant = λ w. (0, w);
  unix_ms = λ w. (some 0, w);
  send = λ url headers body w. (response 200 (str "ok"), url ∷ w);
}

abbrev pub dead_network : Network
dead_network = record { World = ℕ; probe_target = λ host port w. (false, suc w) }

abbrev pub files : FileSystem
files = record {
  exists = λ path. true;
  join = λ a b. b;
  path_starts_with = λ root path. true;
  read = λ path. some path;
}

abbrev pub one_pull : PullConfig
one_pull = record {
  amail_url = str "relay.example";
  admin_key = str "k";
  api_key = [];
  poll_interval_sec = 10;
  system_id = str "s";
  systems = [];
}

abbrev pub bridge_config : BridgeConfig
bridge_config = record {
  mode = str "push";
  bind = str "0.0.0.0:80";
  hostname = some (str "[::1]:443");
  tls_cert = none;
  tls_key = none;
  acme_cache = none;
  acme_email = none;
  acme_challenge_path = none;
  admin_allowed_ips = str "10.0.0.1" ∷ [];
  forward_headers = default_forward_headers;
  push = default_push;
  pull = one_pull;
  hermes_home = none;
  default_profile_dir = [];
  routes_file = [];
  logging = default_logging;
  health = default_health;
}

abbrev pub plain_system : System
plain_system = record {
  read_config = λ path. some bridge_config;
  var = λ name. none;
  home_dir = none;
  current_dir = str "/";
  join = λ a b. b;
  parent = λ path. none;
}

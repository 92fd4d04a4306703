-- ===== src/Http.antt =====
-- What src/push.rs and src/pull.rs take from other crates: the JSON values of serde_json, the
-- header map of http, and the HTTP client of reqwest, whose answers depend on an outside world.
use amail_bridge.Common.{
  ℕ, ◌≡◌, Bool, ◌&&◌, Option, none, some, List, ltb, leb, map, same, if◌then◌else◌, list_eq, nat_eq,
}
use amail_bridge.Std.Text.{Text, to_lower}

-- `serde_json::Value`: `entry["key"]` and `v.get("key")` are `field`, and `remove_field` changes
-- an object only.
pub record Json : Type 1 where
  pub Value : Type 0
  pub from_slice : Text → Option Value
  pub to_vec : Value → Option Text
  pub field : Text → Value → Option Value
  pub remove_field : Text → Value → Value
  pub as_array : Value → Option (List Value)
  pub as_str : Value → Option Text

-- `http::HeaderName` and `http::HeaderMap`. A name's text is always in lower case, as the crate
-- documents of `HeaderName::as_str`.
pub record HeaderLib : Type 1 where
  pub Name : Type 0
  pub Value : Type 0
  pub Map : Type 0
  pub from_bytes : Text → Option Name
  pub as_str : Name → Text
  pub as_str_lower : (n : Name) → map to_lower (as_str n) ≡ as_str n
  pub to_str : Value → Option Text
  pub empty : Map
  pub get : Text → Map → Option Value
  pub insert : Name → Value → Map → Map

-- What http documents of these operations, for one name each time.
pub record HeaderLibLaws (H : HeaderLib) : Type 0 where
  pub get-empty : (n : H.Name) → H.get (H.as_str n) H.empty ≡ none
  pub get-insert :
      (j k : H.Name) (v : H.Value) (m : H.Map)
      → H.get (H.as_str j) (H.insert k v m)
        ≡ (if same (H.as_str j) (H.as_str k) then some v else H.get (H.as_str j) m)

-- What a request ends with: a response with its status and body, or an error.
pub data SendResult : Type 0 where
  response : ℕ → Text → SendResult
  failed : Text → SendResult

-- `client.post(url).headers(…).body(…).send()`, with a header map or with single headers.
pub record Client (Headers : Type 0) : Type 1 where
  pub World : Type 0
  pub send_map : Text → Headers → Text → World → SendResult × World
  pub send_list : Text → List (Text × Text) → Text → World → SendResult × World

-- `status.is_success()`
abbrev pub is_success : ℕ → Bool
is_success status = leb 200 status && ltb status 300

-- A response of the bridge.
pub record Response : Type 0 where
  pub status : ℕ
  pub body : Text

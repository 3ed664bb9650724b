-- ===== src/Management/Server.antt =====
-- src/servers/management/server.rs: from a read request to its answer.

use Prim.Native.String.{◌++◌ as append}
use hive_core_v.Base.{
  ℕ, String, str_eq, Bool, ◌&&◌, ◌||◌, Option, none, some, List, [], ◌∷◌, ◌++◌, if◌then◌else◌,
  string_eq,
}
use hive_core_v.Base.HashMap.{HashMap}
use hive_core_v.Auth.Models.{Role, KeyRecord, admin, analytics, client, worker}
use hive_core_v.Auth.Keys.{KeyStore, verify}
use hive_core_v.App.Access.{authorize_management}
use hive_core_v.App.State.{AppState}
use hive_core_v.App.RateLimiter.Check.{snapshot}
use hive_core_v.App.RateLimiter.Window.{BinarySearch}
use hive_core_v.Proxy.State.{ProxyState}
use hive_core_v.Shared.Http.Json.{Json}
use hive_core_v.Shared.Http.Request.{HttpRequest, bearer_token}
use hive_core_v.Shared.Http.Response.{HttpResponse}
use hive_core_v.Shared.Http.Response
use hive_core_v.Shared.Http.Text.{is_some, strip_prefix, to_string}
use hive_core_v.Shared.Wire.Utf8.{codes, text_of, to_utf8}
use hive_core_v.Shared.Wire.Text.{split}
use hive_core_v.Management.Models.{Readers}
use hive_core_v.Management.Keys.{get_keys, post_key, patch_key, delete_key}
use hive_core_v.Management.Command.{post_worker_command, get_queue}
use hive_core_v.Management.Dashboard.{serve_file}
use hive_core_v.Management.Permissions.{ManagementPermission, allowed_roles, management_permission}

-- The answers of routes that render the state of workers, usage or a key's own limits are left out;
-- a view is the function that renders the answer.
pub data View : Type 0 where
  get_me get_me_limits get_usage get_status get_connections get_pings get_tags get_versions : View
  get_me_usage : String → View

pub data Reply : Type 0 where
  respond : HttpResponse → Reply
  view : View → Reply

-- The part in front of the first `?`, and the part behind it up to the next.
abbrev first_part : List (List ℕ) → List ℕ
first_part [] = []
first_part (p ∷ ps) = p

abbrev second_part : List (List ℕ) → List ℕ
second_part [] = []
second_part (p ∷ ps) = first_part ps

unfoldable pub route_path : String → String
unfolding split text_of
route_path uri = text_of (first_part (split 63 (codes uri)))

unfoldable pub query : String → String
unfolding split text_of
query uri = text_of (second_part (split 63 (codes uri)))

abbrev pub not_found : HttpResponse
not_found = Response.new 404 "Not Found" []

abbrev pub unauthorized : HttpResponse
unauthorized = Response.new 403 "Unauthorized" []

-- The clock of a connection, and the UUID that it draws.
pub record Call : Type 0 where
  pub now : ℕ
  pub uuid : String

module _ (json : Json) (readers : Readers) (b : BinarySearch) where
  open json use {Value, string, object}

  abbrev pub with_keys : ProxyState Value → KeyStore × HttpResponse → ProxyState Value × Reply
  with_keys s (keys, r) = (record s { app = record s.app { keys = keys } }, respond r)

  abbrev pub responding : ProxyState Value × HttpResponse → ProxyState Value × Reply
  responding (s, r) = (s, respond r)

  abbrev or_empty : Option (List ℕ) → List ℕ
  or_empty none = []
  or_empty (some t) = t

  unfoldable pub serve_config_json : ℕ → HttpResponse
  unfolding Response.json Response.new to_string to_utf8
  serve_config_json management_port =
      let body = or_empty (
        json.to_string (
          object (
            ("proxyEndpoint", string "https://hivecore.famnit.upr.si")
            ∷ (
              "managementEndpoint",
              string (append "http://127.0.0.1:" (to_string management_port)),
            )
            ∷ ("key", string "")
            ∷ []))) in
      let r = Response.json 200 "OK" (to_utf8 body) in
      record r { headers = r.headers ++ ("Access-Control-Allow-Origin", "*") ∷ [] }

  -- The match on the routes that need a permission.
  unfoldable pub dispatch :
      Call → Role → String → String → List ℕ → ProxyState Value → ProxyState Value × Reply
  unfolding get_queue get_keys post_key patch_key delete_key post_worker_command
  dispatch c requester_role method path body s =
      if str_eq method "GET" && str_eq path "/queue"
      then (s, respond (get_queue json s.request_queue))
      else if str_eq method "GET" && str_eq path "/usage"
      then (s, view get_usage)
      else if str_eq method "GET" && str_eq path "/worker/status"
      then (s, view get_status)
      else if str_eq method "GET" && str_eq path "/worker/connections"
      then (s, view get_connections)
      else if str_eq method "GET" && str_eq path "/worker/pings"
      then (s, view get_pings)
      else if str_eq method "GET" && str_eq path "/worker/tags"
      then (s, view get_tags)
      else if str_eq method "GET" && str_eq path "/worker/versions"
      then (s, view get_versions)
      else if str_eq method "GET" && str_eq path "/key"
      then (s, respond (get_keys json s.app.keys requester_role))
      else if str_eq method "POST" && str_eq path "/key"
      then with_keys s (post_key json readers c.uuid body s.app.keys)
      else if str_eq method "PATCH" && str_eq path "/key"
      then with_keys s (patch_key json readers body s.app.keys)
      else if str_eq method "DELETE" && str_eq path "/key"
      then with_keys s (delete_key json readers body s.app.keys)
      else if str_eq method "POST" && str_eq path "/worker/command"
      then responding (post_worker_command readers body c.now s)
      else (s, respond not_found)

  -- A snapshot of a key's limits prunes its windows.
  unfoldable pub with_snapshot : ℕ → KeyRecord → ProxyState Value → ProxyState Value
  unfolding snapshot
  with_snapshot now key s = record s {
    app = record s.app { rate_limiter = (snapshot b s.app.rate_limiter key.id now).0 };
  }

  unfoldable pub own_routes :
      Call → KeyRecord → String → String → String → ProxyState Value → ProxyState Value × Reply
  unfolding with_snapshot query
  own_routes c key method path uri s =
      if str_eq method "GET" && str_eq path "/key/me"
      then (with_snapshot c.now key s, view get_me)
      else if str_eq method "GET" && str_eq path "/key/me/usage"
      then (s, view (get_me_usage (query uri)))
      else if str_eq method "GET" && str_eq path "/key/me/limits"
      then (with_snapshot c.now key s, view get_me_limits)
      else (s, respond not_found)

  abbrev pub found_key :
      AppState Value → HttpRequest Value → List Role → KeyStore × Option KeyRecord
  found_key app request roles = elim (bearer_token request) [
    | none ↦ (app.keys, none)
    | some token ↦ verify app.keys token roles
  ]

  abbrev pub remember : ProxyState Value → KeyStore → ProxyState Value
  remember s keys = record s { app = record s.app { keys = keys } }

  -- The routes under `/key/me`, for any key.
  unfoldable pub key_me :
      Call → HttpRequest Value → String → ProxyState Value → ProxyState Value × Reply
  unfolding bearer_token verify own_routes
  key_me c request path s =
      let (keys, key) = found_key s.app request (admin ∷ client ∷ analytics ∷ worker ∷ []) in
      elim key [
        | none ↦ (remember s keys, respond unauthorized)
        | some k ↦ own_routes c k request.method path request.uri (remember s keys)
      ]

  unfoldable pub permitted :
      Call
      → HttpRequest Value
      → String
      → ManagementPermission
      → ProxyState Value
      → ProxyState Value × Reply
  unfolding authorize_management allowed_roles dispatch
  permitted c request path permission s =
      let (keys, role) = authorize_management s.app request (allowed_roles permission) in
      elim role [
        | none ↦ (remember s keys, respond unauthorized)
        | some r ↦ dispatch c r request.method path request.body (remember s keys)
      ]

  unfoldable pub private_routes :
      Call → HttpRequest Value → String → ProxyState Value → ProxyState Value × Reply
  unfolding strip_prefix key_me management_permission permitted
  private_routes c request path s =
      if is_some (strip_prefix "/key/me" path)
      then key_me c request path s
      else elim (management_permission request.method path) [
        | none ↦ (s, respond not_found)
        | some permission ↦ permitted c request path permission s
      ]

  abbrev is_page : String → Bool
  is_page path =
      str_eq path "/"
      || str_eq path "/index.html"
      || str_eq path "/app.js"
      || str_eq path "/styles.css"

  abbrev pub public_file :
      HashMap String (List ℕ) → HttpRequest Value → String → Option HttpResponse
  public_file files request path =
      if (str_eq request.method "GET" || str_eq request.method "HEAD") && is_page path
      then serve_file files path
      else none

  unfoldable pub handle_connection :
      HashMap String (List ℕ)
      → Call
      → HttpRequest Value
      → ProxyState Value
      → ProxyState Value × Reply
  unfolding route_path serve_config_json serve_file private_routes
  handle_connection files c request s =
      let path = route_path request.uri in
      if (str_eq request.method "GET" || str_eq request.method "HEAD") && str_eq path "/config.json"
      then (s, respond (serve_config_json s.app.config.management_connection_port))
      else elim (public_file files request path) [
        | some r ↦ (s, respond r)
        | none ↦ private_routes c request path s
      ]

-- ===== src/Management/Keys.antt =====
-- src/servers/management/routes/keys.rs: the routes that list and change keys.
use hive_core_v.Base.{
  ℕ, String, str_eq, Bool, true, false, ◌&&◌, not, Option, none, some, List, [], ◌∷◌, ◌++◌, map,
  if◌then◌else◌,
}
use hive_core_v.Auth.Models.{KeyRecord, Role, admin, as_str, role_eq}
use hive_core_v.Auth.Keys.{KeyStore, insert, list, update_key, delete}
use hive_core_v.Shared.Http.Json.{Json}
use hive_core_v.Shared.Http.Response.{HttpResponse}
use hive_core_v.Shared.Http.Response
use hive_core_v.Shared.Http.Text.{as_bytes, is_some}
use hive_core_v.Shared.Sqlite.KeyTable.{Io, ok, err, already_exists, other}
use hive_core_v.Shared.Wire.Utf8.{codes, text_of, to_utf8}
use hive_core_v.Shared.Wire.Text.{trim}
use hive_core_v.Management.Models.{KeyUpdateRequest, key_request, Readers}

pub record KeyResponse : Type 0 where
  pub id : ℕ
  pub token : Option String
  pub role : Role
  pub name : String
  pub whitelist_models : List String
  pub blacklist_models : List String
  pub capture : Bool
  pub rate_limit_tier : String

-- Only an admin sees tokens.
unfoldable pub from_record : Role → KeyRecord → KeyResponse
from_record requester_role r = record {
  id = r.id;
  token = if role_eq requester_role admin then some r.token else none;
  role = r.role;
  name = r.name;
  whitelist_models = r.whitelist_models;
  blacklist_models = r.blacklist_models;
  capture = r.capture;
  rate_limit_tier = r.rate_limit_tier;
}

abbrev pub invalid_body : HttpResponse
invalid_body = Response.new 400 "Bad Request" (as_bytes "Invalid JSON body")

abbrev pub server_error : HttpResponse
server_error = Response.new 500 "Internal Server Error" []

-- The name of an update, trimmed: `none` for an empty one.
unfoldable pub trimmed_name : Option String → Option (Option String)
unfolding trim text_of
trimmed_name none = some none
trimmed_name (some name) =
    let t = text_of (trim (codes name)) in if str_eq t "" then none else some (some t)

unfoldable pub trimmed_tier : Option String → Option String
unfolding trim text_of
trimmed_tier none = none
trimmed_tier (some tier) =
    let t = text_of (trim (codes tier)) in if str_eq t "" then none else some t

-- The keys that a list shows.
abbrev pub rendered : Role → List KeyRecord → List KeyResponse
rendered requester_role = map (from_record requester_role)

module _ (json : Json) where
  open json use {Value, to_string, string, number, bool, array, object}

  unfoldable pub json_response : ℕ → String → Value → HttpResponse
  unfolding to_utf8 Response.json Response.new
  json_response status reason value = elim (to_string value) [
    | some body ↦ Response.json status reason (to_utf8 body)
    | none ↦ server_error
  ]

  abbrev token_field : Option String → List (String × Value)
  token_field none = []
  token_field (some token) = ("token", string token) ∷ []

  -- What the derived printer makes of a response.
  abbrev pub value_of : KeyResponse → Value
  value_of k = object (
      ("id", number k.id) ∷ token_field k.token
      ++ ("role", string (as_str k.role))
        ∷ ("name", string k.name)
        ∷ ("whitelist_models", array (map string k.whitelist_models))
        ∷ ("blacklist_models", array (map string k.blacklist_models))
        ∷ ("capture", bool k.capture)
        ∷ ("rate_limit_tier", string k.rate_limit_tier)
        ∷ [])

  unfoldable pub get_keys : KeyStore → Role → HttpResponse
  unfolding list from_record json_response
  get_keys keys requester_role = elim (list keys) [
    | ok records ↦ json_response 200 "OK" (array (map value_of (rendered requester_role records)))
    | err e ↦ server_error
  ]

  abbrev pub failure : {A : Type 0} → Io A → HttpResponse → HttpResponse
  failure (ok a) r = r
  failure (err already_exists) r = Response.new 409 "Conflict" []
  failure (err other) r = server_error

  unfoldable pub create_response : Io KeyRecord → String → HttpResponse
  unfolding json_response
  create_response result token =
      failure result (json_response 201 "Created" (object (("token", string token) ∷ [])))

  abbrev pub update_response : Io (Option KeyRecord) → HttpResponse
  update_response (ok (some r)) = json_response 200 "OK" (value_of (from_record admin r))
  update_response (ok none) = Response.new 404 "Not Found" []
  update_response (err e) = failure {A = KeyRecord} (err e) server_error

  abbrev pub delete_response : Io Bool → HttpResponse
  delete_response (ok true) = Response.new 204 "No Content" []
  delete_response (ok false) = Response.new 404 "Not Found" []
  delete_response (err e) = server_error

  module _ (readers : Readers) where
    open readers use {key_fields, key_update, key_delete}

    -- The token is a new UUID. The four roles are inserted alike.
    unfoldable pub post_key : String → List ℕ → KeyStore → KeyStore × HttpResponse
    unfolding key_request insert create_response Response.new as_bytes
    post_key generated_token body keys = elim (key_fields body) [
      | none ↦ (keys, invalid_body)
      | some fields ↦
          let p = key_request fields in
          let (keys', result) =
            insert keys generated_token p.role p.name p.capture p.whitelist_models
              p.blacklist_models p.rate_limit_tier in
          (keys', create_response result generated_token)
    ]

    unfoldable pub patch_named :
        KeyUpdateRequest → Option String → KeyStore → KeyStore × HttpResponse
    unfolding trimmed_tier update_key from_record json_response Response.new as_bytes
    patch_named p name keys =
        let tier = trimmed_tier p.rate_limit_tier in
        if not (is_some name) && not (is_some p.capture) && not (is_some tier)
        then (keys, Response.new 400 "Bad Request" (as_bytes "No key updates provided"))
        else (let (keys', result) = update_key keys p.id name p.capture tier in
            (keys', update_response result))

    unfoldable pub patch_key : List ℕ → KeyStore → KeyStore × HttpResponse
    unfolding trimmed_name patch_named Response.new as_bytes
    patch_key body keys = elim (key_update body) [
      | none ↦ (keys, invalid_body)
      | some p ↦ elim (trimmed_name p.name) [
        | none ↦ (keys, Response.new 400 "Bad Request" (as_bytes "Key name cannot be empty"))
        | some name ↦ patch_named p name keys
      ]
    ]

    unfoldable pub delete_key : List ℕ → KeyStore → KeyStore × HttpResponse
    unfolding delete Response.new as_bytes
    delete_key body keys = elim (key_delete body) [
      | none ↦ (keys, invalid_body)
      | some p ↦ let (keys', result) = delete keys p.id in (keys', delete_response result)
    ]

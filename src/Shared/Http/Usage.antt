-- ===== src/Shared/Http/Usage.antt =====
-- `ensure_openai_stream_usage` of src/shared/http/mod.rs. Objects of `serde_json` are maps.
use hive_core_v.Base.{
  ℕ, String, string_eq, Bool, true, false, Option, none, some, List, [], ◌∷◌, length, if◌then◌else◌,
}
use hive_core_v.Base.HashMap
use hive_core_v.Base.HashMap.{HashMap}
use hive_core_v.Shared.Http.Json.{Json}
use hive_core_v.Shared.Http.Request.{HttpRequest, matches}
use hive_core_v.Shared.Http.Text.{to_string, and_then}

abbrev pub stream_routes : List (String × String)
stream_routes = ("POST", "/v1/chat/completions") ∷ ("POST", "/v1/completions") ∷ []

abbrev pub is_true : Option Bool → Bool
is_true none = false
is_true (some b) = b

module _ (json : Json) where
  open json use {Value, from_slice, to_vec, as_bool, as_object, bool, object}

  abbrev pub flag : String → HashMap String Value → Bool
  flag field o = is_true (and_then (HashMap.get field o) as_bool)

  -- `entry("stream_options").or_insert_with(an empty object)`, as an object.
  abbrev pub stream_options : HashMap String Value → Option (HashMap String Value)
  stream_options o = elim (HashMap.get "stream_options" o) [ none ↦ some [] | some v ↦ as_object v ]

  unfoldable pub with_usage : HashMap String Value → HashMap String Value → Option (List ℕ)
  with_usage o options =
      if flag "include_usage" options
      then none
      else to_vec (
          object (
            HashMap.insert "stream_options"
              (object (HashMap.insert "include_usage" (bool true) options)) o))

  -- The body that asks for usage, where the code makes one.
  unfoldable pub usage_body : HttpRequest Value → Option (List ℕ)
  unfolding with_usage
  usage_body r = and_then (from_slice r.body) λ body.
      and_then (as_object body)
        λ o. if flag "stream" o then and_then (stream_options o) (with_usage o) else none

  -- The body changes, and the memo does not.
  unfoldable pub ensure_openai_stream_usage : HttpRequest Value → HttpRequest Value × Bool
  unfolding matches usage_body to_string
  ensure_openai_stream_usage r =
      if matches stream_routes r
      then elim (usage_body r) [
        | none ↦ (r, false)
        | some body ↦ (
          record r {
            body = body;
            headers = HashMap.insert "content-length" (to_string (length body)) r.headers;
          },
          true,
        )
      ]
      else (r, false)

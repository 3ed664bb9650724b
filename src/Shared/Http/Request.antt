-- ===== src/Shared/Http/Request.antt =====
-- src/shared/http/models/http_request.rs, and the readers of JSON fields in src/shared/http/mod.rs.
use hive_core_v.Base.{
  ℕ, String, Bool, Option, none, some, List, [], ◌∷◌, any, ◌&&◌, str_eq, string_eq, if◌then◌else◌,
  ◌≡◌, arith,
}
use hive_core_v.Base.HashMap
use hive_core_v.Base.HashMap.{HashMap}
use hive_core_v.Shared.Http.Json.{Json}
use hive_core_v.Shared.Http.Text.{strip_prefix, or_else, and_then}

-- `parsed_json` is the memo of the body's parse: `none` until a call fills it. `Value` is the type
-- of JSON values.
pub record HttpRequest (Value : Type 0) : Type 0 where
  pub method : String
  pub uri : String
  pub protocol : String
  pub headers : HashMap String String
  pub body : List ℕ
  pub memo : Option (Option Value)

module _ {Value : Type 0} where
  unfoldable pub new : String → String → String → HashMap String String → List ℕ → HttpRequest Value
  new method uri protocol headers body = record {
    method = method;
    uri = uri;
    protocol = protocol;
    headers = headers;
    body = body;
    memo = none;
  }

  -- A clone has an unfilled memo.
  unfoldable pub clone : HttpRequest Value → HttpRequest Value
  clone r = record r { memo = none }

  unfoldable pub header : HttpRequest Value → String → Option String
  header r name = HashMap.get name r.headers

  unfoldable pub bearer_token : HttpRequest Value → Option String
  unfolding header strip_prefix
  bearer_token r =
      or_else
        (and_then (header r "authorization")
          λ h. or_else (strip_prefix "Bearer " h) (strip_prefix "bearer " h))
        (header r "api-key")

  -- A test of the method and the target against a table, as `matches!` makes it.
  unfoldable pub matches : List (String × String) → HttpRequest Value → Bool
  matches table r = any (λ e. str_eq r.method e.0 && str_eq r.uri e.1) table

  unfoldable pub hive : String → String → HttpRequest Value
  unfolding new
  hive method uri = new method uri "HIVE" [] []

module _ (json : Json) where
  open json use {Value, from_slice, get, as_str}

  -- `get_or_init`: the value, and the request with its memo filled.
  unfoldable pub parsed_json : HttpRequest Value → Option Value × HttpRequest Value
  parsed_json r = elim r.memo [
    | some v ↦ (v, r)
    | none ↦ (from_slice r.body, record r { memo = some (from_slice r.body) })
  ]

  -- `json_string_field` of the planner is the same code. The filled memo is not part of the result,
  -- since a later read parses the same body.
  unfoldable pub extract_json_value : HttpRequest Value → String → Option String
  unfolding parsed_json
  extract_json_value r field = and_then (parsed_json r).0 λ v. and_then (get v field) as_str

  pub read_again :
      (r : HttpRequest Value) (field : String)
      → extract_json_value (parsed_json r).1 field ≡ extract_json_value r field
  unfolding extract_json_value
  read_again r field = ground arith

  abbrev pub usage_routes : List (String × String)
  usage_routes =
      ("POST", "/api/generate")
      ∷ ("POST", "/api/chat")
      ∷ ("POST", "/api/embed")
      ∷ ("POST", "/api/embeddings")
      ∷ ("POST", "/v1/chat/completions")
      ∷ ("POST", "/v1/chat/completions/batch")
      ∷ ("POST", "/v1/completions")
      ∷ ("POST", "/v1/responses")
      ∷ ("POST", "/v1/embeddings")
      ∷ ("POST", "/v2/embed")
      ∷ ("POST", "/score")
      ∷ ("POST", "/v1/score")
      ∷ ("POST", "/rerank")
      ∷ ("POST", "/v1/rerank")
      ∷ ("POST", "/v2/rerank")
      ∷ ("POST", "/tokenize")
      ∷ ("POST", "/detokenize")
      ∷ ("POST", "/generative_scoring")
      ∷ ("POST", "/")
      ∷ ("POST", "/v1/evaluate")
      ∷ ("POST", "/v1/systemone")
      ∷ ("POST", "/ai/run")
      ∷ []

  unfoldable pub request_usage_model_name : HttpRequest Value → Option String
  unfolding matches extract_json_value
  request_usage_model_name r = if matches usage_routes r then extract_json_value r "model" else none

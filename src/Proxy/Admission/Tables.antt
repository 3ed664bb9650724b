-- ===== src/Proxy/Admission/Tables.antt =====
-- src/servers/proxy/admission.rs: the tables of routes, and the models that a request names.
use hive_core_v.Base.{
  String, str_eq, Bool, ◌&&◌, ◌||◌, Option, none, some, List, [], ◌∷◌, if◌then◌else◌,
}
use hive_core_v.Shared.Http.Json.{Json}
use hive_core_v.Shared.Http.Request.{HttpRequest, matches, extract_json_value}
use hive_core_v.Shared.Http.Text.{or_else, strip_prefix, is_some}

abbrev pub admin_routes : List (String × String)
admin_routes =
    ("POST", "/api/create")
    ∷ ("POST", "/api/copy")
    ∷ ("POST", "/api/pull")
    ∷ ("POST", "/api/push")
    ∷ ("DELETE", "/api/delete")
    ∷ ("GET", "/load")
    ∷ ("GET", "/metrics")
    ∷ ("POST", "/v1/load_lora_adapter")
    ∷ ("POST", "/v1/unload_lora_adapter")
    ∷ ("POST", "/v1/lora_adapters")
    ∷ ("POST", "/start_profile")
    ∷ ("POST", "/stop_profile")
    ∷ ("POST", "/sleep")
    ∷ ("POST", "/wake_up")
    ∷ []

abbrev pub model_routes : List (String × String)
model_routes =
    ("POST", "/api/generate")
    ∷ ("POST", "/api/chat")
    ∷ ("POST", "/api/embed")
    ∷ ("POST", "/api/embeddings")
    ∷ ("POST", "/v1/chat/completions")
    ∷ ("POST", "/v1/chat/completions/batch")
    ∷ ("POST", "/v1/completions")
    ∷ ("POST", "/v1/responses")
    ∷ ("POST", "/v1/embeddings")
    ∷ ("POST", "/v2/embed")
    ∷ ("POST", "/score")
    ∷ ("POST", "/v1/score")
    ∷ ("POST", "/rerank")
    ∷ ("POST", "/v1/rerank")
    ∷ ("POST", "/v2/rerank")
    ∷ ("POST", "/tokenize")
    ∷ ("POST", "/detokenize")
    ∷ ("POST", "/generative_scoring")
    ∷ ("POST", "/api/pull")
    ∷ ("POST", "/api/push")
    ∷ ("DELETE", "/api/delete")
    ∷ ("POST", "/")
    ∷ ("POST", "/v1/evaluate")
    ∷ ("POST", "/v1/systemone")
    ∷ ("POST", "/ai/run")
    ∷ []

abbrev pub discovery_routes : List (String × String)
discovery_routes =
    ("GET", "/api/tags")
    ∷ ("GET", "/api/ps")
    ∷ ("GET", "/api/version")
    ∷ ("GET", "/health")
    ∷ ("GET", "/v1/models")
    ∷ ("GET", "/tokenizer_info")
    ∷ ("GET", "/version")
    ∷ ("GET", "/is_sleeping")
    ∷ []

abbrev pub only : String → String → List (String × String)
only method uri = (method, uri) ∷ []

abbrev pub listed : Option String → List String
listed none = []
listed (some model) = model ∷ []

module _ {V : Type 0} where
  unfoldable pub admin_only_proxy_route : HttpRequest V → Bool
  unfolding matches
  admin_only_proxy_route r = matches admin_routes r

  unfoldable pub is_discovery_route : HttpRequest V → Bool
  unfolding matches strip_prefix
  is_discovery_route r =
      matches discovery_routes r
      || (str_eq r.method "GET" && is_some (strip_prefix "/v1/models/" r.uri))

unfoldable pub request_models : (json : Json) → HttpRequest json.Value → List String
unfolding matches extract_json_value
request_models json r =
    if matches model_routes r
    then listed (extract_json_value json r "model")
    else if matches (only "POST" "/api/show") r
    then listed (or_else (extract_json_value json r "model") (extract_json_value json r "name"))
    else if matches (only "POST" "/api/copy") r
    then listed (extract_json_value json r "source")
    else if matches (only "POST" "/api/create") r
    then listed (extract_json_value json r "from")
    else []

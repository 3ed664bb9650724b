-- ===== src/Proxy/Planner/Endpoint.antt =====
-- src/servers/proxy/planner.rs, `classify_endpoint`: the endpoint that a method and a target name.

use hive_core_v.Base.{String, str_eq, ◌&&◌, ◌||◌, Option, none, some, List, [], ◌∷◌, if◌then◌else◌}
use hive_core_v.Auth.Policy.{contains_char}
use hive_core_v.Shared.Http.Request.{HttpRequest}
use hive_core_v.Shared.Http.Text.{strip_prefix, strip_suffix, is_some, and_then}
use hive_core_v.Shared.Sqlite.Normalize.{is_nil}

pub data ProxyEndpoint : Type 0 where
  generate chat embed tags ps show create copy pull push delete version : ProxyEndpoint
  open_ai_chat_completions open_ai_chat_completions_batch open_ai_completions : ProxyEndpoint
  open_ai_responses open_ai_embeddings open_ai_models : ProxyEndpoint
  open_ai_model : String → ProxyEndpoint
  open_ai_response_state : ProxyEndpoint
  vllm_cohere_embed vllm_score vllm_rerank vllm_model_field_route : ProxyEndpoint
  vllm_generative_scoring vllm_any_worker vllm_targeted_only : ProxyEndpoint
  health : ProxyEndpoint
  system_one_evaluate system_one_evaluate_v1 system_one_system_one : ProxyEndpoint
  system_one_cloudflare_ai_run system_one_model unknown : ProxyEndpoint

-- A row of the `match` on the method and the target.
abbrev pub Route : Type 0
Route = String × String × ProxyEndpoint

abbrev pub exact_routes : List Route
exact_routes =
    ("POST", "/api/generate", generate)
    ∷ ("POST", "/api/chat", chat)
    ∷ ("POST", "/api/embed", embed)
    ∷ ("POST", "/api/embeddings", embed)
    ∷ ("GET", "/api/tags", tags)
    ∷ ("GET", "/api/ps", ps)
    ∷ ("POST", "/api/show", show)
    ∷ ("POST", "/api/create", create)
    ∷ ("POST", "/api/copy", copy)
    ∷ ("POST", "/api/pull", pull)
    ∷ ("POST", "/api/push", push)
    ∷ ("DELETE", "/api/delete", delete)
    ∷ ("GET", "/api/version", version)
    ∷ ("GET", "/health", health)
    ∷ ("POST", "/v1/chat/completions", open_ai_chat_completions)
    ∷ ("POST", "/v1/chat/completions/batch", open_ai_chat_completions_batch)
    ∷ ("POST", "/v1/completions", open_ai_completions)
    ∷ ("POST", "/v1/responses", open_ai_responses)
    ∷ ("POST", "/v1/embeddings", open_ai_embeddings)
    ∷ ("GET", "/v1/models", open_ai_models)
    ∷ ("POST", "/v2/embed", vllm_cohere_embed)
    ∷ ("POST", "/score", vllm_score)
    ∷ ("POST", "/v1/score", vllm_score)
    ∷ ("POST", "/rerank", vllm_rerank)
    ∷ ("POST", "/v1/rerank", vllm_rerank)
    ∷ ("POST", "/v2/rerank", vllm_rerank)
    ∷ ("POST", "/tokenize", vllm_model_field_route)
    ∷ ("POST", "/detokenize", vllm_model_field_route)
    ∷ ("POST", "/generative_scoring", vllm_generative_scoring)
    ∷ ("GET", "/tokenizer_info", vllm_any_worker)
    ∷ ("GET", "/version", vllm_any_worker)
    ∷ ("GET", "/load", vllm_any_worker)
    ∷ ("GET", "/is_sleeping", vllm_any_worker)
    ∷ ("GET", "/metrics", vllm_targeted_only)
    ∷ ("POST", "/v1/load_lora_adapter", vllm_targeted_only)
    ∷ ("POST", "/v1/unload_lora_adapter", vllm_targeted_only)
    ∷ ("POST", "/v1/lora_adapters", vllm_targeted_only)
    ∷ ("POST", "/start_profile", vllm_targeted_only)
    ∷ ("POST", "/stop_profile", vllm_targeted_only)
    ∷ ("POST", "/sleep", vllm_targeted_only)
    ∷ ("POST", "/wake_up", vllm_targeted_only)
    ∷ ("POST", "/", system_one_evaluate)
    ∷ ("POST", "/v1/evaluate", system_one_evaluate_v1)
    ∷ ("POST", "/v1/systemone", system_one_system_one)
    ∷ ("POST", "/ai/run", system_one_cloudflare_ai_run)
    ∷ ("GET", "/model", system_one_model)
    ∷ []

-- The first row that fits.
unfoldable pub match_route : String → String → List Route → Option ProxyEndpoint
match_route method uri [] = none
match_route method uri ((m, u, e) ∷ rows) =
    if str_eq method m && str_eq uri u then some e else match_route method uri rows

unfoldable pub strip_prefix_segment : String → String → Option String
unfolding strip_prefix contains_char
strip_prefix_segment uri prefix =
    and_then (strip_prefix prefix uri)
      λ rest. if is_nil rest || contains_char "/" rest then none else some rest

unfoldable pub strip_suffix_segment : String → String → String → Option String
unfolding strip_prefix strip_suffix contains_char
strip_suffix_segment uri prefix suffix = and_then (strip_prefix prefix uri) λ rest.
    and_then (strip_suffix suffix rest)
      λ model. if is_nil model || contains_char "/" model then none else some model

-- The tests below the `match`, in their order.
unfoldable pub classify_response : String → String → ProxyEndpoint
unfolding strip_prefix_segment strip_suffix
classify_response method uri =
    if str_eq method "POST" && is_some (strip_suffix "/cancel" uri)
    then elim (strip_suffix "/cancel" uri) [
      | none ↦ unknown
      | some response_path ↦
          if is_some (strip_prefix_segment response_path "/v1/responses/")
          then open_ai_response_state
          else unknown
    ]
    else unknown

unfoldable pub classify_prefix : String → String → ProxyEndpoint
unfolding strip_prefix_segment classify_response
classify_prefix method uri =
    if str_eq method "GET"
    then elim (strip_prefix_segment uri "/v1/models/") [
      | some model ↦ open_ai_model model
      | none ↦
          if is_some (strip_prefix_segment uri "/v1/responses/")
          then open_ai_response_state
          else classify_response method uri
    ]
    else classify_response method uri

unfoldable pub classify_endpoint : {V : Type 0} → HttpRequest V → ProxyEndpoint
unfolding match_route classify_prefix
classify_endpoint r = elim (match_route r.method r.uri exact_routes) [
  | some e ↦ e
  | none ↦ classify_prefix r.method r.uri
]

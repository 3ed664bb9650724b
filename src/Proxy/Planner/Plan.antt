-- ===== src/Proxy/Planner/Plan.antt =====
-- src/servers/proxy/planner.rs, `plan_request` and the routes of each endpoint. `json_string_field`
-- is `extract_json_value` of src/shared/http/mod.rs under another name.
use hive_core_v.Base.{String, str_eq, Option, none, some, [], ◌∷◌, if◌then◌else◌}
use hive_core_v.Auth.Models.{KeyRecord}
use hive_core_v.App.State.{AppState}
use hive_core_v.Shared.Http.Json.{Json}
use hive_core_v.Shared.Http.Request.{HttpRequest, header, extract_json_value}
use hive_core_v.Shared.Http.Text.{or_else}
use hive_core_v.Proxy.Models.{
  ModelRouteKind, ollama_native, open_ai_compatible, vllm_specific, system_one_work, RoutePlan,
  queue_by_model, queue_by_node, reject,
}
use hive_core_v.Proxy.Planner.Endpoint.{
  ProxyEndpoint, generate, chat, embed, tags, ps, show, create, copy, pull, push, delete, version,
  open_ai_chat_completions, open_ai_chat_completions_batch, open_ai_completions, open_ai_responses,
  open_ai_embeddings, open_ai_models, open_ai_model, open_ai_response_state, vllm_cohere_embed,
  vllm_score, vllm_rerank, vllm_model_field_route, vllm_generative_scoring, vllm_any_worker,
  vllm_targeted_only, health, system_one_evaluate, system_one_evaluate_v1, system_one_system_one,
  system_one_cloudflare_ai_run, system_one_model, unknown, classify_endpoint,
}
use hive_core_v.Proxy.State.{ProxyState}
use hive_core_v.Proxy.Planner.Probing.{Probes}
use hive_core_v.Proxy.Planner.Workers.{
  any_backend, ollama_backend, vllm_backend, system_one_backend, missing_field,
  no_workers_available, not_found_for_masked_model, first_or, model_visible, connected_workers,
  connected_workers_by_backend, model_owners, route_to_any_backend, route_to_owner,
}
use hive_core_v.Proxy.Planner.Listing.{
  local_openai_models_response, local_tags_response, local_ps_response, local_version_response,
  local_health_response, local_openai_model_response,
}

module _ (json : Json) where
  open json use {Value}

  unfoldable pub route_by_required_model : HttpRequest Value → ModelRouteKind → RoutePlan
  unfolding missing_field
  route_by_required_model r kind = elim (extract_json_value json r "model") [
    | some model ↦ queue_by_model model kind
    | none ↦ missing_field
  ]

  unfoldable pub route_openai_model_request : HttpRequest Value → RoutePlan
  unfolding missing_field
  route_openai_model_request r = elim (extract_json_value json r "model") [
    | some model ↦ queue_by_model model open_ai_compatible
    | none ↦ missing_field
  ]

  module _ (state : AppState Value) where
    unfoldable pub route_systemone_eval_request : HttpRequest Value → RoutePlan
    unfolding route_to_any_backend
    route_systemone_eval_request r = elim (extract_json_value json r "model") [
      | some model ↦ queue_by_model model system_one_work
      | none ↦ route_to_any_backend state system_one_backend
    ]

    unfoldable pub route_load_model_request : Option KeyRecord → String → RoutePlan
    unfolding not_found_for_masked_model no_workers_available
    route_load_model_request key model =
        if model_visible key model
        then elim (model_owners state model any_backend) [
          | w ∷ ws ↦ queue_by_node w
          | [] ↦ first_or no_workers_available (connected_workers state)
        ]
        else not_found_for_masked_model

    unfoldable pub route_unload_model_request : Option KeyRecord → String → RoutePlan
    unfolding not_found_for_masked_model no_workers_available
    route_unload_model_request key model =
        if model_visible key model
        then first_or no_workers_available (model_owners state model any_backend)
        else not_found_for_masked_model

    unfoldable pub route_show_request : HttpRequest Value → Option KeyRecord → RoutePlan
    unfolding missing_field not_found_for_masked_model route_to_any_backend
    route_show_request r key =
        elim (or_else (extract_json_value json r "model") (extract_json_value json r "name")) [
          | none ↦ missing_field
          | some model ↦
              if model_visible key model
              then elim (model_owners state model ollama_backend) [
                | w ∷ ws ↦ queue_by_node w
                | [] ↦ route_to_any_backend state ollama_backend
              ]
              else not_found_for_masked_model
        ]

    unfoldable pub route_create_request : HttpRequest Value → Option KeyRecord → RoutePlan
    unfolding not_found_for_masked_model route_to_owner
    route_create_request r key = elim (extract_json_value json r "from") [
      | none ↦ reject 400 "Bad Request" "create without a source model requires a Node header"
      | some from ↦
          if model_visible key from
          then route_to_owner state from ollama_backend
          else not_found_for_masked_model
    ]

    unfoldable pub route_copy_request : HttpRequest Value → Option KeyRecord → RoutePlan
    unfolding missing_field not_found_for_masked_model route_to_owner
    route_copy_request r key = elim (extract_json_value json r "source") [
      | none ↦ missing_field
      | some source ↦
          if model_visible key source
          then route_to_owner state source ollama_backend
          else not_found_for_masked_model
    ]

    unfoldable pub route_pull_request : RoutePlan
    unfolding no_workers_available
    route_pull_request =
        first_or no_workers_available (connected_workers_by_backend state ollama_backend)

    unfoldable pub route_push_request : HttpRequest Value → Option KeyRecord → RoutePlan
    unfolding missing_field not_found_for_masked_model route_to_owner
    route_push_request r key = elim (extract_json_value json r "model") [
      | none ↦ missing_field
      | some model ↦
          if model_visible key model
          then route_to_owner state model ollama_backend
          else not_found_for_masked_model
    ]

    unfoldable pub route_delete_request : HttpRequest Value → Option KeyRecord → RoutePlan
    unfolding missing_field not_found_for_masked_model no_workers_available
    route_delete_request r key = elim (extract_json_value json r "model") [
      | none ↦ missing_field
      | some model ↦
          if model_visible key model
          then first_or no_workers_available (model_owners state model ollama_backend)
          else not_found_for_masked_model
    ]

  module _ (s : ProxyState Value) where
    unfoldable pub plan_endpoint :
        Probes Value
        → HttpRequest Value
        → Option KeyRecord
        → ProxyEndpoint
        → ProxyState Value × RoutePlan
    plan_endpoint probes r key generate = (s, route_by_required_model r ollama_native)
    plan_endpoint probes r key chat = (s, route_by_required_model r ollama_native)
    plan_endpoint probes r key embed = (s, route_by_required_model r ollama_native)
    plan_endpoint probes r key open_ai_chat_completions = (s, route_openai_model_request r)
    plan_endpoint probes r key open_ai_chat_completions_batch = (s, route_openai_model_request r)
    plan_endpoint probes r key open_ai_completions = (s, route_openai_model_request r)
    plan_endpoint probes r key open_ai_responses = (s, route_openai_model_request r)
    plan_endpoint probes r key open_ai_embeddings = (s, route_openai_model_request r)
    plan_endpoint probes r key open_ai_models = local_openai_models_response json probes s key
    plan_endpoint probes r key (open_ai_model model) =
        (s, local_openai_model_response json s.app key model)
    plan_endpoint probes r key open_ai_response_state = (s, route_to_any_backend s.app vllm_backend)
    plan_endpoint probes r key vllm_cohere_embed = (s, route_by_required_model r vllm_specific)
    plan_endpoint probes r key vllm_score = (s, route_by_required_model r vllm_specific)
    plan_endpoint probes r key vllm_rerank = (s, route_by_required_model r vllm_specific)
    plan_endpoint probes r key vllm_model_field_route = (s, route_by_required_model r vllm_specific)
    plan_endpoint probes r key vllm_generative_scoring =
        (s, route_by_required_model r vllm_specific)
    plan_endpoint probes r key vllm_any_worker = (s, route_to_any_backend s.app vllm_backend)
    plan_endpoint probes r key vllm_targeted_only =
        (s, reject 400 "Bad Request" "this vLLM control route requires a Node header")
    plan_endpoint probes r key system_one_evaluate = (s, route_systemone_eval_request s.app r)
    plan_endpoint probes r key system_one_evaluate_v1 = (s, route_systemone_eval_request s.app r)
    plan_endpoint probes r key system_one_system_one = (s, route_systemone_eval_request s.app r)
    plan_endpoint probes r key system_one_cloudflare_ai_run =
        (s, route_systemone_eval_request s.app r)
    plan_endpoint probes r key system_one_model =
        (s, first_or no_workers_available (connected_workers_by_backend s.app system_one_backend))
    plan_endpoint probes r key tags = local_tags_response json probes s key
    plan_endpoint probes r key ps = local_ps_response json probes s key
    plan_endpoint probes r key version = local_version_response json probes s
    plan_endpoint probes r key health = (s, local_health_response json s.app)
    plan_endpoint probes r key show = (s, route_show_request s.app r key)
    plan_endpoint probes r key create = (s, route_create_request s.app r key)
    plan_endpoint probes r key copy = (s, route_copy_request s.app r key)
    plan_endpoint probes r key pull = (s, route_pull_request s.app)
    plan_endpoint probes r key push = (s, route_push_request s.app r key)
    plan_endpoint probes r key delete = (s, route_delete_request s.app r key)
    plan_endpoint probes r key unknown = (s, reject 404 "Not Found" "")

    unfoldable pub plan_request :
        Probes Value → HttpRequest Value → Option KeyRecord → ProxyState Value × RoutePlan
    unfolding plan_endpoint header
    plan_request probes r visible_key =
        if str_eq r.protocol "HIVE"
        then (
          s,
          reject 405 "Method Not Allowed" "HIVE requests are not accepted on the proxy listener",
        )
        else elim (header r "node") [
          | some worker ↦ (s, queue_by_node worker)
          | none ↦ plan_endpoint probes r visible_key (classify_endpoint r)
        ]

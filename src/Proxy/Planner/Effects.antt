-- ===== src/Proxy/Planner/Effects.antt =====
-- What planning leaves as it was: a plan that queues all of the state, and every plan what a single
-- probe keeps.
use hive_core_v.Base.HashMap.{values}
use hive_core_v.Base.{ℕ, String, Bool, false, true, List, [], ◌∷◌, ◌≡◌, refl, arith, Option}
use hive_core_v.Auth.Models.{KeyRecord}
use hive_core_v.Shared.Http.Json.{Json}
use hive_core_v.Shared.Http.Request.{HttpRequest}
use hive_core_v.Proxy.Models.{RoutePlan, queue_by_model, queue_by_node, local, reject}
use hive_core_v.Proxy.State.{ProxyState}
use hive_core_v.Proxy.Probe.{probe_worker_json}
use hive_core_v.Proxy.Planner.Endpoint.{ProxyEndpoint, classify_endpoint}
use hive_core_v.Proxy.Planner.Workers.{
  connected_workers, connected_workers_by_backend, ollama_backend,
}
use hive_core_v.Proxy.Planner.Probing.{
  Probes, wait_of, probe_request, parallel_probe_json, parallel_probe_versions,
  parallel_probe_json-keeps, parallel_probe_versions-keeps,
}
use hive_core_v.Proxy.Planner.Listing.{
  collect_answers, collect_running_answers, first_version, openai_models, tags_models, ps_models,
  backend_version, local_openai_models_response, local_tags_response, local_ps_response,
  local_version_response,
}
use hive_core_v.Proxy.Planner.Plan.{plan_endpoint, plan_request}

-- The answers that need no task are the only ones with probes.
abbrev pub is_queued : RoutePlan → Bool
is_queued (queue_by_model m kind) = true
is_queued (queue_by_node w) = true
is_queued (local response) = false
is_queued (reject code reason message) = false

module _ (json : Json) (s : ProxyState json.Value) (probes : Probes json.Value)
    (r : HttpRequest json.Value) (key : Option KeyRecord) where
  open json use {Value}

  plan_endpoint-queued :
      (e : ProxyEndpoint)
      → is_queued (plan_endpoint json s probes r key e).1 ≡ true
      → (plan_endpoint json s probes r key e).0 ≡ s
  unfolding plan_endpoint local_openai_models_response local_tags_response local_ps_response
      local_version_response
  plan_endpoint-queued e h = ground arith

  pub plan_request-queued :
      is_queued (plan_request json s probes r key).1 ≡ true
      → (plan_request json s probes r key).0 ≡ s
  unfolding plan_request
  plan_request-queued h = ground (arith, plan_endpoint-queued (classify_endpoint r))

  module _ {C : Type 0} (measure : ProxyState Value → C)
      (kept : (timeout : ℕ) (uri w : String) (s : ProxyState Value)
        → measure
            (probe_worker_json json (wait_of json probes timeout uri w) w (probe_request uri) s).0
          ≡ measure s) where
    openai_models-keeps : measure (openai_models json probes s key).0 ≡ measure s
    unfolding openai_models
    openai_models-keeps =
        elim (connected_workers s.app)
          as (λ l.
            let x : ProxyState Value × List Value = elim l [
              | [] ↦ (s, [])
              | w ∷ ws ↦
                  let (s', answers) = parallel_probe_json json probes (w ∷ ws) "/v1/models" s in
                  (s', values (collect_answers json key "data" "id" answers []))
            ] in
            measure x.0 ≡ measure s) [
              | [] ↦ refl
              | w ∷ ws ↦ parallel_probe_json-keeps json probes measure kept (w ∷ ws) "/v1/models" s
            ]

    tags_models-keeps : measure (tags_models json probes s key).0 ≡ measure s
    unfolding tags_models
    tags_models-keeps =
        elim (connected_workers_by_backend s.app ollama_backend)
          as (λ l.
            let x : ProxyState Value × List Value = elim l [
              | [] ↦ (s, [])
              | w ∷ ws ↦
                  let (s', answers) = parallel_probe_json json probes (w ∷ ws) "/api/tags" s in
                  (s', values (collect_answers json key "models" "name" answers []))
            ] in
            measure x.0 ≡ measure s) [
              | [] ↦ refl
              | w ∷ ws ↦ parallel_probe_json-keeps json probes measure kept (w ∷ ws) "/api/tags" s
            ]

    ps_models-keeps : measure (ps_models json probes s key).0 ≡ measure s
    unfolding ps_models
    ps_models-keeps =
        elim (connected_workers_by_backend s.app ollama_backend)
          as (λ l.
            let x : ProxyState Value × List Value = elim l [
              | [] ↦ (s, [])
              | w ∷ ws ↦
                  let (s', answers) = parallel_probe_json json probes (w ∷ ws) "/api/ps" s in
                  (s', (collect_running_answers json key answers ([], [])).0)
            ] in
            measure x.0 ≡ measure s) [
              | [] ↦ refl
              | w ∷ ws ↦ parallel_probe_json-keeps json probes measure kept (w ∷ ws) "/api/ps" s
            ]

    backend_version-keeps : measure (backend_version json probes s).0 ≡ measure s
    unfolding backend_version
    backend_version-keeps =
        elim (connected_workers_by_backend s.app ollama_backend)
          as (λ l.
            let x : ProxyState Value × String = elim l [
              | [] ↦ (s, "unknown")
              | w ∷ ws ↦
                  let (s', answers) = parallel_probe_versions json probes (w ∷ ws) s in
                  (s', first_version json answers)
            ] in
            measure x.0 ≡ measure s) [
              | [] ↦ refl
              | w ∷ ws ↦ parallel_probe_versions-keeps json probes measure kept (w ∷ ws) s
            ]

    plan_endpoint-keeps :
        (e : ProxyEndpoint) → measure (plan_endpoint json s probes r key e).0 ≡ measure s
    unfolding plan_endpoint local_openai_models_response local_tags_response local_ps_response
        local_version_response
    plan_endpoint-keeps e =
        ground
          (arith, openai_models-keeps, tags_models-keeps, ps_models-keeps, backend_version-keeps)

    pub plan_request-keeps : measure (plan_request json s probes r key).0 ≡ measure s
    unfolding plan_request
    plan_request-keeps = ground (arith, plan_endpoint-keeps (classify_endpoint r))

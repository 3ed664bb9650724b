-- ===== src/Proxy/Planner/Workers.antt =====
-- src/servers/proxy/planner.rs: the connected workers that a plan may name, and the refusals.
use hive_core_v.Base.{
  String, str_eq, Bool, true, ◌&&◌, Option, none, some, List, [], ◌∷◌, any, map, filter,
  if◌then◌else◌,
}
use hive_core_v.Base.HashMap.{keys, values}
use hive_core_v.Auth.Models.{KeyRecord}
use hive_core_v.Auth.Policy.{allows_model}
use hive_core_v.App.State.{AppState}
use hive_core_v.Worker.Models.{WorkerBackend}
use hive_core_v.Proxy.Models.{RoutePlan, queue_by_node, reject, is_ollama, is_vllm, is_system_one}

pub data WorkerBackendFilter : Type 0 where
  any_backend ollama_backend vllm_backend system_one_backend : WorkerBackendFilter

unfoldable pub allows : WorkerBackendFilter → WorkerBackend → Bool
allows any_backend b = true
allows ollama_backend b = is_ollama b
allows vllm_backend b = is_vllm b
allows system_one_backend b = is_system_one b

unfoldable pub missing_field : RoutePlan
missing_field = reject 400 "Bad Request" "request body is missing a required field"

unfoldable pub no_workers_available : RoutePlan
no_workers_available = reject 503 "Service Unavailable" "no connected workers are available"

unfoldable pub not_found_for_masked_model : RoutePlan
not_found_for_masked_model =
    reject 404 "Not Found" "no connected worker advertises the requested model"

-- The first worker of a list, or a refusal.
abbrev pub first_or : RoutePlan → List String → RoutePlan
first_or refusal [] = refusal
first_or refusal (w ∷ ws) = queue_by_node w

unfoldable pub model_visible : Option KeyRecord → String → Bool
model_visible none model = true
model_visible (some key) model = allows_model key model

module _ {V : Type 0} (state : AppState V) where
  unfoldable pub connected_workers : List String
  connected_workers = if state.workers_poisoned then [] else keys state.workers

  unfoldable pub connected_workers_by_backend : WorkerBackendFilter → List String
  unfolding allows
  connected_workers_by_backend f =
      if state.workers_poisoned
      then []
      else map (λ w. w.name) (filter (λ w. allows f w.backend) (values state.workers))

  unfoldable pub model_owners : String → WorkerBackendFilter → List String
  unfolding allows
  model_owners model f =
      if state.workers_poisoned
      then []
      else map (λ w. w.name)
          (filter (λ w. allows f w.backend && any (λ tag. str_eq tag model) w.tags)
            (values state.workers))

  unfoldable pub route_to_any_backend : WorkerBackendFilter → RoutePlan
  unfolding no_workers_available
  route_to_any_backend f = first_or no_workers_available (connected_workers_by_backend f)

  unfoldable pub route_to_owner : String → WorkerBackendFilter → RoutePlan
  unfolding not_found_for_masked_model
  route_to_owner model f =
      first_or (reject 404 "Not Found" "no connected worker advertises the requested model")
        (model_owners model f)

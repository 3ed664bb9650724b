-- ===== src/Proxy/Models.antt =====
-- src/servers/proxy/models: the kinds of model queues and the plans for a request.
use hive_core_v.Base.{ℕ, String, Bool, true, false, ◌≡◌, ◌↔◌, arith}
use hive_core_v.Shared.Http.Response.{HttpResponse}
use hive_core_v.Worker.Models.{WorkerBackend, ollama_legacy, ollama, vllm, system_one}

pub data ModelRouteKind : Type 0 where
  ollama_native open_ai_compatible vllm_specific system_one_work : ModelRouteKind

unfoldable pub as_str : ModelRouteKind → String
as_str ollama_native = "ollama"
as_str open_ai_compatible = "openai"
as_str vllm_specific = "vllm"
as_str system_one_work = "systemone"

abbrev pub is_ollama : WorkerBackend → Bool
is_ollama ollama_legacy = true
is_ollama ollama = true
is_ollama _ = false

abbrev pub is_vllm : WorkerBackend → Bool
is_vllm vllm = true
is_vllm _ = false

abbrev pub is_system_one : WorkerBackend → Bool
is_system_one system_one = true
is_system_one _ = false

unfoldable pub compatible_with : ModelRouteKind → WorkerBackend → Bool
compatible_with ollama_native backend = is_ollama backend
compatible_with open_ai_compatible backend = true
compatible_with vllm_specific backend = is_vllm backend
compatible_with system_one_work backend = is_system_one backend

-- `==` of the derived `PartialEq`
abbrev pub kind_eq : ModelRouteKind → ModelRouteKind → Bool
kind_eq ollama_native ollama_native = true
kind_eq open_ai_compatible open_ai_compatible = true
kind_eq vllm_specific vllm_specific = true
kind_eq system_one_work system_one_work = true
kind_eq _ _ = false

pub kind_eq_iff : (a b : ModelRouteKind) → (kind_eq a b ≡ true) ↔ (a ≡ b)
kind_eq_iff a b = ground arith

pub data RoutePlan : Type 0 where
  queue_by_model : String → ModelRouteKind → RoutePlan
  queue_by_node : String → RoutePlan
  local : HttpResponse → RoutePlan
  reject : ℕ → String → String → RoutePlan

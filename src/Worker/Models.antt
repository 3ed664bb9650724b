-- ===== src/Worker/Models.antt =====
-- src/servers/worker/models: backends, phases and the status records of the connected workers.
use hive_core_v.Base.{ℕ, String, str_eq, Option, none, some, List, if◌then◌else◌}

pub data WorkerBackend : Type 0 where
  ollama_legacy ollama vllm system_one unknown : WorkerBackend

unfoldable pub from_poll_method : String → Option WorkerBackend
from_poll_method method =
    if str_eq method "POLL"
    then some ollama_legacy
    else if str_eq method "POLL-OLLAMA"
    then some ollama
    else if str_eq method "POLL-VLLM"
    then some vllm
    else if str_eq method "POLL-SYSTEMONE"
    then some system_one
    else none

unfoldable pub as_str : WorkerBackend → String
as_str ollama_legacy = "ollama_legacy"
as_str ollama = "ollama"
as_str vllm = "vllm"
as_str system_one = "systemone"
as_str unknown = "unknown"

pub data WorkerPhase : Type 0 where
  authenticating polling working : WorkerPhase

-- `u64::MAX`
abbrev pub u64_max : ℕ
u64_max = 18_446_744_073_709_551_615

pub record WorkerConnectionStatus : Type 0 where
  pub index : ℕ
  pub nonce : String
  pub tags : List String
  pub state : WorkerPhase
  pub last_ping : ℕ
  pub last_poll : ℕ
  pub core_to_node_rtt_latency : Option ℕ
  pub node_to_backend_rtt_latency : Option ℕ
  pub latency_reported_at : Option ℕ

pub record WorkerStatus (Value : Type 0) : Type 0 where
  pub name : String
  pub hive_version : String
  pub backend_version : String
  pub backend : WorkerBackend
  pub tags : List String
  pub state : WorkerPhase
  pub last_ping : ℕ
  pub last_poll : ℕ
  pub core_to_node_rtt_latency : Option ℕ
  pub node_to_backend_rtt_latency : Option ℕ
  pub latency_reported_at : Option ℕ
  pub connections : List WorkerConnectionStatus
  pub next_connection_index : ℕ
  pub model_catalog : Option Value
  pub running_models : Option Value
  pub version_payload : Option Value

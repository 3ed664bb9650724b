-- ===== src/Proxy/State.antt =====
-- What the handler of a connection and its probes read and write.
use hive_core_v.Base.{ℕ}
use hive_core_v.App.State.{AppState}
use hive_core_v.Proxy.Queue.Deques.{RequestQueue}

-- The state that a connection reads and writes, with the counter of task ids.
pub record ProxyState (Value : Type 0) : Type 0 where
  pub app : AppState Value
  pub request_queue : RequestQueue Value
  pub next_task_id : ℕ

-- ===== src/Worker/Overseer.antt =====
-- src/servers/worker/overseer.rs: one round of the loop, after its sleep. One reading of the clock
-- stands for those of a round.
pub mod Fresh
pub mod Gone
use hive_core_v.Base.{
  ℕ, ◌-◌, ◌*◌, String, string_eq, Bool, true, false, ◌&&◌, Option, none, some, List, [], ◌∷◌, ◌++◌,
  map, filter, is_empty, ltb, if◌then◌else◌,
}
use hive_core_v.Base.HashMap
use hive_core_v.Base.HashMap.{HashMap}
use hive_core_v.App.Config.{Config}
use hive_core_v.App.State.{AppState}
use hive_core_v.App.RateLimiter.State.{second}
use hive_core_v.Shared.Http.Response.{HttpResponse}
use hive_core_v.Shared.Http.Response
use hive_core_v.Shared.Http.Text.{as_bytes}
use hive_core_v.Worker.Models.{WorkerPhase, working, WorkerConnectionStatus, WorkerStatus}
use hive_core_v.Worker.Connections.{remove_connection}
use hive_core_v.Proxy.Task.{ClientTask, ResponseTarget, proxy_client, capture, ignore}
use hive_core_v.Proxy.Queue.Deques.{RequestQueue}
use hive_core_v.Proxy.Queue.Expiry.{expire_older_than}

unfoldable pub timeout_of : Config → WorkerPhase → ℕ
timeout_of c working = c.working_node_connection_timeout * second
timeout_of c _ = c.polling_node_connection_timeout * second

-- `duration_since` is 0 for a later instant.
unfoldable pub is_stale : Config → ℕ → WorkerConnectionStatus → Bool
unfolding timeout_of
is_stale c now k =
    ltb (timeout_of c k.state) (now - k.last_ping) && ltb (timeout_of c k.state) (now - k.last_poll)

abbrev pub stale_of : Config → ℕ → String → List WorkerConnectionStatus → List (String × ℕ)
stale_of c now name [] = []
stale_of c now name (k ∷ ks) =
    if is_stale c now k then (name, k.index) ∷ stale_of c now name ks else stale_of c now name ks

module _ {V : Type 0} where
  unfoldable pub stale_connections :
      Config → ℕ → HashMap String (WorkerStatus V) → List (String × ℕ)
  stale_connections c now [] = []
  stale_connections c now ((name, w) ∷ m) =
      stale_of c now name w.connections ++ stale_connections c now m

  -- One round of the loop over the stale connections: the worker goes with its last connection.
  unfoldable pub remove_one :
      HashMap String (WorkerStatus V) → String × ℕ → HashMap String (WorkerStatus V)
  unfolding remove_connection
  remove_one m (name, index) = elim (HashMap.get name m) [
    | none ↦ m
    | some w ↦
        let (w', removed) = remove_connection w index in
        let m' = HashMap.insert name w' m in
        if removed && is_empty w'.connections then HashMap.remove name m' else m'
  ]

  unfoldable pub remove_stale :
      HashMap String (WorkerStatus V) → List (String × ℕ) → HashMap String (WorkerStatus V)
  unfolding remove_one
  remove_stale m [] = m
  remove_stale m (s ∷ ss) = remove_stale (remove_one m s) ss

  -- The answers to the clients of the expired tasks, each with its stream.
  unfoldable pub gateway_timeouts : List (ClientTask V) → List (ℕ × HttpResponse)
  unfolding as_bytes
  gateway_timeouts [] = []
  gateway_timeouts (t ∷ ts) =
      let later = gateway_timeouts ts in
      elim t.response_target [
        | proxy_client stream ↦
            (
              stream,
              Response.new 504 "Gateway Timeout"
                  (as_bytes "request expired while waiting for a compatible worker"),
            )
            ∷ later
        | capture channel ↦ later
        | ignore ↦ later
      ]

  -- Milliseconds are 1,000,000 nanoseconds.
  unfoldable pub expire_queued_requests :
      AppState V → RequestQueue V → ℕ → RequestQueue V × List (ℕ × HttpResponse)
  unfolding expire_older_than gateway_timeouts
  expire_queued_requests s q now =
      let (q', expired) = expire_older_than q (s.config.proxy_timeout_ms * 1_000_000) now in
      (q', gateway_timeouts expired)

  unfoldable pub round :
      AppState V → RequestQueue V → ℕ → AppState V × RequestQueue V × List (ℕ × HttpResponse)
  unfolding expire_queued_requests stale_connections remove_stale
  round s q now =
      let (q', answers) = expire_queued_requests s q now in
      if s.workers_poisoned then (s, q', answers) else (
        record s { workers = remove_stale s.workers (stale_connections s.config now s.workers) },
        q',
        answers,
      )

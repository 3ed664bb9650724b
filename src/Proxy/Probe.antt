-- ===== src/Proxy/Probe.antt =====
-- src/servers/proxy/probe.rs: questions to one worker, and the answers that are kept of it.
pub mod Cache
use hive_core_v.Base.{
  ℕ, String, str_eq, string_eq, Bool, true, false, any, ◌||◌, Option, none, some, List, [], ◌∷◌,
  leb, if◌then◌else◌,
}
use hive_core_v.Base.HashMap
use hive_core_v.App.State.{AppState}
use hive_core_v.Proxy.Queue.Deques.{EnqueueResult, enqueue_to_node}
use hive_core_v.Proxy.Queue.Deques
use hive_core_v.Proxy.State.{ProxyState}
use hive_core_v.Proxy.Task.{ClientTask, RequestContext, capture}
use hive_core_v.Proxy.Task
use hive_core_v.Shared.Http.Json.{Json}
use hive_core_v.Shared.Http.Request.{HttpRequest}
use hive_core_v.Shared.Http.Request
use hive_core_v.Shared.Http.Text.{and_then}
use hive_core_v.Worker.Models.{WorkerPhase, polling, WorkerStatus}
use hive_core_v.Worker.Server.Relay.{WorkerHttpResponse}

abbrev is_polling : WorkerPhase → Bool
is_polling polling = true
is_polling _ = false

-- The clock and the channel of a probe, and what other threads do until the channel has an answer or
-- the time is over.
pub record Wait (Value : Type 0) : Type 0 where
  pub now : ℕ
  pub channel : ℕ
  pub timeout : ℕ
  pub recv_timeout : ProxyState Value → ProxyState Value × Option WorkerHttpResponse

module _ {V : Type 0} where
  unfoldable pub worker_has_polling_connection : String → AppState V → Bool
  worker_has_polling_connection worker app =
      if app.workers_poisoned then false else elim (HashMap.get worker app.workers) [
        | none ↦ false
        | some w ↦ any (λ c. is_polling c.state) w.connections
      ]

  -- The match of `update_worker_cache` on the target.
  unfoldable pub keep : String → V → WorkerStatus V → WorkerStatus V
  keep uri v w =
      if str_eq uri "/api/tags"
      then record w { model_catalog = some v }
      else if str_eq uri "/v1/models"
      then record w { model_catalog = some v }
      else if str_eq uri "/api/ps"
      then record w { running_models = some v }
      else if str_eq uri "/api/version"
      then record w { version_payload = some v }
      else if str_eq uri "/version"
      then record w { version_payload = some v }
      else w

  unfoldable pub update_worker_cache : String → String → V → AppState V → AppState V
  unfolding keep
  update_worker_cache worker uri value app =
      if app.workers_poisoned then app else elim (HashMap.get worker app.workers) [
        | none ↦ app
        | some w ↦ record app { workers = HashMap.insert worker (keep uri value w) app.workers }
      ]

  -- The match of `cached_value` on the target.
  unfoldable pub kept : String → WorkerStatus V → Option V
  kept uri w =
      if str_eq uri "/api/tags"
      then w.model_catalog
      else if str_eq uri "/v1/models"
      then w.model_catalog
      else if str_eq uri "/api/ps"
      then w.running_models
      else if str_eq uri "/api/version"
      then w.version_payload
      else if str_eq uri "/version"
      then w.version_payload
      else none

  unfoldable pub cached_value : String → String → AppState V → Option V
  unfolding kept
  cached_value worker uri app =
      if app.workers_poisoned then none else and_then (HashMap.get worker app.workers) (kept uri)

  abbrev pub probe_context : ℕ → RequestContext V
  probe_context timeout = record {
    key_id = none;
    key_name = none;
    model = none;
    capture = false;
    client_request = none;
    proxy_mutations = [];
    queue_timeout = some timeout;
  }

  abbrev after_enqueue :
      Wait V → EnqueueResult → ProxyState V → ProxyState V × Option WorkerHttpResponse
  after_enqueue wait Deques.ok s = wait.recv_timeout s
  after_enqueue wait (Deques.err e) s = (s, none)

  unfoldable pub dispatch_capture :
      Wait V → String → HttpRequest V → ProxyState V → ProxyState V × Option WorkerHttpResponse
  unfolding Task.new enqueue_to_node
  dispatch_capture wait worker request s =
      let (task, id) =
        Task.new s.next_task_id request (capture wait.channel) (probe_context wait.timeout)
          wait.now in
      let (q, result) = enqueue_to_node s.request_queue worker task in
      after_enqueue wait result (record s { request_queue = q; next_task_id = id })

module _ (json : Json) where
  open json use {Value, from_slice, get, as_str}

  -- An answer that is no JSON is `none`, without a look at the cache.
  unfoldable pub take_answer :
      String → String → WorkerHttpResponse → ProxyState Value → ProxyState Value × Option Value
  unfolding update_worker_cache cached_value
  take_answer worker uri response s =
      if leb 400 response.status_code
      then (s, cached_value worker uri s.app)
      else elim (from_slice response.body) [
        | none ↦ (s, none)
        | some value ↦ (record s { app = update_worker_cache worker uri value s.app }, some value)
      ]

  unfoldable pub probe_worker_json :
      Wait Value → String → HttpRequest Value → ProxyState Value → ProxyState Value × Option Value
  unfolding worker_has_polling_connection cached_value dispatch_capture take_answer
  probe_worker_json wait worker request s =
      if worker_has_polling_connection worker s.app
      then (let (s', answer) = dispatch_capture wait worker request s in
          elim answer [
            | none ↦ (s', cached_value worker request.uri s'.app)
            | some response ↦ take_answer worker request.uri response s'
          ])
      else (s, cached_value worker request.uri s.app)

  unfoldable pub probe_worker_version :
      Wait Value → String → ProxyState Value → ProxyState Value × Option String
  unfolding probe_worker_json Request.new
  probe_worker_version wait worker s =
      let request = Request.new {Value = Value} "GET" "/api/version" "HTTP/1.1" [] [] in
      let (s', answer) = probe_worker_json wait worker request s in
      (s', and_then answer λ v. and_then (get v "version") as_str)

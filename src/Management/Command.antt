-- ===== src/Management/Command.antt =====
-- src/servers/management/routes/worker_command.rs and routes/queue.rs.
use hive_core_v.Base.{
  ℕ, String, string_eq, Bool, true, false, ◌&&◌, none, some, List, [], ◌∷◌, map, if◌then◌else◌,
}
use hive_core_v.Base.HashMap
use hive_core_v.App.State.{AppState}
use hive_core_v.Proxy.Queue.Deques.{RequestQueue, EnqueueResult, enqueue_to_node, snapshot}
use hive_core_v.Proxy.Queue.Deques
use hive_core_v.Proxy.State.{ProxyState}
use hive_core_v.Proxy.Task.{ClientTask, RequestContext, ignore}
use hive_core_v.Proxy.Task
use hive_core_v.Shared.Http.Json.{Json}
use hive_core_v.Shared.Http.Request.{hive}
use hive_core_v.Shared.Http.Response.{HttpResponse}
use hive_core_v.Shared.Http.Response
use hive_core_v.Shared.Http.Text.{as_bytes}
use hive_core_v.Worker.Models.{WorkerBackend, system_one}
use hive_core_v.Management.Models.{WorkerCommandRequest, hive_method, is_update, Readers}
use hive_core_v.Management.Keys.{invalid_body, server_error, json_response}

-- `RequestContext::default`
abbrev pub no_context : {V : Type 0} → RequestContext V
no_context = record {
  key_id = none;
  key_name = none;
  model = none;
  capture = false;
  client_request = none;
  proxy_mutations = [];
  queue_timeout = none;
}

abbrev is_system_one : WorkerBackend → Bool
is_system_one system_one = true
is_system_one _ = false

abbrev pub accepted : EnqueueResult → HttpResponse
accepted Deques.ok = Response.new 202 "Accepted" []
accepted (Deques.err e) = server_error

module _ {V : Type 0} where
  -- Whether a worker of this name has a backend without updates.
  unfoldable pub is_external : String → AppState V → Bool
  is_external worker app =
      if app.workers_poisoned
      then false
      else elim (HashMap.get worker app.workers) [ none ↦ false | some w ↦ is_system_one w.backend ]

  unfoldable pub command_task : WorkerCommandRequest → ℕ → ℕ → ClientTask V × ℕ
  unfolding hive_method hive Task.new
  command_task p id now =
      Task.new id (hive {Value = V} (hive_method p.command) "/") ignore no_context now

  unfoldable pub post_worker_command :
      Readers → List ℕ → ℕ → ProxyState V → ProxyState V × HttpResponse
  unfolding is_update is_external command_task enqueue_to_node Response.new as_bytes
  post_worker_command readers body now s = elim (readers.worker_command body) [
    | none ↦ (s, invalid_body)
    | some p ↦
        if is_update p.command && is_external p.worker s.app
        then (
          s,
          Response.new 409 "Conflict" (as_bytes "UPDATE is not supported for SystemOne workers"),
        )
        else (let (task, id) = command_task p s.next_task_id now in
            let (q, result) = enqueue_to_node s.request_queue p.worker task in
            (record s { request_queue = q; next_task_id = id }, accepted result))
  ]

module _ (json : Json) where
  open json use {Value, number, object}

  abbrev lengths : List (String × ℕ) → Value
  lengths entries = object (map (λ e. (e.0, number e.1)) entries)

  unfoldable pub get_queue : RequestQueue Value → HttpResponse
  unfolding snapshot json_response
  get_queue q =
      let shot = snapshot q in
      json_response json 200 "OK" (
        object (
          ("model_queue", lengths shot.model_queue) ∷ ("node_queue", lengths shot.node_queue) ∷ []))

-- ===== src/Proxy/Planner/Clients.antt =====
-- What the probes of the planner keep: the limiter, and the clients' tasks.
use hive_core_v.Base.{ℕ, String, Bool, true, false, ◌&&◌, ◌≡◌, arith, ap}
use hive_core_v.Shared.Http.Json.{Json}
use hive_core_v.Shared.Http.Request.{HttpRequest}
use hive_core_v.Worker.Server.Relay.{WorkerHttpResponse}
use hive_core_v.Proxy.State.{ProxyState}
use hive_core_v.Proxy.Task.{ClientTask, ResponseTarget, proxy_client, capture, ignore}
use hive_core_v.Proxy.Task
use hive_core_v.Proxy.Queue.Deques.{RequestQueue, enqueue_to_node, enqueue_node}
use hive_core_v.Proxy.Queue.Count.{all_waiting}
use hive_core_v.Proxy.Queue.Enqueue.{enqueue_node-total}
use hive_core_v.Proxy.Probe.{
  Wait, probe_context, dispatch_capture, take_answer, update_worker_cache, probe_worker_json,
}
use hive_core_v.Proxy.Planner.Probing.{Probes, wait_of, probe_request}

abbrev has_client : ResponseTarget → Bool
has_client (proxy_client stream) = true
has_client (capture channel) = false
has_client ignore = false

-- A client's task with a property.
abbrev pub of_client : {V : Type 0} → (ClientTask V → Bool) → ClientTask V → Bool
of_client p t = has_client t.response_target && p t

-- While the probes wait, the clients' tasks with the property that other threads add to the queue
-- are as many as those they take from it.
pub record IsQuiet {V : Type 0} (p : ClientTask V → Bool) (probes : Probes V) : Type 0 where
  pub still :
      (worker uri : String) (q : RequestQueue V)
      → all_waiting (of_client p) (probes.recv_timeout worker uri q).0 ≡ all_waiting (of_client p) q

module _ {V : Type 0} (worker uri : String) (value : V) where
  update_worker_cache-limiter :
      (app : _) → (update_worker_cache worker uri value app).rate_limiter ≡ app.rate_limiter
  unfolding update_worker_cache
  update_worker_cache-limiter app = ground arith

module _ (json : Json) (probes : Probes json.Value) where
  open json use {Value}

  module _ (timeout : ℕ) (uri w : String) (r : HttpRequest Value) (s : ProxyState Value) where
    abbrev wait : Wait Value
    wait = wait_of json probes timeout uri w

    dispatch_capture-limiter : (dispatch_capture wait w r s).0.app ≡ s.app
    unfolding dispatch_capture
    dispatch_capture-limiter = ground arith

    dispatch_capture-clients :
        (p : ClientTask Value → Bool)
        → IsQuiet p probes
        → all_waiting (of_client p) (dispatch_capture wait w r s).0.request_queue
          ≡ all_waiting (of_client p) s.request_queue
    unfolding dispatch_capture Task.new enqueue_to_node
    dispatch_capture-clients p quiet =
        let task =
          (Task.new s.next_task_id r (capture wait.channel) (probe_context timeout) wait.now).0 in
        ground (
          arith,
          enqueue_node-total (of_client p) s.request_queue w task,
          quiet.still w uri (enqueue_node s.request_queue w task).0,
        )

  take_answer-limiter :
      (worker uri : String) (answer : _) (s : ProxyState Value)
      → (take_answer json worker uri answer s).0.app.rate_limiter ≡ s.app.rate_limiter
  unfolding take_answer
  take_answer-limiter worker uri answer s =
      ground (arith, λ (v : Value). update_worker_cache-limiter worker uri v s.app)

  take_answer-queue :
      (worker uri : String) (answer : _) (s : ProxyState Value)
      → (take_answer json worker uri answer s).0.request_queue ≡ s.request_queue
  unfolding take_answer
  take_answer-queue worker uri answer s = ground arith

  pub probe-limiter :
      (timeout : ℕ) (uri w : String) (s : ProxyState Value)
      → (probe_worker_json json
          (wait_of json probes timeout uri w)
          w
          (probe_request uri)
          s).0.app.rate_limiter
        ≡ s.app.rate_limiter
  unfolding probe_worker_json
  probe-limiter timeout uri w s =
      let r : HttpRequest Value = probe_request uri in
      let sent = dispatch_capture (wait timeout uri w r s) w r s in
      ground (
        arith,
        dispatch_capture-limiter timeout uri w r s,
        λ (a : WorkerHttpResponse). take_answer-limiter w r.uri a sent.0,
      )

  pub probe-clients :
      (p : ClientTask Value → Bool)
      → IsQuiet p probes
      → (timeout : ℕ) (uri w : String) (s : ProxyState Value)
      → all_waiting
          (of_client p)
          (probe_worker_json json
            (wait_of json probes timeout uri w)
            w
            (probe_request uri)
            s).0.request_queue
        ≡ all_waiting (of_client p) s.request_queue
  unfolding probe_worker_json
  probe-clients p quiet timeout uri w s =
      let r : HttpRequest Value = probe_request uri in
      let sent = dispatch_capture (wait timeout uri w r s) w r s in
      ground (
        arith,
        dispatch_capture-clients timeout uri w r s p quiet,
        λ (a : WorkerHttpResponse).
            ap (all_waiting (of_client p)) (take_answer-queue w r.uri a sent.0),
      )

-- ===== src/Proxy/Server.antt =====
-- src/servers/proxy/server.rs, `handle_connection`: from a read request to its answer or its queue.
pub mod Handling
pub mod Queued
use Prim.Native.String.{◌++◌ as append}
use hive_core_v.Base.{
  ℕ, String, str_eq, Bool, true, false, Option, none, some, List, [], ◌∷◌, ◌==◌, if◌then◌else◌,
}
use hive_core_v.Auth.Models.{KeyRecord}
use hive_core_v.Auth.Keys.{KeyStore}
use hive_core_v.App.State.{AppState}
use hive_core_v.App.RateLimiter.Window.{BinarySearch}
use hive_core_v.Shared.Http.Json.{Json}
use hive_core_v.Shared.Http.Request.{HttpRequest, clone, request_usage_model_name}
use hive_core_v.Shared.Http.Response.{HttpResponse}
use hive_core_v.Shared.Http.Response
use hive_core_v.Shared.Http.Text.{as_bytes, to_string}
use hive_core_v.Shared.Http.Usage.{ensure_openai_stream_usage}
use hive_core_v.Proxy.Models.{
  ModelRouteKind, RoutePlan, queue_by_model, queue_by_node, local, reject,
}
use hive_core_v.Proxy.State.{ProxyState}
use hive_core_v.Proxy.Task.{ClientTask, RequestContext, proxy_client}
use hive_core_v.Proxy.Task
use hive_core_v.Proxy.Queue.Deques.{RequestQueue, EnqueueResult, enqueue_model, enqueue_node}
use hive_core_v.Proxy.Queue.Deques
use hive_core_v.Proxy.Admission.Authorize.{
  AuthError, status, rate_limited, Verdict, ok, err, authorized_key, authorize_request,
}
use hive_core_v.Proxy.Planner.Probing.{Probes}
use hive_core_v.Proxy.Planner.Plan.{plan_request}

-- What the handler does with the client's stream: it writes an answer, keeps the stream with a
-- queued task, or drops it.
pub data Reply : Type 0 where
  respond : HttpResponse → Reply
  queued dropped : Reply

infixr 6 ◌<>◌
abbrev ◌<>◌ : String → String → String
a <> b = append a b

unfoldable pub denial_body : String → Option ℕ → List ℕ
unfolding as_bytes to_string
denial_body reason (some retry) = as_bytes (
    "{\"error\":\"rate_limit_exceeded\",\"message\":\""
    <> reason
    <> "\",\"retry_after_secs\":"
    <> to_string retry
    <> "}")
denial_body reason none =
    as_bytes ("{\"error\":\"rate_limit_exceeded\",\"message\":\"" <> reason <> "\"}")

unfoldable pub denial_response : AuthError → HttpResponse
unfolding denial_body
denial_response (rate_limited d) =
    Response.new 429 "Too Many Requests" (denial_body d.reason d.retry_after_secs)
denial_response (status s) =
    if s == 403 then Response.new 403 "Forbidden" [] else Response.new 401 "Unauthorized" []

unfoldable pub enqueue_error : EnqueueResult → Reply
unfolding as_bytes
enqueue_error Deques.ok = queued
enqueue_error (Deques.err message) =
    respond (Response.new 500 "Internal Server Error" (as_bytes message))

abbrev pub key_id : Option KeyRecord → Option ℕ
key_id none = none
key_id (some key) = some key.id

abbrev pub key_name : Option KeyRecord → Option String
key_name none = none
key_name (some key) = some key.name

abbrev pub key_capture : Option KeyRecord → Bool
key_capture none = false
key_capture (some key) = key.capture

-- `stream` is the number of the client's stream, and `try_clone` whether the clone of it works.
pub record Connection : Type 0 where
  pub stream : ℕ
  pub try_clone : Bool
  pub now : ℕ

module _ (json : Json) where
  open json use {Value}

  unfoldable pub request_context :
      Option KeyRecord → Option String → HttpRequest Value → Bool → RequestContext Value
  unfolding clone
  request_context key model request mutated = record {
    key_id = key_id key;
    key_name = key_name key;
    model = model;
    capture = key_capture key;
    client_request = some (clone request);
    proxy_mutations = if mutated then "openai_stream_include_usage" ∷ [] else [];
    queue_timeout = none;
  }

  -- The task of a request. The clock of the task is the connection's.
  unfoldable pub client_task :
      Connection → Option KeyRecord → Option String → HttpRequest Value → ℕ → ClientTask Value × ℕ
  unfolding ensure_openai_stream_usage request_context Task.new
  client_task c key model request id =
      let (sent, mutated) = ensure_openai_stream_usage json request in
      Task.new id sent (proxy_client c.stream) (request_context key model request mutated) c.now

  -- The match on the plan.
  unfoldable pub dispatch :
      ProxyState Value
      → Connection
      → Option KeyRecord
      → HttpRequest Value
      → RoutePlan
      → ProxyState Value × Reply
  unfolding client_task enqueue_model enqueue_node enqueue_error request_usage_model_name as_bytes
  dispatch p c key request (local response) = (p, respond response)
  dispatch p c key request (reject code reason message) =
      (p, respond (Response.new code reason (as_bytes message)))
  dispatch p c key request (queue_by_model model kind) =
      if c.try_clone
      then (let (task, id) = client_task c key (some model) request p.next_task_id in
          let (q, result) = enqueue_model p.request_queue model kind task in
          (record p { request_queue = q; next_task_id = id }, enqueue_error result))
      else (p, dropped)
  dispatch p c key request (queue_by_node worker) =
      if c.try_clone
      then (let (task, id) =
            client_task c key (request_usage_model_name json request) request p.next_task_id in
          let (q, result) = enqueue_node p.request_queue worker task in
          (record p { request_queue = q; next_task_id = id }, enqueue_error result))
      else (p, dropped)

  module _ (b : BinarySearch) (probes : Probes Value) where
    -- After the verdict `ok` the token is looked up a second time.
    unfoldable pub serve :
        ProxyState Value → Connection → HttpRequest Value → ProxyState Value × Reply
    unfolding authorized_key plan_request dispatch
    serve p c request =
        let (keys, key) = authorized_key p.app request in
        let p' = record p { app = record p.app { keys = keys } } in
        let (planned, plan) = plan_request json p' probes request key in
        dispatch planned c key request plan

    -- `none` is a request that could not be read.
    unfoldable pub handle_connection :
        ProxyState Value → Connection → Option (HttpRequest Value) → ProxyState Value × Reply
    unfolding authorize_request serve denial_response
    handle_connection p c none = (p, dropped)
    handle_connection p c (some request) =
        if str_eq request.method "OPTIONS"
        then (p, respond (Response.new 204 "No Content" []))
        else (let (app, verdict) = authorize_request json b p.app request c.now in
            let p' = record p { app = app } in
            elim verdict [ err e ↦ (p', respond (denial_response e)) | ok ↦ serve p' c request ])

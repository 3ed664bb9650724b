-- ===== src/Worker/Server/Poll.antt =====
-- `handle_poll`: from a poll to the answer of the request that it took.
pub mod Events
pub mod Answer
use hive_core_v.Base.{
  ℕ, zero, suc, ◌+◌, ◌-◌, ◌/◌, ◌%◌, ◌^◌, String, str_eq, string_eq, nat_eq, Bool, true, false, not,
  ◌&&◌, ◌||◌, Option, none, some, List, [], ◌∷◌, ◌++◌, map, filter, is_empty, if◌then◌else◌,
}
use hive_core_v.Base.HashMap
use hive_core_v.Base.HashMap.{HashMap}
use hive_core_v.App.State.{AppState}
use hive_core_v.App.RateLimiter.State.{RateLimiter}
use hive_core_v.App.RateLimiter.Check.{finish_request}
use hive_core_v.Proxy.Task.{
  ClientTask, RequestContext, ResponseTarget, proxy_client, capture, ignore, queue_wait,
}
use hive_core_v.Proxy.Queue.Deques.{RequestQueue}
use hive_core_v.Proxy.Queue.Dequeue.{next_for_worker}
use hive_core_v.Shared.Capture.{CapturedHttpRequest, CapturedResponse, capture_request}
use hive_core_v.Shared.Capture.Redact.{redact_embedding_vectors}
use hive_core_v.Shared.Http.Json.{Json}
use hive_core_v.Shared.Http.Request.{HttpRequest, hive}
use hive_core_v.Shared.Http.Frame.{serialize_request, write_framed_request}
use hive_core_v.Shared.Http.TokenUsage.{TokenUsage}
use hive_core_v.Shared.Wire.Utf8.{codes, text_of}
use hive_core_v.Shared.Wire.Text.{split}
use hive_core_v.Shared.Wire.Stream.{
  Action, ◌>>=◌, ◌>>◌, pure, Outcome, ok, err, unfinished, Reader, Writer,
}
use hive_core_v.Worker.Models.{
  WorkerBackend, WorkerPhase, from_poll_method, as_str, polling, working, WorkerConnectionStatus,
}
use hive_core_v.Worker.Connections.{connection}
use hive_core_v.Worker.Server.Registry.{touch_worker}
use hive_core_v.Worker.Server.Relay.{
  Relay, ResponseCaptureBuilder, default, finish_capture, WorkerHttpResponse,
}
use hive_core_v.Worker.Server.Relay.Body.{proxy_worker_response_with_capture}
use hive_core_v.Worker.Server.Relay.Kept.{capture_worker_response, discard_worker_response}
use hive_core_v.Worker.Server.Session.{
  Session, CaptureEvent, UsageEvent, reading, writing, in_app, changing, release, or_release,
  client_of,
}
use Events.{capture_events, usage_events}
use Answer.{answer_target}

-- The tags of a poll; `-` is a poll that says none.
unfoldable pub incoming_tags : String → Option (List String)
unfolding split text_of
incoming_tags uri =
    if str_eq uri "-"
    then none
    else some (map text_of (filter (λ part. not (is_empty part)) (split 59 (codes uri))))

-- The times of a poll: when it came, when the wait for work ended, when the task was sent and when
-- its answer was there. `meanwhile` is what other threads do to the queue in the wait.
pub record Times (Value : Type 0) : Type 0 where
  pub now : ℕ
  pub later : ℕ
  pub started : ℕ
  pub finished : ℕ
  pub meanwhile : RequestQueue Value → RequestQueue Value

module _ {V : Type 0} where
  -- The tags of the connection, after the poll has set them.
  unfoldable pub connection_tags : String → ℕ → AppState V → List String
  unfolding connection
  connection_tags name index app =
      if app.workers_poisoned then [] else elim (HashMap.get name app.workers) [
        | none ↦ []
        | some w ↦ elim (connection w index) [ none ↦ [] | some c ↦ c.tags ]
      ]

  unfoldable pub take_task :
      String → WorkerBackend → List String → Times V → Action (Session V) (Option (ClientTask V))
  unfolding next_for_worker
  take_task name backend tags t s =
      let (q, task) = next_for_worker s.request_queue name backend tags t.now t.meanwhile t.later in
      (ok task, record s { request_queue = q })

module _ (json : Json) (name : String) (index : ℕ) (t : Times (json.Value)) where
  open json use {Value}

  abbrev touch :
      Option (List String)
      → WorkerPhase
      → Option WorkerBackend
      → ℕ
      → Action (Session Value) (Unit {0})
  touch tags phase backend now = changing (touch_worker name index tags phase backend none now)

  unfoldable pub send_events :
      WorkerBackend
      → ClientTask Value
      → (ℕ × Option TokenUsage) × Option (ResponseCaptureBuilder Value)
      → Action (Session Value) (Unit {0})
  unfolding capture_events usage_events queue_wait
  send_events backend task ((status_code, token_usage), builder) s =
      let wait = queue_wait task t.started in
      let time = t.finished - t.started in
      (
        ok tt,
        record s {
          captures =
              s.captures ++ capture_events json name backend task wait time status_code builder;
          usages =
              s.usages ++ usage_events json name backend task wait time status_code token_usage;
        },
      )

  -- The end of a task that was answered: the release of its slot, and then the events.
  unfoldable pub complete :
      WorkerBackend
      → ClientTask Value
      → (ℕ × Option TokenUsage) × Option (ResponseCaptureBuilder Value)
      → Action (Session Value) (Unit {0})
  unfolding touch_worker release send_events
  complete backend task answer = do
    changing (release task.context.key_id)
    send_events backend task answer
    touch none polling none t.finished

  -- A task that was taken.
  unfoldable pub forward : WorkerBackend → ClientTask Value → Action (Session Value) (Unit {0})
  unfolding touch_worker or_release write_framed_request serialize_request answer_target complete
  forward backend task = do
    touch none working none t.started
    or_release task.context.key_id (writing (write_framed_request (serialize_request task.request)))
    answer ← answer_target json task
    complete backend task answer

  unfoldable pub take_work : WorkerBackend → Action (Session Value) (Option (ClientTask Value))
  unfolding connection_tags take_task
  take_work backend s = take_task name backend (connection_tags name index s.app) t s

  -- A poll that finds no work, nor in its wait, is answered `PONG`.
  unfoldable pub answer_poll :
      WorkerBackend → Option (ClientTask Value) → Action (Session Value) (Unit {0})
  unfolding forward write_framed_request serialize_request hive
  answer_poll backend (some task) = forward backend task
  answer_poll backend none =
      writing (write_framed_request (serialize_request (hive {Value = Value} "PONG" "/")))

  unfoldable pub poll : HttpRequest Value → WorkerBackend → Action (Session Value) (Unit {0})
  unfolding touch_worker incoming_tags take_work answer_poll
  poll request backend = do
    touch (incoming_tags request.uri) polling (some backend) t.now
    task ← take_work backend
    answer_poll backend task

  unfoldable pub handle_poll : HttpRequest Value → Action (Session Value) (Unit {0})
  unfolding from_poll_method poll
  handle_poll request = elim (from_poll_method request.method) [
    | none ↦ pure tt
    | some backend ↦ poll request backend
  ]

-- ===== src/Worker/Server/Release.antt =====
-- The slot of a task that a worker took is released on every exit of `handle_poll`.
pub mod Guards
use hive_core_v.Base.{
  ℕ, String, Option, none, some, List, ◌≡◌, refl, ◌∙◌, ap, true, arith, Option-cases, inl, inr,
}
use hive_core_v.App.State.{AppState}
use hive_core_v.App.RateLimiter.State.{RateLimiter}
use hive_core_v.App.RateLimiter.Check.{finish_request}
use hive_core_v.Proxy.Task.{ClientTask, ResponseTarget, proxy_client, capture, ignore}
use hive_core_v.Proxy.Queue.Dequeue.{next_for_worker}
use hive_core_v.Shared.Http.Json.{Json}
use hive_core_v.Shared.Http.Request.{HttpRequest}
use hive_core_v.Shared.Http.Frame.{serialize_request, write_framed_request}
use hive_core_v.Shared.Http.TokenUsage.{TokenUsage}
use hive_core_v.Shared.Wire.Stream.{
  Action, ◌>>=◌, after, Reader, Writer, Outcome, ok, err, unfinished,
}
use hive_core_v.Shared.Wire.Stream.Progress.{finishes}
use hive_core_v.Worker.Models.{WorkerBackend, WorkerPhase, from_poll_method, polling, working}
use hive_core_v.Worker.Server.Registry.{touch_worker}
use hive_core_v.Worker.Server.Relay.{ResponseCaptureBuilder}
use hive_core_v.Worker.Server.Relay.Kept.{capture_worker_response, discard_worker_response}
use hive_core_v.Worker.Server.Session.{
  Session, reading, writing, changing, release, on_error, or_release,
}
use hive_core_v.Worker.Server.Poll.{
  Times, take_task, connection_tags, take_work, answer_poll, incoming_tags, forward, complete, poll,
  handle_poll, send_events,
}
use hive_core_v.Worker.Server.Poll.Answer.{answer_client, answer_target, builder_of, send_answer}
use hive_core_v.Worker.Server.Progress.Round.{forward-IsFinishing}
use Guards.{
  touch-limiter, released, limiter, exit, IsKeeping, IsGuarded, IsReleasing, release-limiter,
  changing-IsGuarded, or_release-IsGuarded, >>=-IsReleasing, reading-IsKeeping, writing-IsKeeping,
  after-IsGuarded,
}

module _ (json : Json) where
  open json use {Value}

  answer_client-IsKeeping :
      (stream : ℕ) (builder : Option (ResponseCaptureBuilder Value))
      → IsKeeping (answer_client json stream builder)
  unfolding answer_client
  answer_client-IsKeeping stream builder = record { keeps = λ s. refl }

  answer_target-cases :
      (task : ClientTask Value) (target : ResponseTarget)
      → task.response_target ≡ target
      → IsGuarded task.context.key_id (answer_target json task)
  unfolding answer_target
  answer_target-cases task (proxy_client stream) e = rw e (
      or_release-IsGuarded task.context.key_id
        (answer_client-IsKeeping stream (builder_of json task)))
  answer_target-cases task (capture channel) e = rw e (
      after-IsGuarded
        (λ response s. (
          ((response.status_code, none), builder_of json task),
          (send_answer json channel response s).1,
        ))
        (or_release-IsGuarded task.context.key_id (reading-IsKeeping capture_worker_response))
        (λ response s. refl))
  answer_target-cases task ignore e = rw e (
      after-IsGuarded (λ code s. (((code, none), builder_of json task), s))
        (or_release-IsGuarded task.context.key_id (reading-IsKeeping discard_worker_response))
        (λ code s. refl))

  module _ (name : String) (index : ℕ) (t : Times Value) where
    touching-IsGuarded :
        (id : Option ℕ) (tags : Option (List String)) (phase : WorkerPhase)
        (backend : Option WorkerBackend) (now : ℕ)
        → IsGuarded id (changing (touch_worker {V = Value} name index tags phase backend none now))
    touching-IsGuarded id tags phase backend now =
        changing-IsGuarded id (touch_worker name index tags phase backend none now)
          (touch-limiter name index tags phase backend now)

    complete-IsReleasing :
        (backend : WorkerBackend) (task : ClientTask Value)
        (answer : (ℕ × Option TokenUsage) × Option (ResponseCaptureBuilder Value))
        → IsReleasing task.context.key_id (complete json name index t backend task answer)
    unfolding complete send_events
    complete-IsReleasing backend task answer = record {
      releases = λ s d.
          touch-limiter name index none polling none t.finished (release task.context.key_id s.app)
          ∙ release-limiter task.context.key_id s.app;
    }

    forward-IsReleasing :
        (backend : WorkerBackend) (task : ClientTask Value)
        → IsReleasing task.context.key_id (forward json name index t backend task)
    unfolding forward
    forward-IsReleasing backend task =
        let id = task.context.key_id in
        >>=-IsReleasing (touching-IsGuarded id none working none t.started) λ u.
          >>=-IsReleasing
            (or_release-IsGuarded id
              (writing-IsKeeping (write_framed_request (serialize_request task.request))))
            λ v.
              >>=-IsReleasing (answer_target-cases task task.response_target refl)
                λ answer. complete-IsReleasing backend task answer

    -- The task that a poll takes, where it takes one.
    abbrev pub polled :
        HttpRequest Value → WorkerBackend → Session Value → Option (ClientTask Value)
    polled request backend s =
        let app =
          touch_worker name index (incoming_tags request.uri) polling (some backend) none t.now
            s.app in
        (next_for_worker s.request_queue name backend (connection_tags name index app) t.now
          t.meanwhile t.later).1

    abbrev key_of : Option (ClientTask Value) → Option ℕ
    key_of none = none
    key_of (some task) = task.context.key_id

    abbrev pub polled_key : HttpRequest Value → Session Value → Option ℕ
    polled_key request s = elim (from_poll_method request.method) [
      | none ↦ none
      | some backend ↦ key_of (polled request backend s)
    ]

    answer_poll-limiter :
        (backend : WorkerBackend) (o : Option (ClientTask Value)) (s : Session Value)
        → limiter (answer_poll json name index t backend o s).1 ≡ released (key_of o) (limiter s)
    unfolding answer_poll
    answer_poll-limiter backend none s = refl
    answer_poll-limiter backend (some task) s =
        (forward-IsReleasing backend task).releases s
          ((forward-IsFinishing json name index t backend task).done s)

    -- On every exit of `handle_poll`, after a result or any error, the rate limiter has released
    -- the slot of the key of the task that the poll took, once, and nothing else; with no task,
    -- or none that has a key, it is as before.
    pub handle_poll-releases :
        (request : HttpRequest Value) (s : Session Value)
        → (handle_poll json name index t request s).1.app.rate_limiter
          ≡ released (polled_key request s) s.app.rate_limiter
    unfolding handle_poll poll take_work take_task
    handle_poll-releases request s = elim (Option-cases (from_poll_method request.method)) [
      | inl e ↦ rw (handle_poll, polled_key, e) refl
      | inr (backend, e) ↦
          let app =
            touch_worker name index (incoming_tags request.uri) polling (some backend) none t.now
              s.app in
          let s' : Session Value =
            (take_work json name index t backend (record s { app = app })).1 in
          rw (handle_poll, polled_key, e)
            (answer_poll-limiter backend (polled request backend s) s'
              ∙ ap (released (key_of (polled request backend s))) (
                  touch-limiter name index (incoming_tags request.uri) polling (some backend) t.now
                    s.app))
    ]

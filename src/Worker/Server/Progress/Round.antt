-- ===== src/Worker/Server/Progress/Round.antt =====
-- Every round of a connection's loop ends: with a result, or with an error.
use hive_core_v.Base.{
  ℕ, String, ◌≡◌, refl, true, Option, none, some, List, arith, Option-cases, inl, inr,
}
use hive_core_v.App.State.{AppState}
use hive_core_v.Proxy.Task.{ClientTask, ResponseTarget, proxy_client, capture, ignore}
use hive_core_v.Shared.Http.Json.{Json}
use hive_core_v.Shared.Http.Request.{HttpRequest, hive}
use hive_core_v.Shared.Http.Frame.{
  read_request_from_reader, serialize_request, write_framed_request,
}
use hive_core_v.Shared.Http.Frame.Progress.{read_request-finishes, write_framed_request-finishes}
use hive_core_v.Shared.Http.TokenUsage.{TokenUsage}
use hive_core_v.Shared.Wire.Stream.{Action, Reader, Outcome, ok, err, unfinished, pure}
use hive_core_v.Shared.Wire.Stream.Progress.{finishes, IsFinishing, if-IsFinishing, >>=-IsFinishing}
use hive_core_v.Worker.Models.{WorkerBackend, from_poll_method, polling, working}
use hive_core_v.Worker.Server.Latency.{parse_latency_uri}
use hive_core_v.Worker.Server.Registry.{touch_worker}
use hive_core_v.Worker.Server.Relay.{ResponseCaptureBuilder}
use hive_core_v.Worker.Server.Relay.Kept.{capture_worker_response, discard_worker_response}
use hive_core_v.Worker.Server.Session.{
  Session, reading, writing, changing, on_error, or_release, client_of,
}
use hive_core_v.Worker.Server.Poll.{
  Times, take_task, take_work, answer_poll, incoming_tags, forward, complete, poll, handle_poll,
  send_events,
}
use hive_core_v.Worker.Server.Poll.Answer.{answer_client, answer_target, builder_of}
use hive_core_v.Worker.Server.Connection.{
  touch, send, handle_ping, handle_latency, handle_request, serve, round,
}
use hive_core_v.Worker.Server.Progress.{capture_worker_response-finishes}
use hive_core_v.Worker.Server.Progress.Relay.{proxy_worker_response-finishes}

module _ {V : Type 0} where
  reading-IsFinishing :
      {A : Type 0} (m : Action Reader A)
      → ((r : Reader) → finishes (m r).0 ≡ true)
      → IsFinishing (reading {V = V} m)
  reading-IsFinishing m t = record { done = λ s. t s.reader }

  sending-IsFinishing : (bs : List ℕ) → IsFinishing (writing {V = V} (write_framed_request bs))
  sending-IsFinishing bs = record { done = λ s. write_framed_request-finishes bs s.writer }

  pure-IsFinishing : {A : Type 0} (a : A) → IsFinishing (pure {S = Session V} a)
  pure-IsFinishing a = record { done = λ s. refl }

  changing-IsFinishing : (f : AppState V → AppState V) → IsFinishing (changing f)
  changing-IsFinishing f = record { done = λ s. refl }

  on_error-finishes :
      {A : Type 0} (id : Option ℕ) (p : Outcome A × Session V)
      → finishes p.0 ≡ true
      → finishes (on_error id p).0 ≡ true
  unfolding on_error
  on_error-finishes id (ok a, s) h = refl
  on_error-finishes id (err e, s) h = refl
  on_error-finishes id (unfinished, s) h = h

  or_release-IsFinishing :
      {A : Type 0} (id : Option ℕ) {m : Action (Session V) A}
      → IsFinishing m
      → IsFinishing (or_release id m)
  unfolding or_release
  or_release-IsFinishing id {m} t = record { done = λ s. on_error-finishes id (m s) (t.done s) }

discard-finishes : (r : Reader) → finishes (discard_worker_response r).0 ≡ true
unfolding discard_worker_response
discard-finishes =
    (>>=-IsFinishing {m = capture_worker_response}
      (record { done = capture_worker_response-finishes }) (λ a. record { done = λ s. refl })).done

module _ (json : Json) where
  open json use {Value}

  answer_client-finishes :
      (stream : ℕ) (builder : Option (ResponseCaptureBuilder Value)) (s : Session Value)
      → finishes (answer_client json stream builder s).0 ≡ true
  unfolding answer_client
  answer_client-finishes stream builder s = ground (
    arith,
    proxy_worker_response-finishes json
        (record { reader = s.reader; client = client_of stream s.clients; capture = builder }),
  )

  answer_target-cases :
      (task : ClientTask Value) (target : ResponseTarget)
      → task.response_target ≡ target
      → IsFinishing (answer_target json task)
  unfolding answer_target
  answer_target-cases task (proxy_client stream) e = rw e (
      or_release-IsFinishing task.context.key_id
        {m = answer_client json stream (builder_of json task)}
        (record { done = answer_client-finishes stream (builder_of json task) }))
  answer_target-cases task (capture channel) e = rw e (
      >>=-IsFinishing
        (or_release-IsFinishing task.context.key_id
          (reading-IsFinishing capture_worker_response capture_worker_response-finishes))
        λ response. record { done = λ s. refl })
  answer_target-cases task ignore e = rw e (
      >>=-IsFinishing
        (or_release-IsFinishing task.context.key_id
          (reading-IsFinishing discard_worker_response discard-finishes))
        λ code. record { done = λ s. refl })

  module _ (name : String) (index : ℕ) (t : Times Value) where
    complete-IsFinishing :
        (backend : WorkerBackend) (task : ClientTask Value)
        (answer : (ℕ × Option TokenUsage) × Option (ResponseCaptureBuilder Value))
        → IsFinishing (complete json name index t backend task answer)
    unfolding complete send_events
    complete-IsFinishing backend task answer = record { done = λ s. refl }

    pub forward-IsFinishing :
        (backend : WorkerBackend) (task : ClientTask Value)
        → IsFinishing (forward json name index t backend task)
    unfolding forward
    forward-IsFinishing backend task =
        >>=-IsFinishing
          (changing-IsFinishing (touch_worker name index none working none none t.started))
          λ u.
            >>=-IsFinishing
              (or_release-IsFinishing task.context.key_id
                (sending-IsFinishing (serialize_request task.request)))
              λ v.
                >>=-IsFinishing (answer_target-cases task task.response_target refl)
                  λ answer. complete-IsFinishing backend task answer

    answer_poll-IsFinishing :
        (backend : WorkerBackend) (o : Option (ClientTask Value))
        → IsFinishing (answer_poll json name index t backend o)
    unfolding answer_poll
    answer_poll-IsFinishing backend (some task) = forward-IsFinishing backend task
    answer_poll-IsFinishing backend none =
        sending-IsFinishing (serialize_request (hive {Value = Value} "PONG" "/"))

    handle_poll-IsFinishing :
        (request : HttpRequest Value) → IsFinishing (handle_poll json name index t request)
    unfolding handle_poll poll take_work take_task
    handle_poll-IsFinishing request = elim (Option-cases (from_poll_method request.method)) [
      | inl e ↦ rw (handle_poll, e) (pure-IsFinishing tt)
      | inr (backend, e) ↦
          rw (handle_poll, e)
            (>>=-IsFinishing
              (changing-IsFinishing (
                touch_worker name index (incoming_tags request.uri) polling (some backend) none
                  t.now))
              λ u.
                >>=-IsFinishing {m = take_work json name index t backend}
                  (record { done = λ s. refl }) λ task. answer_poll-IsFinishing backend task)
    ]

    handle_request-IsFinishing :
        (request : HttpRequest Value) → IsFinishing (handle_request json name index t request)
    unfolding handle_request handle_ping handle_latency touch send
    handle_request-IsFinishing request =
        let quiet = changing-IsFinishing (touch_worker name index none polling none none t.now) in
        let (token, latency) = parse_latency_uri request.uri in
        if-IsFinishing _ (handle_poll-IsFinishing request) (
          if-IsFinishing _ quiet (
            if-IsFinishing _
              (>>=-IsFinishing
                (changing-IsFinishing (touch_worker name index none polling none latency t.now))
                λ u. sending-IsFinishing (serialize_request (hive {Value = Value} "PONG" token)))
              quiet))

    serve-finishes :
        (p : Outcome (HttpRequest Value) × Session Value)
        → finishes p.0 ≡ true
        → finishes (serve json name index t p).0 ≡ true
    unfolding serve
    serve-finishes (ok request, s) h = (handle_request-IsFinishing request).done s
    serve-finishes (err e, s) h = refl
    serve-finishes (unfinished, s) h = h

    -- Every round of a connection's loop ends with a result or an error: the loops over the
    -- fields of the request, and over the head, the chunks and the trailers of the worker's
    -- answer, never use up the fuel that the model gives them.
    pub round-finishes : (s : Session Value) → finishes (round json name index t s).0 ≡ true
    unfolding round
    round-finishes s =
        serve-finishes (reading (read_request_from_reader {V = Value}) s)
          (read_request-finishes Value s.reader)

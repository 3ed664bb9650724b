-- ===== src/Worker/Server/Poll/Answer.antt =====
-- `handle_poll`: the answer of the worker and where it goes.
use hive_core_v.Base.{ℕ, string_eq, nat_eq, Option, none, some, [], ◌∷◌, ◌++◌, if◌then◌else◌}
use hive_core_v.Base.HashMap
use hive_core_v.Base.HashMap.{HashMap}
use hive_core_v.Proxy.Task.{ClientTask, proxy_client, capture, ignore}
use hive_core_v.Shared.Http.Json.{Json}
use hive_core_v.Shared.Http.TokenUsage.{TokenUsage}
use hive_core_v.Shared.Wire.Stream.{Action, ◌>>=◌, ◌>>◌, pure, ok, err, unfinished}
use hive_core_v.Worker.Server.Relay.{Relay, ResponseCaptureBuilder, default, WorkerHttpResponse}
use hive_core_v.Worker.Server.Relay.Body.{proxy_worker_response_with_capture}
use hive_core_v.Worker.Server.Relay.Kept.{capture_worker_response, discard_worker_response}
use hive_core_v.Worker.Server.Session.{Session, reading, or_release, client_of}

module _ (json : Json) where
  open json use {Value}

  abbrev pub builder_of : ClientTask Value → Option (ResponseCaptureBuilder Value)
  builder_of task = if task.context.capture then some default else none

  -- The answer for the client, with what was captured of it.
  unfoldable pub answer_client :
      ℕ
      → Option (ResponseCaptureBuilder Value)
      → Action (Session Value) ((ℕ × Option TokenUsage) × Option (ResponseCaptureBuilder Value))
  unfolding proxy_worker_response_with_capture
  answer_client stream builder s =
      let relay : Relay Value = record {
        reader = s.reader;
        client = client_of stream s.clients;
        capture = builder;
      } in
      let (o, r) = proxy_worker_response_with_capture json relay in
      (
        elim o [ ok a ↦ ok (a, r.capture) | err e ↦ err e | unfinished ↦ unfinished ],
        record s { reader = r.reader; clients = HashMap.insert stream r.client s.clients },
      )

  abbrev pub send_answer : ℕ → WorkerHttpResponse → Action (Session Value) (Unit {0})
  send_answer channel response s =
      (ok tt, record s { answers = s.answers ++ (channel, response) ∷ [] })

  -- The match on the target of the answer. Each of its errors releases the slot.
  unfoldable pub answer_target :
      ClientTask Value
      → Action (Session Value) ((ℕ × Option TokenUsage) × Option (ResponseCaptureBuilder Value))
  unfolding or_release answer_client capture_worker_response discard_worker_response
  answer_target task =
      let key_id = task.context.key_id in
      let builder = builder_of task in
      elim task.response_target [
        | proxy_client stream ↦ or_release key_id (answer_client stream builder)
        | capture channel ↦ do
          response ← or_release key_id (reading capture_worker_response)
          send_answer channel response
          pure ((response.status_code, none), builder)
        | ignore ↦ do
          status_code ← or_release key_id (reading discard_worker_response)
          pure ((status_code, none), builder)
      ]

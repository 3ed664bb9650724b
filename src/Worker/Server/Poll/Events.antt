-- ===== src/Worker/Server/Poll/Events.antt =====
-- The events that `handle_poll` sends when a request is done.
use hive_core_v.Base.{
  ℕ, ◌+◌, ◌/◌, ◌%◌, ◌^◌, String, str_eq, string_eq, nat_eq, ◌||◌, Option, none, some, List, [], ◌∷◌,
  is_empty, if◌then◌else◌,
}
use hive_core_v.Proxy.Task.{ClientTask}
use hive_core_v.Shared.Capture.{CapturedResponse, capture_request}
use hive_core_v.Shared.Capture.Redact.{redact_embedding_vectors}
use hive_core_v.Shared.Http.Json.{Json}
use hive_core_v.Shared.Http.Request.{HttpRequest}
use hive_core_v.Shared.Http.TokenUsage.{TokenUsage}
use hive_core_v.Worker.Models.{WorkerBackend, as_str}
use hive_core_v.Worker.Server.Relay.{ResponseCaptureBuilder, finish_capture}
use hive_core_v.Worker.Server.Session.{CaptureEvent, UsageEvent}

-- Nanoseconds in whole milliseconds.
abbrev pub millis : ℕ → ℕ
millis d = d / 1_000_000 % 2 ^ 64

abbrev pub unauthenticated : Option String → String
unauthenticated none = "Unauthenticated"
unauthenticated (some name) = name

abbrev pub or_no_usage : Option TokenUsage → TokenUsage
or_no_usage none = record { prompt_tokens = 0; completion_tokens = 0; total_tokens = 0 }
or_no_usage (some usage) = usage

module _ (json : Json) where
  open json use {Value}

  unfoldable pub captured_response_for_request :
      CapturedResponse Value → String → CapturedResponse Value
  unfolding redact_embedding_vectors
  captured_response_for_request response uri =
      if str_eq uri "/api/embed" || str_eq uri "/api/embeddings" || str_eq uri "/v1/embeddings"
      then redact_embedding_vectors json response
      else response

  module _ (worker_name : String) (backend : WorkerBackend) (task : ClientTask Value)
      (queue_wait worker_time status_code : ℕ) where
    unfoldable pub capture_event :
        ℕ → HttpRequest Value → ResponseCaptureBuilder Value → CaptureEvent Value
    unfolding capture_request captured_response_for_request finish_capture
    capture_event key_id client_request builder = record {
      schema_version = 1;
      request_id = task.id;
      key_id = key_id;
      key_name = unauthenticated task.context.key_name;
      worker_name = worker_name;
      method = task.request.method;
      uri = task.request.uri;
      model = task.context.model;
      status_code = status_code;
      queue_ms = millis queue_wait;
      worker_ms = millis worker_time;
      total_ms = millis (queue_wait + worker_time);
      client_request = capture_request json client_request;
      forwarded_request =
          if is_empty task.context.proxy_mutations
          then none
          else some (capture_request json task.request);
      proxy_mutations = task.context.proxy_mutations;
      response =
          captured_response_for_request (finish_capture status_code builder) task.request.uri;
    }

    -- With a builder, a key and the client's request.
    unfoldable pub capture_events :
        Option (ResponseCaptureBuilder Value) → List (CaptureEvent Value)
    unfolding capture_event
    capture_events none = []
    capture_events (some builder) = elim task.context.key_id [
      | none ↦ []
      | some key_id ↦ elim task.context.client_request [
        | none ↦ []
        | some client_request ↦ capture_event key_id client_request builder ∷ []
      ]
    ]

    unfoldable pub usage_events : Option TokenUsage → List UsageEvent
    unfolding as_str
    usage_events token_usage = elim task.context.model [
      | none ↦ []
      | some model ↦
          let usage = or_no_usage token_usage in
          record {
            key_id = task.context.key_id;
            key_name = unauthenticated task.context.key_name;
            worker_name = worker_name;
            backend = as_str backend;
            model = model;
            status_code = status_code;
            prompt_tokens = usage.prompt_tokens;
            completion_tokens = usage.completion_tokens;
            total_tokens = usage.total_tokens;
            queue_ms = millis queue_wait;
            worker_ms = millis worker_time;
            total_ms = millis (queue_wait + worker_time);
            duration_ms = millis worker_time;
          }
          ∷ []
    ]

-- ===== src/Worker/Server/Connection.antt =====
-- `authenticate_worker`, the handlers of control frames and the loop of `handle_connection`.
use hive_core_v.Base.{ℕ, String, str_eq, ◌||◌, Option, none, List, [], ◌∷◌, if◌then◌else◌}
use hive_core_v.Shared.Http.Json.{Json}
use hive_core_v.Shared.Http.Request.{HttpRequest, hive}
use hive_core_v.Shared.Http.Frame.{
  read_request_from_reader, serialize_request, write_framed_request,
}
use hive_core_v.Shared.Wire.Stream.{Outcome, Action, ◌>>=◌, ◌>>◌, pure, ok, err, unfinished}
use hive_core_v.Worker.Models.{polling}
use hive_core_v.Worker.Server.Latency.{NodeLatency, parse_latency_uri}
use hive_core_v.Worker.Server.Registry.{admit_worker, touch_worker, remove_worker}
use hive_core_v.Worker.Server.Session.{Session, reading, writing, in_app, changing}
use hive_core_v.Worker.Server.Poll.{Times, handle_poll}

module _ {V : Type 0} where
  unfoldable pub touch : String → ℕ → Option NodeLatency → ℕ → Action (Session V) (Unit {0})
  unfolding touch_worker
  touch name index latency now = changing (touch_worker name index none polling none latency now)

  unfoldable pub send : String → String → Action (Session V) (Unit {0})
  unfolding serialize_request write_framed_request hive
  send method uri = writing (write_framed_request (serialize_request (hive {Value = V} method uri)))

  -- The answer is written when the connection is in the registry already.
  unfoldable pub authenticate_worker : HttpRequest V → ℕ → Action (Session V) (String × ℕ)
  unfolding admit_worker send touch
  authenticate_worker request now = in_app (admit_worker request now) >>= λ worker.
      send "AUTH" worker.0 >> touch worker.0 worker.1 none now >> pure worker

  unfoldable pub handle_ping : String → ℕ → ℕ → Action (Session V) (Unit {0})
  unfolding touch
  handle_ping name index now = touch name index none now

  unfoldable pub handle_latency : String → ℕ → HttpRequest V → ℕ → Action (Session V) (Unit {0})
  unfolding touch parse_latency_uri send
  handle_latency name index request now =
      let (token, latency) = parse_latency_uri request.uri in
      touch name index latency now >> send "PONG" token

module _ (json : Json) where
  open json use {Value}

  -- The match on the method.
  unfoldable pub handle_request :
      String → ℕ → Times Value → HttpRequest Value → Action (Session Value) (Unit {0})
  unfolding handle_poll handle_ping handle_latency touch
  handle_request name index t request =
      if str_eq request.method "POLL"
        || str_eq request.method "POLL-OLLAMA"
        || str_eq request.method "POLL-VLLM"
        || str_eq request.method "POLL-SYSTEMONE"
      then handle_poll json name index t request
      else if str_eq request.method "PING"
      then handle_ping name index t.now
      else if str_eq request.method "LATENCY"
      then handle_latency name index request t.now
      else touch name index none t.now

  -- The connection leaves the registry when no request can be read, and not when a handler fails.
  unfoldable pub serve :
      String
      → ℕ
      → Times Value
      → Outcome (HttpRequest Value) × Session Value
      → Outcome (Unit {0}) × Session Value
  unfolding remove_worker handle_request
  serve name index t (ok request, s) = handle_request name index t request s
  serve name index t (err e, s) = (err e, record s { app = remove_worker name index s.app })
  serve name index t (unfinished, s) = (unfinished, s)

  -- One round of the loop.
  unfoldable pub round : String → ℕ → Times Value → Action (Session Value) (Unit {0})
  unfolding read_request_from_reader serve
  round name index t s = serve name index t (reading (read_request_from_reader {V = Value}) s)

  -- The rounds at the given times; `unfinished` is a connection that is still served.
  unfoldable pub rounds : String → ℕ → List (Times Value) → Action (Session Value) (Unit {0})
  unfolding round
  rounds name index [] s = (unfinished, s)
  rounds name index (t ∷ ts) s = (round name index t >> rounds name index ts) s

  unfoldable pub handle_connection : ℕ → List (Times Value) → Action (Session Value) (Unit {0})
  unfolding read_request_from_reader authenticate_worker rounds
  handle_connection now ts = do
    request ← reading (read_request_from_reader {V = Value})
    worker ← authenticate_worker request now
    rounds worker.0 worker.1 ts

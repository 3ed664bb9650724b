-- ===== src/Worker/Server/Tests.antt =====
-- The connection of a worker at concrete values.
use hive_core_v.Base.{ℕ, ◌≡◌, refl, string_eq, false, true, none, some, List, [], ◌∷◌, ◌++◌}
use hive_core_v.Base.HashMap
use hive_core_v.App.State.{AppState}
use hive_core_v.App.RateLimiter.Check.{start_request}
use hive_core_v.Proxy.Models.{ollama_native}
use hive_core_v.Proxy.Task.{ClientTask, proxy_client}
use hive_core_v.Proxy.Queue.Deques.{key_Eq, RequestQueue}
use hive_core_v.Proxy.Queue.Dequeue.{next_for_worker}
use hive_core_v.Shared.Capture.{capture_request, redacted, capture_request-headers}
use hive_core_v.Shared.Http.Json.{Json}
use hive_core_v.Shared.Http.Request.{HttpRequest, hive}
use hive_core_v.Shared.Http.TokenUsage.{TokenUsage, parse_usage_json}
use hive_core_v.Shared.Wire.Utf8.{codes, from_utf8_lossy}
use hive_core_v.Shared.Wire.Stream.{ok}
use hive_core_v.Shared.Wire.Stream.Progress.{finishes}
use hive_core_v.Worker.Models.{
  WorkerConnectionStatus, from_poll_method, authenticating, polling, ollama,
}
use hive_core_v.Worker.Server.Chunks.{Head}
use hive_core_v.Worker.Server.Registry.{touch_worker, remove_worker, touched, admit_worker}
use hive_core_v.Worker.Server.Registry.Invariant.{AreSound}
use hive_core_v.Worker.Server.Registry.Reachable.{
  admits, touches, leaves, start, later, Reach-AreSound,
}
use hive_core_v.Worker.Server.Registry.Refinement.{view, update, mapped, erased, registry-refines}
use hive_core_v.Worker.Server.Scanner
use hive_core_v.Worker.Server.Scanner.{finish, newer}
use hive_core_v.Worker.Server.Scanner.Lines.{last_line, joined, push_all, finish-last}
use hive_core_v.Worker.Server.Sanitize.{sent_headers, count_field, sent_headers-chunked}
use hive_core_v.Worker.Server.Relay.{Relay}
use hive_core_v.Worker.Server.Relay.Body.{relay_body}
use hive_core_v.Worker.Server.Relay.Transparent.{relay_body-passes}
use hive_core_v.Shared.Wire.Utf8.{from_utf8}
use hive_core_v.Shared.Wire.Stream.{Reader, until_newline}
use hive_core_v.Worker.Server.Chunks.{parse_chunk_size}
use hive_core_v.Base.{All, if◌then◌else◌, is_empty}
use hive_core_v.Worker.Server.Relay.{fuel_of}
use hive_core_v.Worker.Server.Relay.Kept.{collect_chunks}
use hive_core_v.Worker.Server.Relay.Decode.{Chunk, IsChunk, encoded, collect_chunks-decodes}
use hive_core_v.Worker.Server.Session.{Session}
use hive_core_v.Worker.Server.Poll.{Times, handle_poll, connection_tags, incoming_tags}
use hive_core_v.Worker.Server.Connection.{round}
use hive_core_v.Worker.Server.Progress.Round.{round-finishes}
use hive_core_v.Worker.Server.Release.Guards.{released}
use hive_core_v.Worker.Server.Release.{polled_key, handle_poll-releases}
use hive_core_v.Samples.{Doc, docs, worker, state, request_of, limiter}

-- A connected worker, and a task that waits for it in a state where the task's key holds a slot.
abbrev line : WorkerConnectionStatus
line = record {
  index = 0;
  nonce = "n";
  tags = "qwen3:8b" ∷ [];
  state = authenticating;
  last_ping = 5;
  last_poll = 9;
  core_to_node_rtt_latency = none;
  node_to_backend_rtt_latency = none;
  latency_reported_at = none;
}

abbrev app : AppState Doc
app = record state {
  workers = ("w1", record worker { connections = line ∷ []; next_connection_index = 1 }) ∷ [];
  rate_limiter = start_request limiter 1;
}

abbrev task : ClientTask Doc
task = record {
  id = 4;
  request = request_of "Bearer t1" "POST" "/api/chat";
  response_target = proxy_client 7;
  queued_at = 10;
  context = record {
    key_id = some 1;
    key_name = some "alice";
    model = some "qwen3:8b";
    capture = false;
    client_request = none;
    proxy_mutations = [];
    queue_timeout = none;
  };
}

abbrev queue : RequestQueue Doc
queue = record {
  model_queue =
      (
        record { model = "qwen3:8b"; kind = ollama_native },
        record { tasks = task ∷ []; poisoned = false },
      )
      ∷ [];
  model_poisoned = false;
  node_queue = [];
  node_poisoned = false;
  default_timeout = 60;
  generation = 0;
}

abbrev answer : List ℕ
answer = codes "HTTP/1.1 200 OK\r\nContent-Length: 2\r\n\r\nhi"

abbrev session : List ℕ → Session Doc
session bytes = record {
  app = app;
  request_queue = queue;
  reader = record { bytes = bytes; at_end = none };
  writer = record { sent = []; left = 9 };
  clients = (7, record { sent = []; left = 9 }) ∷ [];
  answers = [];
  captures = [];
  usages = [];
}

abbrev times : Times Doc
times = record { now = 20; later = 25; started = 26; finished = 40; meanwhile = λ q. q }

abbrev poll : HttpRequest Doc
poll = hive "POLL-OLLAMA" "qwen3:8b"

abbrev frame : List ℕ
frame = codes "PING - HIVE\r\n\r\n"

polled_test : polled_key docs "w1" 0 times poll (session answer) ≡ some 1
unfolding hive from_poll_method touch_worker connection_tags incoming_tags next_for_worker
    HashMap.get HashMap.insert
polled_test = refl

handle_poll-releases_example :
    (handle_poll docs "w1" 0 times poll (session answer)).1.app.rate_limiter
    ≡ released (polled_key docs "w1" 0 times poll (session answer)) app.rate_limiter
handle_poll-releases_example = handle_poll-releases docs "w1" 0 times poll (session answer)

round-finishes_example : finishes (round docs "w1" 0 times (session frame)).0 ≡ true
round-finishes_example = round-finishes docs "w1" 0 times (session frame)

-- A worker joins, polls and leaves.
abbrev auth : HttpRequest Doc
auth = hive "AUTH" "t2;n;2;1"

abbrev empty : AppState Doc
empty = record state { workers = [] }

abbrev entered : AppState Doc
entered = (admit_worker auth 10 empty).1

abbrev polled : AppState Doc
polled = touch_worker "root" 0 none polling (some ollama) none 11 entered

abbrev departed : AppState Doc
departed = remove_worker "root" 0 polled

Reach-AreSound_example : AreSound departed.workers
Reach-AreSound_example =
    Reach-AreSound {a = empty}
      (later
        (later (later start (admits auth 10 empty tt))
          (touches "root" 0 none polling (some ollama) none 11 entered))
        (leaves "root" 0 polled))
      refl

registry-refines_example :
    (view (remove_worker "w1" 0 app) ≡ update (view app) "w1" 0 erased)
    × (view (touch_worker "w1" 0 none polling (some ollama) none 11 app)
        ≡ update (view app) "w1" 0 (mapped (touched none polling none 11)))
registry-refines_example = registry-refines none polling none 11 "w1" 0 (some ollama) app refl

-- A body of a known length.
abbrev head : Head
head = record { headers = []; content_length = some 2; chunked = false }

abbrev relay : Relay Doc
relay = record {
  reader = record { bytes = codes "hi!"; at_end = none };
  client = record { sent = codes "head"; left = 9 };
  capture = none;
}

relay_test : (relay_body docs 9 head relay).0 ≡ ok none
unfolding relay_body
relay_test = refl

relay_body-passes_example :
    (relay_body docs 9 head relay).1.client.sent ++ (relay_body docs 9 head relay).1.reader.bytes
    ≡ codes "head" ++ codes "hi!"
relay_body-passes_example = relay_body-passes docs 9 head relay none relay_test

-- A reader of numbers, each of which is all fields of its own.
abbrev numbers : Json
numbers = record docs { get = λ v f. some v }

abbrev usage : TokenUsage
usage = record { prompt_tokens = 5; completion_tokens = 5; total_tokens = 5 }

usage_test : parse_usage_json numbers (from_utf8_lossy (codes "5")) ≡ some usage
unfolding parse_usage_json from_utf8_lossy
usage_test = refl

abbrev cut : List (List ℕ)
cut = codes "no" ∷ codes "ne\n5" ∷ []

finish-last_example :
    ((push_all numbers cut Scanner.default).pending ≡ last_line (joined cut))
    × (finish numbers (push_all numbers cut Scanner.default) ≡ (
        if is_empty (last_line (joined cut))
        then (push_all numbers cut Scanner.default).observed
        else newer
            (push_all numbers cut Scanner.default).observed
            (parse_usage_json numbers (from_utf8_lossy (last_line (joined cut))))))
finish-last_example = finish-last numbers cut

abbrev fields : List (List ℕ × List ℕ)
fields = (codes "content-length", codes "2") ∷ (codes "Server", codes "x") ∷ []

sent_headers-chunked_example :
    (count_field (codes "content-length") (sent_headers true fields) ≡ 0)
    × (count_field (codes "transfer-encoding") (sent_headers true fields) ≡ 1)
sent_headers-chunked_example = sent_headers-chunked fields

-- A request with a key in the field `API-Key`.
abbrev secret_request : HttpRequest Doc
secret_request = record task.request { headers = ("API-Key", "t1") ∷ [] }

capture_request-headers_example :
    HashMap.get "API-Key" (capture_request docs secret_request).headers
    ≡ redacted "API-Key" (HashMap.get "API-Key" secret_request.headers)
capture_request-headers_example = capture_request-headers docs secret_request "API-Key"

-- A body of two chunks.
abbrev chunk : List ℕ → List ℕ → Chunk
chunk size bytes = record {
  size_line = size;
  size_text = size;
  bytes = bytes;
  line_end = codes "\r\n";
}

abbrev chunks : List Chunk
chunks = chunk (codes "3\r\n") (codes "one") ∷ chunk (codes "4;x\r\n") (codes "more") ∷ []

chunks-IsChunk : All IsChunk chunks
unfolding until_newline from_utf8 parse_chunk_size
chunks-IsChunk = (
  record {
    line = record { ends = refl; single = refl; utf8 = refl };
    size = refl;
    some_bytes = refl;
    ended = refl;
  },
  (
    record {
      line = record { ends = refl; single = refl; utf8 = refl };
      size = refl;
      some_bytes = refl;
      ended = refl;
    },
    tt,
  ),
)

abbrev chunked : Reader
chunked = record { bytes = encoded chunks (codes "HTTP"); at_end = none }

collect_chunks-decodes_example :
    collect_chunks (fuel_of chunked) [] chunked
    ≡ (ok (codes "onemore"), record { bytes = codes "HTTP"; at_end = none })
collect_chunks-decodes_example = collect_chunks-decodes chunks (codes "HTTP") none chunks-IsChunk

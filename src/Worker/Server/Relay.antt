-- ===== src/Worker/Server/Relay.antt =====
-- `proxy_worker_response_with_capture` and `capture_worker_response`: the answer of a worker, on its
-- way to the client or kept.
pub mod Body
pub mod Kept
pub mod Fronts
pub mod Transparent
pub mod Decode
use hive_core_v.Base.{
  ℕ, zero, suc, ◌+◌, String, Bool, true, false, not, ◌&&◌, Option, none, some, List, [], ◌∷◌, ◌++◌,
  length, is_empty, ◌==◌, if◌then◌else◌, min,
}
use hive_core_v.Shared.Capture.{
  ResponseTransfer, fixed_length, chunked, until_eof, empty, CapturedBody, CapturedStreamEvent,
  CapturedResponse, capture_body,
}
use hive_core_v.Shared.Http.Json.{Json}
use hive_core_v.Shared.Http.Text.{to_string, as_bytes}
use hive_core_v.Shared.Http.TokenUsage.{TokenUsage, parse_usage_json}
use hive_core_v.Shared.Wire.Utf8.{codes, to_utf8, from_utf8_lossy}
use hive_core_v.Shared.Wire.Text.{trim, trim_end, eq_ignore_ascii_case}
use hive_core_v.Shared.Wire.Stream.{
  Action, ◌>>=◌, ◌>>◌, pure, raise, or_raise, unfinished, unexpected_eof, invalid_data, Reader,
  Writer, Line, Outcome, ok, read_line, read_exact, read_to_end, write_all, flush,
}
use hive_core_v.Worker.Server.Chunks.{
  some_line, parse_status_code, Head, no_head, read_head, parse_chunk_size, discard_chunk_trailers,
}
use hive_core_v.Worker.Server.Sanitize.{sanitize_response_headers}
use hive_core_v.Worker.Server.Scanner.{UsageLineScanner, push, finish}
use hive_core_v.Worker.Server.Scanner

pub record WorkerHttpResponse : Type 0 where
  pub status_code : ℕ
  pub body : List ℕ

-- The times of the events are left out.
pub record ResponseCaptureBuilder (Value : Type 0) : Type 0 where
  pub status_line : List ℕ
  pub headers : List (List ℕ × List ℕ)
  pub transfer : ResponseTransfer
  pub body : Option (CapturedBody Value)
  pub events : List (CapturedStreamEvent Value)

module _ {V : Type 0} where
  abbrev pub default : ResponseCaptureBuilder V
  default = record { status_line = []; headers = []; transfer = empty; body = none; events = [] }

  unfoldable pub push_event :
      ℕ → CapturedBody V → ResponseCaptureBuilder V → ResponseCaptureBuilder V
  push_event chunk_size body c = record c {
    events =
        c.events ++ record { index = length c.events; chunk_size = chunk_size; body = body } ∷ [];
  }

  unfoldable pub finish_capture : ℕ → ResponseCaptureBuilder V → CapturedResponse V
  finish_capture status_code c = record {
    status_line = c.status_line;
    status_code = status_code;
    headers = c.headers;
    transfer = c.transfer;
    body = c.body;
    events = c.events;
    derived = none;
  }

-- What a relay reads and writes.
pub record Relay (Value : Type 0) : Type 0 where
  pub reader : Reader
  pub client : Writer
  pub capture : Option (ResponseCaptureBuilder Value)

module _ {V A : Type 0} where
  abbrev pub reading : Action Reader A → Action (Relay V) A
  reading m s = let (o, r) = m s.reader in (o, record s { reader = r })

  abbrev pub writing : Action Writer A → Action (Relay V) A
  writing m s = let (o, w) = m s.client in (o, record s { client = w })

abbrev pub captured :
    {V : Type 0}
    → (ResponseCaptureBuilder V → ResponseCaptureBuilder V)
    → Option (ResponseCaptureBuilder V)
    → Option (ResponseCaptureBuilder V)
captured f none = none
captured f (some c) = some (f c)

abbrev pub capturing :
    {V : Type 0}
    → (ResponseCaptureBuilder V → ResponseCaptureBuilder V)
    → Action (Relay V) (Unit {0})
capturing f s = (ok tt, record s { capture = captured f s.capture })

abbrev pub empty_response : ℕ → String → List (List ℕ)
empty_response code reason =
    (as_bytes "HTTP/1.1 "
      ++ as_bytes (to_string code)
      ++ as_bytes " "
      ++ as_bytes reason
      ++ as_bytes "\r\n")
    ∷ as_bytes "Content-Length: 0\r\n"
    ∷ as_bytes "Connection: close\r\n"
    ∷ as_bytes "\r\n"
    ∷ []

abbrev pub write_parts : List (List ℕ) → Action Writer (Unit {0})
write_parts [] = flush
write_parts (p ∷ ps) = write_all p >> write_parts ps

-- Each `write!` is one call.
unfoldable pub write_empty_response : ℕ → String → Action Writer (Unit {0})
unfolding write_all flush as_bytes to_string
write_empty_response code reason = write_parts (empty_response code reason)

module _ {V : Type 0} where
  unfoldable pub relay_chunk_trailers : ℕ → Action (Relay V) (Unit {0})
  unfolding read_line write_all trim_end
  relay_chunk_trailers zero s = (unfinished, s)
  relay_chunk_trailers (suc fuel) s =
      (do
        line ← reading some_line
        writing (write_all line.raw)
        elim (is_empty (trim_end line.text)) [ true ↦ pure tt | false ↦ relay_chunk_trailers fuel ])
        s

abbrev pub fuel_of : Reader → ℕ
fuel_of r = suc (length r.bytes)

-- ===== src/Worker/Server/Relay/Body.antt =====
-- The body of a relayed answer: chunks, a fixed length, or all up to the end.
use hive_core_v.Base.{
  ℕ, zero, suc, true, false, Option, none, some, List, [], ◌∷◌, ◌++◌, length, is_empty, ◌==◌,
  if◌then◌else◌,
}
use hive_core_v.Shared.Capture.{fixed_length, chunked, until_eof, empty, capture_body}
use hive_core_v.Shared.Http.Json.{Json}
use hive_core_v.Shared.Http.TokenUsage.{TokenUsage, parse_usage_json}
use hive_core_v.Shared.Wire.Utf8.{codes, from_utf8_lossy}
use hive_core_v.Shared.Wire.Text.{trim, trim_end}
use hive_core_v.Shared.Wire.Stream.{
  Action, ◌>>=◌, ◌>>◌, pure, or_raise, unfinished, invalid_data, read_exact, read_line, read_to_end,
  write_all, flush, Line,
}
use hive_core_v.Worker.Server.Chunks.{
  some_line, parse_status_code, Head, no_head, read_head, parse_chunk_size,
}
use hive_core_v.Worker.Server.Sanitize.{sanitize_response_headers}
use hive_core_v.Worker.Server.Scanner.{UsageLineScanner, push, finish}
use hive_core_v.Worker.Server.Scanner
use hive_core_v.Worker.Server.Relay.{
  Relay, reading, writing, capturing, push_event, relay_chunk_trailers, fuel_of,
  write_empty_response,
}

module _ (json : Json) where
  open json use {Value}

  -- The body of one chunk with its line end, to the client and the capture.
  unfoldable pub relay_chunk : ℕ → Action (Relay Value) (List ℕ)
  unfolding read_exact write_all push_event capture_body
  relay_chunk size = do
    body ← reading (read_exact size)
    writing (write_all body)
    capturing (push_event (length body) (capture_body json body))
    crlf ← reading (read_exact 2)
    writing (write_all crlf)
    pure body

  unfoldable pub relay_chunks : ℕ → UsageLineScanner → Action (Relay Value) UsageLineScanner
  unfolding read_line write_all parse_chunk_size relay_chunk relay_chunk_trailers push
  relay_chunks zero scanner s = (unfinished, s)
  relay_chunks (suc fuel) scanner s =
      (do
        line ← reading some_line
        writing (write_all line.raw)
        size ← or_raise (parse_chunk_size line.text) invalid_data
        elim (size == 0) [
          | true ↦ do relay_chunk_trailers fuel; pure scanner
          | false ↦ relay_chunk size >>= λ body. relay_chunks fuel (push json body scanner)
        ])
        s

  unfoldable pub relay_chunked_body : ℕ → Action (Relay Value) (Option TokenUsage)
  unfolding relay_chunks finish
  relay_chunked_body fuel = do
    scanner ← relay_chunks fuel Scanner.default
    pure (finish json scanner)

  unfoldable pub relay_fixed_body : ℕ → Action (Relay Value) (Option TokenUsage)
  unfolding read_exact write_all capture_body from_utf8_lossy parse_usage_json
  relay_fixed_body length = do
    body ← reading (read_exact length)
    writing (write_all body)
    capturing λ c. record c { transfer = fixed_length; body = some (capture_body json body) }
    pure (parse_usage_json json (from_utf8_lossy body))

  unfoldable pub relay_body_to_end : Action (Relay Value) (Option TokenUsage)
  unfolding read_to_end write_all capture_body from_utf8_lossy parse_usage_json
  relay_body_to_end = do
    body ← reading read_to_end
    writing (write_all body)
    capturing λ c. record c {
      transfer = if is_empty body then empty else until_eof;
      body = some (capture_body json body);
    }
    pure (parse_usage_json json (from_utf8_lossy body))

  unfoldable pub relay_body : ℕ → Head → Action (Relay Value) (Option TokenUsage)
  unfolding relay_chunked_body relay_fixed_body relay_body_to_end
  relay_body fuel h =
      if h.chunked
      then capturing (λ c. record c { transfer = chunked }) >> relay_chunked_body fuel
      else elim h.content_length [
        | some length ↦ relay_fixed_body length
        | none ↦ relay_body_to_end
      ]

  unfoldable pub relay_head : ℕ → Line → Action (Relay Value) Head
  unfolding read_head sanitize_response_headers write_all
  relay_head fuel status_line = do
    head ← reading (read_head fuel no_head)
    capturing λ c. record c { status_line = trim_end status_line.text; headers = head.headers }
    writing (
        write_all
          (status_line.raw ++ sanitize_response_headers head.chunked head.headers ++ 13 ∷ 10 ∷ []))
    pure head

  unfoldable pub bad_gateway : Action (Relay Value) (ℕ × Option TokenUsage)
  unfolding write_empty_response
  bad_gateway = do
    writing (write_empty_response 502 "Bad Gateway")
    capturing λ c. record c { status_line = codes "HTTP/1.1 502 Bad Gateway"; transfer = empty }
    pure (502, none)

  unfoldable pub relay_response : ℕ → Action (Relay Value) (ℕ × Option TokenUsage)
  unfolding read_line trim bad_gateway relay_head relay_body flush parse_status_code
  relay_response fuel = do
    status_line ← reading read_line
    if is_empty (trim status_line.text) then bad_gateway else (do
      head ← relay_head fuel status_line
      usage ← relay_body fuel head
      writing flush
      pure (parse_status_code status_line.text, usage))

  -- The fuel of the loops is more than the bytes that are left, and every round takes a byte.
  unfoldable pub proxy_worker_response_with_capture : Action (Relay Value) (ℕ × Option TokenUsage)
  unfolding relay_response
  proxy_worker_response_with_capture s = relay_response (fuel_of s.reader) s

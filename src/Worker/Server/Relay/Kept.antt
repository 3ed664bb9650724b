-- ===== src/Worker/Server/Relay/Kept.antt =====
-- `capture_worker_response` and `discard_worker_response`: the answer of a worker that no client waits
-- for.
use hive_core_v.Base.{
  ℕ, zero, suc, true, false, none, some, List, [], ◌++◌, is_empty, ◌==◌, if◌then◌else◌,
}
use hive_core_v.Shared.Wire.Text.{trim}
use hive_core_v.Shared.Wire.Stream.{
  Action, ◌>>=◌, ◌>>◌, pure, or_raise, unfinished, invalid_data, Reader, read_exact, read_line,
}
use hive_core_v.Worker.Server.Chunks.{
  some_line, parse_status_code, Head, no_head, read_head, parse_chunk_size, discard_chunk_trailers,
}
use hive_core_v.Worker.Server.Relay.{WorkerHttpResponse, fuel_of}

-- The bytes of the chunks behind `body`.
unfoldable pub collect_chunks : ℕ → List ℕ → Action Reader (List ℕ)
unfolding read_line read_exact parse_chunk_size discard_chunk_trailers
collect_chunks zero body r = (unfinished, r)
collect_chunks (suc fuel) body r =
    (do
      line ← some_line
      size ← or_raise (parse_chunk_size line.text) invalid_data
      elim (size == 0) [
        | true ↦ do discard_chunk_trailers fuel; pure body
        | false ↦ do
          chunk ← read_exact size
          crlf ← read_exact 2
          collect_chunks fuel (body ++ chunk)
      ])
      r

unfoldable pub read_body : ℕ → Head → Action Reader (List ℕ)
unfolding collect_chunks read_exact
read_body fuel h =
    if h.chunked
    then collect_chunks fuel []
    else elim h.content_length [ some length ↦ read_exact length | none ↦ pure [] ]

unfoldable pub capture_response : ℕ → Action Reader WorkerHttpResponse
unfolding read_line trim read_head read_body parse_status_code
capture_response fuel = do
  status_line ← read_line
  if is_empty (trim status_line.text) then pure (record { status_code = 502; body = [] }) else (do
    head ← read_head fuel no_head
    body ← read_body fuel head
    pure (record { status_code = parse_status_code status_line.text; body = body }))

-- The fuel of the loops is more than the bytes that are left, and every round takes a byte.
unfoldable pub capture_worker_response : Action Reader WorkerHttpResponse
unfolding capture_response
capture_worker_response r = capture_response (fuel_of r) r

unfoldable pub discard_worker_response : Action Reader ℕ
unfolding capture_worker_response
discard_worker_response = do response ← capture_worker_response; pure response.status_code

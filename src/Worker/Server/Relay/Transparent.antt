-- ===== src/Worker/Server/Relay/Transparent.antt =====
-- What the client gets of a body is what the worker sent of it.
use hive_core_v.Base.{
  ℕ, zero, suc, Option, some, List, ◌++◌, ◌≡◌, is_empty, length, ◌==◌, if◌then◌else◌, Bool-cases,
  Option-cases, inl, inr,
}
use hive_core_v.Shared.Capture.{fixed_length, chunked, until_eof, empty, capture_body}
use hive_core_v.Shared.Http.Json.{Json}
use hive_core_v.Shared.Http.TokenUsage.{TokenUsage, parse_usage_json}
use hive_core_v.Shared.Wire.Utf8.{from_utf8_lossy}
use hive_core_v.Shared.Wire.Stream.{Action, ◌>>=◌, pure, ok, invalid_data, Reader, write_all}
use hive_core_v.Worker.Server.Chunks.{Head, parse_chunk_size}
use hive_core_v.Worker.Server.Scanner.{UsageLineScanner, push, finish}
use hive_core_v.Worker.Server.Scanner
use hive_core_v.Worker.Server.Relay.{
  Relay, ResponseCaptureBuilder, push_event, reading, writing, capturing,
}
use hive_core_v.Worker.Server.Relay.Body.{
  relay_chunk, relay_chunks, relay_chunked_body, relay_fixed_body, relay_body_to_end, relay_body,
}
use hive_core_v.Worker.Server.Relay.Fronts.{
  pure-IsTransparent, IsFront, some_line-IsFront, read_exact-IsFront, read_to_end-IsFront,
  IsTransparent, >>=-IsTransparent, capturing-IsTransparent, or_raise-IsTransparent,
  elim-IsTransparent, pass-IsTransparent, relay_chunk_trailers-IsTransparent,
}

module _ (json : Json) where
  open json use {Value}

  relay_chunk-IsTransparent : (size : ℕ) → IsTransparent (relay_chunk json size)
  unfolding relay_chunk
  relay_chunk-IsTransparent size =
      pass-IsTransparent (λ bs. bs) (read_exact-IsFront size)
        λ body.
          let note = push_event (length body) (capture_body json body) in
          >>=-IsTransparent (capturing-IsTransparent note) λ u.
            pass-IsTransparent (λ bs. bs) (read_exact-IsFront 2) λ crlf. pure-IsTransparent body

  relay_chunks-IsTransparent :
      (fuel : ℕ) (scanner : UsageLineScanner) → IsTransparent (relay_chunks json fuel scanner)
  unfolding relay_chunks
  relay_chunks-IsTransparent zero scanner = record { passes = λ s a h. cc }
  relay_chunks-IsTransparent (suc fuel) scanner =
      pass-IsTransparent (λ line. line.raw) some_line-IsFront
        λ line.
          >>=-IsTransparent (or_raise-IsTransparent (parse_chunk_size line.text) invalid_data)
            λ size.
              elim-IsTransparent (size == 0)
                (>>=-IsTransparent (relay_chunk_trailers-IsTransparent fuel)
                  λ u. pure-IsTransparent scanner)
                (>>=-IsTransparent (relay_chunk-IsTransparent size)
                  λ body. relay_chunks-IsTransparent fuel (push json body scanner))

  body-IsTransparent :
      {m : Action Reader (List ℕ)}
      (note : List ℕ → ResponseCaptureBuilder Value → ResponseCaptureBuilder Value)
      → IsFront (λ bs. bs) m
      → IsTransparent (
          reading m >>= λ body. writing (write_all body) >>= λ u.
          capturing (note body) >>= λ v. pure (parse_usage_json json (from_utf8_lossy body)))
  body-IsTransparent note t =
      pass-IsTransparent (λ bs. bs) t
        λ body.
          >>=-IsTransparent (capturing-IsTransparent (note body))
            λ v. pure-IsTransparent (parse_usage_json json (from_utf8_lossy body))

  relay_body-IsTransparent : (fuel : ℕ) (h : Head) → IsTransparent (relay_body json fuel h)
  unfolding relay_body relay_chunked_body relay_fixed_body relay_body_to_end
  relay_body-IsTransparent fuel h = elim (Bool-cases h.chunked) [
    | inl c ↦
        let note : ResponseCaptureBuilder Value → ResponseCaptureBuilder Value =
          λ b. record b { transfer = chunked } in
        rw (relay_body, c)
          (>>=-IsTransparent (capturing-IsTransparent note) λ u.
            >>=-IsTransparent (relay_chunks-IsTransparent fuel Scanner.default)
              λ scanner. pure-IsTransparent (finish json scanner))
    | inr c ↦ elim (Option-cases h.content_length) [
      | inl n ↦
          rw (relay_body, c, n)
            (body-IsTransparent
              (λ body b. record b {
                transfer = if is_empty body then empty else until_eof;
                body = some (capture_body json body);
              })
              read_to_end-IsFront)
      | inr (k, n) ↦
          rw (relay_body, c, n)
            (body-IsTransparent
              (λ body b. record b { transfer = fixed_length; body = some (capture_body json body) })
              (read_exact-IsFront k))
    ]
  ]

  -- Where the relay of a body succeeds, in chunks with their sizes and trailers, of a given
  -- length or up to the end of the stream, the client got the bytes that were read of the
  -- worker's answer, all of them, unchanged and in their order: what it has then, before what is
  -- left to read, is what it had before, before all that was left to read.
  pub relay_body-passes :
      (fuel : ℕ) (h : Head) (s : Relay Value) (usage : Option TokenUsage)
      → (relay_body json fuel h s).0 ≡ ok usage
      → let s' = (relay_body json fuel h s).1 in
        s'.client.sent ++ s'.reader.bytes ≡ s.client.sent ++ s.reader.bytes
  relay_body-passes fuel h s usage e = (relay_body-IsTransparent fuel h).passes s usage e

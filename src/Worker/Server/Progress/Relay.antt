-- ===== src/Worker/Server/Progress/Relay.antt =====
-- The loops of the relay of an answer end before their fuel does.
use hive_core_v.Base.{
  ℕ, zero, suc, String, true, ◌≡◌, refl, none, some, List, [], ◌∷◌, is_empty, length, ◌==◌, arith,
  Option-cases, Option, Bool-cases, if◌then◌else◌, ◌++◌, inl, inr,
}
use hive_core_v.Shared.Capture.{fixed_length, chunked, until_eof, empty, capture_body}
use hive_core_v.Shared.Http.Json.{Json}
use hive_core_v.Shared.Http.TokenUsage.{TokenUsage, parse_usage_json}
use hive_core_v.Shared.Wire.Utf8.{codes, from_utf8_lossy}
use hive_core_v.Worker.Server.Sanitize.{sanitize_response_headers}
use hive_core_v.Shared.Wire.Text.{trim_end, trim}
use hive_core_v.Shared.Wire.Stream.{
  Action, Reader, Writer, read_line, read_exact, read_to_end, write_all, flush, invalid_data,
}
use hive_core_v.Shared.Wire.Stream.Progress.{
  finishes, left, IsTotal, IsShrinking, zero-IsTotal, elim-IsTotal, if-IsTotal, after-finishes,
  >>=-IsTotal, shrinking-IsTotal, pure-IsTotal, or_raise-IsTotal, read_line-IsTotal,
  read_exact-IsTotal, read_to_end-IsTotal, write_all-finishes,
}
use hive_core_v.Worker.Server.Chunks.{
  some_line, Head, no_head, read_head, parse_chunk_size, parse_status_code,
}
use hive_core_v.Worker.Server.Scanner.{UsageLineScanner, push, finish}
use hive_core_v.Worker.Server.Scanner
use hive_core_v.Worker.Server.Relay.{
  Relay, ResponseCaptureBuilder, push_event, fuel_of, relay_chunk_trailers, writing, reading,
  capturing, write_parts, empty_response, write_empty_response,
}
use hive_core_v.Worker.Server.Relay.Body.{
  relay_chunk, relay_chunks, relay_chunked_body, relay_fixed_body, relay_body_to_end, relay_body,
  relay_head, bad_gateway, relay_response, proxy_worker_response_with_capture,
}
use hive_core_v.Worker.Server.Progress.{some_line-IsShrinking, read_head-IsTotal}

module _ {V : Type 0} where
  -- What is left of the worker's answer.
  abbrev pub unread : Relay V → ℕ
  unread s = left s.reader

  reading-IsTotal :
      {A : Type 0} (n : ℕ) (m : Action Reader A)
      → IsTotal left n m
      → IsTotal unread n (reading {V = V} m)
  reading-IsTotal n m t = record { total = λ s lt. t.total s.reader lt }

  writing-IsTotal :
      {A : Type 0} (n : ℕ) (m : Action Writer A)
      → ((w : Writer) → finishes (m w).0 ≡ true)
      → IsTotal unread n (writing {V = V} m)
  writing-IsTotal n m t = record { total = λ s lt. (t s.client, omega arith) }

  capturing-IsTotal :
      (n : ℕ) (f : ResponseCaptureBuilder V → ResponseCaptureBuilder V)
      → IsTotal unread n (capturing f)
  capturing-IsTotal n f = record { total = λ s lt. (refl, omega arith) }

  write-IsTotal : (n : ℕ) (bs : List ℕ) → IsTotal unread n (writing {V = V} (write_all bs))
  write-IsTotal n bs = writing-IsTotal n (write_all bs) (write_all-finishes bs)

  some_line-IsTaken : IsShrinking unread (reading {V = V} some_line)
  some_line-IsTaken = record { shrinks = λ s. some_line-IsShrinking.shrinks s.reader }

  relay_chunk_trailers-IsTotal :
      (fuel : ℕ) → IsTotal unread fuel (relay_chunk_trailers {V = V} fuel)
  unfolding relay_chunk_trailers
  relay_chunk_trailers-IsTotal zero = zero-IsTotal unread _
  relay_chunk_trailers-IsTotal (suc fuel) = shrinking-IsTotal unread fuel some_line-IsTaken λ line.
      >>=-IsTotal unread fuel (write-IsTotal fuel line.raw) λ u.
        elim-IsTotal unread fuel (is_empty (trim_end line.text)) (pure-IsTotal unread fuel tt)
          (relay_chunk_trailers-IsTotal fuel)

write_parts-finishes : (ps : List (List ℕ)) (w : Writer) → finishes (write_parts ps w).0 ≡ true
unfolding flush
write_parts-finishes [] w = write_all-finishes [] w
write_parts-finishes (p ∷ ps) w =
    after-finishes _ (write_all p w) (write_all-finishes p w)
      λ u. write_parts-finishes ps (write_all p w).1

write_empty_response-finishes :
    (code : ℕ) (reason : String) (w : Writer)
    → finishes (write_empty_response code reason w).0 ≡ true
unfolding write_empty_response
write_empty_response-finishes code reason w = write_parts-finishes (empty_response code reason) w

module _ (json : Json) where
  open json use {Value}

  relay_chunk-IsTotal : (n size : ℕ) → IsTotal unread n (relay_chunk json size)
  unfolding relay_chunk
  relay_chunk-IsTotal n size =
      >>=-IsTotal unread n (reading-IsTotal n (read_exact size) (read_exact-IsTotal n size)) λ body.
        >>=-IsTotal unread n (write-IsTotal n body) λ u.
          let note = push_event (length body) (capture_body json body) in
          >>=-IsTotal unread n (capturing-IsTotal n note) λ v.
            >>=-IsTotal unread n (reading-IsTotal n (read_exact 2) (read_exact-IsTotal n 2))
              λ crlf. >>=-IsTotal unread n (write-IsTotal n crlf) λ w. pure-IsTotal unread n body

  relay_chunks-IsTotal :
      (fuel : ℕ) (scanner : UsageLineScanner) → IsTotal unread fuel (relay_chunks json fuel scanner)
  unfolding relay_chunks
  relay_chunks-IsTotal zero scanner = zero-IsTotal unread _
  relay_chunks-IsTotal (suc fuel) scanner = shrinking-IsTotal unread fuel some_line-IsTaken λ line.
      >>=-IsTotal unread fuel (write-IsTotal fuel line.raw) λ u.
        >>=-IsTotal unread fuel
          (or_raise-IsTotal unread fuel (parse_chunk_size line.text) invalid_data)
          λ size.
            elim-IsTotal unread fuel (size == 0)
              (>>=-IsTotal unread fuel (relay_chunk_trailers-IsTotal fuel)
                λ v. pure-IsTotal unread fuel scanner)
              (>>=-IsTotal unread fuel (relay_chunk-IsTotal fuel size)
                λ body. relay_chunks-IsTotal fuel (push json body scanner))

  relay_chunked_body-IsTotal : (fuel : ℕ) → IsTotal unread fuel (relay_chunked_body json fuel)
  unfolding relay_chunked_body
  relay_chunked_body-IsTotal fuel =
      >>=-IsTotal unread fuel (relay_chunks-IsTotal fuel Scanner.default)
        λ scanner. pure-IsTotal unread fuel (finish json scanner)

  abbrev usage_in : List ℕ → Option TokenUsage
  usage_in body = parse_usage_json json (from_utf8_lossy body)

  relay_fixed_body-IsTotal : (n k : ℕ) → IsTotal unread n (relay_fixed_body json k)
  unfolding relay_fixed_body
  relay_fixed_body-IsTotal n k =
      >>=-IsTotal unread n (reading-IsTotal n (read_exact k) (read_exact-IsTotal n k)) λ body.
        >>=-IsTotal unread n (write-IsTotal n body) λ u.
          let note : ResponseCaptureBuilder Value → ResponseCaptureBuilder Value =
            λ c. record c { transfer = fixed_length; body = some (capture_body json body) } in
          >>=-IsTotal unread n (capturing-IsTotal n note) λ v. pure-IsTotal unread n (usage_in body)

  relay_body_to_end-IsTotal : (n : ℕ) → IsTotal unread n (relay_body_to_end json)
  unfolding relay_body_to_end
  relay_body_to_end-IsTotal n =
      >>=-IsTotal unread n (reading-IsTotal n read_to_end (read_to_end-IsTotal n)) λ body.
        >>=-IsTotal unread n (write-IsTotal n body) λ u.
          let note : ResponseCaptureBuilder Value → ResponseCaptureBuilder Value = λ c. record c {
            transfer = if is_empty body then empty else until_eof;
            body = some (capture_body json body);
          } in
          >>=-IsTotal unread n (capturing-IsTotal n note) λ v. pure-IsTotal unread n (usage_in body)

  relay_body-IsTotal : (fuel : ℕ) (h : Head) → IsTotal unread fuel (relay_body json fuel h)
  unfolding relay_body
  relay_body-IsTotal fuel h = elim (Bool-cases h.chunked) [
    | inl c ↦ rw c (
        let note : ResponseCaptureBuilder Value → ResponseCaptureBuilder Value =
          λ c. record c { transfer = chunked } in
        >>=-IsTotal unread fuel (capturing-IsTotal fuel note) λ u. relay_chunked_body-IsTotal fuel)
    | inr c ↦ rw c (elim (Option-cases h.content_length) [
      | inl n ↦ rw n (relay_body_to_end-IsTotal fuel)
      | inr (k, n) ↦ rw n (relay_fixed_body-IsTotal fuel k)
    ])
  ]

  relay_response-IsTotal : (fuel : ℕ) → IsTotal unread fuel (relay_response json fuel)
  unfolding relay_response relay_head bad_gateway flush
  relay_response-IsTotal fuel =
      >>=-IsTotal unread fuel (reading-IsTotal fuel read_line (read_line-IsTotal fuel)) λ line.
        if-IsTotal unread fuel (is_empty (trim line.text))
          (>>=-IsTotal unread fuel
            (writing-IsTotal fuel (write_empty_response 502 "Bad Gateway")
              (write_empty_response-finishes 502 "Bad Gateway"))
            λ u.
              let note : ResponseCaptureBuilder Value → ResponseCaptureBuilder Value = λ c.
                record c { status_line = codes "HTTP/1.1 502 Bad Gateway"; transfer = empty } in
              let answer : ℕ × Option TokenUsage = (502, none) in
              >>=-IsTotal unread fuel (capturing-IsTotal fuel note)
                λ v. pure-IsTotal unread fuel answer)
          (>>=-IsTotal unread fuel
            (>>=-IsTotal unread fuel
              (reading-IsTotal fuel (read_head fuel no_head) (read_head-IsTotal fuel no_head))
              λ head.
                let note : ResponseCaptureBuilder Value → ResponseCaptureBuilder Value =
                  λ c. record c { status_line = trim_end line.text; headers = head.headers } in
                >>=-IsTotal unread fuel (capturing-IsTotal fuel note) λ v.
                  >>=-IsTotal unread fuel
                    (write-IsTotal fuel (
                      line.raw
                      ++ sanitize_response_headers head.chunked head.headers
                      ++ 13 ∷ 10 ∷ []))
                    λ w. pure-IsTotal unread fuel head)
            λ head. >>=-IsTotal unread fuel (relay_body-IsTotal fuel head) λ usage.
              >>=-IsTotal unread fuel (write-IsTotal fuel [])
                λ w. pure-IsTotal unread fuel (parse_status_code line.text, usage))

  pub proxy_worker_response-finishes :
      (s : Relay Value) → finishes (proxy_worker_response_with_capture json s).0 ≡ true
  unfolding proxy_worker_response_with_capture
  proxy_worker_response-finishes s =
      ((relay_response-IsTotal (fuel_of s.reader)).total s (omega arith)).0

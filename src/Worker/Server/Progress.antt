-- ===== src/Worker/Server/Progress.antt =====
-- Every loop over a worker's answers ends before the model's fuel does.
pub mod Relay
pub mod Round
use hive_core_v.Base.{
  ℕ, zero, suc, ◌<◌, ◌≤◌, ◌≡◌, refl, ◌∙◌, Bool, true, false, Option, none, some, List, [], ◌++◌,
  is_empty, length, ◌==◌, if◌then◌else◌, arith, Bool-cases, Option-cases, inl, inr,
}
use hive_core_v.Shared.Wire.Text.{trim_end, trim}
use hive_core_v.Shared.Wire.Stream.{
  Outcome, ok, err, unfinished, Reader, Line, read_line, read_exact, pure, Action, raise, after,
  unexpected_eof, or_raise, invalid_data,
}
use hive_core_v.Shared.Wire.Stream.Progress.{
  finishes, is_ok, left, IsTotal, IsShrinking, elim-IsTotal, if-IsTotal, zero-IsTotal, >>=-IsTotal,
  shrinking-IsTotal, pure-IsTotal, or_raise-IsTotal, read_line-IsTotal, read_line-shorter,
  read_exact-IsTotal,
}
use hive_core_v.Worker.Server.Chunks.{
  some_line, Head, no_head, note_line, read_head, parse_status_code, parse_chunk_size,
  discard_chunk_trailers,
}
use hive_core_v.Worker.Server.Relay.{fuel_of}
use hive_core_v.Worker.Server.Relay.Kept.{
  collect_chunks, read_body, capture_response, capture_worker_response,
}

there : Line → Action Reader Line
there l = if is_empty l.raw then raise unexpected_eof else pure l

there-shrinking :
    (r : Reader) (p : Outcome Line × Reader)
    → read_line r ≡ p
    → (finishes (after there p).0 ≡ true)
      × (left (after there p).1 ≤ left r)
      × (is_ok (after there p).0 ≡ true → left (after there p).1 < left r)
unfolding there
there-shrinking r (ok l, s) e =
    ground (arith, (read_line-IsTotal (suc (left r))).total r (omega arith), read_line-shorter r l)
there-shrinking r (err k, s) e =
    ground (arith, (read_line-IsTotal (suc (left r))).total r (omega arith))
there-shrinking r (unfinished, s) e =
    ground (arith, (read_line-IsTotal (suc (left r))).total r (omega arith))

-- A line that must be there leaves fewer bytes.
pub some_line-IsShrinking : IsShrinking left some_line
unfolding there
some_line-IsShrinking = record { shrinks = λ r. there-shrinking r (read_line r) refl }

pub read_head-IsTotal : (fuel : ℕ) (h : Head) → IsTotal left fuel (read_head fuel h)
unfolding read_head
read_head-IsTotal zero h = zero-IsTotal left _
read_head-IsTotal (suc fuel) h = shrinking-IsTotal left fuel some_line-IsShrinking λ line.
    elim-IsTotal left fuel (is_empty (trim_end line.text)) (pure-IsTotal left fuel h)
      (read_head-IsTotal fuel (note_line (trim_end line.text) h))

pub discard_chunk_trailers-IsTotal : (fuel : ℕ) → IsTotal left fuel (discard_chunk_trailers fuel)
unfolding discard_chunk_trailers
discard_chunk_trailers-IsTotal zero = zero-IsTotal left _
discard_chunk_trailers-IsTotal (suc fuel) =
    shrinking-IsTotal left fuel some_line-IsShrinking λ line.
      elim-IsTotal left fuel (is_empty (trim_end line.text)) (pure-IsTotal left fuel tt)
        (discard_chunk_trailers-IsTotal fuel)

collect_chunks-IsTotal : (fuel : ℕ) (body : List ℕ) → IsTotal left fuel (collect_chunks fuel body)
unfolding collect_chunks
collect_chunks-IsTotal zero body = zero-IsTotal left _
collect_chunks-IsTotal (suc fuel) body = shrinking-IsTotal left fuel some_line-IsShrinking λ line.
    >>=-IsTotal left fuel (or_raise-IsTotal left fuel (parse_chunk_size line.text) invalid_data)
      λ size.
        elim-IsTotal left fuel (size == 0)
          (>>=-IsTotal left fuel (discard_chunk_trailers-IsTotal fuel)
            λ u. pure-IsTotal left fuel body)
          (>>=-IsTotal left fuel (read_exact-IsTotal fuel size) λ chunk.
            >>=-IsTotal left fuel (read_exact-IsTotal fuel 2)
              λ crlf. collect_chunks-IsTotal fuel (body ++ chunk))

read_body-IsTotal : (fuel : ℕ) (h : Head) → IsTotal left fuel (read_body fuel h)
unfolding read_body
read_body-IsTotal fuel h = elim (Bool-cases h.chunked) [
  | inl c ↦ rw c (collect_chunks-IsTotal fuel [])
  | inr c ↦ rw c (elim (Option-cases h.content_length) [
    | inl n ↦ let nothing : List ℕ = [] in rw n (pure-IsTotal left fuel nothing)
    | inr (k, n) ↦ rw n (read_exact-IsTotal fuel k)
  ])
]

capture_response-IsTotal : (fuel : ℕ) → IsTotal left fuel (capture_response fuel)
unfolding capture_response
capture_response-IsTotal fuel = >>=-IsTotal left fuel (read_line-IsTotal fuel) λ line.
    if-IsTotal left fuel (is_empty (trim line.text)) (pure-IsTotal left fuel _) (
      >>=-IsTotal left fuel (read_head-IsTotal fuel no_head) λ head.
        >>=-IsTotal left fuel (read_body-IsTotal fuel head) λ body. pure-IsTotal left fuel _)

pub capture_worker_response-finishes : (r : Reader) → finishes (capture_worker_response r).0 ≡ true
unfolding capture_worker_response
capture_worker_response-finishes r =
    ((capture_response-IsTotal (fuel_of r)).total r (omega arith)).0

-- ===== src/Worker/Server/Chunks.antt =====
-- The parts of an HTTP answer that the relay and the capture of an answer share: the status, the
-- head, chunk sizes and trailers.
use hive_core_v.Base.{
  ℕ, zero, suc, Bool, true, false, ◌&&◌, ◌||◌, Option, none, some, List, [], ◌∷◌, ◌++◌, any,
  is_empty, if◌then◌else◌, ◌≡◌, refl,
}
use hive_core_v.Shared.Http.Text.{and_then}
use hive_core_v.Shared.Wire.Utf8.{codes}
use hive_core_v.Shared.Wire.Text.{
  trim, trim_end, split, split_once, split_whitespace, to_ascii_lowercase, eq_ignore_ascii_case,
  text_eq, from_str_radix, u16_max, u64_max,
}
use hive_core_v.Shared.Wire.Stream.{
  Line, Action, ◌>>=◌, pure, raise, unfinished, unexpected_eof, Reader, read_line,
}

abbrev pub second_part : List (List ℕ) → Option (List ℕ)
second_part [] = none
second_part (p ∷ []) = none
second_part (p ∷ q ∷ ps) = some q

abbrev pub or_500 : Option ℕ → ℕ
or_500 none = 500
or_500 (some code) = code

unfoldable pub parse_status_code : List ℕ → ℕ
unfolding trim_end split_whitespace from_str_radix
parse_status_code status_line = or_500 (
    and_then (second_part (split_whitespace (trim_end status_line)))
      λ value. from_str_radix 10 u16_max value)

unfoldable pub transfer_encoding_is_chunked : List ℕ → Bool
unfolding split trim eq_ignore_ascii_case
transfer_encoding_is_chunked value =
    any (λ part. eq_ignore_ascii_case (trim part) (codes "chunked")) (split 44 value)

-- What the head says: the fields in their order, the last length and whether a field says
-- `chunked`.
pub record Head : Type 0 where
  pub headers : List (List ℕ × List ℕ)
  pub content_length : Option ℕ
  pub chunked : Bool

abbrev pub no_head : Head
no_head = record { headers = []; content_length = none; chunked = false }

unfoldable pub note_header : List ℕ → List ℕ → Head → Head
unfolding trim to_ascii_lowercase from_str_radix transfer_encoding_is_chunked
note_header name0 value0 h =
    let lower = to_ascii_lowercase (trim name0) in
    let value = trim value0 in
    record {
      headers = h.headers ++ (trim name0, value) ∷ [];
      content_length =
          if text_eq lower (codes "content-length")
          then from_str_radix 10 u64_max value
          else h.content_length;
      chunked =
          h.chunked
          || text_eq lower (codes "transfer-encoding") && transfer_encoding_is_chunked value;
    }

abbrev pub note_line : List ℕ → Head → Head
note_line line h = elim (split_once 58 line) [
  | none ↦ h
  | some (name, value) ↦ note_header name value h
]

-- Reads one line that must be there.
abbrev pub some_line : Action Reader Line
some_line = read_line >>= λ line. if is_empty line.raw then raise unexpected_eof else pure line

unfoldable pub read_head : ℕ → Head → Action Reader Head
unfolding read_line trim_end split_once note_header
read_head zero h r = (unfinished, r)
read_head (suc fuel) h r =
    (some_line >>= λ line. elim (is_empty (trim_end line.text)) [
      | true ↦ pure h
      | false ↦ read_head fuel (note_line (trim_end line.text) h)
    ])
      r

abbrev pub first_part : List (List ℕ) → List ℕ
first_part [] = []
first_part (p ∷ ps) = p

-- `none` is the error `InvalidData`.
unfoldable pub parse_chunk_size : List ℕ → Option ℕ
unfolding trim trim_end split from_str_radix
parse_chunk_size size_line =
    from_str_radix 16 u64_max (trim (first_part (split 59 (trim_end size_line))))

unfoldable pub discard_chunk_trailers : ℕ → Action Reader (Unit {0})
unfolding read_line trim_end
discard_chunk_trailers zero r = (unfinished, r)
discard_chunk_trailers (suc fuel) r =
    (some_line >>= λ line. elim (is_empty (trim_end line.text)) [
      | true ↦ pure tt
      | false ↦ discard_chunk_trailers fuel
    ])
      r

chunks-tests :
    (parse_status_code (codes "HTTP/1.1 404 Not Found\r\n") ≡ 404)
    × (parse_status_code (codes "HTTP/1.1\r\n") ≡ 500)
    × (parse_chunk_size (codes "1a;x=y\r\n") ≡ some 26)
    × (parse_chunk_size (codes "\r\n") ≡ none)
    × (transfer_encoding_is_chunked (codes "gzip, Chunked") ≡ true)
unfolding parse_status_code parse_chunk_size transfer_encoding_is_chunked
chunks-tests = (refl, refl, refl, refl, refl)

-- ===== src/Shared/Http/Frame.antt =====
-- Requests on the wire: `read_request_from_reader`, `serialize_request` and `write_framed_request` of
-- src/shared/http/mod.rs.
pub mod Progress
use hive_core_v.Base.{
  ℕ, zero, suc, ◌/◌, ◌%◌, ◌^◌, String, str_eq, string_eq, true, false, Option, none, some, List, [],
  ◌∷◌, ◌++◌, length, is_empty, if◌then◌else◌,
}
use hive_core_v.Base.HashMap
use hive_core_v.Base.HashMap.{HashMap}
use hive_core_v.Shared.Http.Request.{HttpRequest, new}
use hive_core_v.Shared.Http.Text.{as_bytes, and_then}
use hive_core_v.Shared.Wire.Utf8.{codes, text_of}
use hive_core_v.Shared.Wire.Text.{
  trim, trim_end, split_once, split_whitespace, to_ascii_lowercase, from_str_radix, u64_max,
}
use hive_core_v.Shared.Wire.Stream.{
  Action, ◌>>=◌, ◌>>◌, pure, raise, unfinished, unexpected_eof, invalid_data, Reader, Writer,
  read_line, read_limited, write_all, flush,
}

unfoldable pub note_field : List ℕ → HashMap String String → HashMap String String
unfolding split_once trim to_ascii_lowercase text_of
note_field line m = elim (split_once 58 line) [
  | none ↦ m
  | some (name, value) ↦
      HashMap.insert (text_of (to_ascii_lowercase (trim name))) (text_of (trim value)) m
]

-- The end of the stream ends the fields too.
unfoldable pub read_fields : ℕ → HashMap String String → Action Reader (HashMap String String)
unfolding read_line trim_end note_field
read_fields zero m r = (unfinished, r)
read_fields (suc fuel) m r =
    (read_line >>= λ line. elim (is_empty (trim_end line.text)) [
      | true ↦ pure m
      | false ↦ read_fields fuel (note_field (trim_end line.text) m)
    ])
      r

abbrev pub content_length : HashMap String String → Option ℕ
content_length m =
    and_then (HashMap.get "content-length" m) λ value. from_str_radix 10 u64_max (codes value)

abbrev pub field_lines : HashMap String String → List ℕ
field_lines [] = []
field_lines ((name, value) ∷ m) =
    as_bytes name ++ as_bytes ": " ++ as_bytes value ++ as_bytes "\r\n" ++ field_lines m

module _ {V : Type 0} where
  -- The fields and the body of a request in another protocol than HIVE.
  unfoldable pub read_rest : ℕ → String → String → String → Action Reader (HttpRequest V)
  unfolding read_fields from_str_radix read_limited new
  read_rest fuel method uri protocol = do
    headers ← read_fields fuel []
    elim (content_length headers) [
      | none ↦ pure (new method uri protocol headers [])
      | some n ↦ do body ← read_limited n; pure (new method uri protocol headers body)
    ]

  abbrev pub read_words : ℕ → List (List ℕ) → Action Reader (HttpRequest V)
  unfolding read_rest new text_of
  read_words fuel [] = raise unexpected_eof
  read_words fuel (method ∷ uri ∷ protocol ∷ []) =
      if str_eq (text_of protocol) "HIVE"
      then pure (new (text_of method) (text_of uri) (text_of protocol) [] [])
      else read_rest fuel (text_of method) (text_of uri) (text_of protocol)
  read_words fuel _ = raise invalid_data

  unfoldable pub read_request : ℕ → Action Reader (HttpRequest V)
  unfolding read_line trim split_whitespace read_rest new text_of
  read_request fuel = do line ← read_line; read_words fuel (split_whitespace (trim line.text))

  -- The fuel of the loop over the fields is more than the bytes that are left.
  unfoldable pub read_request_from_reader : Action Reader (HttpRequest V)
  unfolding read_request
  read_request_from_reader r = read_request (suc (length r.bytes)) r

  unfoldable pub serialize_request : HttpRequest V → List ℕ
  unfolding as_bytes
  serialize_request r =
      as_bytes r.method
      ++ 32 ∷ as_bytes r.uri
      ++ 32 ∷ as_bytes r.protocol
      ++ 13
        ∷ 10
        ∷ (if str_eq r.protocol "HIVE" then [] else field_lines r.headers ++ 13 ∷ 10 ∷ r.body)

-- `u32::to_be_bytes`
unfoldable pub to_be_bytes : ℕ → List ℕ
to_be_bytes n = n / 2 ^ 24 % 256 ∷ n / 2 ^ 16 % 256 ∷ n / 2 ^ 8 % 256 ∷ n % 256 ∷ []

unfoldable pub write_framed_request : List ℕ → Action Writer (Unit {0})
unfolding to_be_bytes write_all flush
write_framed_request bytes = write_all (to_be_bytes (length bytes % 2 ^ 32) ++ bytes) >> flush

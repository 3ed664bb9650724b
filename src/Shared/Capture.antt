-- ===== src/Shared/Capture.antt =====
-- src/shared/capture: what is recorded of a request and of an answer.
pub mod Redact
use hive_core_v.Base.{
  ℕ, ◌+◌, ◌/◌, ◌%◌, String, Bool, ◌||◌, Option, none, some, List, [], ◌∷◌, ltb, if◌then◌else◌, ◌≡◌,
  refl, Bool-cases, inl, inr, str_eq, eq_iff, string_eq, ap, ◌∙◌, any, arith,
}
use hive_core_v.Base.HashMap
use hive_core_v.Base.HashMap.{HashMap}
use hive_core_v.Shared.Http.Json.{Json}
use hive_core_v.Shared.Http.Request.{HttpRequest}
use hive_core_v.Shared.Wire.Utf8.{codes, from_utf8, from_utf8_lossy}
use hive_core_v.Shared.Wire.Text.{to_ascii_lowercase, text_eq, eq_ignore_ascii_case}

pub data ResponseTransfer : Type 0 where
  fixed_length chunked until_eof empty : ResponseTransfer

pub record CapturedBody (Value : Type 0) : Type 0 where
  pub encoding : String
  pub text : List ℕ
  pub json : Option Value

pub record CapturedHttpRequest (Value : Type 0) : Type 0 where
  pub method : String
  pub uri : String
  pub protocol : String
  pub headers : HashMap String String
  pub body : CapturedBody Value

pub record CapturedStreamEvent (Value : Type 0) : Type 0 where
  pub index : ℕ
  pub chunk_size : ℕ
  pub body : CapturedBody Value

pub record CapturedResponse (Value : Type 0) : Type 0 where
  pub status_line : List ℕ
  pub status_code : ℕ
  pub headers : List (List ℕ × List ℕ)
  pub transfer : ResponseTransfer
  pub body : Option (CapturedBody Value)
  pub events : List (CapturedStreamEvent Value)
  pub derived : Option Value

abbrev hex_digit : ℕ → ℕ
hex_digit d = if ltb d 10 then 48 + d else 87 + d

unfoldable pub encode_hex : List ℕ → List ℕ
encode_hex [] = []
encode_hex (b ∷ bs) = hex_digit (b / 16) ∷ hex_digit (b % 16) ∷ encode_hex bs

unfoldable pub sensitive_header : String → Bool
unfolding to_ascii_lowercase
sensitive_header name =
    let lower = to_ascii_lowercase (codes name) in
    text_eq lower (codes "authorization")
    || text_eq lower (codes "api-key")
    || text_eq lower (codes "x-api-key")

unfoldable pub sanitize_headers : HashMap String String → HashMap String String
unfolding sensitive_header
sanitize_headers [] = []
sanitize_headers ((name, value) ∷ m) =
    (name, if sensitive_header name then "[redacted]" else value) ∷ sanitize_headers m

module _ (json : Json) where
  open json use {Value, from_slice}

  unfoldable pub capture_body : List ℕ → CapturedBody Value
  unfolding from_utf8 from_utf8_lossy encode_hex
  capture_body bytes = elim (from_slice bytes) [
    | some v ↦ record { encoding = "utf8"; text = from_utf8_lossy bytes; json = some v }
    | none ↦ elim (from_utf8 bytes) [
      | some text ↦ record { encoding = "utf8"; text = text; json = none }
      | none ↦ record { encoding = "hex"; text = encode_hex bytes; json = none }
    ]
  ]

  unfoldable pub capture_request : HttpRequest Value → CapturedHttpRequest Value
  unfolding sanitize_headers capture_body
  capture_request r = record {
    method = r.method;
    uri = r.uri;
    protocol = r.protocol;
    headers = sanitize_headers r.headers;
    body = capture_body r.body;
  }

-- A name of the fields that carry a secret, in any case of its letters.
abbrev pub is_sensitive : String → Bool
is_sensitive name =
    any (λ s. eq_ignore_ascii_case (codes name) (codes s))
      ("authorization" ∷ "api-key" ∷ "x-api-key" ∷ [])

abbrev pub redacted : String → Option String → Option String
redacted name none = none
redacted name (some value) = some (if is_sensitive name then "[redacted]" else value)

sensitive_header_lem : (name : String) → sensitive_header name ≡ is_sensitive name
unfolding sensitive_header eq_ignore_ascii_case
sensitive_header_lem name = ground arith

get-sanitize_headers :
    (name : String) (m : HashMap String String)
    → HashMap.get name (sanitize_headers m) ≡ redacted name (HashMap.get name m)
unfolding HashMap.get sanitize_headers
get-sanitize_headers name [] = refl
get-sanitize_headers name ((n, v) ∷ m) = elim (Bool-cases (str_eq n name)) [
  | inl hit ↦ rw hit (
      ap (λ (x : String). some (if sensitive_header x then "[redacted]" else v))
        ((eq_iff n name).0 hit)
      ∙ ap (λ b. some (if b then "[redacted]" else v)) (sensitive_header_lem name))
  | inr miss ↦ rw miss (get-sanitize_headers name m)
]

-- In what is captured of a request every field whose name is `authorization`, `api-key` or
-- `x-api-key`, where ASCII letters are compared without their case, has the mark of a redacted
-- value in place of its own, and every other field is as it was sent.
pub capture_request-headers :
    (json : Json) (r : HttpRequest (json.Value)) (name : String)
    → HashMap.get name (capture_request json r).headers ≡ redacted name (HashMap.get name r.headers)
unfolding capture_request
capture_request-headers json r name = get-sanitize_headers name r.headers

capture-tests :
    (encode_hex (255 ∷ 10 ∷ []) ≡ codes "ff0a")
    × (sanitize_headers (("Api-Key", "t") ∷ ("host", "h") ∷ [])
        ≡ ("Api-Key", "[redacted]") ∷ ("host", "h") ∷ [])
unfolding encode_hex sanitize_headers
capture-tests = (refl, refl)

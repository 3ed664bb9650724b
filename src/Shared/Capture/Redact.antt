-- ===== src/Shared/Capture/Redact.antt =====
-- `redact_embedding_vectors`: embedding vectors are replaced by their counts. `serde_json` reads no
-- value of more than 128 levels, so this fuel reaches every part of a body that was read.
use hive_core_v.Base.{
  ℕ, zero, suc, String, string_eq, Bool, true, false, Option, none, some, List, [], ◌∷◌, map,
  length, if◌then◌else◌,
}
use hive_core_v.Base.HashMap
use hive_core_v.Base.HashMap.{HashMap}
use hive_core_v.Shared.Http.Json.{Json}
use hive_core_v.Shared.Capture.{CapturedBody, CapturedResponse, CapturedStreamEvent}

abbrev pub recursion_limit : ℕ
recursion_limit = 128

module _ (json : Json) where
  open json use {Value, as_array, as_object, as_number, to_string, bool, number, object, array}

  abbrev first_value : List Value → Option Value
  first_value [] = none
  first_value (v ∷ vs) = some v

  abbrev is_array : Value → Bool
  is_array v = elim (as_array v) [ none ↦ false | some l ↦ true ]

  abbrev pub dimensions : List Value → ℕ
  dimensions values = elim (first_value values) [
    | none ↦ 0
    | some v ↦ elim (as_array v) [
      | some inner ↦ length inner
      | none ↦ if as_number v then length values else 0
    ]
  ]

  abbrev pub vectors : List Value → ℕ
  vectors values = elim (first_value values) [
    | none ↦ 1
    | some v ↦ if is_array v then length values else 1
  ]

  unfoldable pub embedding_redaction : Value → Value
  embedding_redaction v = elim (as_array v) [
    | some values ↦ object (
        ("count", number (vectors values))
        ∷ ("dimensions", number (dimensions values))
        ∷ ("redacted", bool true)
        ∷ [])
    | none ↦ object (("redacted", bool true) ∷ [])
  ]

  unfoldable pub redact_fields : List String → HashMap String Value → HashMap String Value
  unfolding embedding_redaction
  redact_fields [] o = o
  redact_fields (key ∷ keys) o = redact_fields keys (elim (HashMap.get key o) [
    | none ↦ o
    | some v ↦ HashMap.insert key (embedding_redaction v) o
  ])

  abbrev pub map_values : (Value → Value) → HashMap String Value → HashMap String Value
  map_values f [] = []
  map_values f ((key, v) ∷ m) = (key, f v) ∷ map_values f m

  unfoldable pub redact_embedding_value : ℕ → Value → Value
  unfolding redact_fields
  redact_embedding_value zero v = v
  redact_embedding_value (suc fuel) v = elim (as_object v) [
    | some o ↦ object (
        map_values (redact_embedding_value fuel)
          (redact_fields ("embedding" ∷ "embeddings" ∷ []) o))
    | none ↦ elim (as_array v) [
      | some values ↦ array (map (redact_embedding_value fuel) values)
      | none ↦ v
    ]
  ]

  -- The text of a value that cannot be printed stays.
  unfoldable pub redact_embedding_body : CapturedBody Value → CapturedBody Value
  unfolding redact_embedding_value
  redact_embedding_body b = elim b.json [
    | none ↦ b
    | some v ↦
        let redacted = redact_embedding_value recursion_limit v in
        record b {
          text = elim (to_string redacted) [ none ↦ b.text | some t ↦ t ];
          json = some redacted;
        }
  ]

  abbrev pub redact_event : CapturedStreamEvent Value → CapturedStreamEvent Value
  redact_event e = record e { body = redact_embedding_body e.body }

  unfoldable pub redact_embedding_vectors : CapturedResponse Value → CapturedResponse Value
  unfolding redact_embedding_body
  redact_embedding_vectors r = record r {
    body = elim r.body [ none ↦ none | some b ↦ some (redact_embedding_body b) ];
    events = map redact_event r.events;
  }

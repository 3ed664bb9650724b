-- ===== src/Shared/Http/TokenUsage.antt =====
-- `TokenUsage` and its readers of src/shared/http/mod.rs.
use mathlib.Core.List.{reverse}
use hive_core_v.Base.{
  ℕ, ◌+◌, ◌-◌, ◌%◌, ◌^◌, ◌||◌, String, Bool, Option, none, some, List, [], ◌∷◌, is_empty,
  if◌then◌else◌,
}
use hive_core_v.Shared.Http.Json.{Json}
use hive_core_v.Shared.Http.Text.{or_else, and_then}
use hive_core_v.Shared.Wire.Utf8.{codes}
use hive_core_v.Shared.Wire.Text.{trim, lines, strip_prefix, text_eq}

pub record TokenUsage : Type 0 where
  pub prompt_tokens : ℕ
  pub completion_tokens : ℕ
  pub total_tokens : ℕ

abbrev pub or_value : {A : Type 0} → A → Option A → A
or_value a none = a
or_value a (some b) = b

abbrev pub minus : ℕ → Option ℕ → Option ℕ
minus n none = none
minus n (some total) = some (total - n)

-- Sums of a `u64` wrap around.
abbrev pub add_u64 : ℕ → ℕ → ℕ
add_u64 a b = (a + b) % 2 ^ 64

-- No JSON: nothing, and the mark of the end of a stream.
abbrev pub is_blank : List ℕ → Bool
is_blank s = is_empty s || text_eq s (codes "[DONE]")

abbrev pub without_data : List ℕ → List ℕ
without_data s = elim (strip_prefix (codes "data:") s) [ none ↦ s | some rest ↦ trim rest ]

module _ (json : Json) where
  open json use {Value, from_str, get, as_u64}

  abbrev pub field_u64 : Value → String → Option ℕ
  field_u64 v field = and_then (get v field) as_u64

  unfoldable pub parse_openai_usage : Value → Option TokenUsage
  parse_openai_usage usage =
      and_then (and_then (or_else (get usage "prompt_tokens") (get usage "input_tokens")) as_u64)
        λ prompt.
          let completion = or_value 0 (
            or_else
              (and_then (or_else (get usage "completion_tokens") (get usage "output_tokens"))
                as_u64)
              (minus prompt (field_u64 usage "total_tokens"))) in
          some (record {
            prompt_tokens = prompt;
            completion_tokens = completion;
            total_tokens =
                or_value (add_u64 prompt completion)
                  (and_then (or_else (get usage "total_tokens") (get usage "totalTokens")) as_u64);
          })

  unfoldable pub parse_ollama_usage : Value → Option TokenUsage
  parse_ollama_usage v = and_then (field_u64 v "prompt_eval_count") λ prompt.
      let completion = or_value 0 (field_u64 v "eval_count") in
      some (record {
        prompt_tokens = prompt;
        completion_tokens = completion;
        total_tokens = add_u64 prompt completion;
      })

  -- A value with `usage` is read in OpenAI's format only.
  unfoldable pub usage_of : Value → Option TokenUsage
  unfolding parse_openai_usage parse_ollama_usage
  usage_of v = elim (or_else (get v "usage") (and_then (get v "response") (λ r. get r "usage"))) [
    | some usage ↦ parse_openai_usage usage
    | none ↦ or_else (parse_openai_usage v) (parse_ollama_usage v)
  ]

  unfoldable pub parse_usage_value : List ℕ → Option TokenUsage
  unfolding usage_of trim
  parse_usage_value text =
      let candidate = trim text in
      let payload = without_data candidate in
      if is_blank candidate || is_blank payload then none else and_then (from_str payload) usage_of

  unfoldable pub first_usage : List (List ℕ) → Option TokenUsage
  unfolding parse_usage_value
  first_usage [] = none
  first_usage (line ∷ later) = or_else (parse_usage_value line) (first_usage later)

  unfoldable pub parse_usage_json : List ℕ → Option TokenUsage
  unfolding parse_usage_value first_usage lines
  parse_usage_json text = or_else (parse_usage_value text) (first_usage (reverse (lines text)))

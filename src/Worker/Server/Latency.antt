-- ===== src/Worker/Server/Latency.antt =====
-- `NodeLatency` and `parse_latency_uri`.
use hive_core_v.Base.{ℕ, String, Option, none, some, List, [], ◌∷◌, ◌≡◌, refl}
use hive_core_v.Shared.Http.Text.{and_then}
use hive_core_v.Shared.Wire.Utf8.{codes, text_of}
use hive_core_v.Shared.Wire.Text.{trim, split, from_str_radix, u64_max}

pub record NodeLatency : Type 0 where
  pub core_to_node_ms : ℕ
  pub node_to_backend_ms : Option ℕ

abbrev pub part : List (List ℕ) → Option (List ℕ)
part [] = none
part (p ∷ ps) = some p

abbrev pub later_parts : List (List ℕ) → List (List ℕ)
later_parts [] = []
later_parts (p ∷ ps) = ps

abbrev pub or_empty : Option (List ℕ) → List ℕ
or_empty none = []
or_empty (some p) = p

unfoldable pub parse_ms : List (List ℕ) → Option ℕ
unfolding trim from_str_radix
parse_ms parts = and_then (part parts) λ p. from_str_radix 10 u64_max (trim p)

-- The second number is read only behind a first one.
unfoldable pub parse_latency_uri : String → String × Option NodeLatency
unfolding split parse_ms text_of
parse_latency_uri uri =
    let parts = split 59 (codes uri) in
    (
      text_of (or_empty (part parts)),
      elim (parse_ms (later_parts parts)) [
        | none ↦ none
        | some core ↦ some (record {
          core_to_node_ms = core;
          node_to_backend_ms = parse_ms (later_parts (later_parts parts));
        })
      ],
    )

-- The cases of the program's own tests of the function.
latency-tests :
    (parse_latency_uri "tok" ≡ ("tok", none))
    × (parse_latency_uri "tok;12; 7 ;x"
        ≡ ("tok", some (record { core_to_node_ms = 12; node_to_backend_ms = some 7 })))
    × (parse_latency_uri "tok;;7" ≡ ("tok", none))
    × (parse_latency_uri "tok;12;x"
        ≡ ("tok", some (record { core_to_node_ms = 12; node_to_backend_ms = none })))
unfolding parse_latency_uri
latency-tests = (refl, refl, refl, refl)

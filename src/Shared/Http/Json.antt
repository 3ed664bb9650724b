-- ===== src/Shared/Http/Json.antt =====
-- What the program uses of `serde_json`: the type of values, the parser of a body, the accessors,
-- the constructors behind `json!`, and the printers, whose failure is `none`. Bodies are bytes, and
-- texts are the characters' numbers.
use hive_core_v.Base.{ℕ, String, Bool, Option, List}
use hive_core_v.Base.HashMap.{HashMap}

pub record Json : Type 1 where
  pub Value : Type 0
  pub from_slice : List ℕ → Option Value
  pub from_str : List ℕ → Option Value
  pub to_vec : Value → Option (List ℕ)
  pub to_string : Value → Option (List ℕ)
  pub get : Value → String → Option Value
  pub as_str : Value → Option String
  pub as_array : Value → Option (List Value)
  pub as_u64 : Value → Option ℕ
  pub as_number : Value → Bool
  pub as_bool : Value → Option Bool
  pub as_object : Value → Option (HashMap String Value)
  pub string : String → Value
  pub number : ℕ → Value
  pub bool : Bool → Value
  pub array : List Value → Value
  pub object : HashMap String Value → Value

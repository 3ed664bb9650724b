-- ===== src/Auth/Policy.antt =====
-- src/auth/policy.rs: which models a key may use.
mod Split
pub mod Covers
pub mod Access
use Prim.Native.Char.{Char, code}
use hive_core_v.Base.{
  ◌≡◌, refl, String, Bool, true, false, ◌||◌, Option, none, some, any, is_empty, str_eq, ◌==◌,
  if◌then◌else◌,
}
use hive_core_v.Auth.Models.{KeyRecord}

-- `str::contains` of a character
unfoldable pub contains_char : Char → String → Bool
contains_char c String.[] = false
contains_char c (String.◌∷◌ d s) = code d == code c || contains_char c s

-- `str::rsplit_once` of a character: a split at its last occurrence.
unfoldable pub rsplit_once : Char → String → Option (String × String)
rsplit_once c String.[] = none
rsplit_once c (String.◌∷◌ d s) = elim (rsplit_once c s) [
  | some (a, b) ↦ some (String.◌∷◌ d a, b)
  | none ↦ if code d == code c then some (String.[], s) else none
]

unfoldable pub split_model_tag : String → String × Option String
unfolding rsplit_once contains_char
split_model_tag value = elim (rsplit_once ":" value) [
  | some (name, tag) ↦ if contains_char "/" tag then (value, none) else (name, some tag)
  | none ↦ (value, none)
]

unfoldable pub tags_match : Option String → Option String → Bool
tags_match none _ = true
tags_match (some tag) none = str_eq tag "latest"
tags_match (some tag) (some other) = false

unfoldable pub model_rule_matches : String → String → Bool
unfolding tags_match
model_rule_matches rule model =
    if str_eq rule model
    then true
    else (let (rule_name, rule_tag) = split_model_tag rule in
        let (model_name, model_tag) = split_model_tag model in
        if str_eq rule_name model_name then tags_match rule_tag model_tag else false)

unfoldable pub allows_model : KeyRecord → String → Bool
allows_model key model =
    if any (λ entry. model_rule_matches entry model) key.blacklist_models
    then false
    else if is_empty key.whitelist_models
    then true
    else any (λ entry. model_rule_matches entry model) key.whitelist_models

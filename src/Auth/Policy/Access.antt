-- ===== src/Auth/Policy/Access.antt =====
-- `KeyRecord::allows_model` against the description of the rules.
use hive_core_v.Base.{◌≡◌, ◌↔◌, String, true, ◌⊎◌, List, [], Any, any, any_iff, is_empty, arith}
use hive_core_v.Auth.Models.{KeyRecord}
use hive_core_v.Auth.Policy.{model_rule_matches, allows_model}
use hive_core_v.Auth.Policy.Covers.{Covers, model_rule_matches_iff}

-- Some rule of the list covers the model.
abbrev pub Lists : List String → String → Type 0
Lists rules model = Any (λ rule. Covers rule model) rules

abbrev RulesTest : List String → String → Type 0
RulesTest rules model =
    (any (λ entry. model_rule_matches entry model) rules ≡ true) ↔ Lists rules model

RulesTest_lem : (rules : List String) (model : String) → RulesTest rules model
RulesTest_lem rules model =
    any_iff (λ entry. model_rule_matches entry model) (λ r. model_rule_matches_iff r model) rules

is_empty_iff : (rules : List String) → (is_empty rules ≡ true) ↔ (rules ≡ [])
is_empty_iff rules = ground arith

-- A key may use a model exactly if no rule of its blacklist covers the model, and its whitelist
-- is empty or has a rule that covers it.
pub allows_model_iff :
    (key : KeyRecord) (model : String)
    → (allows_model key model ≡ true) ↔ (
        (¬ Lists key.blacklist_models model)
        × ((key.whitelist_models ≡ []) ⊎ Lists key.whitelist_models model))
unfolding allows_model
allows_model_iff key model = ground (
  arith,
  RulesTest_lem key.blacklist_models model,
  RulesTest_lem key.whitelist_models model,
  is_empty_iff key.whitelist_models,
)

-- ===== src/Auth/Policy/Covers.antt =====
-- What a model rule covers, described by the texts alone, and the agreement with the code.

use hive_core_v.Base.{
  ◌≡◌, ◌≢◌, refl, subst, ◌↔◌, String, true, none, inl, inr, str_eq, eq_iff, arith, Bool-cases,
}
use hive_core_v.Auth.Policy.{split_model_tag, model_rule_matches}
use hive_core_v.Auth.Policy.Split.{IsTag, tagged, split-eq-some_iff, split-cases}

-- No part of the name reads as a tag.
abbrev pub IsBare : String → Type 0
IsBare s = (name tag : String) → IsTag tag → s ≢ tagged name tag

-- A rule covers its own text; a bare name covers each of its tags; `name:latest` covers `name`.
pub data Covers : String → String → Type 0 where
  same : {rule model : String} → rule ≡ model → Covers rule model
  any_tag :
      {rule model : String} (tag : String)
      → IsBare rule
      → IsTag tag
      → model ≡ tagged rule tag
      → Covers rule model
  latest : {rule model : String} → IsBare model → rule ≡ tagged model "latest" → Covers rule model

IsBare-of_split : (s : String) → split_model_tag s ≡ (s, none) → IsBare s
IsBare-of_split s e name tag t k = ground (arith, (split-eq-some_iff s name tag).1 (k, t))

split-of_IsBare : (s : String) → IsBare s → split_model_tag s ≡ (s, none)
split-of_IsBare s b = elim (split-cases s) [
  | inl e ↦ e
  | inr (name, tag, e) ↦ let k = (split-eq-some_iff s name tag).0 e in absurd (b name tag k.1 k.0)
]

latest-IsTag : IsTag "latest"
unfolding split_model_tag
latest-IsTag = record { no_colon = refl; no_slash = refl }

Covers-of_matches : (rule model : String) → model_rule_matches rule model ≡ true → Covers rule model
unfolding model_rule_matches
Covers-of_matches rule model h = elim (Bool-cases (str_eq rule model)) [
  | inl e ↦ same ((eq_iff rule model).0 e)
  | inr ne ↦ elim (split-cases rule) [
    | inl r ↦ elim (split-cases model) [
      | inl m ↦ ground arith
      | inr (name, tag, m) ↦
          let k = (split-eq-some_iff model name tag).0 m in
          let q : rule ≡ name = ground (arith, eq_iff rule name) in
          any_tag tag (IsBare-of_split rule r) k.1 (rw q k.0)
    ]
    | inr (name, tag, r) ↦
        let k = (split-eq-some_iff rule name tag).0 r in
        elim (split-cases model) [
          | inl m ↦
              let q : name ≡ model = ground (arith, eq_iff name model) in
              let l : tag ≡ "latest" = ground (arith, eq_iff tag "latest") in
              latest (IsBare-of_split model m)
                (subst (λ t. rule ≡ tagged model t) l (subst (λ n. rule ≡ tagged n tag) q k.0))
          | inr (name', tag', m) ↦ ground arith
        ]
  ]
]

matches-of_Covers : (rule model : String) → Covers rule model → model_rule_matches rule model ≡ true
unfolding model_rule_matches
matches-of_Covers rule model (same e) = ground (arith, eq_iff rule model)
matches-of_Covers rule model (any_tag tag b t e) =
    ground
      (arith, split-of_IsBare rule b, (split-eq-some_iff model rule tag).1 (e, t), eq_iff rule rule)
matches-of_Covers rule model (latest b e) = ground (
  arith,
  split-of_IsBare model b,
  (split-eq-some_iff rule model "latest").1 (e, latest-IsTag),
  eq_iff model model,
)

-- A rule matches a model, for all texts, exactly if the two are equal, or the model is the rule
-- with a tag and no part of the rule reads as a tag, or the rule is the model with the tag
-- `latest` and no part of the model reads as a tag.
pub model_rule_matches_iff :
    (rule model : String) → (model_rule_matches rule model ≡ true) ↔ Covers rule model
model_rule_matches_iff rule model = (Covers-of_matches rule model, matches-of_Covers rule model)

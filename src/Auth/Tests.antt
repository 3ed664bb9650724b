-- ===== src/Auth/Tests.antt =====
-- The keys and the model rules at concrete values.
use hive_core_v.Base.{◌≡◌, ◌≢◌, refl, string_eq, true, false, some, [], ◌∷◌, ◌⊎◌, inl, ◌↔◌}
use hive_core_v.Base.HashMap
use hive_core_v.Auth.Models.{admin, client}
use hive_core_v.Auth.Policy.{model_rule_matches, allows_model}
use hive_core_v.Auth.Policy.Covers.{Covers, model_rule_matches_iff}
use hive_core_v.Auth.Policy.Access.{Lists, allows_model_iff}
use hive_core_v.Shared.Sqlite.Normalize.{normalize_models}
use hive_core_v.Shared.Sqlite.KeyTable.{delete_key, list_keys, is_taken}
use hive_core_v.Auth.Keys.{verify, insert, delete, checked}
use hive_core_v.Auth.Keys.Table.{HasUniqueTokens}
use hive_core_v.Auth.Keys.Coherence.{IsUp, IsCoherent, stored, verify_lem}
use hive_core_v.Auth.Keys.Deletion.{verify-delete}
use hive_core_v.Auth.Keys.Insertion.{insert-incoherent}
use hive_core_v.Samples.{alice, root, key_store}

model_rule_matches_iff_example :
    (model_rule_matches "qwen3" "qwen3:8b" ≡ true) ↔ Covers "qwen3" "qwen3:8b"
model_rule_matches_iff_example = model_rule_matches_iff "qwen3" "qwen3:8b"

allows_model_iff_example : (allows_model alice "llama3" ≡ true) ↔ (
    (¬ Lists alice.blacklist_models "llama3")
    × ((alice.whitelist_models ≡ []) ⊎ Lists alice.whitelist_models "llama3"))
allows_model_iff_example = allows_model_iff alice "llama3"

up : IsUp key_store
up = record { cache_up = refl; database_up = refl }

unique : HasUniqueTokens key_store.database.rows
unique = ((refl, tt), (tt, tt))

cold : IsCoherent key_store
unfolding HashMap.get
cold = record { at = λ t k e. cc }

verify_lem_example :
    ((verify key_store "t1" (client ∷ [])).1 ≡ checked (client ∷ []) (stored key_store "t1"))
    × IsCoherent (verify key_store "t1" (client ∷ [])).0
    × ((verify key_store "t1" (client ∷ [])).0.database ≡ key_store.database)
verify_lem_example = verify_lem key_store "t1" (client ∷ []) up cold

-- After the first key is deleted the second one still verifies, and is not of the deleted id.
root_verifies : (verify (delete key_store 1).0 "t2" (admin ∷ [])).1 ≡ some root
unfolding verify delete delete_key list_keys HashMap.get HashMap.insert
root_verifies = refl

verify-delete_example : root.id ≢ 1
verify-delete_example =
    verify-delete key_store 1 "t2" (admin ∷ []) root up unique cold root_verifies

padded : normalize_models (" qwen3" ∷ []) ≢ " qwen3" ∷ []
unfolding normalize_models
padded e = cc

insert-incoherent_example :
    ¬ IsCoherent (insert key_store "t3" client "bob" false (" qwen3" ∷ []) [] "low").0
unfolding is_taken
insert-incoherent_example =
    insert-incoherent key_store "t3" "bob" "low" client false (" qwen3" ∷ []) [] up refl
      (inl padded)

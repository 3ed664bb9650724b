-- ===== src/Auth/Keys/Deletion.antt =====
-- `delete` of src/auth/keys.rs: the cache after it, and what its key's token then verifies to.
use hive_core_v.Base.{
  ℕ, String, true, false, not, Option, none, some, List, [], any, string_eq, ◌≡◌, ◌≢◌, refl, sym,
  ◌∙◌, arith, ◌==◌, inl, inr, map, subst, ◌⊎◌, ◌&&◌,
}
use hive_core_v.Auth.Models.{KeyRecord, Role}
use hive_core_v.Shared.Sqlite.KeyTable.{KeyRow, live_keys, list_keys, delete_row, delete_key}
use hive_core_v.Auth.Keys.{KeyStore, verify, delete, cache_of, checked}
use hive_core_v.Auth.Keys.Table.{
  by_token, HasUniqueTokens, live_keys-AreDistinct, cache_of-get, delete_row-HasUniqueTokens,
  by_token-delete, live_keys-delete,
}
use hive_core_v.Auth.Keys.Coherence.{stored, IsCoherent, IsUp, verify_lem}

module _ (s : KeyStore) (id : ℕ) (up : IsUp s) where
  abbrev rows_left : List KeyRow
  rows_left = map (delete_row id) s.database.rows

  abbrev without_key : KeyStore
  without_key = record s { database = record s.database { rows = rows_left } }

  delete-cases :
      ((any (λ r. r.key.id == id && not r.deleted) s.database.rows ≡ true)
        × ((delete s id).0 ≡ record without_key { cache = cache_of (live_keys rows_left) [] }))
      ⊎ ((any (λ r. r.key.id == id && not r.deleted) s.database.rows ≡ false)
          × ((delete s id).0 ≡ without_key))
  unfolding delete delete_key list_keys
  delete-cases = ground (arith, up.cache_up, up.database_up)

  abbrev Deleted : KeyStore → Type 0
  Deleted q = IsUp q × IsCoherent q × (q.database.rows ≡ rows_left)

  delete-Deleted : HasUniqueTokens s.database.rows → IsCoherent s → Deleted (delete s id).0
  delete-Deleted u c = elim delete-cases [
    | inl (hit, e) ↦ subst Deleted (sym e) (
      record { cache_up = up.cache_up; database_up = up.database_up },
      record {
        at = λ t k h.
            sym (
              cache_of-get t (live_keys rows_left)
                (live_keys-AreDistinct rows_left (delete_row-HasUniqueTokens id s.database.rows u)))
            ∙ h;
      },
      refl,
    )
    | inr (none_live, e) ↦ subst Deleted (sym e) (
      record { cache_up = up.cache_up; database_up = up.database_up },
      record { at = λ t k h. rw (live_keys-delete id s.database.rows none_live) (c.at t k h) },
      refl,
    )
  ]

of_checked :
    (roles : List Role) (o : Option KeyRecord) (k : KeyRecord)
    → checked roles o ≡ some k
    → o ≡ some k
of_checked roles none k e = cc
of_checked roles (some q) k e = ground arith

-- With a key store that works, tokens that are unique in the table, and a cache that agrees with
-- it, after `delete` of an id, whatever it answers, a token verifies only to keys of other ids.
pub verify-delete :
    (s : KeyStore) (id : ℕ) (t : String) (roles : List Role) (k : KeyRecord)
    → IsUp s
    → HasUniqueTokens s.database.rows
    → IsCoherent s
    → (verify (delete s id).0 t roles).1 ≡ some k
    → k.id ≢ id
verify-delete s id t roles k up u c e =
    let (up', c', rows) = delete-Deleted s id up u c in
    let answer = verify_lem (delete s id).0 t roles up' c' in
    let live = of_checked roles (stored (delete s id).0 t) k (sym answer.0 ∙ e) in
    by_token-delete t id s.database.rows k
      (subst (λ rs. by_token t (live_keys rs) ≡ some k) rows live)

-- ===== src/Shared/Sqlite/KeyTable.antt =====
-- `SqliteKeyStore` of src/shared/sqlite/key_store.rs. A row is a key with its model rules, which
-- SQL keeps in a second table; a role is stored as its name. Rows stand in the order of their ids.
use hive_core_v.Base.{
  ℕ, ◌+◌, String, Bool, true, false, ◌||◌, ◌&&◌, not, Option, none, some, List, [], ◌∷◌, ◌++◌, map,
  filter, find, any, ◌==◌, str_eq, if◌then◌else◌,
}
use hive_core_v.Auth.Models.{Role, KeyRecord}
use hive_core_v.Shared.Sqlite.Normalize.{normalize_models}

-- The errors that callers tell apart: a violated `UNIQUE`, and any other.
pub data IoError : Type 0 where
  already_exists other : IoError

pub data Io (A : Type 0) : Type 0 where
  ok : A → Io A
  err : IoError → Io A

infixl 5 ◌>>=◌
abbrev pub ◌>>=◌ : {A B : Type 0} → Io A → (A → Io B) → Io B
ok a >>= f = f a
err e >>= f = err e

pub record KeyRow : Type 0 where
  pub key : KeyRecord
  pub deleted : Bool

-- `broken` stands for what makes every statement fail: a poisoned mutex, or a database that cannot
-- be read or written.
pub record SqliteKeyStore : Type 0 where
  pub rows : List KeyRow
  pub next_id : ℕ
  pub broken : Bool

-- A value of a `UNIQUE` column is taken also by a deleted row.
unfoldable pub is_taken : String → String → List KeyRow → Bool
is_taken name token = any λ r. str_eq r.key.name name || str_eq r.key.token token

unfoldable pub insert_key :
    SqliteKeyStore
    → String
    → Role
    → String
    → Bool
    → List String
    → List String
    → String
    → SqliteKeyStore × Io KeyRecord
unfolding is_taken
insert_key s token role name capture whitelist_models blacklist_models rate_limit_tier =
    let given : KeyRecord = record {
      id = s.next_id;
      token = token;
      role = role;
      name = name;
      whitelist_models = whitelist_models;
      blacklist_models = blacklist_models;
      capture = capture;
      rate_limit_tier = rate_limit_tier;
    } in
    let stored : KeyRecord = record given {
      whitelist_models = normalize_models whitelist_models;
      blacklist_models = normalize_models blacklist_models;
    } in
    if s.broken
    then (s, err other)
    else if is_taken name token s.rows
    then (s, err already_exists)
    else (
      record s {
        rows = s.rows ++ record { key = stored; deleted = false } ∷ [];
        next_id = s.next_id + 1;
      },
      ok given,
    )

unfoldable pub live_keys : List KeyRow → List KeyRecord
live_keys rows = map (λ r. r.key) (filter (λ r. not r.deleted) rows)

unfoldable pub list_keys : SqliteKeyStore → Io (List KeyRecord)
unfolding live_keys
list_keys s = if s.broken then err other else ok (live_keys s.rows)

unfoldable pub fetch_key_by_token : SqliteKeyStore → String → Io (Option KeyRecord)
unfolding live_keys
fetch_key_by_token s token =
    if s.broken then err other else ok (find (λ k. str_eq k.token token) (live_keys s.rows))

unfoldable pub fetch_key_by_id : List KeyRow → ℕ → Option KeyRecord
unfolding live_keys
fetch_key_by_id rows id = find (λ k. k.id == id) (live_keys rows)

abbrev pub get_or : {A : Type 0} → Option A → A → A
get_or none d = d
get_or (some a) d = a

-- The `UPDATE` statements touch the row of the id, deleted or not.
unfoldable pub update_row : ℕ → Option String → Option Bool → Option String → KeyRow → KeyRow
update_row id name capture tier r =
    if r.key.id == id
    then record r {
      key = record r.key {
        name = get_or name r.key.name;
        capture = get_or capture r.key.capture;
        rate_limit_tier = get_or tier r.key.rate_limit_tier;
      };
    }
    else r

unfoldable pub name_taken : ℕ → Option String → List KeyRow → Bool
name_taken id none rows = false
name_taken id (some name) rows = any (λ r. str_eq r.key.name name && not (r.key.id == id)) rows

unfoldable pub update_key :
    SqliteKeyStore
    → ℕ
    → Option String
    → Option Bool
    → Option String
    → SqliteKeyStore × Io (Option KeyRecord)
unfolding fetch_key_by_id update_row name_taken
update_key s id name capture tier =
    if s.broken then (s, err other) else elim (fetch_key_by_id s.rows id) [
      | none ↦ (s, ok none)
      | some _ ↦
          if name_taken id name s.rows
          then (s, err already_exists)
          else (let rows = map (update_row id name capture tier) s.rows in
              (record s { rows = rows }, ok (fetch_key_by_id rows id)))
    ]

unfoldable pub delete_row : ℕ → KeyRow → KeyRow
delete_row id r = if r.key.id == id then record r { deleted = true } else r

unfoldable pub delete_key : SqliteKeyStore → ℕ → SqliteKeyStore × Io Bool
unfolding delete_row
delete_key s id = if s.broken then (s, err other) else (
  record s { rows = map (delete_row id) s.rows },
  ok (any (λ r. r.key.id == id && not r.deleted) s.rows),
)

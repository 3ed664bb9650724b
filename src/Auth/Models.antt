-- ===== src/Auth/Models.antt =====
-- src/auth/models and src/auth/roles.rs: the roles and the record of an API key.
use hive_core_v.Base.{ℕ, ◌≡◌, ◌↔◌, String, Bool, true, false, List, arith, Eq}

pub data Role : Type 0 where
  admin analytics client worker : Role

unfoldable pub as_str : Role → String
as_str admin = "Admin"
as_str analytics = "Analytics"
as_str client = "Client"
as_str worker = "Worker"

-- `==` of the derived `PartialEq`
abbrev pub role_eq : Role → Role → Bool
role_eq admin admin = true
role_eq analytics analytics = true
role_eq client client = true
role_eq worker worker = true
role_eq _ _ = false

pub role_eq_iff : (a b : Role) → (role_eq a b ≡ true) ↔ (a ≡ b)
role_eq_iff a b = ground arith

instance abbrev pub role_Eq : Eq Role
role_Eq = record { beq = role_eq; beq_iff = role_eq_iff }

-- The ids of the table `keys` are row numbers, so not negative.
pub record KeyRecord : Type 0 where
  pub id : ℕ
  pub token : String
  pub role : Role
  pub name : String
  pub whitelist_models : List String
  pub blacklist_models : List String
  pub capture : Bool
  pub rate_limit_tier : String

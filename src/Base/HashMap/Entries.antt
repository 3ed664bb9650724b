-- ===== src/Base/HashMap/Entries.antt =====
-- A predicate on the entries of a map, under the operations on the map.
use hive_core_v.Base.{◌≡◌, sym, subst, some, [], ◌∷◌, All, Eq, Bool-cases, inl, inr, arith}
use hive_core_v.Base.HashMap
use hive_core_v.Base.HashMap.{HashMap}

module _ {K V : Type 0} ⦃e : Eq K⦄ (P : K → V → Type 0) where
  abbrev pub AllEntries : HashMap K V → Type 0
  AllEntries = All λ q. P q.0 q.1

  pub get-AllEntries :
      (k : K) (m : HashMap K V) (v : V) → AllEntries m → HashMap.get k m ≡ some v → P k v
  unfolding HashMap.get
  get-AllEntries k [] v h g = cc
  get-AllEntries k ((j, w) ∷ m) v h g = elim (Bool-cases (e.beq j k)) [
    | inl hit ↦
        subst (P k) (ground (arith, hit, g)) (subst (λ (x : K). P x w) ((e.beq_iff j k).0 hit) h.0)
    | inr miss ↦ get-AllEntries k m v h.1 (ground (arith, miss, g))
  ]

  pub insert-AllEntries :
      (k : K) (v : V) (m : HashMap K V) → AllEntries m → P k v → AllEntries (HashMap.insert k v m)
  unfolding HashMap.insert
  insert-AllEntries k v [] h p = (p, tt)
  insert-AllEntries k v ((j, w) ∷ m) h p = elim (Bool-cases (e.beq j k)) [
    | inl hit ↦ rw hit (subst (λ (x : K). P x v) (sym ((e.beq_iff j k).0 hit)) p, h.1)
    | inr miss ↦ rw miss (h.0, insert-AllEntries k v m h.1 p)
  ]

  pub remove-AllEntries : (k : K) (m : HashMap K V) → AllEntries m → AllEntries (HashMap.remove k m)
  unfolding HashMap.remove
  remove-AllEntries k [] h = tt
  remove-AllEntries k ((j, w) ∷ m) h = elim (Bool-cases (e.beq j k)) [
    | inl hit ↦ rw hit (remove-AllEntries k m h.1)
    | inr miss ↦ rw miss (h.0, remove-AllEntries k m h.1)
  ]

  -- The value of a removed key does not matter.
  pub remove-insert-AllEntries :
      (k : K) (v : V) (m : HashMap K V)
      → AllEntries m
      → AllEntries (HashMap.remove k (HashMap.insert k v m))
  unfolding HashMap.remove HashMap.insert
  remove-insert-AllEntries k v [] h = rw (HashMap.beq_refl k) tt
  remove-insert-AllEntries k v ((j, w) ∷ m) h = elim (Bool-cases (e.beq j k)) [
    | inl hit ↦ rw (hit, hit) (remove-AllEntries k m h.1)
    | inr miss ↦ rw (miss, miss) (h.0, remove-insert-AllEntries k v m h.1)
  ]

-- ===== src/Base/HashMap.antt =====
-- `HashMap` and `BTreeMap` as association lists. The order of the entries stands for the
-- iteration order, which the program does not rely on: statements hold for every order.
pub mod Entries
use hive_core_v.Base.{
  ◌≡◌, refl, Bool, true, false, All, filter, Option, none, some, List, [], ◌∷◌, map, arith, Eq,
  if◌then◌else◌, Bool-cases, inl, inr, subst,
}

abbrev pub HashMap : Type 0 → Type 0 → Type 0
HashMap K V = List (K × V)

abbrev pub keys : {K V : Type 0} → HashMap K V → List K
keys = map λ e. e.0

abbrev pub values : {K V : Type 0} → HashMap K V → List V
values = map λ e. e.1

pub beq_refl : {K : Type 0} ⦃e : Eq K⦄ (a : K) → e.beq a a ≡ true
beq_refl ⦃e⦄ a = (e.beq_iff a a).1 refl

module _ {K V : Type 0} ⦃e : Eq K⦄ where
  unfoldable pub get : K → HashMap K V → Option V
  get k [] = none
  get k ((j, v) ∷ m) = if e.beq j k then some v else get k m

  -- Replaces the value of a key, or adds the key.
  unfoldable pub insert : K → V → HashMap K V → HashMap K V
  insert k v [] = (k, v) ∷ []
  insert k v ((j, w) ∷ m) = if e.beq j k then (j, v) ∷ m else (j, w) ∷ insert k v m

  unfoldable pub remove : K → HashMap K V → HashMap K V
  remove k [] = []
  remove k ((j, v) ∷ m) = if e.beq j k then remove k m else (j, v) ∷ remove k m

  pub get-insert :
      (k j : K) (v : V) (m : HashMap K V)
      → get j (insert k v m) ≡ (if e.beq k j then some v else get j m)
  unfolding get insert
  get-insert k j v [] = refl
  get-insert k j v ((i, w) ∷ m) =
      ground (arith, e.beq_iff k j, e.beq_iff i k, e.beq_iff i j, get-insert k j v m)

  pub get-remove :
      (k j : K) (m : HashMap K V) → get j (remove k m) ≡ (if e.beq k j then none else get j m)
  unfolding get remove
  get-remove k j [] = ground arith
  get-remove k j ((i, w) ∷ m) =
      ground (arith, e.beq_iff k j, e.beq_iff i k, e.beq_iff i j, get-remove k j m)

  pub get-insert_self : (k : K) (v : V) (m : HashMap K V) → get k (insert k v m) ≡ some v
  get-insert_self k v m = rw (get-insert k k v m, beq_refl k)

  pub get-remove_self : (k : K) (m : HashMap K V) → get k (remove k m) ≡ none
  get-remove_self k m = rw (get-remove k k m, beq_refl k)

  pub get-insert_ne :
      (k j : K) (v : V) (m : HashMap K V) → e.beq k j ≡ false → get j (insert k v m) ≡ get j m
  get-insert_ne k j v m h = rw (get-insert k j v m, h)

  pub get-remove_ne : (k j : K) (m : HashMap K V) → e.beq k j ≡ false → get j (remove k m) ≡ get j m
  get-remove_ne k j m h = rw (get-remove k j m, h)

  -- A hash map holds a key once.
  abbrev pub HasUniqueKeys : HashMap K V → Type 0
  HasUniqueKeys [] = Unit {0}
  HasUniqueKeys ((j, v) ∷ m) = All (λ q. e.beq q.0 j ≡ false) m × HasUniqueKeys m

  insert-All :
      (j k : K) (v : V) (m : HashMap K V)
      → All (λ q. e.beq q.0 j ≡ false) m
      → e.beq k j ≡ false
      → All (λ q. e.beq q.0 j ≡ false) (insert k v m)
  unfolding insert
  insert-All j k v [] h n = (n, tt)
  insert-All j k v ((i, w) ∷ m) h n = elim (Bool-cases (e.beq i k)) [
    | inl hit ↦ rw hit h
    | inr miss ↦ rw miss (h.0, insert-All j k v m h.1 n)
  ]

  pub insert-HasUniqueKeys :
      (k : K) (v : V) (m : HashMap K V) → HasUniqueKeys m → HasUniqueKeys (insert k v m)
  unfolding insert
  insert-HasUniqueKeys k v [] h = (tt, tt)
  insert-HasUniqueKeys k v ((i, w) ∷ m) h = elim (Bool-cases (e.beq i k)) [
    | inl hit ↦ rw hit h
    | inr miss ↦ rw miss (
      insert-All i k v m h.0 (ground (arith, e.beq_iff i k, e.beq_iff k i)),
      insert-HasUniqueKeys k v m h.1,
    )
  ]

  get_absent : (k : K) (m : HashMap K V) → All (λ q. e.beq q.0 k ≡ false) m → get k m ≡ none
  unfolding get
  get_absent k [] h = refl
  get_absent k ((i, w) ∷ m) h = ground (arith, get_absent k m h.1)

  filter-All :
      (j : K) (p : K × V → Bool) (m : HashMap K V)
      → All (λ q. e.beq q.0 j ≡ false) m
      → All (λ q. e.beq q.0 j ≡ false) (filter p m)
  filter-All j p [] h = tt
  filter-All j p (q ∷ m) h = elim (Bool-cases (p q)) [
    | inl keep ↦ rw keep (h.0, filter-All j p m h.1)
    | inr drop ↦ rw drop (filter-All j p m h.1)
  ]

  -- `retain` on the values
  pub get-retain :
      (k : K) (p : V → Bool) (m : HashMap K V)
      → HasUniqueKeys m
      → get k (filter (λ q. p q.1) m)
        ≡ elim (get k m) [ none ↦ none | some v ↦ if p v then some v else none ]
  unfolding get
  get-retain k p [] h = refl
  get-retain k p ((i, w) ∷ m) h = elim (Bool-cases (e.beq i k)) [
    | inl hit ↦
        let same : i ≡ k = (e.beq_iff i k).0 hit in
        let gone : get k (filter (λ q. p q.1) m) ≡ none =
          get_absent k (filter (λ q. p q.1) m) (
            filter-All k (λ q. p q.1) m (subst (λ x. All (λ q. e.beq q.0 x ≡ false) m) same h.0)) in
        ground (arith, hit, gone)
    | inr miss ↦ ground (arith, miss, get-retain k p m h.1)
  ]

  pub retain-HasUniqueKeys :
      (p : V → Bool) (m : HashMap K V) → HasUniqueKeys m → HasUniqueKeys (filter (λ q. p q.1) m)
  retain-HasUniqueKeys p [] h = tt
  retain-HasUniqueKeys p ((i, w) ∷ m) h = elim (Bool-cases (p w)) [
    | inl keep ↦ rw keep (filter-All i (λ q. p q.1) m h.0, retain-HasUniqueKeys p m h.1)
    | inr drop ↦ rw drop (retain-HasUniqueKeys p m h.1)
  ]

  remove-All :
      (j k : K) (m : HashMap K V)
      → All (λ q. e.beq q.0 j ≡ false) m
      → All (λ q. e.beq q.0 j ≡ false) (remove k m)
  unfolding remove
  remove-All j k [] h = tt
  remove-All j k ((i, w) ∷ m) h = elim (Bool-cases (e.beq i k)) [
    | inl hit ↦ rw hit (remove-All j k m h.1)
    | inr miss ↦ rw miss (h.0, remove-All j k m h.1)
  ]

  pub remove-HasUniqueKeys :
      (k : K) (m : HashMap K V) → HasUniqueKeys m → HasUniqueKeys (remove k m)
  unfolding remove
  remove-HasUniqueKeys k [] h = tt
  remove-HasUniqueKeys k ((i, w) ∷ m) h = elim (Bool-cases (e.beq i k)) [
    | inl hit ↦ rw hit (remove-HasUniqueKeys k m h.1)
    | inr miss ↦ rw miss (remove-All i k m h.0, remove-HasUniqueKeys k m h.1)
  ]

  -- A key that is not in the map is not removed from it.
  pub remove-absent : (k : K) (m : HashMap K V) → All (λ q. e.beq q.0 k ≡ false) m → remove k m ≡ m
  unfolding remove
  remove-absent k [] h = refl
  remove-absent k ((i, w) ∷ m) h = ground (arith, remove-absent k m h.1)

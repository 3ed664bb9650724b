-- ===== src/App/RateLimiter/Prune.antt =====
-- What `WindowState::prune_and_count` keeps of a sorted log, and its count.
use hive_core_v.Base.{
  ℕ, zero, suc, ◌+◌, ◌-◌, ◌≤◌, ◌<◌, ◌≡◌, refl, List, [], ◌∷◌, All, length, drop, take, ltb,
  if◌then◌else◌, arith, IsSorted, ◌⊎◌, inl, inr,
}
use hive_core_v.Base.Sorted.{sorted_before, sorted_from, All-map, All-drop}
use hive_core_v.App.RateLimiter.Window.{
  Found, found, missing, BinarySearch, WindowState, cutoff, position, prune_and_count,
}

-- The log loses its first `n` entries, none of which is inside the window, keeps all others, which
-- are not older than the window, and is counted whole.
pub record Prunes (ws : WindowState) (window now : ℕ) (r : WindowState × ℕ) : Type 0 where
  pub n : ℕ
  pub kept : r.0.timestamps ≡ drop n ws.timestamps
  pub counted : r.1 ≡ length r.0.timestamps
  pub dropped_old : All (λ t. t + window ≤ now) (take n ws.timestamps)
  pub kept_new : All (λ t. now ≤ t + window) (drop n ws.timestamps)

drop_guarded : (n : ℕ) (xs : List ℕ) → (if ltb 0 n then drop n xs else xs) ≡ drop n xs
drop_guarded zero xs = refl
drop_guarded (suc n) xs = ground arith

cutoff_lem : (window now : ℕ) → window ≤ now → cutoff window now ≡ now - window
unfolding cutoff
cutoff_lem window now h = ground arith

cutoff_short : (window now : ℕ) → now < window → cutoff window now ≡ now
unfolding cutoff
cutoff_short window now h = ground arith

none_between : (x : ℕ) (xs : List ℕ) → All (λ t. x ≤ t) xs → All (λ t. t < x) xs → length xs ≡ 0
none_between x [] h k = refl
none_between x (y ∷ ys) h k = absurd (omega (arith, h.0, k.0))

module _ (b : BinarySearch) where
  found_cases :
      (xs : List ℕ) (x : ℕ)
      → ((i : ℕ) × (b.binary_search xs x ≡ found i))
        ⊎ ((i : ℕ) × (b.binary_search xs x ≡ missing i))
  found_cases xs x = cases (b.binary_search xs x) refl
    where
      cases :
          (f : Found)
          → b.binary_search xs x ≡ f
          → ((i : ℕ) × (b.binary_search xs x ≡ found i))
            ⊎ ((i : ℕ) × (b.binary_search xs x ≡ missing i))
      cases (found i) e = inl (i, e)
      cases (missing i) e = inr (i, e)

  -- The position splits the log at the number that is searched for.
  position_splits :
      (xs : List ℕ) (x : ℕ)
      → IsSorted xs
      → let i = position (b.binary_search xs x) in
        All (λ y. y ≤ x) (take i xs) × All (λ y. x ≤ y) (drop i xs)
  unfolding position
  position_splits xs x h = elim (found_cases xs x) [
    | inl (i, e) ↦ rw e (
      sorted_before xs i x h (b.at_found xs x i h e),
      sorted_from xs i x h (b.at_found xs x i h e),
    )
    | inr (i, e) ↦
        let m = b.at_missing xs x i h e in
        rw e (
          All-map (λ y. y < x) (take i xs) (λ y (p : y < x). omega arith) m.1,
          All-map (λ y. x < y) (drop i xs) (λ y (p : x < y). omega arith) m.2,
        )
  ]

  -- For a clock that can reach back by the window and a sorted log, `prune_and_count` drops a
  -- first part of the log, all of it out of the window, keeps the rest, none of it older than the
  -- window, and counts what it keeps.
  pub prune_and_count-Prunes :
      (ws : WindowState) (window now : ℕ)
      → window ≤ now
      → IsSorted ws.timestamps
      → Prunes ws window now (prune_and_count b ws window now)
  unfolding prune_and_count
  prune_and_count-Prunes ws window now h s =
      let i = position (b.binary_search ws.timestamps (cutoff window now)) in
      let split = position_splits ws.timestamps (cutoff window now) s in
      let c = cutoff_lem window now h in
      record {
        n = i;
        kept = drop_guarded i ws.timestamps;
        counted = refl;
        dropped_old =
            All-map (λ t. t ≤ cutoff window now) (take i ws.timestamps)
              (λ t (p : t ≤ cutoff window now). omega arith) split.0;
        kept_new =
            All-map (λ t. cutoff window now ≤ t) (drop i ws.timestamps)
              (λ t (p : cutoff window now ≤ t). omega arith) split.1;
      }

  -- Where the clock cannot reach back by the window, `prune_and_count` of a sorted log whose
  -- entries are all older than the call counts 0, whatever their age.
  pub prune_short_clock :
      (ws : WindowState) (window now : ℕ)
      → now < window
      → IsSorted ws.timestamps
      → All (λ t. t < now) ws.timestamps
      → (prune_and_count b ws window now).1 ≡ 0
  unfolding prune_and_count
  prune_short_clock ws window now h s old =
      let i = position (b.binary_search ws.timestamps (cutoff window now)) in
      let c = cutoff_short window now h in
      let split = position_splits ws.timestamps (cutoff window now) s in
      rw (drop_guarded i ws.timestamps) (
        none_between now (drop i ws.timestamps)
          (All-map (λ t. cutoff window now ≤ t) (drop i ws.timestamps)
            (λ t (p : cutoff window now ≤ t). omega arith) split.1)
          (All-drop (λ t. t < now) i ws.timestamps old))

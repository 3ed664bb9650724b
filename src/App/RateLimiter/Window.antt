-- ===== src/App/RateLimiter/Window.antt =====
-- src/app/rate_limiter.rs, `WindowState`: the log of one sliding window. Instants and durations are
-- nanoseconds; an instant counts from the earliest one that the platform can represent, which is
-- where `Instant::checked_sub` fails.
use hive_core_v.Base.{
  ℕ, ◌-◌, ◌≤◌, ◌<◌, ◌≡◌, List, [], ◌∷◌, ◌++◌, some, Bool, All, length, drop, take, get_elem?, ltb,
  leb, is_empty, if◌then◌else◌, IsSorted,
}

-- The result of `slice::binary_search`: `Ok` of a position, or `Err` of the place to insert.
pub data Found : Type 0 where
  found : ℕ → Found
  missing : ℕ → Found

-- What the documentation of `slice::binary_search` promises of a sorted slice: where several
-- entries match, any of their positions may come back.
pub record BinarySearch : Type 0 where
  pub binary_search : List ℕ → ℕ → Found
  pub at_found :
      (xs : List ℕ) (x i : ℕ) → IsSorted xs → binary_search xs x ≡ found i → get_elem? xs i ≡ some x
  pub at_missing :
      (xs : List ℕ) (x i : ℕ)
      → IsSorted xs
      → binary_search xs x ≡ missing i
      → (i ≤ length xs) × All (λ y. y < x) (take i xs) × All (λ y. x < y) (drop i xs)

pub record WindowState : Type 0 where
  pub timestamps : List ℕ

unfoldable pub new : WindowState
new = record { timestamps = [] }

-- `now.checked_sub(window).unwrap_or(now)`
unfoldable pub cutoff : ℕ → ℕ → ℕ
cutoff window now = if leb window now then now - window else now

-- `map_or_else(|i| i, |i| i)`
unfoldable pub position : Found → ℕ
position (found i) = i
position (missing i) = i

unfoldable pub prune_and_count : BinarySearch → WindowState → ℕ → ℕ → WindowState × ℕ
unfolding cutoff position
prune_and_count b ws window now =
    let idx = position (b.binary_search ws.timestamps (cutoff window now)) in
    let kept = if ltb 0 idx then drop idx ws.timestamps else ws.timestamps in
    (record { timestamps = kept }, length kept)

unfoldable pub push : WindowState → ℕ → WindowState
push ws now = record { timestamps = ws.timestamps ++ now ∷ [] }

unfoldable pub no_entries : WindowState → Bool
no_entries ws = is_empty ws.timestamps

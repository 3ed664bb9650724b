-- ===== src/App/RateLimiter/History.antt =====
-- The log of a window against the whole history of admitted requests.
use hive_core_v.Base.{
  ℕ, ◌+◌, ◌≤◌, ◌≡◌, refl, List, [], ◌∷◌, ◌++◌, All, length, drop, take, ltb, arith, IsSorted,
  filter, length-append, length-filter-le,
}
use mathlib.Core.List.{append_assoc}
use hive_core_v.Base.Sorted.{
  All-append, All-map, All-drop, IsSorted-drop, IsSorted-snoc, take-append-drop,
}
use hive_core_v.App.RateLimiter.Window.{BinarySearch, WindowState, prune_and_count, push}
use hive_core_v.App.RateLimiter.Prune.{prune_and_count-Prunes}

-- The admitted requests that are inside the window that ends at `now`.
abbrev pub recent : ℕ → ℕ → List ℕ → List ℕ
recent window now = filter λ t. ltb now (t + window)

-- The log is the history without some entries that have left the window.
pub record Tracks (history : List ℕ) (window now : ℕ) (ws : WindowState) : Type 0 where
  pub old : List ℕ
  pub split : history ≡ old ++ ws.timestamps
  pub expired : All (λ t. t + window ≤ now) old
  pub sorted : IsSorted ws.timestamps
  pub past : All (λ t. t ≤ now) ws.timestamps

filter-append :
    (window now : ℕ) (xs ys : List ℕ)
    → recent window now (xs ++ ys) ≡ recent window now xs ++ recent window now ys
filter-append window now [] ys = refl
filter-append window now (x ∷ xs) ys = ground (arith, filter-append window now xs ys)

recent-old :
    (window now : ℕ) (xs : List ℕ) → All (λ t. t + window ≤ now) xs → recent window now xs ≡ []
recent-old window now [] h = refl
recent-old window now (x ∷ xs) h = ground (arith, h.0, recent-old window now xs h.1)

-- The log has every request that is still inside the window.
pub recent-le-log :
    (history : List ℕ) (window now : ℕ) (ws : WindowState)
    → Tracks history window now ws
    → length (recent window now history) ≤ length ws.timestamps
recent-le-log history window now ws t =
    let e = filter-append window now t.old ws.timestamps in
    rw (t.split, e, recent-old window now t.old t.expired)
      (length-filter-le (λ s. ltb now (s + window)) ws.timestamps)

-- As time passes, entries only leave.
pub Tracks-later :
    (history : List ℕ) (window now later : ℕ) (ws : WindowState)
    → now ≤ later
    → Tracks history window now ws
    → Tracks history window later ws
Tracks-later history window now later ws h t = record {
  old = t.old;
  split = t.split;
  expired =
      All-map (λ s. s + window ≤ now) t.old (λ s (p : s + window ≤ now). omega arith) t.expired;
  sorted = t.sorted;
  past = All-map (λ s. s ≤ now) ws.timestamps (λ s (p : s ≤ now). omega arith) t.past;
}

pub Tracks-prune :
    (b : BinarySearch) (history : List ℕ) (window now : ℕ) (ws : WindowState)
    → window ≤ now
    → Tracks history window now ws
    → Tracks history window now (prune_and_count b ws window now).0
Tracks-prune b history window now ws h t =
    let p = prune_and_count-Prunes b ws window now h t.sorted in
    record {
      old = t.old ++ take p.n ws.timestamps;
      split =
          rw
            (
              p.kept,
              append_assoc t.old (take p.n ws.timestamps) (drop p.n ws.timestamps),
              take-append-drop p.n ws.timestamps,
            )
            t.split;
      expired =
          All-append (λ s. s + window ≤ now) t.old (take p.n ws.timestamps) t.expired p.dropped_old;
      sorted = rw p.kept (IsSorted-drop p.n ws.timestamps t.sorted);
      past = rw p.kept (All-drop (λ s. s ≤ now) p.n ws.timestamps t.past);
    }

pub Tracks-push :
    (history : List ℕ) (window now : ℕ) (ws : WindowState)
    → Tracks history window now ws
    → Tracks (history ++ now ∷ []) window now (push ws now)
unfolding push
Tracks-push history window now ws t = record {
  old = t.old;
  split = rw t.split (append_assoc t.old ws.timestamps (now ∷ []));
  expired = t.expired;
  sorted = IsSorted-snoc ws.timestamps now t.sorted t.past;
  past = All-append (λ s. s ≤ now) ws.timestamps (now ∷ []) t.past (omega arith);
}

pub length-push :
    (ws : WindowState) (now : ℕ) → length (push ws now).timestamps ≡ length ws.timestamps + 1
unfolding push
length-push ws now = length-append ws.timestamps (now ∷ [])

pub count_lem :
    (b : BinarySearch) (ws : WindowState) (window now : ℕ)
    → (prune_and_count b ws window now).1 ≡ length (prune_and_count b ws window now).0.timestamps
unfolding prune_and_count
count_lem b ws window now = refl

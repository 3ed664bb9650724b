-- ===== src/App/RateLimiter/Loop.antt =====
-- The loops of `check` over the limits, seen at one window.
use hive_core_v.Base.{
  ℕ, ◌<◌, ◌≡◌, refl, ◌∙◌, List, [], ◌∷◌, none, some, All, str_eq, string_eq, arith, false, String,
  Option-cases, inl, inr, ◌⊎◌,
}
use hive_core_v.Base.HashMap
use hive_core_v.Base.HashMap.{get-insert_ne, get-insert_self}
use hive_core_v.App.RateLimiter.Window.{BinarySearch, WindowState, prune_and_count, push}
use hive_core_v.App.RateLimiter.State.{Windows}
use hive_core_v.App.RateLimiter.Scan.{Limit, Scan, scan_limit, scan_limits, record_request}

-- The table has the limit and the window under the name, and no second row of that name.
pub data Row (n : String) (limit window : ℕ) : List Limit → Type 0 where
  here :
      {ls : List Limit}
      → All (λ l. str_eq l.0 n ≡ false) ls
      → Row n limit window ((n, limit, window) ∷ ls)
  there :
      {l : Limit} {ls : List Limit}
      → str_eq l.0 n ≡ false
      → Row n limit window ls
      → Row n limit window (l ∷ ls)

module _ (b : BinarySearch) (now : ℕ) where
  scan_limit-other :
      (n : String) (l : Limit) (s : Scan)
      → str_eq l.0 n ≡ false
      → HashMap.get n (scan_limit b now l s).windows ≡ HashMap.get n s.windows
  unfolding scan_limit
  scan_limit-other n (name, limit, window) s e = elim (Option-cases (HashMap.get name s.windows)) [
    | inl k ↦ ground arith
    | inr ((dur, ws), k) ↦
        ground (arith, get-insert_ne name n (dur, (prune_and_count b ws window now).0) s.windows e)
  ]

  scan_limit-none :
      (l : Limit) (s : Scan) → (scan_limit b now l s).min_retry ≡ none → s.min_retry ≡ none
  unfolding scan_limit
  scan_limit-none (name, limit, window) s e = ground arith

  scan_limits-none :
      (ls : List Limit) (s : Scan) → (scan_limits b now ls s).min_retry ≡ none → s.min_retry ≡ none
  unfolding scan_limits
  scan_limits-none [] s e = e
  scan_limits-none (l ∷ ls) s e = scan_limit-none l s (scan_limits-none ls (scan_limit b now l s) e)

  scan_limits-other :
      (n : String) (ls : List Limit) (s : Scan)
      → All (λ l. str_eq l.0 n ≡ false) ls
      → HashMap.get n (scan_limits b now ls s).windows ≡ HashMap.get n s.windows
  unfolding scan_limits
  scan_limits-other n [] s h = refl
  scan_limits-other n (l ∷ ls) s h =
      rw (scan_limits-other n ls (scan_limit b now l s) h.1) (scan_limit-other n l s h.0)

  -- What the loop does to the window of a row: nothing where the limit is 0, and else it prunes the
  -- log and denies the request where the count has reached the limit.
  abbrev pub Scanned : String → ℕ → ℕ → ℕ → WindowState → Scan → Type 0
  Scanned n limit window dur ws s =
      ((limit ≡ 0) × (HashMap.get n s.windows ≡ some (dur, ws)))
      ⊎ ((HashMap.get n s.windows ≡ some (dur, (prune_and_count b ws window now).0))
          × (s.min_retry ≡ none → (prune_and_count b ws window now).1 < limit))

  scan_limit-own :
      (n : String) (limit window dur : ℕ) (ws : WindowState) (s : Scan)
      → HashMap.get n s.windows ≡ some (dur, ws)
      → Scanned n limit window dur ws (scan_limit b now (n, limit, window) s)
  unfolding scan_limit
  scan_limit-own n limit window dur ws s e =
      ground (arith, get-insert_self n (dur, (prune_and_count b ws window now).0) s.windows)

  pub scan_limits-Scanned :
      (n : String) (limit window dur : ℕ) (ws : WindowState) (ls : List Limit) (s : Scan)
      → Row n limit window ls
      → HashMap.get n s.windows ≡ some (dur, ws)
      → Scanned n limit window dur ws (scan_limits b now ls s)
  unfolding scan_limits
  scan_limits-Scanned n limit window dur ws _ s (here {ls = ls} h) e = ground (
    arith,
    scan_limit-own n limit window dur ws s e,
    scan_limits-other n ls (scan_limit b now (n, limit, window) s) h,
    scan_limits-none ls (scan_limit b now (n, limit, window) s),
  )
  scan_limits-Scanned n limit window dur ws _ s (there {l = l} {ls = ls} h r) e =
      scan_limits-Scanned n limit window dur ws ls (scan_limit b now l s) r
        (scan_limit-other n l s h ∙ e)

  record_request-other :
      (n : String) (ls : List Limit) (m : Windows)
      → All (λ l. str_eq l.0 n ≡ false) ls
      → HashMap.get n (record_request now ls m) ≡ HashMap.get n m
  unfolding record_request
  record_request-other n [] m h = refl
  record_request-other n (l ∷ ls) m h = elim (Option-cases (HashMap.get l.0 m)) [
    | inl k ↦ ground (arith, record_request-other n ls m h.1)
    | inr ((dur, ws), k) ↦ ground (
      arith,
      record_request-other n ls (HashMap.insert l.0 (dur, push ws now) m) h.1,
      get-insert_ne l.0 n (dur, push ws now) m h.0,
    )
  ]

  -- An admitted request is entered once into the log of each row.
  pub record_request-push :
      (n : String) (limit window dur : ℕ) (ws : WindowState) (ls : List Limit) (m : Windows)
      → Row n limit window ls
      → HashMap.get n m ≡ some (dur, ws)
      → HashMap.get n (record_request now ls m) ≡ some (dur, push ws now)
  unfolding record_request
  record_request-push n limit window dur ws _ m (here {ls = ls} h) e = ground (
    arith,
    record_request-other n ls (HashMap.insert n (dur, push ws now) m) h,
    get-insert_self n (dur, push ws now) m,
  )
  record_request-push n limit window dur ws _ m (there {l = l} {ls = ls} h r) e =
      elim (Option-cases (HashMap.get l.0 m)) [
        | inl k ↦ ground (arith, record_request-push n limit window dur ws ls m r e)
        | inr ((d, w), k) ↦ ground (
          arith,
          record_request-push n limit window dur ws ls (HashMap.insert l.0 (d, push w now) m) r,
          get-insert_ne l.0 n (d, push w now) m h,
        )
      ]

pub Row-All {κ} :
    {n : String} {limit window : ℕ} {ls : List Limit} (P : Limit → Type κ)
    → Row n limit window ls
    → All P ls
    → P (n, limit, window)
Row-All P (here h) a = a.0
Row-All P (there h r) a = Row-All P r a.1

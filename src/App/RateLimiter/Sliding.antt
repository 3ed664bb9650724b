-- ===== src/App/RateLimiter/Sliding.antt =====
-- The sliding-window limits over a whole run of one key.
use hive_core_v.Base.{
  ℕ, ◌≤◌, ◌<◌, ◌≡◌, ◌≢◌, refl, List, [], ◌∷◌, ◌++◌, none, some, All, length, string_eq, ltb,
  if◌then◌else◌, arith, true, false, String, Option-cases, Bool-cases, inl, inr, ◌⊎◌, ◌&&◌, subst,
}
use hive_core_v.Base.HashMap
use hive_core_v.App.RateLimiter.Window.{BinarySearch, WindowState, prune_and_count, push}
use hive_core_v.App.RateLimiter.Window
use hive_core_v.App.RateLimiter.State.{
  KeyState, CheckResult, RateLimitTier, new_key_state, window_month, at_limit_i64,
}
use hive_core_v.App.RateLimiter.Scan.{Limit, Scan, scan_limits, limits_of, record_request}
use hive_core_v.App.RateLimiter.Check.{check_key}
use hive_core_v.App.RateLimiter.History.{
  Tracks, recent, recent-le-log, Tracks-later, Tracks-prune, Tracks-push, length-push, count_lem,
}
use hive_core_v.App.RateLimiter.Loop.{Row, Row-All, scan_limits-Scanned, record_request-push}

module _ (b : BinarySearch) (tier : RateLimitTier) (n : String) (limit window : ℕ) where
  -- What one `check` does to one window, with the answer that it gives.
  pub data Outcome (now dur : ℕ) (ws : WindowState) (k : KeyState) (r : CheckResult) : Type 0 where
    untouched :
        r.allowed ≡ false → HashMap.get n k.windows ≡ some (dur, ws) → Outcome now dur ws k r
    pruned :
        r.allowed ≡ false
        → HashMap.get n k.windows ≡ some (dur, (prune_and_count b ws window now).0)
        → Outcome now dur ws k r
    free :
        r.allowed ≡ true
        → limit ≡ 0
        → HashMap.get n k.windows ≡ some (dur, push ws now)
        → Outcome now dur ws k r
    counted :
        r.allowed ≡ true
        → (prune_and_count b ws window now).1 < limit
        → HashMap.get n k.windows ≡ some (dur, push (prune_and_count b ws window now).0 now)
        → Outcome now dur ws k r

  pub check_key-Outcome :
      (now dur : ℕ) (ws : WindowState) (k : KeyState)
      → Row n limit window (limits_of tier)
      → HashMap.get n k.windows ≡ some (dur, ws)
      → Outcome now dur ws (check_key b tier now k).0 (check_key b tier now k).1
  unfolding check_key
  check_key-Outcome now dur ws k r e =
      elim (Bool-cases
        (ltb 0 tier.max_concurrent && at_limit_i64 k.concurrent tier.max_concurrent)) [
          | inl busy ↦ untouched (rw busy) (rw busy e)
          | inr idle ↦ elim (Option-cases scan.min_retry) [
            | inr (retry, d) ↦ elim scanned [
              | inl (z, g) ↦ untouched (ground arith) (ground arith)
              | inr (g, c) ↦ pruned (ground arith) (ground arith)
            ]
            | inl d ↦ elim scanned [
              | inl (z, g) ↦ free (ground arith) z (ground (arith, pushed ws g))
              | inr (g, c) ↦
                  counted (ground arith) (c d)
                    (ground (arith, pushed (prune_and_count b ws window now).0 g))
            ]
          ]
        ]
    where
      scan : Scan
      scan =
          scan_limits b now (limits_of tier)
            (record { windows = k.windows; reason = none; min_retry = none })

      scanned :
          ((limit ≡ 0) × (HashMap.get n scan.windows ≡ some (dur, ws)))
          ⊎ ((HashMap.get n scan.windows ≡ some (dur, (prune_and_count b ws window now).0))
              × (scan.min_retry ≡ none → (prune_and_count b ws window now).1 < limit))
      scanned = scan_limits-Scanned b now n limit window dur ws (limits_of tier) _ r e

      pushed :
          (w : WindowState)
          → HashMap.get n scan.windows ≡ some (dur, w)
          → HashMap.get n (record_request now (limits_of tier) scan.windows)
            ≡ some (dur, push w now)
      pushed w g = record_request-push b now n limit window dur w (limits_of tier) scan.windows r g

-- The requests of one key: `checks` is a call of `check`, `slots` any `start_request` or
-- `finish_request`. The history has the times of the requests that were allowed.
-- The clock is never nearer to its origin than the longest window.
pub data Run (b : BinarySearch) (tier : RateLimitTier) : ℕ → List ℕ → KeyState → Type 0 where
  start : (t : ℕ) → window_month ≤ t → Run b tier t [] new_key_state
  checks :
      {t now : ℕ} {h : List ℕ} {k k' : KeyState} {r : CheckResult}
      → Run b tier t h k
      → t ≤ now
      → check_key b tier now k ≡ (k', r)
      → Run b tier now (if r.allowed then h ++ now ∷ [] else h) k'
  slots :
      {t : ℕ} {h : List ℕ} {k : KeyState} (c : ℕ)
      → Run b tier t h k
      → Run b tier t h (record k { concurrent = c })

module _ (b : BinarySearch) (tier : RateLimitTier) (n : String) (limit window : ℕ) where
  pub record Holds (t : ℕ) (h : List ℕ) (k : KeyState) : Type 0 where
    pub dur : ℕ
    pub log : WindowState
    pub there : HashMap.get n k.windows ≡ some (dur, log)
    pub tracks : Tracks h window t log
    pub clock : window ≤ t
    pub within : limit ≢ 0 → length (recent window t h) ≤ limit

  -- Entries leave a window as time passes, so a bound on the recent ones stays.
  recent_mono :
      (t now : ℕ) (h : List ℕ) → t ≤ now → length (recent window now h) ≤ length (recent window t h)
  recent_mono t now [] le = omega arith
  recent_mono t now (x ∷ xs) le = ground (arith, recent_mono t now xs le)

  log_le :
      (t now : ℕ) (h : List ℕ) (k : KeyState) (v : Holds t h k)
      → t ≤ now
      → Tracks h window now v.log
  log_le t now h k v le = Tracks-later h window t now v.log le v.tracks

  Outcome-Holds :
      (t now : ℕ) (h : List ℕ) (k k' : KeyState) (r : CheckResult) (v : Holds t h k)
      → t ≤ now
      → Outcome b tier n limit window now v.dur v.log k' r
      → Holds now (if r.allowed then h ++ now ∷ [] else h) k'
  Outcome-Holds t now h k k' r v le (untouched a g) = rw a (record {
    dur = v.dur;
    log = v.log;
    there = g;
    tracks = log_le t now h k v le;
    clock = omega (arith, v.clock);
    within = λ nz. omega (arith, v.within nz, recent_mono t now h le);
  })
  Outcome-Holds t now h k k' r v le (pruned a g) = rw a (record {
    dur = v.dur;
    log = (prune_and_count b v.log window now).0;
    there = g;
    tracks = Tracks-prune b h window now v.log (omega (arith, v.clock)) (log_le t now h k v le);
    clock = omega (arith, v.clock);
    within = λ nz. omega (arith, v.within nz, recent_mono t now h le);
  })
  Outcome-Holds t now h k k' r v le (free a z g) = rw a (record {
    dur = v.dur;
    log = push v.log now;
    there = g;
    tracks = Tracks-push h window now v.log (log_le t now h k v le);
    clock = omega (arith, v.clock);
    within = λ nz. absurd (nz z);
  })
  Outcome-Holds t now h k k' r v le (counted a c g) = rw a (record {
    dur = v.dur;
    log = push log now;
    there = g;
    tracks = tracked;
    clock = omega (arith, v.clock);
    within = λ nz. fits;
  })
    where
      log : WindowState
      log = (prune_and_count b v.log window now).0

      tracked : Tracks (h ++ now ∷ []) window now (push log now)
      tracked =
          Tracks-push h window now log
            (Tracks-prune b h window now v.log (omega (arith, v.clock)) (log_le t now h k v le))

      fits : length (recent window now (h ++ now ∷ [])) ≤ limit
      fits = omega (
        arith,
        recent-le-log (h ++ now ∷ []) window now (push log now) tracked,
        length-push log now,
        count_lem b v.log window now,
        c,
      )

fresh-get :
    (tier : RateLimitTier)
    → All
        (λ l.
          (HashMap.get l.0 new_key_state.windows ≡ some (l.2, Window.new)) × (l.2 ≤ window_month))
        (limits_of tier)
unfolding new_key_state limits_of HashMap.get Window.new
fresh-get tier = (
  (refl, omega arith),
  ((refl, omega arith), ((refl, omega arith), ((refl, omega arith), ((refl, omega arith), tt)))),
)

module _ (b : BinarySearch) (tier : RateLimitTier) (n : String) (limit window : ℕ) where
  Run-Holds :
      (t : ℕ) (h : List ℕ) (k : KeyState)
      → Row n limit window (limits_of tier)
      → Run b tier t h k
      → Holds b tier n limit window t h k
  Run-Holds t h k row (start _ far) =
      let f =
        Row-All
          (λ (l : Limit).
            (HashMap.get l.0 new_key_state.windows ≡ some (l.2, Window.new)) × (l.2 ≤ window_month))
          row (fresh-get tier) in
      record {
        dur = window;
        log = Window.new;
        there = f.0;
        tracks =
            unfold Window.new in
            record { old = []; split = refl; expired = tt; sorted = tt; past = tt };
        clock = omega (arith, f.1);
        within = λ nz. omega arith;
      }
  Run-Holds t h k row (checks {t = t0} {h = h0} {k = k0} {r = r} run le e) =
      let v = Run-Holds t0 h0 k0 row run in
      Outcome-Holds b tier n limit window t0 t h0 k0 k r v le (
        subst (λ (p : KeyState × CheckResult). Outcome b tier n limit window t v.dur v.log p.0 p.1)
          e (check_key-Outcome b tier n limit window t v.dur v.log k0 row v.there))
  Run-Holds t h k row (slots {k = k0} c run) =
      let v = Run-Holds t h k0 row run in
      record {
        dur = v.dur;
        log = v.log;
        there = v.there;
        tracks = v.tracks;
        clock = v.clock;
        within = v.within;
      }

-- A rate limit holds over every window of its length: at each point of a run of one key, from a
-- new state on, of which each `check` reads a clock that does not fall and that is at least a
-- month from its origin, with slots taken and freed at will, the requests that `check` allowed
-- within the last `window` nanoseconds are at most the tier's limit for that window, unless the
-- limit is 0.
pub run_within_limit :
    (b : BinarySearch) (tier : RateLimitTier) (n : String) (limit window t : ℕ) (h : List ℕ)
    (k : KeyState)
    → Row n limit window (limits_of tier)
    → limit ≢ 0
    → Run b tier t h k
    → length (recent window t h) ≤ limit
run_within_limit b tier n limit window t h k row nz run =
    (Run-Holds b tier n limit window t h k row run).within nz

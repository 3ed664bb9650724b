-- ===== src/App/RateLimiter/Tests.antt =====
-- The rate limiter at concrete values.
use hive_core_v.Base.{ℕ, ◌+◌, ◌≤◌, ◌≡◌, refl, List, [], ◌∷◌, length, arith, IsSorted}
use hive_core_v.Base.HashMap
use hive_core_v.App.RateLimiter.Window.{WindowState, prune_and_count, cutoff, position}
use hive_core_v.App.RateLimiter.Window
use hive_core_v.App.RateLimiter.State.{
  KeyState, new_key_state, window_minute, window_month, at_limit_i64,
}
use hive_core_v.App.RateLimiter.Scan.{limits_of, scan_limits, scan_limit, record_request}
use hive_core_v.App.RateLimiter.Check.{check_key, start_request, finish_request, key_state_for}
use hive_core_v.App.RateLimiter.History.{recent}
use hive_core_v.App.RateLimiter.Loop.{Row, here}
use hive_core_v.App.RateLimiter.Sliding.{Run, start, checks, run_within_limit}
use hive_core_v.App.RateLimiter.Slots.{IsWellFormed, slots, finish-start}
use hive_core_v.Samples.{linear_search, tier, limiter}

abbrev log : WindowState
log = record { timestamps = 5 ∷ 20 ∷ 30 ∷ [] }

log_IsSorted : IsSorted log.timestamps
log_IsSorted = ((omega arith, (omega arith, tt)), ((omega arith, tt), (tt, tt)))

abbrev two_times : List ℕ
two_times = window_month ∷ (window_month + 1) ∷ []

abbrev first : KeyState
first = (check_key linear_search tier window_month new_key_state).0

minute-Row : Row "min" 2 window_minute (limits_of tier)
unfolding limits_of
minute-Row = here (refl, (refl, (refl, (refl, tt))))

two_run :
    Run linear_search tier
      (window_month + 1)
      two_times
      (check_key linear_search tier (window_month + 1) first).0
unfolding check_key at_limit_i64 new_key_state scan_limits limits_of scan_limit HashMap.get
    prune_and_count record_request HashMap.insert Window.push cutoff position Window.new
two_run =
    checks {t = window_month} {now = window_month + 1}
      (checks {t = window_month} {now = window_month} (start window_month (omega arith))
        (omega arith) refl)
      (omega arith) refl

run_within_limit_example : length (recent window_minute (window_month + 1) two_times) ≤ 2
run_within_limit_example =
    run_within_limit linear_search tier "min" 2 window_minute (window_month + 1) two_times
      (check_key linear_search tier (window_month + 1) first).0 minute-Row (λ e. omega (arith, e))
      two_run

fresh_limiter : IsWellFormed limiter
fresh_limiter = record { unique = tt; up = refl }

finish-start_example : slots (finish_request (start_request limiter 1) 1) 1 ≡ slots limiter 1
finish-start_example =
    finish-start limiter 1 1 fresh_limiter
      (unfold key_state_for new_key_state HashMap.get in omega arith)

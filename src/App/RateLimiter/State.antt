-- ===== src/App/RateLimiter/State.antt =====
-- src/app/rate_limiter.rs: the state of the limiter, and the tiers of src/app/models/config.rs.
use hive_core_v.Base.{
  ℕ, ◌*◌, ◌^◌, String, Bool, true, false, ◌&&◌, ◌||◌, Option, none, some, [], ◌∷◌, all, leb, ◌==◌,
  nat_eq, string_eq,
}
use hive_core_v.Base.HashMap
use hive_core_v.Base.HashMap.{HashMap}
use hive_core_v.App.RateLimiter.Window.{WindowState, no_entries}
use hive_core_v.App.RateLimiter.Window

pub record RateLimitTier : Type 0 where
  pub requests_per_minute : ℕ
  pub requests_per_hour : ℕ
  pub requests_per_day : ℕ
  pub requests_per_week : ℕ
  pub requests_per_month : ℕ
  pub max_concurrent : ℕ

abbrev pub unlimited : RateLimitTier
unlimited = record {
  requests_per_minute = 0;
  requests_per_hour = 0;
  requests_per_day = 0;
  requests_per_week = 0;
  requests_per_month = 0;
  max_concurrent = 0;
}

-- nanoseconds in a second
abbrev pub second : ℕ
second = 1_000_000_000

abbrev pub window_minute : ℕ
window_minute = 60 * second

abbrev pub window_hour : ℕ
window_hour = 3600 * second

abbrev pub window_day : ℕ
window_day = 86_400 * second

abbrev pub window_week : ℕ
window_week = 604_800 * second

abbrev pub window_month : ℕ
window_month = 2_592_000 * second

abbrev pub Windows : Type 0
Windows = HashMap String (ℕ × WindowState)

-- `concurrent` is an `i64` that never falls below 0.
pub record KeyState : Type 0 where
  pub windows : Windows
  pub concurrent : ℕ

unfoldable pub new_key_state : KeyState
unfolding Window.new
new_key_state = record {
  windows =
      ("min", (window_minute, Window.new))
      ∷ ("hour", (window_hour, Window.new))
      ∷ ("day", (window_day, Window.new))
      ∷ ("week", (window_week, Window.new))
      ∷ ("month", (window_month, Window.new))
      ∷ [];
  concurrent = 0;
}

unfoldable pub is_empty : KeyState → Bool
unfolding no_entries
is_empty s = s.concurrent == 0 && all (λ e. no_entries e.1.1) s.windows

pub record CheckResult : Type 0 where
  pub allowed : Bool
  pub retry_after_secs : Option ℕ
  pub reason : Option String

abbrev pub accepted : CheckResult
accepted = record { allowed = true; retry_after_secs = none; reason = none }

abbrev pub refused : ℕ → Option String → CheckResult
refused retry reason = record { allowed = false; retry_after_secs = some retry; reason = reason }

-- `poisoned` is set where a thread has panicked under the mutex of `state`.
pub record RateLimiter : Type 0 where
  pub state : HashMap ℕ KeyState
  pub poisoned : Bool
  pub tiers : HashMap String RateLimitTier
  pub default_tier : String
  pub check_counter : ℕ

unfoldable pub new : HashMap String RateLimitTier → String → RateLimiter
new tiers default_tier = record {
  state = [];
  poisoned = false;
  tiers = tiers;
  default_tier = default_tier;
  check_counter = 0;
}

unfoldable pub resolve_tier : RateLimiter → String → RateLimitTier
resolve_tier l name = elim (HashMap.get name l.tiers) [
  | some tier ↦ tier
  | none ↦ elim (HashMap.get l.default_tier l.tiers) [ some tier ↦ tier | none ↦ unlimited ]
]

-- `concurrent >= max_concurrent as i64`: a limit of 2^63 or more is a negative `i64`.
unfoldable pub at_limit_i64 : ℕ → ℕ → Bool
at_limit_i64 concurrent limit = leb (2 ^ 63) limit || leb limit concurrent

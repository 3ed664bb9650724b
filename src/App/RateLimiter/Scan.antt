-- ===== src/App/RateLimiter/Scan.antt =====
-- src/app/rate_limiter.rs, `check`: the loops over the windows of one key.
use hive_core_v.Base.{
  ℕ, ◌+◌, ◌-◌, ◌/◌, String, str_eq, Option, none, some, List, [], ◌∷◌, min, max, leb, ◌==◌,
  if◌then◌else◌, nat_eq, string_eq,
}
use hive_core_v.Base.HashMap
use hive_core_v.Base.HashMap.{HashMap}
use hive_core_v.App.RateLimiter.Window.{WindowState, BinarySearch, prune_and_count, push}
use hive_core_v.App.RateLimiter.State.{
  RateLimitTier, second, window_minute, window_hour, window_day, window_week, window_month, Windows,
}

abbrev pub Limit : Type 0
Limit = String × ℕ × ℕ

unfoldable pub limits_of : RateLimitTier → List Limit
limits_of tier =
    ("min", tier.requests_per_minute, window_minute)
    ∷ ("hour", tier.requests_per_hour, window_hour)
    ∷ ("day", tier.requests_per_day, window_day)
    ∷ ("week", tier.requests_per_week, window_week)
    ∷ ("month", tier.requests_per_month, window_month)
    ∷ []

-- Seconds until the oldest entry leaves the window, at least one. `checked_add` does not fail:
-- an instant is far from the last one that the platform can represent.
unfoldable pub retry_of : WindowState → ℕ → ℕ → ℕ
retry_of ws window now = elim ws.timestamps [
  | oldest ∷ _ ↦ max ((oldest + window - now) / second) 1
  | [] ↦ 1
]

-- The variables of the loop over the limits.
pub record Scan : Type 0 where
  pub windows : Windows
  pub reason : Option String
  pub min_retry : Option ℕ

unfoldable pub deny : Scan → String → ℕ → Scan
deny s name retry = elim s.min_retry [
  | none ↦ record s { reason = some name; min_retry = some retry }
  | some r ↦ record s { min_retry = some (min r retry) }
]

unfoldable pub scan_limit : BinarySearch → ℕ → Limit → Scan → Scan
unfolding deny
scan_limit b now (name, limit, window) s =
    if limit == 0 then s else elim (HashMap.get name s.windows) [
      | none ↦ s
      | some (dur, ws) ↦
          let (ws', count) = prune_and_count b ws window now in
          let s' = record s { windows = HashMap.insert name (dur, ws') s.windows } in
          if leb limit count then deny s' name (retry_of ws' window now) else s'
    ]

unfoldable pub scan_limits : BinarySearch → ℕ → List Limit → Scan → Scan
scan_limits b now [] s = s
scan_limits b now (l ∷ ls) s = scan_limits b now ls (scan_limit b now l s)

unfoldable pub record_request : ℕ → List Limit → Windows → Windows
record_request now [] ws = ws
record_request now ((name, _, _) ∷ ls) windows =
    record_request now ls (elim (HashMap.get name windows) [
      | none ↦ windows
      | some (dur, ws) ↦ HashMap.insert name (dur, push ws now) windows
    ])

unfoldable pub reason_text : String → String
reason_text name =
    if str_eq name "min"
    then "minute limit"
    else if str_eq name "hour"
    then "hour limit"
    else if str_eq name "day"
    then "day limit"
    else if str_eq name "week"
    then "week limit"
    else if str_eq name "month"
    then "month limit"
    else "rate limit"

abbrev pub option_map : {A B : Type 0} → (A → B) → Option A → Option B
option_map f none = none
option_map f (some a) = some (f a)

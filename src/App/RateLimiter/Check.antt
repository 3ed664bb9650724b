-- ===== src/App/RateLimiter/Check.antt =====
-- src/app/rate_limiter.rs: the methods of `RateLimiter`. Each runs under the limiter's mutex, so it
-- is one step of the state; `now` is the clock that it reads.
use hive_core_v.Base.{
  ℕ, ◌+◌, ◌-◌, ◌/◌, ◌^◌, String, ◌&&◌, Option, none, some, List, [], ◌∷◌, min, ltb, leb,
  if◌then◌else◌, filter, not, nat_eq, string_eq,
}
use hive_core_v.Base.HashMap
use hive_core_v.Base.HashMap.{HashMap}
use hive_core_v.App.RateLimiter.Window.{BinarySearch, prune_and_count}
use hive_core_v.App.RateLimiter.State.{
  RateLimitTier, second, Windows, KeyState, new_key_state, is_empty, CheckResult, accepted, refused,
  RateLimiter, at_limit_i64,
}
use hive_core_v.App.RateLimiter.Scan.{
  limits_of, scan_limits, record_request, reason_text, option_map,
}

-- What `check` does to the state of its key.
unfoldable pub check_key : BinarySearch → RateLimitTier → ℕ → KeyState → KeyState × CheckResult
check_key b tier now k =
    if ltb 0 tier.max_concurrent && at_limit_i64 k.concurrent tier.max_concurrent
    then (k, refused 1 (some "concurrent limit"))
    else (let limits = limits_of tier in
        let s =
          scan_limits b now limits
            (record { windows = k.windows; reason = none; min_retry = none }) in
        elim s.min_retry [
          | some retry ↦
              (record k { windows = s.windows }, refused retry (option_map reason_text s.reason))
          | none ↦ (record k { windows = record_request now limits s.windows }, accepted)
        ])

unfoldable pub key_state_for : RateLimiter → ℕ → KeyState
key_state_for l id = elim (HashMap.get id l.state) [ some k ↦ k | none ↦ new_key_state ]

-- The counter of the periodic cleanup, which forgets the empty key states.
unfoldable pub cleanup : RateLimiter → RateLimiter
cleanup l =
    if leb 1000 (l.check_counter + 1)
    then record l { check_counter = 0; state = filter (λ e. not (is_empty e.1)) l.state }
    else record l { check_counter = l.check_counter + 1 }

unfoldable pub check :
    BinarySearch → RateLimiter → ℕ → RateLimitTier → ℕ → RateLimiter × CheckResult
check b l id tier now =
    if l.poisoned
    then (l, accepted)
    else (let (k, result) = check_key b tier now (key_state_for l id) in
        let l' = record l { state = HashMap.insert id k l.state } in
        (if result.allowed then cleanup l' else l', result))

-- `saturating_add` of an `i64`
unfoldable pub start_request : RateLimiter → ℕ → RateLimiter
start_request l id =
    if l.poisoned
    then l
    else (let k = key_state_for l id in
        record l {
          state =
              HashMap.insert id (record k { concurrent = min (k.concurrent + 1) (2 ^ 63 - 1) })
                l.state;
        })

-- `saturating_sub(1).max(0)`
unfoldable pub finish_request : RateLimiter → ℕ → RateLimiter
finish_request l id =
    if l.poisoned
    then l
    else (let k = key_state_for l id in
        record l { state = HashMap.insert id (record k { concurrent = k.concurrent - 1 }) l.state })

pub record RateLimitWindowSnapshot : Type 0 where
  pub name : String
  pub window_secs : ℕ
  pub count : ℕ

pub record RateLimitSnapshot : Type 0 where
  pub concurrent : ℕ
  pub windows : List RateLimitWindowSnapshot

-- The windows pruned by their own durations, and what the snapshot says of each.
unfoldable pub prune_windows : BinarySearch → ℕ → Windows → Windows × List RateLimitWindowSnapshot
prune_windows b now [] = ([], [])
prune_windows b now ((name, (dur, ws)) ∷ rest) =
    let (rest', shots) = prune_windows b now rest in
    let (ws', count) = prune_and_count b ws dur now in
    (
      (name, (dur, ws')) ∷ rest',
      record { name = name; window_secs = dur / second; count = count } ∷ shots,
    )

unfoldable pub snapshot :
    BinarySearch → RateLimiter → ℕ → ℕ → RateLimiter × Option RateLimitSnapshot
snapshot b l id now = if l.poisoned then (l, none) else elim (HashMap.get id l.state) [
  | none ↦ (l, none)
  | some k ↦
      let (ws, shots) = prune_windows b now k.windows in
      (
        record l { state = HashMap.insert id (record k { windows = ws }) l.state },
        some (record { concurrent = k.concurrent; windows = shots }),
      )
]

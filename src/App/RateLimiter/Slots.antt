-- ===== src/App/RateLimiter/Slots.antt =====
-- The slots for concurrent requests: who holds them and what each call changes.
use hive_core_v.Base.{
  ℕ, ◌+◌, ◌-◌, ◌^◌, ◌≤◌, ◌<◌, ◌≡◌, refl, ◌∙◌, false, not, some, min, leb, ◌==◌, if◌then◌else◌,
  nat_eq, arith, Bool-cases, inl, inr, ap,
}
use hive_core_v.Base.HashMap
use hive_core_v.Base.HashMap.{
  HashMap, get-insert, get-insert_self, get-insert_ne, HasUniqueKeys, insert-HasUniqueKeys,
  get-retain, retain-HasUniqueKeys,
}
use hive_core_v.App.RateLimiter.Window.{BinarySearch}
use hive_core_v.App.RateLimiter.State.{
  RateLimitTier, KeyState, new_key_state, is_empty, CheckResult, RateLimiter, at_limit_i64, refused,
}
use hive_core_v.App.RateLimiter.Check.{
  check_key, key_state_for, cleanup, check, start_request, finish_request,
}

pub record IsWellFormed (l : RateLimiter) : Type 0 where
  pub unique : HasUniqueKeys l.state
  pub up : l.poisoned ≡ false

-- The requests of a key that hold a slot.
abbrev pub slots : RateLimiter → ℕ → ℕ
slots l id = (key_state_for l id).concurrent

check_key-slots :
    (b : BinarySearch) (tier : RateLimitTier) (now : ℕ) (k : KeyState)
    → (check_key b tier now k).0.concurrent ≡ k.concurrent
unfolding check_key
check_key-slots b tier now k = ground arith

-- The cleanup forgets only states that are as good as new ones.
cleanup-slots :
    (l : RateLimiter) (id : ℕ) → HasUniqueKeys l.state → slots (cleanup l) id ≡ slots l id
unfolding cleanup key_state_for is_empty new_key_state
cleanup-slots l id u = ground (arith, get-retain id (λ k. not (is_empty k)) l.state u)

abbrev with_state : RateLimiter → ℕ → KeyState → RateLimiter
with_state l id k = record l { state = HashMap.insert id k l.state }

-- A new state of one key shows only in that key's slots.
with_state-slots :
    (l : RateLimiter) (id j : ℕ) (k : KeyState)
    → slots (with_state l id k) j ≡ (if id == j then k.concurrent else slots l j)
unfolding key_state_for
with_state-slots l id j k = ground (arith, get-insert id j k l.state)

same_slots :
    (l : RateLimiter) (id j : ℕ) (k : KeyState)
    → k.concurrent ≡ slots l id
    → slots (with_state l id k) j ≡ slots l j
same_slots l id j k e = ground (arith, with_state-slots l id j k, ap (slots l) {x = id} {y = j})

module _ (b : BinarySearch) (l : RateLimiter) (id now : ℕ) (tier : RateLimitTier)
    (up : l.poisoned ≡ false) where
  abbrev answer : KeyState × CheckResult
  answer = check_key b tier now (key_state_for l id)

  check_lem : check b l id tier now ≡ (
    if answer.1.allowed then cleanup (with_state l id answer.0) else with_state l id answer.0,
    answer.1,
  )
  unfolding check
  check_lem = simp up

-- With a well-formed limiter, `check` changes the slots of no key, the cleanup of its every
-- thousandth call included.
pub check-slots :
    (b : BinarySearch) (l : RateLimiter) (id j now : ℕ) (tier : RateLimitTier)
    → IsWellFormed l
    → slots (check b l id tier now).0 j ≡ slots l j
check-slots b l id j now tier v =
    let r = check_key b tier now (key_state_for l id) in
    let l' = with_state l id r.0 in
    let same = same_slots l id j r.0 (check_key-slots b tier now (key_state_for l id)) in
    let u = insert-HasUniqueKeys id r.0 l.state v.unique in
    rw (check_lem b l id now tier v.up) (elim (Bool-cases r.1.allowed) [
      | inl a ↦ rw a (cleanup-slots l' j u ∙ same)
      | inr d ↦ rw d same
    ])

cleanup-IsWellFormed : (l : RateLimiter) → IsWellFormed l → IsWellFormed (cleanup l)
unfolding cleanup
cleanup-IsWellFormed l v = elim (Bool-cases (leb 1000 (l.check_counter + 1))) [
  | inl e ↦
      rw e (record {
        unique = retain-HasUniqueKeys (λ k. not (is_empty k)) l.state v.unique;
        up = v.up;
      })
  | inr e ↦ rw e (record { unique = v.unique; up = v.up })
]

with_state-IsWellFormed :
    (l : RateLimiter) (id : ℕ) (k : KeyState) → IsWellFormed l → IsWellFormed (with_state l id k)
with_state-IsWellFormed l id k v = record {
  unique = insert-HasUniqueKeys id k l.state v.unique;
  up = v.up;
}

pub check-IsWellFormed :
    (b : BinarySearch) (l : RateLimiter) (id now : ℕ) (tier : RateLimitTier)
    → IsWellFormed l
    → IsWellFormed (check b l id tier now).0
check-IsWellFormed b l id now tier v =
    let r = check_key b tier now (key_state_for l id) in
    let w = with_state-IsWellFormed l id r.0 v in
    rw (check_lem b l id now tier v.up) (elim (Bool-cases r.1.allowed) [
      | inl a ↦ rw a (cleanup-IsWellFormed (with_state l id r.0) w)
      | inr d ↦ rw d w
    ])

abbrev started : RateLimiter → ℕ → KeyState
started l id = record (key_state_for l id) { concurrent = min (slots l id + 1) (2 ^ 63 - 1) }

abbrev finished : RateLimiter → ℕ → KeyState
finished l id = record (key_state_for l id) { concurrent = slots l id - 1 }

start_request_lem :
    (l : RateLimiter) (id : ℕ)
    → l.poisoned ≡ false
    → start_request l id ≡ with_state l id (started l id)
unfolding start_request
start_request_lem l id up = simp up

finish_request_lem :
    (l : RateLimiter) (id : ℕ)
    → l.poisoned ≡ false
    → finish_request l id ≡ with_state l id (finished l id)
unfolding finish_request
finish_request_lem l id up = simp up

-- `start_request` takes one slot of its key, unless the counter is at its greatest value.
pub start_request-slots :
    (l : RateLimiter) (id j : ℕ)
    → IsWellFormed l
    → slots (start_request l id) j
      ≡ (if id == j then min (slots l id + 1) (2 ^ 63 - 1) else slots l j)
start_request-slots l id j v =
    rw (start_request_lem l id v.up) (with_state-slots l id j (started l id))

-- `finish_request` frees one slot of its key, if one is taken.
pub finish_request-slots :
    (l : RateLimiter) (id j : ℕ)
    → IsWellFormed l
    → slots (finish_request l id) j ≡ (if id == j then slots l id - 1 else slots l j)
finish_request-slots l id j v =
    rw (finish_request_lem l id v.up) (with_state-slots l id j (finished l id))

pub start_request-IsWellFormed :
    (l : RateLimiter) (id : ℕ) → IsWellFormed l → IsWellFormed (start_request l id)
start_request-IsWellFormed l id v =
    rw (start_request_lem l id v.up) (with_state-IsWellFormed l id (started l id) v)

pub finish_request-IsWellFormed :
    (l : RateLimiter) (id : ℕ) → IsWellFormed l → IsWellFormed (finish_request l id)
finish_request-IsWellFormed l id v =
    rw (finish_request_lem l id v.up) (with_state-IsWellFormed l id (finished l id) v)

-- With a well-formed limiter and a counter of slots below its greatest value, a request that
-- starts and finishes leaves every key's slots as they were.
pub finish-start :
    (l : RateLimiter) (id j : ℕ)
    → IsWellFormed l
    → slots l id + 1 < 2 ^ 63
    → slots (finish_request (start_request l id) id) j ≡ slots l j
finish-start l id j v h = ground (
  arith,
  finish_request-slots (start_request l id) id j (start_request-IsWellFormed l id v),
  start_request-slots l id id v,
  start_request-slots l id j v,
  ap (slots l) {x = id} {y = j},
)

check_key_full :
    (b : BinarySearch) (tier : RateLimitTier) (now : ℕ) (k : KeyState)
    → 0 < tier.max_concurrent
    → tier.max_concurrent ≤ k.concurrent
    → check_key b tier now k ≡ (k, refused 1 (some "concurrent limit"))
unfolding check_key at_limit_i64
check_key_full b tier now k pos full = ground arith

with_state-own :
    (l : RateLimiter) (id : ℕ) (k : KeyState) → key_state_for (with_state l id k) id ≡ k
unfolding key_state_for
with_state-own l id k = ground (arith, get-insert_self id k l.state)

-- With a well-formed limiter, a tier that limits the slots and a key that holds as many as its
-- tier allows or more, `check` refuses for the concurrent limit, asks for a retry in a second,
-- and leaves the key's state as it was.
pub check-full :
    (b : BinarySearch) (l : RateLimiter) (id now : ℕ) (tier : RateLimitTier)
    → IsWellFormed l
    → 0 < tier.max_concurrent
    → tier.max_concurrent ≤ slots l id
    → ((check b l id tier now).1 ≡ refused 1 (some "concurrent limit"))
      × (key_state_for (check b l id tier now).0 id ≡ key_state_for l id)
check-full b l id now tier v pos full =
    let r = check_key_full b tier now (key_state_for l id) pos full in
    rw (check_lem b l id now tier v.up, r) (refl, with_state-own l id (key_state_for l id))

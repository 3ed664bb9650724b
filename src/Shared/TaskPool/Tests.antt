-- ===== src/Shared/TaskPool/Tests.antt =====
-- The pool at concrete steps.
use hive_core_v.Base.{◌==◌, true, false, [], ◌∷◌, ◌≡◌, refl, arith}
use hive_core_v.Shared.TaskPool.{GrowablePool, with_idle_timeout, spawn, take_or_park, wake}
use hive_core_v.Shared.TaskPool.Reachable.{
  Reach, start, submits, locks, wakes, IsBalanced, known, count, Reach-IsBalanced,
}

-- The one worker parks, two jobs come in before it wakes, and it takes the first of them.
abbrev parked : GrowablePool
parked = take_or_park (with_idle_timeout 1)

abbrev two_jobs : GrowablePool
two_jobs = spawn 8 (spawn 7 parked)

abbrev busy : GrowablePool
busy = wake false two_jobs

busy-Reach : Reach 1 (8 ∷ 7 ∷ []) busy
unfolding with_idle_timeout take_or_park spawn
busy-Reach = wakes false (submits 8 (submits 7 (locks start (omega arith)))) (omega arith)

-- The second job waits, with no thread to take it before the first one ends.
stranded_test : (busy.state.queue ≡ 8 ∷ []) × (busy.state.idle ≡ 0) × (busy.seeking ≡ 0)
unfolding with_idle_timeout take_or_park spawn wake
stranded_test = (refl, refl, refl)

Reach-IsBalanced_example :
    IsBalanced busy × (known (λ j. j == 8) busy ≡ count (λ j. j == 8) (8 ∷ 7 ∷ []))
Reach-IsBalanced_example = Reach-IsBalanced 1 (λ j. j == 8) (omega arith) busy-Reach

-- A pool of two workers goes down to one.
retired_test : (wake true (take_or_park (take_or_park (with_idle_timeout 2)))).state.workers ≡ 1
unfolding with_idle_timeout take_or_park wake
retired_test = refl

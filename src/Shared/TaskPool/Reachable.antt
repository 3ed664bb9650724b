-- ===== src/Shared/TaskPool/Reachable.antt =====
-- The pool after any submissions and any steps of its threads.
use hive_core_v.Base.{
  ℕ, zero, suc, ◌+◌, ◌≤◌, ◌<◌, Bool, List, [], ◌∷◌, ◌++◌, length, length-append, ◌≡◌, ap, ◌∙◌,
  if◌then◌else◌, arith,
}
use hive_core_v.Shared.TaskPool.{
  GrowablePool, new, empty_pool, spawn_worker_locked, spawn_workers, with_idle_timeout, try_handoff,
  spawn, take_or_park, wake, end_job,
}

-- The states of a pool of `core` workers after the submissions of `jobs`, the last one first, and
-- any steps of its threads. A job returns; one that panics is left out.
pub data Reach (core : ℕ) : List ℕ → GrowablePool → Type 0 where
  start : Reach core [] (with_idle_timeout core)
  submits :
      {jobs : List ℕ} {p : GrowablePool} (job : ℕ)
      → Reach core jobs p
      → Reach core (job ∷ jobs) (spawn job p)
  locks :
      {jobs : List ℕ} {p : GrowablePool}
      → Reach core jobs p
      → 0 < p.seeking
      → Reach core jobs (take_or_park p)
  wakes :
      {jobs : List ℕ} {p : GrowablePool} (timed_out : Bool)
      → Reach core jobs p
      → 0 < p.state.idle
      → Reach core jobs (wake timed_out p)
  ends :
      {jobs : List ℕ} {p : GrowablePool} (before : List ℕ) (job : ℕ) (behind : List ℕ)
      → Reach core jobs p
      → p.running ≡ before ++ job ∷ behind
      → Reach core jobs (end_job before job behind p)

-- How many of the jobs have the property.
abbrev pub count : (ℕ → Bool) → List ℕ → ℕ
count P [] = 0
count P (j ∷ js) = (if P j then 1 else 0) + count P js

count-append : (P : ℕ → Bool) (xs ys : List ℕ) → count P (xs ++ ys) ≡ count P xs + count P ys
count-append P [] ys = omega arith
count-append P (x ∷ xs) ys = omega (arith, count-append P xs ys)

-- The jobs with the property that wait, run or are done.
abbrev pub known : (ℕ → Bool) → GrowablePool → ℕ
known P p = count P p.state.queue + count P p.running + count P p.finished

-- Every worker is parked, about to take the lock, or in a job, and one is left at least.
pub record IsBalanced (p : GrowablePool) : Type 0 where
  pub balance : p.state.workers ≡ p.state.idle + p.seeking + length p.running
  pub alive : 1 ≤ p.state.workers

spawn_workers-count :
    (n : ℕ) (p : GrowablePool)
    → ((spawn_workers n p).state.workers ≡ p.state.workers + n)
      × ((spawn_workers n p).seeking ≡ p.seeking + n)
      × ((spawn_workers n p).state.idle ≡ p.state.idle)
      × ((spawn_workers n p).running ≡ p.running)
      × ((spawn_workers n p).state.queue ≡ p.state.queue)
      × ((spawn_workers n p).finished ≡ p.finished)
unfolding spawn_workers spawn_worker_locked
spawn_workers-count zero p = ground arith
spawn_workers-count (suc n) p = ground (arith, spawn_workers-count n (spawn_worker_locked p))

handoff-IsBalanced : (p : GrowablePool) → IsBalanced p → IsBalanced (try_handoff p)
unfolding try_handoff spawn_worker_locked
handoff-IsBalanced p h = record {
  balance = ground (arith, h.balance);
  alive = ground (arith, h.alive);
}

handoff-known : (P : ℕ → Bool) (p : GrowablePool) → known P (try_handoff p) ≡ known P p
unfolding try_handoff spawn_worker_locked
handoff-known P p = ground arith

take-IsBalanced : (p : GrowablePool) → IsBalanced p → 0 < p.seeking → IsBalanced (take_or_park p)
unfolding take_or_park
take-IsBalanced p h lt = record {
  balance = ground (arith, h.balance, lt);
  alive = ground (arith, h.alive);
}

take-known : (P : ℕ → Bool) (p : GrowablePool) → known P (take_or_park p) ≡ known P p
unfolding take_or_park
take-known P p = ground arith

wake-IsBalanced :
    (t : Bool) (p : GrowablePool) → IsBalanced p → 0 < p.state.idle → IsBalanced (wake t p)
unfolding wake
wake-IsBalanced t p h lt = record {
  balance = ground (arith, h.balance, lt);
  alive = ground (arith, h.alive);
}

wake-known : (P : ℕ → Bool) (t : Bool) (p : GrowablePool) → known P (wake t p) ≡ known P p
unfolding wake
wake-known P t p = ground arith

end_job-IsBalanced :
    (before : List ℕ) (job : ℕ) (behind : List ℕ) (p : GrowablePool)
    → IsBalanced p
    → p.running ≡ before ++ job ∷ behind
    → IsBalanced (end_job before job behind p)
unfolding end_job
end_job-IsBalanced before job behind p h e =
    let size : length p.running ≡ length before + suc (length behind) =
      ap length e ∙ length-append before (job ∷ behind) in
    record {
      balance = omega (arith, h.balance, size, length-append before behind);
      alive = h.alive;
    }

end_job-known :
    (P : ℕ → Bool) (before : List ℕ) (job : ℕ) (behind : List ℕ) (p : GrowablePool)
    → p.running ≡ before ++ job ∷ behind
    → known P (end_job before job behind p) ≡ known P p
unfolding end_job
end_job-known P before job behind p e =
    let held : count P p.running ≡ count P before + count P (job ∷ behind) =
      ap (count P) e ∙ count-append P before (job ∷ behind) in
    omega (arith, held, count-append P before behind)

spawn-IsBalanced : (job : ℕ) (p : GrowablePool) → IsBalanced p → IsBalanced (spawn job p)
unfolding spawn
spawn-IsBalanced job p h =
    handoff-IsBalanced (record p { state = record p.state { queue = p.state.queue ++ job ∷ [] } })
      (record { balance = h.balance; alive = h.alive })

spawn-known :
    (P : ℕ → Bool) (job : ℕ) (p : GrowablePool)
    → known P (spawn job p) ≡ count P (job ∷ []) + known P p
unfolding spawn
spawn-known P job p =
    let q : GrowablePool = record p {
      state = record p.state { queue = p.state.queue ++ job ∷ [] };
    } in
    omega (arith, handoff-known P q, count-append P p.state.queue (job ∷ []))

start-IsBalanced : (core : ℕ) → 1 ≤ core → IsBalanced (with_idle_timeout core)
unfolding with_idle_timeout empty_pool new
start-IsBalanced core h =
    let c = spawn_workers-count core (empty_pool core) in
    record { balance = ground (arith, c); alive = ground (arith, c, h) }

start-known : (P : ℕ → Bool) (core : ℕ) → known P (with_idle_timeout core) ≡ 0
unfolding with_idle_timeout empty_pool new
start-known P core = ground (arith, spawn_workers-count core (empty_pool core))

-- In a pool that starts with a worker at least, after any submissions and any steps of its
-- threads, of jobs that return, every worker is parked, about to take the lock, or in a job, so
-- the pool never counts more parked workers than workers; one worker is left at least; and for
-- any property of jobs, those with it that wait, run and are done are as many as those submitted:
-- no job is lost or run twice.
pub Reach-IsBalanced :
    (core : ℕ) {jobs : List ℕ} {p : GrowablePool} (P : ℕ → Bool)
    → 1 ≤ core
    → Reach core jobs p
    → IsBalanced p × (known P p ≡ count P jobs)
Reach-IsBalanced core P h start = (start-IsBalanced core h, start-known P core)
Reach-IsBalanced core P h (submits {jobs} {p} job r) =
    let (b, k) = Reach-IsBalanced core P h r in
    (spawn-IsBalanced job p b, omega (arith, spawn-known P job p, k))
Reach-IsBalanced core P h (locks {jobs} {p} r lt) =
    let (b, k) = Reach-IsBalanced core P h r in (take-IsBalanced p b lt, take-known P p ∙ k)
Reach-IsBalanced core P h (wakes {jobs} {p} t r lt) =
    let (b, k) = Reach-IsBalanced core P h r in (wake-IsBalanced t p b lt, wake-known P t p ∙ k)
Reach-IsBalanced core P h (ends {jobs} {p} before job behind r e) =
    let (b, k) = Reach-IsBalanced core P h r in
    (end_job-IsBalanced before job behind p b e, end_job-known P before job behind p e ∙ k)

-- ===== src/Shared/TaskPool.antt =====
-- src/shared/taskpool.rs: the pool of threads that run the connections. A job is its number.
pub mod Reachable
mod Tests
use hive_core_v.Base.{
  ℕ, zero, suc, ◌+◌, ◌-◌, Bool, true, false, ◌&&◌, List, [], ◌∷◌, ◌++◌, length, ltb, if◌then◌else◌,
}

pub record PoolState : Type 0 where
  pub queue : List ℕ
  pub workers : ℕ
  pub idle : ℕ

unfoldable pub new : PoolState
new = record { queue = []; workers = 0; idle = 0 }

-- The state behind the lock, and where the threads are: `seeking` of them are about to take the lock
-- at the head of their loop, and one is in each running job. The others are parked.
pub record GrowablePool : Type 0 where
  pub state : PoolState
  pub core : ℕ
  pub seeking : ℕ
  pub running : List ℕ
  pub finished : List ℕ

unfoldable pub spawn_worker_locked : GrowablePool → GrowablePool
spawn_worker_locked p = record p {
  state = record p.state { workers = p.state.workers + 1 };
  seeking = p.seeking + 1;
}

unfoldable pub spawn_workers : ℕ → GrowablePool → GrowablePool
unfolding spawn_worker_locked
spawn_workers zero p = p
spawn_workers (suc n) p = spawn_workers n (spawn_worker_locked p)

unfoldable pub empty_pool : ℕ → GrowablePool
unfolding new
empty_pool core = record {
  state = new;
  core = if ltb core 1 then 1 else core;
  seeking = 0;
  running = [];
  finished = [];
}

-- The record has at least one core worker; the loop starts as many as were asked for.
unfoldable pub with_idle_timeout : ℕ → GrowablePool
unfolding empty_pool spawn_workers
with_idle_timeout core = spawn_workers core (empty_pool core)

-- A notification alone changes nothing here: a parked thread may wake at any time.
unfoldable pub try_handoff : GrowablePool → GrowablePool
unfolding spawn_worker_locked
try_handoff p =
    if ltb 0 p.state.idle
    then p
    else if ltb (p.state.workers - p.state.idle) (length p.state.queue)
    then spawn_worker_locked p
    else p

unfoldable pub spawn : ℕ → GrowablePool → GrowablePool
unfolding try_handoff
spawn job p =
    try_handoff (record p { state = record p.state { queue = p.state.queue ++ job ∷ [] } })

-- A thread that takes the lock at the head of its loop: it takes a job, or parks.
unfoldable pub take_or_park : GrowablePool → GrowablePool
take_or_park p = elim p.state.queue [
  | [] ↦ record p { state = record p.state { idle = p.state.idle + 1 }; seeking = p.seeking - 1 }
  | job ∷ later ↦ record p {
    state = record p.state { queue = later };
    seeking = p.seeking - 1;
    running = job ∷ p.running;
  }
]

-- A parked thread that wakes: it takes a job, retires, or parks again.
unfoldable pub wake : Bool → GrowablePool → GrowablePool
wake timed_out p = elim p.state.queue [
  | [] ↦
      if timed_out && ltb 1 p.state.workers
      then record p {
        state = record p.state { workers = p.state.workers - 1; idle = p.state.idle - 1 };
      }
      else p
  | job ∷ later ↦ record p {
    state = record p.state { queue = later; idle = p.state.idle - 1 };
    running = job ∷ p.running;
  }
]

-- The end of the job between `before` and `behind`; its thread goes back to the head of the loop.
unfoldable pub end_job : List ℕ → ℕ → List ℕ → GrowablePool → GrowablePool
end_job before job behind p = record p {
  seeking = p.seeking + 1;
  running = before ++ behind;
  finished = job ∷ p.finished;
}

-- ===== src/App/State.antt =====
-- src/app/state.rs: what the servers share. The request queue and the channels to the statistics
-- and capture workers are not fields here: the modules of the queue keep their own state.
use hive_core_v.Base.{String, Bool}
use hive_core_v.Base.HashMap.{HashMap}
use hive_core_v.App.Config.{Config}
use hive_core_v.App.RateLimiter.State.{RateLimiter}
use hive_core_v.Auth.Keys.{KeyStore}
use hive_core_v.Worker.Models.{WorkerStatus}

-- `workers_poisoned` is the state of the lock of `workers`.
pub record AppState (Value : Type 0) : Type 0 where
  pub config : Config
  pub keys : KeyStore
  pub workers : HashMap String (WorkerStatus Value)
  pub workers_poisoned : Bool
  pub rate_limiter : RateLimiter

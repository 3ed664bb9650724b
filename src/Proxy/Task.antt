-- ===== src/Proxy/Task.antt =====
-- src/servers/proxy/models/client_task.rs and response_target.rs: what waits in a queue.
use hive_core_v.Base.{ℕ, ◌+◌, ◌-◌, ◌%◌, ◌^◌, String, Bool, Option, none, some, List, ltb}
use hive_core_v.Shared.Http.Request.{HttpRequest}

-- Where the answer goes: a client's stream or a probe's channel, by a number, or nowhere.
pub data ResponseTarget : Type 0 where
  proxy_client : ℕ → ResponseTarget
  capture : ℕ → ResponseTarget
  ignore : ResponseTarget

-- Durations and instants are nanoseconds.
pub record RequestContext (Value : Type 0) : Type 0 where
  pub key_id : Option ℕ
  pub key_name : Option String
  pub model : Option String
  pub capture : Bool
  pub client_request : Option (HttpRequest Value)
  pub proxy_mutations : List String
  pub queue_timeout : Option ℕ

pub record ClientTask (Value : Type 0) : Type 0 where
  pub id : ℕ
  pub request : HttpRequest Value
  pub response_target : ResponseTarget
  pub queued_at : ℕ
  pub context : RequestContext Value

abbrev pub timeout_or : ℕ → Option ℕ → ℕ
timeout_or d none = d
timeout_or d (some t) = t

module _ {V : Type 0} where
  -- `next_task_id` is the static counter, a `u64` that wraps; `now` is the clock.
  unfoldable pub new : ℕ → HttpRequest V → ResponseTarget → RequestContext V → ℕ → ClientTask V × ℕ
  new next_task_id request response_target context now = (
    record {
      id = next_task_id;
      request = request;
      response_target = response_target;
      queued_at = now;
      context = context;
    },
    (next_task_id + 1) % 2 ^ 64,
  )

  unfoldable pub queue_wait : ClientTask V → ℕ → ℕ
  queue_wait t now = now - t.queued_at

  unfoldable pub is_expired : ClientTask V → ℕ → ℕ → Bool
  unfolding queue_wait
  is_expired t default_timeout now =
      ltb (timeout_or default_timeout t.context.queue_timeout) (queue_wait t now)

-- ===== src/Worker/Tests.antt =====
-- A worker's connections at concrete values.
use hive_core_v.Base.{◌≡◌, refl, none, some, [], ◌∷◌, arith}
use hive_core_v.Worker.Models.{WorkerStatus, WorkerConnectionStatus, working}
use hive_core_v.Worker.Connections.{connection, sync_summary}
use hive_core_v.Worker.Connections.Summary.{Summarises, sync_summary-Summarises}
use hive_core_v.Worker.Connections.Registration.{IsWellFormed}
use hive_core_v.Base.{string_eq, false}
use hive_core_v.Base.HashMap
use hive_core_v.App.State.{AppState}
use hive_core_v.Proxy.Queue.Deques.{RequestQueue}
use hive_core_v.Worker.Overseer.{round, is_stale, timeout_of}
use hive_core_v.Worker.Overseer.Fresh.{line as overseen_line, round-fresh}
use hive_core_v.Worker.Overseer.Gone.{round-gone}
use hive_core_v.Samples.{Doc, worker, state}

abbrev line : WorkerConnectionStatus
line = record {
  index = 0;
  nonce = "n";
  tags = "qwen3:8b" ∷ [];
  state = working;
  last_ping = 5;
  last_poll = 9;
  core_to_node_rtt_latency = none;
  node_to_backend_rtt_latency = none;
  latency_reported_at = none;
}

abbrev joined_worker : WorkerStatus Doc
joined_worker = record worker { connections = line ∷ []; next_connection_index = 1 }

well_formed : IsWellFormed joined_worker
well_formed = record {
  distinct = (tt, tt);
  below = (omega arith, tt);
  nonce = "n";
  shared = (refl, tt);
}

sync_summary-Summarises_example : Summarises joined_worker (sync_summary joined_worker) (line ∷ [])
sync_summary-Summarises_example = sync_summary-Summarises joined_worker

abbrev overseen : AppState Doc
overseen = record state { workers = ("w1", joined_worker) ∷ [] }

abbrev no_tasks : RequestQueue Doc
no_tasks = record {
  model_queue = [];
  model_poisoned = false;
  node_queue = [];
  node_poisoned = false;
  default_timeout = 60;
  generation = 0;
}

-- The working connection last polled 9 nanoseconds after the origin, and may be silent for 300 s.
round-fresh_example : overseen_line "w1" 0 (round overseen no_tasks 1000).0.workers ≡ some line
unfolding HashMap.get connection is_stale timeout_of
round-fresh_example =
    round-fresh overseen no_tasks 1000 "w1" 0 joined_worker line (tt, tt) refl (tt, tt) refl refl

round-gone_example : overseen_line "w1" 0 (round overseen no_tasks 400_000_000_000).0.workers ≡ none
unfolding HashMap.get connection is_stale timeout_of
round-gone_example =
    round-gone overseen no_tasks 400_000_000_000 "w1" 0 joined_worker line refl refl refl refl

-- ===== src/Lib.antt =====
-- HiveCore routes requests of clients to workers that poll for work. A client's request comes in at
-- the proxy server, is admitted under an API key, and is answered by the proxy itself or waits in a
-- queue; a worker's connection takes it from there. The modules follow the source.
--
-- App: src/app/rate_limiter.rs as App/RateLimiter. `WindowState` is App/RateLimiter/Window, the
--   records, tiers and `resolve_tier` are App/RateLimiter/State, the loops of `check` are
--   App/RateLimiter/Scan, and `check`, `start_request`, `finish_request` and `snapshot` are
--   App/RateLimiter/Check. App/Config and App/State have the records of src/app/models/config.rs and
--   src/app/state.rs, and App/Access `authorize_management`.
-- Auth: the roles and records of src/auth/models, the model rules of src/auth/policy.rs
--   (Auth/Policy), and the cache of src/auth/keys.rs (Auth/Keys) in front of the table of
--   src/shared/sqlite/key_store.rs (Shared/Sqlite).
-- Shared/Http: the requests, responses and JSON fields of src/shared/http, the token usage in answers
--   (Shared/Http/TokenUsage), and the reader and the frames of requests (Shared/Http/Frame).
-- Shared/Capture: what src/shared/capture/mod.rs records of requests and answers.
-- Shared/TaskPool: the pool of threads of src/shared/taskpool.rs.
-- Shared/Wire: the texts, readers and writers of Rust's standard library, as far as they are used.
-- Worker: the connections of src/servers/worker/models/worker_status.rs, a round of
--   src/servers/worker/overseer.rs, and src/servers/worker/server.rs as Worker/Server. There,
--   `touch_worker`, `remove_worker` and the block of `authenticate_worker` that holds the lock are
--   Registry, the readers of heads and chunk sizes are Chunks, `UsageLineScanner` is Scanner,
--   `sanitize_response_headers` is Sanitize, the ways of an answer to a client or a channel are Relay,
--   `handle_poll` is Poll, the other handlers and the loop are Connection, the times of an idle poll
--   are Jitter, and the latency reports are Latency. Session is what a connection works on.
-- Proxy: src/servers/proxy. queue.rs is Proxy/Queue, planner.rs is Proxy/Planner, admission.rs is
--   Proxy/Admission, the records of models are Proxy/Models and Proxy/Task, and `handle_connection`
--   of server.rs is Proxy/Server, on the state of Proxy/State; probe.rs is Proxy/Probe, and the
--   planner's probes of several workers are Proxy/Planner/Probing. Proxy/Safety sets admission and
--   planner side by side.
-- Management: src/servers/management. The bodies of models are Models, routes/keys.rs is Keys,
--   routes/worker_command.rs and routes/queue.rs are Command, and server.rs is Server, with its table
--   of routes in Permissions and the files of src/shared/dash.rs in Dashboard. A view, the function
--   that renders the workers, the usage or a key's own limits, stands in an answer by its name.
-- Base has the shared names, maps and lists, and Samples the values of the tests.
--
-- A method that locks its data runs alone here, as one step from a state to a state; a lock that a
-- panic has poisoned is a Boolean of the state, and each method does with it what the source does.
-- Maps are association lists, whose order stands for the iteration order. Instants and durations are
-- nanoseconds, an instant counted from the earliest one that the platform can represent. Machine
-- integers keep their wrap-around or saturation where the source relies on it: the generation and
-- the task ids (`u64`), the slots (`i64`), the indices of connections (`u64`). Most
-- recursion is structural. The printer of decimal numbers has the number and one more as its fuel;
-- a loop over the lines of a stream has the bytes that are left and one more, since each round takes
-- a byte at least or ends the loop, and one that runs out says `unfinished`; the redaction of
-- embeddings has 128 levels, the depth at which the JSON parser gives up.
--
-- A reader is the bytes that it will give and what comes behind them, the end or an error; a writer
-- fails after some number of calls. A handler is a function from a state to a result or an error and
-- the state then, so the state that an error leaves is part of the model.
--
-- Parameters: the search of a sorted slice (`BinarySearch`, with the promises of the library's
-- documentation), the JSON library (`Json`, of which nothing is assumed), the readers that are derived
-- for the bodies of the management (`Readers`, likewise), the files that the build embeds, what the
-- probed workers answer in time, in which order the probing threads go and what other threads do to
-- the queue meanwhile (`Probes`), and what other threads do in a wait (`Times`, `Wait`).
--
-- The probes that a plan sends are threads of their own in the source. Each touches the deque and the
-- kept answers of its own worker only, so they run here one after the other, in the order in which
-- they take their task ids; their results are put in the order of arrival behind that.
--
-- Not modelled: the accept loops, timeouts, threads and logging; two threads inside one method, so
-- also the window between the lookup of a deque and the push to it; what other threads do to a
-- worker's connection while it is served, except in the wait of an idle poll, and to anything but
-- the queue while a plan's probes wait; the views of the management, jobs that panic, the usage
-- tables, the files of captures, the configuration loader and the Telegram bot.
pub mod Base
pub mod Auth
pub mod App
pub mod Shared
pub mod Worker
pub mod Proxy
pub mod Management
pub mod Samples

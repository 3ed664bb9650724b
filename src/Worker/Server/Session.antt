-- ===== src/Worker/Server/Session.antt =====
-- What the connection of a worker works on, and the release of a slot in `handle_poll`.
use hive_core_v.Base.{ℕ, String, string_eq, nat_eq, Option, none, some, List, []}
use hive_core_v.Base.HashMap
use hive_core_v.Base.HashMap.{HashMap}
use hive_core_v.App.State.{AppState}
use hive_core_v.App.RateLimiter.Check.{finish_request}
use hive_core_v.Proxy.Queue.Deques.{RequestQueue}
use hive_core_v.Shared.Capture.{CapturedHttpRequest, CapturedResponse}
use hive_core_v.Shared.Wire.Stream.{
  Outcome, err, unfinished, Action, ok, err, unfinished, Reader, Writer,
}
use hive_core_v.Worker.Server.Relay.{WorkerHttpResponse}

-- The times of day are left out of the events.
pub record CaptureEvent (Value : Type 0) : Type 0 where
  pub schema_version : ℕ
  pub request_id : ℕ
  pub key_id : ℕ
  pub key_name : String
  pub worker_name : String
  pub method : String
  pub uri : String
  pub model : Option String
  pub status_code : ℕ
  pub queue_ms : ℕ
  pub worker_ms : ℕ
  pub total_ms : ℕ
  pub client_request : CapturedHttpRequest Value
  pub forwarded_request : Option (CapturedHttpRequest Value)
  pub proxy_mutations : List String
  pub response : CapturedResponse Value

pub record UsageEvent : Type 0 where
  pub key_id : Option ℕ
  pub key_name : String
  pub worker_name : String
  pub backend : String
  pub model : String
  pub status_code : ℕ
  pub prompt_tokens : ℕ
  pub completion_tokens : ℕ
  pub total_tokens : ℕ
  pub queue_ms : ℕ
  pub worker_ms : ℕ
  pub total_ms : ℕ
  pub duration_ms : ℕ

-- What the connection of a worker works on: the shared state, its own socket, the streams of the
-- clients, and what it sent on the channels.
pub record Session (Value : Type 0) : Type 0 where
  pub app : AppState Value
  pub request_queue : RequestQueue Value
  pub reader : Reader
  pub writer : Writer
  pub clients : HashMap ℕ Writer
  pub answers : List (ℕ × WorkerHttpResponse)
  pub captures : List (CaptureEvent Value)
  pub usages : List UsageEvent

module _ {V A : Type 0} where
  abbrev pub reading : Action Reader A → Action (Session V) A
  reading m s = let (o, r) = m s.reader in (o, record s { reader = r })

  abbrev pub writing : Action Writer A → Action (Session V) A
  writing m s = let (o, w) = m s.writer in (o, record s { writer = w })

  abbrev pub in_app : Action (AppState V) A → Action (Session V) A
  in_app m s = let (o, a) = m s.app in (o, record s { app = a })

module _ {V : Type 0} where
  abbrev pub changing : (AppState V → AppState V) → Action (Session V) (Unit {0})
  changing f s = (ok tt, record s { app = f s.app })

  -- The release of the slot.
  unfoldable pub release : Option ℕ → AppState V → AppState V
  unfolding finish_request
  release none app = app
  release (some id) app = record app { rate_limiter = finish_request app.rate_limiter id }

  -- `match … { Ok(result) => result, Err(e) => { finish_or_continue!(); return Err(e) } }`
  unfoldable pub on_error : {A : Type 0} → Option ℕ → Outcome A × Session V → Outcome A × Session V
  unfolding release
  on_error key_id (ok a, s) = (ok a, s)
  on_error key_id (err e, s) = (err e, record s { app = release key_id s.app })
  on_error key_id (unfinished, s) = (unfinished, s)

  unfoldable pub or_release : {A : Type 0} → Option ℕ → Action (Session V) A → Action (Session V) A
  unfolding on_error
  or_release key_id m s = on_error key_id (m s)

abbrev pub closed : Writer
closed = record { sent = []; left = 0 }

abbrev pub client_of : ℕ → HashMap ℕ Writer → Writer
client_of stream m = elim (HashMap.get stream m) [ none ↦ closed | some w ↦ w ]

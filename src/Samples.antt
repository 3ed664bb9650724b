-- ===== src/Samples.antt =====
-- Concrete values for the tests of the other modules: a search, a JSON reader, keys and requests.
use hive_core_v.Base.{
  ℕ, suc, ◌-◌, ◌≤◌, ◌<◌, ◌≡◌, ap, subst, ==_iff, String, string_eq, true, false, All, Option, none,
  some, List, [], ◌∷◌, map, take, drop, length, get_elem?, IsSorted, ltb, ◌==◌, if◌then◌else◌,
  arith, Bool-cases, inl, inr,
}
use hive_core_v.Base.HashMap
use hive_core_v.Base.HashMap.{HashMap}
use hive_core_v.Auth.Models.{KeyRecord, admin, client}
use hive_core_v.Auth.Keys.{KeyStore}
use hive_core_v.App.Config.{Config}
use hive_core_v.App.RateLimiter.State.{RateLimitTier, RateLimiter, unlimited}
use hive_core_v.App.RateLimiter.Window.{Found, found, missing, BinarySearch}
use hive_core_v.App.State.{AppState}
use hive_core_v.Shared.Http.Json.{Json}
use hive_core_v.Shared.Http.Request.{HttpRequest}
use hive_core_v.Shared.Sqlite.KeyTable.{SqliteKeyStore}
use hive_core_v.Worker.Models.{WorkerStatus, ollama, polling}

-- A search from the front, with the promises of a binary search.
abbrev next_place : Found → Found
next_place (found i) = found (suc i)
next_place (missing i) = missing (suc i)

abbrev linear : List ℕ → ℕ → Found
linear [] x = missing 0
linear (y ∷ ys) x =
    let later = linear ys x in
    if y == x then found 0 else if ltb x y then missing 0 else next_place later

after_lt : (x y : ℕ) (ys : List ℕ) → All (λ z. y ≤ z) ys → x < y → All (λ z. x < z) ys
after_lt x y [] h lt = tt
after_lt x y (z ∷ zs) h lt = (omega (arith, h.0), after_lt x y zs h.1 lt)

abbrev Fits : List ℕ → ℕ → Found → Type 0
Fits xs x (found i) = get_elem? xs i ≡ some x
Fits xs x (missing i) =
    (i ≤ length xs) × All (λ y. y < x) (take i xs) × All (λ y. x < y) (drop i xs)

next_place-Fits :
    (y x : ℕ) (ys : List ℕ) (f : Found) → y < x → Fits ys x f → Fits (y ∷ ys) x (next_place f)
next_place-Fits y x ys (found i) lt h = h
next_place-Fits y x ys (missing i) lt h = (omega (arith, h.0), (lt, h.1), h.2)

pub linear-Fits : (xs : List ℕ) (x : ℕ) → IsSorted xs → Fits xs x (linear xs x)
linear-Fits [] x s = (omega arith, tt, tt)
linear-Fits (y ∷ ys) x s = elim (Bool-cases (y == x)) [
  | inl e ↦ rw e (ap some ((==_iff y x).0 e))
  | inr n ↦ elim (Bool-cases (ltb x y)) [
    | inl lt ↦
        let less : x < y = ground arith in
        rw (n, lt) (omega arith, tt, (less, after_lt x y ys s.0 less))
    | inr ge ↦
        rw (n, ge)
          (next_place-Fits y x ys (linear ys x) (ground (arith, ==_iff y x)) (linear-Fits ys x s.1))
  ]
]

abbrev pub linear_search : BinarySearch
linear_search = record {
  binary_search = linear;
  at_found = λ xs x i s e. subst (Fits xs x) e (linear-Fits xs x s);
  at_missing = λ xs x i s e. subst (Fits xs x) e (linear-Fits xs x s);
}

-- A reader that knows four shapes: a number, a text, an object of texts, and an object each of whose
-- fields is one list of such objects. Any body but the empty one asks for `qwen3:8b`.
pub data Doc : Type 0 where
  count : ℕ → Doc
  text : String → Doc
  entry : HashMap String String → Doc
  page : List (HashMap String String) → Doc

abbrev get : Doc → String → Option Doc
get (count n) f = none
get (text s) f = none
get (entry m) f = elim (HashMap.get f m) [ none ↦ none | some s ↦ some (text s) ]
get (page l) f = some (page l)

abbrev as_str : Doc → Option String
as_str (text s) = some s
as_str _ = none

abbrev as_array : Doc → Option (List Doc)
as_array (page l) = some (map entry l)
as_array _ = none

abbrev as_u64 : Doc → Option ℕ
as_u64 (count n) = some n
as_u64 _ = none

-- Reads a text that begins with a digit as that digit.
abbrev from_str : List ℕ → Option Doc
from_str [] = none
from_str (c ∷ cs) = if ltb c 58 then some (count (c - 48)) else none

abbrev from_slice : List ℕ → Option Doc
from_slice [] = none
from_slice (b ∷ bs) = some (entry (("model", "qwen3:8b") ∷ []))

abbrev pub docs : Json
docs = record {
  Value = Doc;
  from_slice = from_slice;
  from_str = from_str;
  to_vec = λ v. some [];
  to_string = λ v. some [];
  get = get;
  as_str = as_str;
  as_array = as_array;
  as_u64 = as_u64;
  as_number = λ v. false;
  as_bool = λ v. none;
  as_object = λ v. none;
  string = text;
  number = λ n. text "number";
  bool = λ b. text "bool";
  array = λ l. page [];
  object = λ m. entry [];
}

abbrev pub alice : KeyRecord
alice = record {
  id = 1;
  token = "t1";
  role = client;
  name = "alice";
  whitelist_models = "qwen3" ∷ [];
  blacklist_models = [];
  capture = false;
  rate_limit_tier = "low";
}

abbrev pub root : KeyRecord
root = record {
  id = 2;
  token = "t2";
  role = admin;
  name = "root";
  whitelist_models = [];
  blacklist_models = [];
  capture = false;
  rate_limit_tier = "none";
}

abbrev pub table : SqliteKeyStore
table = record {
  rows = record { key = alice; deleted = false } ∷ record { key = root; deleted = false } ∷ [];
  next_id = 3;
  broken = false;
}

abbrev pub key_store : KeyStore
key_store = record { cache = []; poisoned = false; database = table }

abbrev pub tier : RateLimitTier
tier = record {
  requests_per_minute = 2;
  requests_per_hour = 0;
  requests_per_day = 0;
  requests_per_week = 0;
  requests_per_month = 0;
  max_concurrent = 1;
}

abbrev pub limiter : RateLimiter
limiter = record {
  state = [];
  poisoned = false;
  tiers = ("low", tier) ∷ ("none", unlimited) ∷ [];
  default_tier = "low";
  check_counter = 0;
}

abbrev config : Config
config = record {
  user_authentication = true;
  proxy_port = 6666;
  node_connection_port = 7777;
  management_connection_port = 6668;
  polling_node_connection_timeout = 10;
  working_node_connection_timeout = 300;
  latency_report_timeout = 30;
  proxy_timeout_ms = 60_000;
  message_chunk_buffer_size = 16_384;
  database_url = "sqlite.db";
  capture_dir = "data/captures";
  telegram_bot_token = none;
  telegram_user_id = none;
  telegram_message_thread_id = none;
  rate_limit_tiers = [];
  default_rate_limit_tier = "low";
}

abbrev pub worker : WorkerStatus Doc
worker = record {
  name = "w1";
  hive_version = "2";
  backend_version = "1";
  backend = ollama;
  tags = "qwen3:8b" ∷ [];
  state = polling;
  last_ping = 10;
  last_poll = 20;
  core_to_node_rtt_latency = none;
  node_to_backend_rtt_latency = none;
  latency_reported_at = none;
  connections = [];
  next_connection_index = 0;
  model_catalog = none;
  running_models = none;
  version_payload = none;
}

abbrev pub state : AppState Doc
state = record {
  config = config;
  keys = key_store;
  workers = ("w1", worker) ∷ [];
  workers_poisoned = false;
  rate_limiter = limiter;
}

-- A request of a token.
abbrev pub request_of : String → String → String → HttpRequest Doc
request_of token method uri = record {
  method = method;
  uri = uri;
  protocol = "HTTP/1.1";
  headers = ("authorization", token) ∷ [];
  body = 1 ∷ [];
  memo = none;
}

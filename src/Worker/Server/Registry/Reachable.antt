-- ===== src/Worker/Server/Registry/Reachable.antt =====
-- The registry after any steps of its connections and of the overseer.
use hive_core_v.Base.{
  ℕ, ◌≡◌, refl, sym, subst, String, string_eq, str_eq, not, Option, List, [], ◌∷◌, map, ◌||◌,
  Bool-cases, Option-cases, inl, inr,
}
use hive_core_v.App.State.{AppState}
use hive_core_v.Auth.Keys.{verify}
use hive_core_v.Auth.Models.{admin, worker}
use hive_core_v.Shared.Wire.Utf8.{codes, text_of}
use hive_core_v.Shared.Wire.Text.{split}
use hive_core_v.Shared.Http.Request.{HttpRequest}
use hive_core_v.Shared.Wire.Stream.{Outcome, ok, err, unfinished, after}
use hive_core_v.Worker.Models.{WorkerBackend, WorkerPhase}
use hive_core_v.Worker.Overseer.{remove_stale, stale_connections}
use hive_core_v.Worker.Server.Latency.{NodeLatency}
use hive_core_v.Worker.Server.Registry.{
  touch_worker, remove_worker, join, admit_key, admit_parts, admit_worker,
}
use hive_core_v.Worker.Server.Registry.Invariant.{AreSound}
use hive_core_v.Worker.Server.Registry.Operations.{
  touch_worker-AreSound, remove_worker-AreSound, remove_stale-AreSound, HaveRoom, join-AreSound,
}

module _ {V : Type 0} where
  after-workers :
      {A B : Type 0} (f : A → B) (p : Outcome A × AppState V)
      → (after (λ a s. (ok (f a), s)) p).1 ≡ p.1
  after-workers f (ok a, s) = refl
  after-workers f (err e, s) = refl
  after-workers f (unfinished, s) = refl

  admit_key-AreSound :
      (token nonce hive backend : String) (now : ℕ) (app : AppState V)
      → AreSound app.workers
      → HaveRoom app.workers
      → AreSound (admit_key token nonce hive backend now app).1.workers
  unfolding admit_key
  admit_key-AreSound token nonce hive backend now app h r =
      let (keys, found) = verify app.keys token (admin ∷ worker ∷ []) in
      let app' : AppState V = record app { keys = keys } in
      elim (Option-cases found) [
        | inl n ↦ rw (admit_key, n) h
        | inr (k, n) ↦
            rw (admit_key, n)
              (subst (λ (x : AppState V). AreSound x.workers)
                (sym (
                  after-workers (λ (i : ℕ). (k.name, i)) (join k.name nonce hive backend now app')))
                (join-AreSound k.name nonce hive backend now app' h r))
      ]

  admit_parts-AreSound :
      (parts : List String) (now : ℕ) (app : AppState V)
      → AreSound app.workers
      → HaveRoom app.workers
      → AreSound (admit_parts parts now app).1.workers
  unfolding admit_parts
  admit_parts-AreSound [] now app h r = h
  admit_parts-AreSound (a ∷ []) now app h r = h
  admit_parts-AreSound (a ∷ b ∷ []) now app h r = h
  admit_parts-AreSound (a ∷ b ∷ c ∷ []) now app h r = h
  admit_parts-AreSound (a ∷ b ∷ c ∷ d ∷ []) now app h r = admit_key-AreSound a b c d now app h r
  admit_parts-AreSound (a ∷ b ∷ c ∷ d ∷ e ∷ es) now app h r = h

  admit_worker-AreSound :
      (request : HttpRequest V) (now : ℕ) (app : AppState V)
      → AreSound app.workers
      → HaveRoom app.workers
      → AreSound (admit_worker request now app).1.workers
  unfolding admit_worker
  admit_worker-AreSound request now app h r =
      elim (Bool-cases
        (not (str_eq request.protocol "HIVE") || not (str_eq request.method "AUTH"))) [
          | inl e ↦ rw (admit_worker, e) h
          | inr e ↦
              rw (admit_worker, e)
                (admit_parts-AreSound (map text_of (split 59 (codes request.uri))) now app h r)
        ]

  -- A change of the shared state by a connection of a worker, by the overseer, or by a thread that
  -- leaves the registry alone.
  pub data Step : AppState V → AppState V → Type 0 where
    admits :
        (request : HttpRequest V) (now : ℕ) (app : AppState V)
        → HaveRoom app.workers
        → Step app (admit_worker request now app).1
    touches :
        (name : String) (index : ℕ) (tags : Option (List String)) (phase : WorkerPhase)
        (backend : Option WorkerBackend) (latency : Option NodeLatency) (now : ℕ) (app : AppState V)
        → Step app (touch_worker name index tags phase backend latency now app)
    leaves :
        (name : String) (index : ℕ) (app : AppState V) → Step app (remove_worker name index app)
    sweeps :
        (now : ℕ) (app : AppState V)
        → Step app (record app {
          workers = remove_stale app.workers (stale_connections app.config now app.workers);
        })
    elsewhere : (app app' : AppState V) → app'.workers ≡ app.workers → Step app app'

  -- The states after steps of any connections in any order.
  pub data Reach (app : AppState V) : AppState V → Type 0 where
    start : Reach app app
    later : {b c : AppState V} → Reach app b → Step b c → Reach app c

  Step-AreSound : {a b : AppState V} → Step a b → AreSound a.workers → AreSound b.workers
  Step-AreSound (admits request now app r) h = admit_worker-AreSound request now app h r
  Step-AreSound (touches name index tags phase backend latency now app) h =
      touch_worker-AreSound name index tags phase backend latency now app h
  Step-AreSound (leaves name index app) h = remove_worker-AreSound name index app h
  Step-AreSound (sweeps now app) h = remove_stale-AreSound app.workers _ h
  Step-AreSound (elsewhere app app' e) h = subst AreSound (sym e) h

  -- In every state that is reached from one with no worker, by connections that join, are touched
  -- and leave, by the overseer and by steps elsewhere, in any order and as long as no counter of
  -- indices is at its greatest value when a connection joins, every worker of the registry stands
  -- under its own name, has a connection, and has its connections in the order of distinct
  -- indices below its counter, with one nonce.
  pub Reach-AreSound : {a b : AppState V} → Reach a b → a.workers ≡ [] → AreSound b.workers
  Reach-AreSound start e = subst AreSound (sym e) tt
  Reach-AreSound (later r s) e = Step-AreSound s (Reach-AreSound r e)

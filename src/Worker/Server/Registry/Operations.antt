-- ===== src/Worker/Server/Registry/Operations.antt =====
-- What `authenticate_worker`, `touch_worker`, `remove_worker` and the overseer do to a sound registry.
use hive_core_v.Base.{
  ℕ, ◌<◌, ◌≡◌, refl, sym, ◌∙◌, subst, String, string_eq, true, false, ◌&&◌, Option, List, [], ◌∷◌,
  is_empty, if◌then◌else◌, arith, Bool-cases, Option-cases, inl, inr,
}
use hive_core_v.Base.HashMap
use hive_core_v.Base.HashMap.{HashMap}
use hive_core_v.Base.HashMap.Entries.{
  AllEntries, get-AllEntries, insert-AllEntries, remove-insert-AllEntries,
}
use hive_core_v.App.State.{AppState}
use hive_core_v.Worker.Models.{WorkerBackend, WorkerPhase, WorkerStatus, u64_max}
use hive_core_v.Worker.Connections.{
  sync_summary, register_connection, connection, remove_connection, accepts_nonce,
}
use hive_core_v.Worker.Connections.Registration.{
  IsWellFormed, register_connection-IsWellFormed, remove_connection-IsWellFormed,
}
use hive_core_v.Worker.Overseer.{remove_one, remove_stale}
use hive_core_v.Worker.Server.Latency.{NodeLatency}
use hive_core_v.Worker.Server.Registry.{
  Workers, change_connection, or_backend, touched, touch_worker, remove_worker, join, entry,
}
use hive_core_v.Worker.Server.Registry.Invariant.{
  IsSound, AreSound, change-All, touched-same, touched-AreDistinct, change-live,
  sync_summary-IsSound,
}

module _ {V : Type 0} where
  touched-IsSound :
      (n : String) (w : WorkerStatus V) (i : ℕ) (tags : Option (List String)) (phase : WorkerPhase)
      (backend : Option WorkerBackend) (latency : Option NodeLatency) (now : ℕ)
      → IsSound n w
      → IsSound n (record w {
        connections = change_connection i (touched tags phase latency now) w.connections;
        backend = or_backend w.backend backend;
      })
  touched-IsSound n w i tags phase backend latency now h =
      let same = touched-same tags phase latency now in
      let change = touched tags phase latency now in
      record {
        named = h.named;
        live = change-live tags phase latency now i w.connections h.live;
        formed = record {
          distinct = touched-AreDistinct tags phase latency now i w.connections h.formed.distinct;
          below =
              change-All (λ c. c.index < w.next_connection_index) i change w.connections
                (λ c k. subst (λ (j : ℕ). j < w.next_connection_index) (sym (same c).0) k)
                h.formed.below;
          nonce = h.formed.nonce;
          shared =
              change-All (λ c. c.nonce ≡ h.formed.nonce) i change w.connections
                (λ c k. (same c).1 ∙ k) h.formed.shared;
        };
      }

  pub touch_worker-AreSound :
      (name : String) (i : ℕ) (tags : Option (List String)) (phase : WorkerPhase)
      (backend : Option WorkerBackend) (latency : Option NodeLatency) (now : ℕ) (app : AppState V)
      → AreSound app.workers
      → AreSound (touch_worker name i tags phase backend latency now app).workers
  unfolding touch_worker
  touch_worker-AreSound name i tags phase backend latency now app h =
      elim (Bool-cases app.workers_poisoned) [
        | inl p ↦ rw (touch_worker, p) h
        | inr p ↦ elim (Option-cases (HashMap.get name app.workers)) [
          | inl g ↦ rw (touch_worker, p, g) h
          | inr (w, g) ↦ elim (Option-cases (connection w i)) [
            | inl c ↦ rw (touch_worker, p, g, c) h
            | inr (k, c) ↦
                rw (touch_worker, p, g, c)
                  (insert-AllEntries IsSound name _ app.workers h (
                    sync_summary-IsSound name _ (
                      touched-IsSound name w i tags phase backend latency now
                        (get-AllEntries IsSound name app.workers w h g))))
          ]
        ]
      ]

  remove_connection-IsSound :
      (n : String) (w : WorkerStatus V) (i : ℕ)
      → IsSound n w
      → ((remove_connection w i).1 && is_empty (remove_connection w i).0.connections) ≡ false
      → IsSound n (remove_connection w i).0
  unfolding remove_connection sync_summary
  remove_connection-IsSound n w i h e = record {
    named = ground (arith, h.named);
    live = ground (arith, h.live);
    formed = remove_connection-IsWellFormed w i h.formed;
  }

  pub remove_one-AreSound :
      (m : Workers V) (s : String × ℕ) → AreSound m → AreSound (remove_one m s)
  unfolding remove_one
  remove_one-AreSound m (name, i) h = elim (Option-cases (HashMap.get name m)) [
    | inl g ↦ rw (remove_one, g) h
    | inr (w, g) ↦
        let w' = (remove_connection w i).0 in
        let gone = (remove_connection w i).1 && is_empty w'.connections in
        elim (Bool-cases gone) [
          | inl e ↦ rw (remove_one, g, e) (remove-insert-AllEntries IsSound name w' m h)
          | inr e ↦
              rw (remove_one, g, e)
                (insert-AllEntries IsSound name w' m h
                  (remove_connection-IsSound name w i (get-AllEntries IsSound name m w h g) e))
        ]
  ]

  -- The end of a connection removes as the overseer does.
  pub remove_worker_lem :
      (name : String) (i : ℕ) (app : AppState V)
      → (remove_worker name i app).workers
        ≡ (if app.workers_poisoned then app.workers else remove_one app.workers (name, i))
  unfolding remove_worker remove_one
  remove_worker_lem name i app = ground arith

  pub remove_worker-AreSound :
      (name : String) (i : ℕ) (app : AppState V)
      → AreSound app.workers
      → AreSound (remove_worker name i app).workers
  remove_worker-AreSound name i app h =
      rw (remove_worker_lem name i app) (elim (Bool-cases app.workers_poisoned) [
        | inl p ↦ rw p h
        | inr p ↦ rw p (remove_one-AreSound app.workers (name, i) h)
      ])

  pub remove_stale-AreSound :
      (m : Workers V) (ss : List (String × ℕ)) → AreSound m → AreSound (remove_stale m ss)
  unfolding remove_stale
  remove_stale-AreSound m [] h = h
  remove_stale-AreSound m (s ∷ ss) h =
      remove_stale-AreSound (remove_one m s) ss (remove_one-AreSound m s h)

  -- The counters of connection indices are below their greatest value.
  abbrev pub HaveRoom : Workers V → Type 0
  HaveRoom = AllEntries λ name w. w.next_connection_index < u64_max

  -- What a joining connection finds: a sound worker, or a new one with no connection.
  abbrev IsReady : String → WorkerStatus V → Type 0
  IsReady n w = (w.name ≡ n) × IsWellFormed w × (w.next_connection_index < u64_max)

  entry-IsReady :
      (name hive backend : String) (now : ℕ) (m : Workers V)
      → AreSound m
      → HaveRoom m
      → IsReady name (entry name hive backend now m)
  entry-IsReady name hive backend now m h r = elim (Option-cases (HashMap.get name m)) [
    | inl g ↦
        rw (entry, g)
          (refl, record { distinct = tt; below = tt; nonce = ""; shared = tt }, omega arith)
    | inr (w, g) ↦
        let v = get-AllEntries IsSound name m w h g in
        rw (entry, g)
          (
            v.named,
            v.formed,
            get-AllEntries (λ n w. w.next_connection_index < u64_max) name m w r g,
          )
  ]

  joined-IsSound :
      (n : String) (w : WorkerStatus V) (hive backend nonce : String) (now : ℕ)
      → IsReady n w
      → accepts_nonce w nonce ≡ true
      → IsSound n
          (register_connection
            (record w { hive_version = hive; backend_version = backend })
            nonce
            now).0
  unfolding accepts_nonce register_connection sync_summary
  joined-IsSound n w hive backend nonce now r a =
      let u : WorkerStatus V = record w { hive_version = hive; backend_version = backend } in
      let v : IsWellFormed u = record {
        distinct = r.1.distinct;
        below = r.1.below;
        nonce = r.1.nonce;
        shared = r.1.shared;
      } in
      record {
        named = ground (arith, r.0);
        live = ground arith;
        formed = register_connection-IsWellFormed u nonce now v a r.2;
      }

  refused-IsSound :
      (n : String) (w : WorkerStatus V) (nonce : String)
      → IsReady n w
      → accepts_nonce w nonce ≡ false
      → IsSound n w
  unfolding accepts_nonce
  refused-IsSound n w nonce r a = record { named = r.0; live = ground arith; formed = r.1 }

  pub join-AreSound :
      (name nonce hive backend : String) (now : ℕ) (app : AppState V)
      → AreSound app.workers
      → HaveRoom app.workers
      → AreSound (join name nonce hive backend now app).1.workers
  unfolding join
  join-AreSound name nonce hive backend now app h r =
      let w = entry name hive backend now app.workers in
      let ready = entry-IsReady name hive backend now app.workers h r in
      elim (Bool-cases app.workers_poisoned) [
        | inl p ↦ rw (join, p) h
        | inr p ↦ elim (Bool-cases (accepts_nonce w nonce)) [
          | inl a ↦
              rw (join, p, a)
                (insert-AllEntries IsSound name _ app.workers h
                  (joined-IsSound name w hive backend nonce now ready a))
          | inr a ↦
              rw (join, p, a)
                (insert-AllEntries IsSound name w app.workers h
                  (refused-IsSound name w nonce ready a))
        ]
      ]

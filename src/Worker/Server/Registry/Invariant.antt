-- ===== src/Worker/Server/Registry/Invariant.antt =====
-- The registry of workers in every state that connections and the overseer can bring it to.
use hive_core_v.Base.{
  ℕ, ◌<◌, ◌≡◌, sym, ap, ◌∙◌, subst, String, string_eq, false, Option, List, [], ◌∷◌, All, is_empty,
  ◌==◌, arith, Bool-cases, inl, inr,
}
use hive_core_v.Base.HashMap.Entries.{AllEntries}
use hive_core_v.Worker.Models.{WorkerPhase, WorkerConnectionStatus, WorkerStatus}
use hive_core_v.Worker.Connections.{sync_summary}
use hive_core_v.Worker.Connections.Summary.{sync_summary-connections}
use hive_core_v.Worker.Connections.Registration.{AreDistinct, IsWellFormed}
use hive_core_v.Worker.Server.Latency.{NodeLatency}
use hive_core_v.Worker.Server.Registry.{Workers, change_connection, touched}

-- A worker in the registry: under its own name, with a connection at least, whose indices and
-- nonces are in order.
pub record IsSound {V : Type 0} (name : String) (w : WorkerStatus V) : Type 0 where
  pub named : w.name ≡ name
  pub live : is_empty w.connections ≡ false
  pub formed : IsWellFormed w

abbrev pub AreSound : {V : Type 0} → Workers V → Type 0
AreSound = AllEntries IsSound

pub change-All :
    (P : WorkerConnectionStatus → Type 0) (i : ℕ)
    (f : WorkerConnectionStatus → WorkerConnectionStatus) (cs : List WorkerConnectionStatus)
    → ((c : WorkerConnectionStatus) → P c → P (f c))
    → All P cs
    → All P (change_connection i f cs)
unfolding change_connection
change-All P i f [] k h = tt
change-All P i f (c ∷ cs) k h = elim (Bool-cases (c.index == i)) [
  | inl e ↦ rw e (k c h.0, h.1)
  | inr e ↦ rw e (h.0, change-All P i f cs k h.1)
]

module _ (tags : Option (List String)) (phase : WorkerPhase) (latency : Option NodeLatency)
    (now : ℕ) where
  pub touched-same :
      (c : WorkerConnectionStatus)
      → ((touched tags phase latency now c).index ≡ c.index)
        × ((touched tags phase latency now c).nonce ≡ c.nonce)
  unfolding touched
  touched-same c = ground arith

  pub touched-AreDistinct :
      (i : ℕ) (cs : List WorkerConnectionStatus)
      → AreDistinct cs
      → AreDistinct (change_connection i (touched tags phase latency now) cs)
  unfolding change_connection
  touched-AreDistinct i [] h = tt
  touched-AreDistinct i (c ∷ cs) h = elim (Bool-cases (c.index == i)) [
    | inl e ↦ rw e (subst (λ (j : ℕ). All (λ d. j < d.index) cs) (sym (touched-same c).0) h.0, h.1)
    | inr e ↦ rw e (
      change-All (λ d. c.index < d.index) i (touched tags phase latency now) cs
          (λ d k. subst (λ (j : ℕ). c.index < j) (sym (touched-same d).0) k) h.0,
      touched-AreDistinct i cs h.1,
    )
  ]

  pub change-live :
      (i : ℕ) (cs : List WorkerConnectionStatus)
      → is_empty cs ≡ false
      → is_empty (change_connection i (touched tags phase latency now) cs) ≡ false
  unfolding change_connection
  change-live i [] h = h
  change-live i (c ∷ cs) h = ground arith

-- A worker of the same connections, counter and name is as sound.
pub same-IsSound :
    {V : Type 0} (n : String) (w w' : WorkerStatus V)
    → w'.name ≡ w.name
    → w'.connections ≡ w.connections
    → w'.next_connection_index ≡ w.next_connection_index
    → IsSound n w
    → IsSound n w'
same-IsSound n w w' a b c h = record {
  named = a ∙ h.named;
  live = ap is_empty b ∙ h.live;
  formed = record {
    distinct = rw b h.formed.distinct;
    below = rw (b, c) h.formed.below;
    nonce = h.formed.nonce;
    shared = rw b h.formed.shared;
  };
}

sync_summary-name : {V : Type 0} (w : WorkerStatus V) → (sync_summary w).name ≡ w.name
unfolding sync_summary
sync_summary-name w = ground arith

pub sync_summary-IsSound :
    {V : Type 0} (n : String) (w : WorkerStatus V) → IsSound n w → IsSound n (sync_summary w)
sync_summary-IsSound n w h =
    same-IsSound n w (sync_summary w) (sync_summary-name w) (sync_summary-connections w).0
      (sync_summary-connections w).1 h

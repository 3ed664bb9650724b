-- ===== src/Proxy/Probe/Cache.antt =====
-- What a worker is known to have answered.
use hive_core_v.Base.{
  String, str_eq, string_eq, eq_iff, Bool, true, false, ◌&&◌, any, Option, none, some, List, [],
  ◌∷◌, ◌≡◌, refl, sym, ap, ◌∙◌, subst, if◌then◌else◌, arith, Bool-cases, Option-cases, inl, inr,
}
use hive_core_v.Base.HashMap
use hive_core_v.Base.HashMap.{get-insert}
use hive_core_v.App.State.{AppState}
use hive_core_v.Shared.Http.Text.{and_then, is_some}
use hive_core_v.Proxy.Probe.{keep, kept, update_worker_cache, cached_value}
use hive_core_v.Worker.Models.{WorkerStatus}

-- The targets with one answer between them, group by group: the models a worker has, those that
-- run, and the version.
abbrev groups : List (List String)
groups =
    ("/api/tags" ∷ "/v1/models" ∷ []) ∷ ("/api/ps" ∷ []) ∷ ("/api/version" ∷ "/version" ∷ []) ∷ []

abbrev pub contains : String → List String → Bool
contains uri = any (str_eq uri)

-- Whether some group has both targets.
abbrev pub same_group : String → String → Bool
same_group uri other = any (λ g. contains uri g && contains other g) groups

-- The target is none of those with an answer.
record IsOther (uri : String) : Type 0 where
  tags : str_eq uri "/api/tags" ≡ false
  models : str_eq uri "/v1/models" ≡ false
  ps : str_eq uri "/api/ps" ≡ false
  version : str_eq uri "/api/version" ≡ false
  short : str_eq uri "/version" ≡ false

by_target :
    (P : String → Type 0)
    → P "/api/tags"
    → P "/v1/models"
    → P "/api/ps"
    → P "/api/version"
    → P "/version"
    → ((uri : String) → IsOther uri → P uri)
    → (uri : String) → P uri
by_target P a b c d e other uri = elim (Bool-cases (str_eq uri "/api/tags")) [
  | inl h ↦ subst P (sym ((eq_iff uri "/api/tags").0 h)) a
  | inr na ↦ elim (Bool-cases (str_eq uri "/v1/models")) [
    | inl h ↦ subst P (sym ((eq_iff uri "/v1/models").0 h)) b
    | inr nb ↦ elim (Bool-cases (str_eq uri "/api/ps")) [
      | inl h ↦ subst P (sym ((eq_iff uri "/api/ps").0 h)) c
      | inr nc ↦ elim (Bool-cases (str_eq uri "/api/version")) [
        | inl h ↦ subst P (sym ((eq_iff uri "/api/version").0 h)) d
        | inr nd ↦ elim (Bool-cases (str_eq uri "/version")) [
          | inl h ↦ subst P (sym ((eq_iff uri "/version").0 h)) e
          | inr ne ↦
              other uri (record { tags = na; models = nb; ps = nc; version = nd; short = ne })
        ]
      ]
    ]
  ]
]

module _ {V : Type 0} (value : V) (w : WorkerStatus V) where
  -- The row of `uri` agrees with the group of `uri` at every target.
  abbrev Agrees : String → String → Type 0
  Agrees uri target =
      kept target (keep uri value w) ≡ (if same_group uri target then some value else kept target w)

  other-Agrees : (uri target : String) → IsOther uri → Agrees uri target
  unfolding keep
  other-Agrees uri target o = rw (keep, o.tags, o.models, o.ps, o.version, o.short) refl

  to_other-Agrees : (uri target : String) → IsOther target → Agrees uri target
  unfolding kept
  to_other-Agrees uri target o = rw (kept, o.tags, o.models, o.ps, o.version, o.short) ground arith

  kept-keep : (uri target : String) → Agrees uri target
  unfolding keep kept
  kept-keep uri target =
      by_target (λ u. Agrees u target)
        (by_target (Agrees "/api/tags") refl refl refl refl refl (to_other-Agrees "/api/tags")
          target)
        (by_target (Agrees "/v1/models") refl refl refl refl refl (to_other-Agrees "/v1/models")
          target)
        (by_target (Agrees "/api/ps") refl refl refl refl refl (to_other-Agrees "/api/ps") target)
        (by_target (Agrees "/api/version") refl refl refl refl refl (to_other-Agrees "/api/version")
          target)
        (by_target (Agrees "/version") refl refl refl refl refl (to_other-Agrees "/version") target)
        (λ u. other-Agrees u target) uri

module _ {V : Type 0} where
  cached_value_lem :
      (name target : String) (app : AppState V)
      → app.workers_poisoned ≡ false
      → cached_value name target app ≡ and_then (HashMap.get name app.workers) (kept target)
  unfolding cached_value
  cached_value_lem name target app up = rw (cached_value, up) refl

  update-found :
      (worker uri : String) (value : V) (app : AppState V) (w : WorkerStatus V)
      → app.workers_poisoned ≡ false
      → HashMap.get worker app.workers ≡ some w
      → update_worker_cache worker uri value app
        ≡ record app { workers = HashMap.insert worker (keep uri value w) app.workers }
  unfolding update_worker_cache
  update-found worker uri value app w up g = ground (arith, up, g)

  update-gone :
      (worker uri : String) (value : V) (app : AppState V)
      → app.workers_poisoned ≡ false
      → HashMap.get worker app.workers ≡ none
      → update_worker_cache worker uri value app ≡ app
  unfolding update_worker_cache
  update-gone worker uri value app up g = ground (arith, up, g)

  -- What `name` and the target give after the update of `worker`, as maps of workers.
  kept-insert :
      (worker name uri target : String) (value : V) (w : WorkerStatus V)
      (m : HashMap.HashMap String (WorkerStatus V))
      → HashMap.get worker m ≡ some w
      → and_then (HashMap.get name (HashMap.insert worker (keep uri value w) m)) (kept target) ≡ (
          if str_eq worker name && same_group uri target
          then some value
          else and_then (HashMap.get name m) (kept target))
  kept-insert worker name uri target value w m g = elim (Bool-cases (str_eq worker name)) [
    | inl e ↦
        let same = (eq_iff worker name).0 e in
        let held : HashMap.get name m ≡ some w = subst (λ k. HashMap.get k m ≡ some w) same g in
        rw (get-insert worker name (keep uri value w) m, e, held) (kept-keep value w uri target)
    | inr n ↦ rw (get-insert worker name (keep uri value w) m, n) refl
  ]

  if_true :
      (b c : Bool) (x y : Option V) → (if b && c then x else y) ≡ (if b && c && true then x else y)
  if_true b c x y = ground arith

  if_false : (b : Bool) (x y : Option V) → y ≡ (if b && false then x else y)
  if_false b x y = ground arith

  -- With the lock of the workers in order, after an answer of a worker that is connected is kept,
  -- the same worker gives that answer for each target in the same group, of `/api/tags` and
  -- `/v1/models`, of `/api/ps`, or of `/api/version` and `/version`; every other worker or target
  -- gives what it gave before; for a worker that is gone, or a target in no group, nothing
  -- changes.
  pub update-cached_value :
      (worker uri name target : String) (value : V) (app : AppState V)
      → app.workers_poisoned ≡ false
      → cached_value name target (update_worker_cache worker uri value app) ≡ (
          if str_eq worker name && same_group uri target && is_some (HashMap.get worker app.workers)
          then some value
          else cached_value name target app)
  update-cached_value worker uri name target value app up =
      elim (Option-cases (HashMap.get worker app.workers)) [
        | inl g ↦
            rw (update-gone worker uri value app up g, g)
              (if_false (str_eq worker name && same_group uri target) (some value)
                (cached_value name target app))
        | inr (w, g) ↦
            let app' : AppState V = record app {
              workers = HashMap.insert worker (keep uri value w) app.workers;
            } in
            rw (update-found worker uri value app w up g, g)
              (cached_value_lem name target app' up
                ∙ kept-insert worker name uri target value w app.workers g
                ∙ ap (λ y. if str_eq worker name && same_group uri target then some value else y)
                    (sym (cached_value_lem name target app up))
                ∙ if_true (str_eq worker name) (same_group uri target) (some value)
                    (cached_value name target app))
      ]

-- ===== src/Worker/Server/Release/Guards.antt =====
-- What actions on a session do to the rate limiter, alone and in sequence.
use hive_core_v.Base.{ℕ, String, Option, none, some, List, ◌≡◌, refl, ◌∙◌, ap, true, arith}
use hive_core_v.App.State.{AppState}
use hive_core_v.App.RateLimiter.State.{RateLimiter}
use hive_core_v.App.RateLimiter.Check.{finish_request}
use hive_core_v.Shared.Wire.Stream.{
  Action, ◌>>=◌, after, Reader, Writer, Outcome, ok, err, unfinished,
}
use hive_core_v.Shared.Wire.Stream.Progress.{finishes}
use hive_core_v.Worker.Models.{WorkerBackend, WorkerPhase}
use hive_core_v.Worker.Server.Registry.{touch_worker}
use hive_core_v.Worker.Server.Session.{
  Session, reading, writing, changing, release, on_error, or_release,
}

-- What a release does to the limiter.
abbrev pub released : Option ℕ → RateLimiter → RateLimiter
released none l = l
released (some id) l = finish_request l id

abbrev pub limiter : {V : Type 0} → Session V → RateLimiter
limiter s = s.app.rate_limiter

-- The limiter after an action that releases on an error only.
abbrev pub exit : {A : Type 0} → Outcome A → Option ℕ → RateLimiter → RateLimiter
exit (err e) id l = released id l
exit _ id l = l

module _ {V : Type 0} where
  pub record IsKeeping {A : Type 0} (m : Action (Session V) A) : Type 0 where
    pub keeps : (s : Session V) → limiter (m s).1 ≡ limiter s

  pub record IsGuarded {A : Type 0} (id : Option ℕ) (m : Action (Session V) A) : Type 0 where
    guards : (s : Session V) → limiter (m s).1 ≡ exit (m s).0 id (limiter s)

  pub record IsReleasing {A : Type 0} (id : Option ℕ) (m : Action (Session V) A) : Type 0 where
    pub releases :
        (s : Session V) → finishes (m s).0 ≡ true → limiter (m s).1 ≡ released id (limiter s)

  pub touch-limiter :
      (name : String) (index : ℕ) (tags : Option (List String)) (phase : WorkerPhase)
      (backend : Option WorkerBackend) (now : ℕ) (app : AppState V)
      → (touch_worker name index tags phase backend none now app).rate_limiter ≡ app.rate_limiter
  unfolding touch_worker
  touch-limiter name index tags phase backend now app = ground arith

  pub release-limiter :
      (id : Option ℕ) (app : AppState V)
      → (release id app).rate_limiter ≡ released id app.rate_limiter
  unfolding release
  release-limiter none app = refl
  release-limiter (some id) app = refl

  pub changing-IsGuarded :
      (id : Option ℕ) (f : AppState V → AppState V)
      → ((app : AppState V) → (f app).rate_limiter ≡ app.rate_limiter)
      → IsGuarded id (changing f)
  changing-IsGuarded id f h = record { guards = λ s. h s.app }

  on_error-limiter :
      {A : Type 0} (id : Option ℕ) (l : RateLimiter) (p : Outcome A × Session V)
      → limiter p.1 ≡ l
      → limiter (on_error id p).1 ≡ exit (on_error id p).0 id l
  unfolding on_error
  on_error-limiter id l (ok a, s) h = h
  on_error-limiter id l (err e, s) h = release-limiter id s.app ∙ ap (released id) h
  on_error-limiter id l (unfinished, s) h = h

  pub or_release-IsGuarded :
      {A : Type 0} (id : Option ℕ) {m : Action (Session V) A}
      → IsKeeping m
      → IsGuarded id (or_release id m)
  unfolding or_release
  or_release-IsGuarded id {m} k = record {
    guards = λ s. on_error-limiter id (limiter s) (m s) (k.keeps s);
  }

  after-guarded :
      {A B : Type 0} (id : Option ℕ) (f : A → Action (Session V) B) (l : RateLimiter)
      (p : Outcome A × Session V)
      → limiter p.1 ≡ exit p.0 id l
      → ((a : A) → IsReleasing id (f a))
      → finishes (after f p).0 ≡ true
      → limiter (after f p).1 ≡ released id l
  after-guarded id f l (ok a, s) h k d = (k a).releases s d ∙ ap (released id) h
  after-guarded id f l (err e, s) h k d = h
  after-guarded id f l (unfinished, s) h k d = cc

  pub >>=-IsReleasing :
      {A B : Type 0} {id : Option ℕ} {m : Action (Session V) A} {f : A → Action (Session V) B}
      → IsGuarded id m
      → ((a : A) → IsReleasing id (f a))
      → IsReleasing id (m >>= f)
  >>=-IsReleasing {id} {m} {f} g k = record {
    releases = λ s d. after-guarded id f (limiter s) (m s) (g.guards s) k d;
  }

  pub reading-IsKeeping : {A : Type 0} (m : Action Reader A) → IsKeeping (reading {V = V} m)
  reading-IsKeeping m = record { keeps = λ s. refl }

  pub writing-IsKeeping : {A : Type 0} (m : Action Writer A) → IsKeeping (writing {V = V} m)
  writing-IsKeeping m = record { keeps = λ s. refl }

  -- A guarded action, and then one that keeps the limiter and makes no error.
  pub after-IsGuarded :
      {A B : Type 0} {id : Option ℕ} {m : Action (Session V) A} (f : A → Session V → B × Session V)
      → IsGuarded id m
      → ((a : A) (s : Session V) → limiter (f a s).1 ≡ limiter s)
      → IsGuarded id (m >>= λ a s. (ok (f a s).0, (f a s).1))
  after-IsGuarded {A = A} {B = B} {id} {m} f g k = record {
    guards = λ s. go (limiter s) (m s) (g.guards s);
  }
    where
      go :
          (l : RateLimiter) (p : Outcome A × Session V)
          → limiter p.1 ≡ exit p.0 id l
          → let r = after (λ a s. (ok (f a s).0, (f a s).1)) p in limiter r.1 ≡ exit r.0 id l
      go l (ok a, s) h = k a s ∙ h
      go l (err e, s) h = h
      go l (unfinished, s) h = h

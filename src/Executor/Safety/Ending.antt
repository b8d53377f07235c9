-- ===== src/Executor/Safety/Ending.antt =====
-- What it is for a method to end with a value or an error, from every start or from the starts with
-- a view, and a rule for each way to build one that does.
use batch_release.Base.{◌≡◌, subst, Bool, true, false, Option, none, some, List, if◌then◌else◌}
use batch_release.Base.Text.{Text}
use batch_release.Executor.Monad.{
  Env, Executor, M, Result, ok, err, panic, Error, Call, Answer, answer, refuse, pure, throw, gets,
  modify, send, record_event, ◌>>=◌, ◌>>◌,
}
use batch_release.Executor.Position.Storing.{IsRetry, Retried, last, again}
use batch_release.Executor.Safety.{View, view, Good, Any, Safe}

abbrev pub HasEnded : {A : Type 0} → Result A → Type 0
HasEnded (ok a) = Unit {0}
HasEnded (err x) = Unit {0}
HasEnded (panic f) = ⊥

pub record NoPanic {A : Type 0} (m : M A) : Type 0 where
  pub run : (e : Executor) → HasEnded (m e).0

pub record NoPanicAt {A : Type 0} (v : View) (m : M A) : Type 0 where
  pub run : (e : Executor) → view e ≡ v → HasEnded (m e).0

module _ {A : Type 0} where
  pub NoPanic-pure : (a : A) → NoPanic (pure a)
  NoPanic-pure a = record { run = λ e. tt }

  pub NoPanic-throw : (x : Error) → NoPanic (throw {A = A} x)
  NoPanic-throw x = record { run = λ e. tt }

  pub NoPanic-gets : (f : Executor → A) → NoPanic (gets f)
  NoPanic-gets f = record { run = λ e. tt }

  pub NoPanic-if : (b : Bool) (m n : M A) → NoPanic m → NoPanic n → NoPanic (if b then m else n)
  NoPanic-if true m n s t = s
  NoPanic-if false m n s t = t

  pub NoPanic-send : (on_call : List Call → Answer A) (call : Call) → NoPanic (send on_call call)
  NoPanic-send on_call call = record { run = λ e. go (on_call e.calls) e }
    where
      go : (a : Answer A) (e : Executor) → HasEnded (send (λ _. a) call e).0
      go (answer a) e = tt
      go (refuse x) e = tt

pub NoPanic-modify : (f : Executor → Executor) → NoPanic (modify f)
NoPanic-modify f = record { run = λ e. tt }

pub NoPanic-record_event : (reason : Text) → NoPanic (record_event reason)
NoPanic-record_event reason = record { run = λ e. tt }

module _ {A B : Type 0} where
  pub NoPanic-bind :
      (m : M A) (f : A → M B) → NoPanic m → ((a : A) → NoPanic (f a)) → NoPanic (m >>= f)
  NoPanic-bind m f s t = record { run = λ e. go (m e) (s.run e) }
    where
      go :
          (r : Result A × Executor)
          → HasEnded r.0
          → HasEnded
              (elim r.0 as (λ _. Result B × Executor) [
                | ok a ↦ f a r.1
                | err x ↦ (err x, r.1)
                | panic x ↦ (panic x, r.1)
              ]).0
      go (ok a, e) h = (t a).run e
      go (err x, e) h = tt
      go (panic x, e) h = elim h [ ]

  pub NoPanic-then : (m : M A) (k : M B) → NoPanic m → NoPanic k → NoPanic (m >> k)
  NoPanic-then m k s t = NoPanic-bind m (λ _. k) s (λ _. t)

  pub NoPanic-option :
      (o : Option A) (f : A → M B) (m : M B)
      → ((a : A) → NoPanic (f a))
      → NoPanic m
      → NoPanic (elim o as (λ _. M B) [ none ↦ m | some a ↦ f a ])
  NoPanic-option none f m t s = s
  NoPanic-option (some a) f m t s = t a

pub ruleset no_panic_rules = (
  NoPanic-pure, NoPanic-throw, NoPanic-gets, NoPanic-if, NoPanic-send, NoPanic-modify,
  NoPanic-record_event, NoPanic-then, NoPanic-bind, NoPanic-option,
)

-- An attempt that ends, ends also where it is tried again.
Retried-HasEnded :
    (m : M (Unit {0})) (r : Result (Unit {0}) × Executor)
    → NoPanic m
    → (e : Executor) → Retried m r e
    → HasEnded r.0
Retried-HasEnded m r s e (last _ h) = rw h (s.run e)
Retried-HasEnded m r s e (again _ e' h later) = Retried-HasEnded m r s e' later

pub retry-NoPanic :
    (w : Env) → IsRetry w → (m : M (Unit {0})) → NoPanic m → NoPanic (w.retry_on_conflict m)
retry-NoPanic w retry m s = record {
  run = λ e. Retried-HasEnded m (w.retry_on_conflict m e) s e (retry.ends m e);
}

Retried-Good :
    (v : View) (m : M (Unit {0})) (r : Result (Unit {0}) × Executor)
    → Safe v Any m
    → (e : Executor) → Retried m r e
    → view e ≡ v
    → Good v Any r
Retried-Good v m r s e (last _ h) k = rw h (s.run e k)
Retried-Good v m r s e (again _ e' h later) k =
    Retried-Good v m r s e' later
      (subst (λ (q : Result (Unit {0}) × Executor). Good v Any q) h (s.run e k))

pub retry-Safe :
    (w : Env)
    → IsRetry w
    → (v : View) (m : M (Unit {0})) → Safe v Any m
    → Safe v Any (w.retry_on_conflict m)
retry-Safe w retry v m s = record {
  run = λ e h. Retried-Good v m (w.retry_on_conflict m e) s e (retry.ends m e) h;
}

module _ {A : Type 0} (v : View) where
  pub NoPanicAt-NoPanic : (m : M A) → NoPanic m → NoPanicAt v m
  NoPanicAt-NoPanic m s = record { run = λ e h. s.run e }

  pub NoPanicAt-Safe : (P : A → Type 0) (m : M A) → Safe v P m → NoPanicAt v m
  NoPanicAt-Safe P m s = record { run = λ e h. go (m e) (s.run e h) }
    where
      go : (r : Result A × Executor) → Good v P r → HasEnded r.0
      go (ok a, e) h = tt
      go (err x, e) h = tt
      go (panic x, e) h = h

  pub NoPanicAt-if :
      (b : Bool) (m n : M A) → NoPanicAt v m → NoPanicAt v n → NoPanicAt v (if b then m else n)
  NoPanicAt-if true m n s t = s
  NoPanicAt-if false m n s t = t

module _ {A B : Type 0} (v : View) where
  pub NoPanicAt-step :
      (P : A → Type 0) (m : M A) (f : A → M B)
      → Safe v P m
      → ((a : A) → P a → NoPanicAt v (f a))
      → NoPanicAt v (m >>= f)
  NoPanicAt-step P m f s t = record { run = λ e h. go (m e) (s.run e h) }
    where
      go :
          (r : Result A × Executor)
          → Good v P r
          → HasEnded
              (elim r.0 as (λ _. Result B × Executor) [
                | ok a ↦ f a r.1
                | err x ↦ (err x, r.1)
                | panic x ↦ (panic x, r.1)
              ]).0
      go (ok a, e) h = (t a h.1).run e h.0
      go (err x, e) h = tt
      go (panic x, e) h = h

  pub NoPanicAt-bind :
      (m : M A) (f : A → M B) → Safe v Any m → ((a : A) → NoPanicAt v (f a)) → NoPanicAt v (m >>= f)
  NoPanicAt-bind m f s t = NoPanicAt-step Any m f s (λ a _. t a)

  pub NoPanicAt-then : (m : M A) (k : M B) → Safe v Any m → NoPanicAt v k → NoPanicAt v (m >> k)
  NoPanicAt-then m k s t = NoPanicAt-bind m (λ _. k) s (λ _. t)

-- ===== src/Executor/Position.antt =====
-- Where a release stands: its phase, its step and the state of that step, which the methods of
-- internal/controller/partition/executor.go move on. Most methods leave it alone, and here is one
-- rule for each way to build such a method.
pub mod Scaling
pub mod Creating
pub mod Move
pub mod Steps
pub mod Storing
pub mod Init
pub mod Phases
pub mod Runs
pub mod Reach
pub mod Order
pub mod Course
pub mod Left
pub mod Progress
use batch_release.Base.{
  ℕ, ◌≡◌, refl, sym, ap, ◌∙◌, Bool, true, false, Option, none, some, List, ◌∷◌, length, get_elem?,
  if◌then◌else◌,
}
use batch_release.Base.Int.{ℤ, pos, negsuc}
use batch_release.Base.Text.{Text}
use batch_release.Objects.{Deployment}
use batch_release.Release.{BatchRelease, Phase, StepState}
use batch_release.Executor.Monad.{
  Env, Executor, M, Result, ok, err, panic, Error, Fault, Call, Answer, pure, throw, fault, gets,
  modify, deref, index, catch, send, record_event, ◌>>=◌, ◌>>◌,
}
use batch_release.Executor.NewReplicaSet.{ask, hold_de}

pub record Position : Type 0 where
  pub phase : Phase
  pub state : StepState
  pub step : ℤ  -- `CurrentStepIndex`
  pub steps : ℕ  -- `len(Steps)`

abbrev pub position_of : BatchRelease → Position
position_of br = record {
  phase = br.status.phase;
  state = br.status.current_step_state;
  step = br.status.current_step_index;
  steps = length br.spec.strategy.steps;
}

abbrev pub position : Executor → Position
position e = position_of e.br

-- `m` leaves the position as it is, whether it returns, fails or panics.
pub record Stays {A : Type 0} (m : M A) : Type 0 where
  pub same : (e : Executor) → position (m e).1 ≡ position e

module _ {A : Type 0} where
  pub Stays-pure : (a : A) → Stays (pure a)
  Stays-pure a = record { same = λ e. refl }

  pub Stays-throw : (x : Error) → Stays (throw {A = A} x)
  Stays-throw x = record { same = λ e. refl }

  pub Stays-gets : (f : Executor → A) → Stays (gets f)
  Stays-gets f = record { same = λ e. refl }

  pub Stays-deref : (o : Option A) → Stays (deref o)
  Stays-deref none = record { same = λ e. refl }
  Stays-deref (some a) = record { same = λ e. refl }

  pub Stays-index : (xs : List A) (i : ℤ) → Stays (index xs i)
  Stays-index xs (negsuc n) = record { same = λ e. refl }
  Stays-index xs (pos n) = record { same = λ e. found e (get_elem? xs n) }
    where
      found :
          (e : Executor) (o : Option A)
          → position
              (elim o as (λ _. M A) [ none ↦ fault Fault.index_out_of_range | some a ↦ pure a ] e).1
            ≡ position e
      found e none = refl
      found e (some a) = refl

  pub Stays-if : (b : Bool) (m n : M A) → Stays m → Stays n → Stays (if b then m else n)
  Stays-if true m n s t = s
  Stays-if false m n s t = t

  pub Stays-send : (on_call : List Call → Answer A) (call : Call) → Stays (send on_call call)
  Stays-send on_call call = record { same = λ e. refl }

  pub Stays-ask : (on_call : List Call → Answer A) (call : Call) → Stays (ask on_call call)
  Stays-ask on_call call = record { same = λ e. refl }

pub Stays-modify :
    (f : Executor → Executor) → ((e : Executor) → position (f e) ≡ position e) → Stays (modify f)
Stays-modify f h = record { same = h }

pub Stays-record_event : (reason : Text) → Stays (record_event reason)
Stays-record_event reason = record { same = λ e. refl }

pub Stays-hold_de : (d : Deployment) → Stays (hold_de d)
Stays-hold_de d = record { same = λ e. refl }

module _ {A B : Type 0} where
  pub Stays-bind : (m : M A) (f : A → M B) → Stays m → ((a : A) → Stays (f a)) → Stays (m >>= f)
  Stays-bind m f s t = record { same = λ e. go e (m e) (s.same e) }
    where
      go :
          (e : Executor) (r : Result A × Executor)
          → position r.1 ≡ position e
          → position
              (elim r.0 as (λ _. Result B × Executor) [
                | ok a ↦ f a r.1
                | err x ↦ (err x, r.1)
                | panic x ↦ (panic x, r.1)
              ]).1
            ≡ position e
      go e (ok a, e') h = (t a).same e' ∙ h
      go e (err x, e') h = h
      go e (panic x, e') h = h

  pub Stays-option :
      (o : Option A) (f : A → M B) (m : M B)
      → ((a : A) → Stays (f a))
      → Stays m
      → Stays (elim o as (λ _. M B) [ none ↦ m | some a ↦ f a ])
  Stays-option none f m t s = s
  Stays-option (some a) f m t s = t a

  pub Stays-then : (m : M A) (k : M B) → Stays m → Stays k → Stays (m >> k)
  Stays-then m k s t = Stays-bind m (λ _. k) s (λ _. t)

  pub Stays-catch :
      (m : M A) (handler : M B) (k : A → M B)
      → Stays m
      → Stays handler
      → ((a : A) → Stays (k a))
      → Stays (catch m handler k)
  Stays-catch m handler k s t u = record { same = λ e. go e (m e) (s.same e) }
    where
      go :
          (e : Executor) (r : Result A × Executor)
          → position r.1 ≡ position e
          → position
              (elim r.0 as (λ _. Result B × Executor) [
                | ok a ↦ k a r.1
                | err x ↦ handler r.1
                | panic x ↦ (panic x, r.1)
              ]).1
            ≡ position e
      go e (ok a, e') h = (u a).same e' ∙ h
      go e (err x, e') h = t.same e' ∙ h
      go e (panic x, e') h = h

pub ruleset stays_rules = (
  Stays-pure, Stays-throw, Stays-gets, Stays-deref, Stays-index, Stays-if, Stays-send, Stays-ask,
  Stays-record_event, Stays-hold_de, Stays-then, Stays-bind, Stays-catch, Stays-option,
)

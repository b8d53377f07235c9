-- ===== src/Executor/Safety.antt =====
-- Panics of the executor's methods (internal/controller/partition/executor.go): a rule for each way
-- to build a method that does not panic from where its release is on one of its steps and its
-- Deployment has a selector.
pub mod Scaling
pub mod OldSets
pub mod Held
pub mod Creating
pub mod NewReplicaSet
pub mod Listing
pub mod Ending
pub mod Steps
pub mod Phases
pub mod Rollback
use batch_release.Base.{
  ◌≡◌, refl, sym, ap, subst, ◌∙◌, Bool, true, false, Option, none, some, List, ◌∷◌, if◌then◌else◌,
}
use batch_release.Base.GoMap.{entries}
use batch_release.Base.Text.{Text}
use batch_release.Labels.Lookup.{IsMap}
use batch_release.Objects.{Deployment, PodTemplate, Selector}
use batch_release.Executor.Monad.{
  Env, Executor, M, Result, ok, err, panic, Error, Call, Answer, answer, refuse, pure, throw, gets,
  modify, catch, send, record_event, ◌>>=◌, ◌>>◌,
}
use batch_release.Executor.NewReplicaSet.{ask, hold_de}
use batch_release.Executor.Position.{Position, position}
use batch_release.Executor.Position.Move.{IsOnStep}

-- What the methods that may panic look at.
pub record View : Type 0 where
  pub at : Position
  pub template : PodTemplate
  pub selector : Option Selector

abbrev pub view : Executor → View
view e = record { at = position e; template = e.de.template; selector = e.de.selector }

pub record IsFit (v : View) : Type 0 where
  pub on_step : IsOnStep v.at
  pub selected : (s : Selector) × (v.selector ≡ some s)
  pub labelled : IsMap (entries v.template.labels)

-- A value with `P`, or an error, and the view as it was; never a panic.
abbrev pub Good : {A : Type 0} → View → (A → Type 0) → Result A × Executor → Type 0
Good v P (ok a, e) = (view e ≡ v) × P a
Good v P (err x, e) = view e ≡ v
Good v P (panic f, e) = ⊥

-- `m` is good wherever it starts from the view `v`.
pub record Safe {A : Type 0} (v : View) (P : A → Type 0) (m : M A) : Type 0 where
  pub run : (e : Executor) → view e ≡ v → Good v P (m e)

-- Nothing is said of the value.
abbrev pub Any : {A : Type 0} → A → Type 0
Any a = Unit {0}

module _ {A : Type 0} (v : View) where
  pub Safe-value : (P : A → Type 0) (a : A) → P a → Safe v P (pure a)
  Safe-value P a p = record { run = λ e h. (h, p) }

  pub Safe-pure : (a : A) → Safe v Any (pure a)
  Safe-pure a = record { run = λ e h. (h, tt) }

  -- Less is said of the value.
  pub Safe-forget : (P : A → Type 0) (m : M A) → Safe v P m → Safe v Any m
  Safe-forget P m s = record { run = λ e h. go (m e) (s.run e h) }
    where
      go : (r : Result A × Executor) → Good v P r → Good v Any r
      go (ok a, e) h = (h.0, tt)
      go (err x, e) h = h
      go (panic x, e) h = h

  pub Safe-throw : (P : A → Type 0) (x : Error) → Safe v P (throw x)
  Safe-throw P x = record { run = λ e h. h }

  pub Safe-if :
      (P : A → Type 0) (b : Bool) (m n : M A)
      → Safe v P m
      → Safe v P n
      → Safe v P (if b then m else n)
  Safe-if P true m n s t = s
  Safe-if P false m n s t = t

  -- The test is known in the branch that it opens.
  pub Safe-when :
      (P : A → Type 0) (b : Bool) (m n : M A)
      → (b ≡ true → Safe v P m)
      → Safe v P n
      → Safe v P (if b then m else n)
  Safe-when P true m n s t = s refl
  Safe-when P false m n s t = t

  pub Safe-gets : (f : Executor → A) → Safe v Any (gets f)
  Safe-gets f = record { run = λ e h. (h, tt) }

  -- A request, of whose answer `P` is known.
  pub Safe-answer :
      (P : A → Type 0) (on_call : List Call → Answer A) (call : Call)
      → ((calls : List Call) (a : A) → on_call calls ≡ answer a → P a)
      → Safe v P (send on_call call)
  Safe-answer P on_call call known = record { run = λ e h. go e h (on_call e.calls) refl }
    where
      go :
          (e : Executor)
          → view e ≡ v
          → (a : Answer A) → on_call e.calls ≡ a
          → Good v P (send (λ _. a) call e)
      go e h (answer a) k = (h, known e.calls a k)
      go e h (refuse x) k = h

  pub Safe-send : (on_call : List Call → Answer A) (call : Call) → Safe v Any (send on_call call)
  Safe-send on_call call = Safe-answer Any on_call call (λ calls a h. tt)

  pub Safe-ask : (on_call : List Call → Answer A) (call : Call) → Safe v Any (ask on_call call)
  Safe-ask on_call call = record { run = λ e h. (h, tt) }

module _ (v : View) where
  pub Safe-modify :
      (f : Executor → Executor)
      → ((e : Executor) → view e ≡ v → view (f e) ≡ v)
      → Safe v Any (modify f)
  Safe-modify f k = record { run = λ e h. (k e h, tt) }

  pub Safe-record_event : (reason : Text) → Safe v Any (record_event reason)
  Safe-record_event reason = record { run = λ e h. (h, tt) }

  -- A Deployment with the template and the selector of the view takes the place of the one held.
  pub Safe-hold_de :
      (d : Deployment) → d.template ≡ v.template → d.selector ≡ v.selector → Safe v Any (hold_de d)
  Safe-hold_de d s t = record {
    run = λ e h. (λ i. record { at = (h i).at; template = s i; selector = t i }, tt);
  }

module _ {A B : Type 0} (v : View) where
  pub Safe-step :
      (P : A → Type 0) (Q : B → Type 0) (m : M A) (f : A → M B)
      → Safe v P m
      → ((a : A) → P a → Safe v Q (f a))
      → Safe v Q (m >>= f)
  Safe-step P Q m f s t = record { run = λ e h. go (m e) (s.run e h) }
    where
      go :
          (r : Result A × Executor)
          → Good v P r
          → Good v Q (elim r.0 as (λ _. Result B × Executor) [
            | ok a ↦ f a r.1
            | err x ↦ (err x, r.1)
            | panic x ↦ (panic x, r.1)
          ])
      go (ok a, e') h = (t a h.1).run e' h.0
      go (err x, e') h = h
      go (panic x, e') h = elim h [ ]

  pub Safe-bind :
      (Q : B → Type 0) (m : M A) (f : A → M B)
      → Safe v Any m
      → ((a : A) → Safe v Q (f a))
      → Safe v Q (m >>= f)
  Safe-bind Q m f s t = Safe-step Any Q m f s (λ a _. t a)

  pub Safe-then :
      (Q : B → Type 0) (m : M A) (k : M B) → Safe v Any m → Safe v Q k → Safe v Q (m >> k)
  Safe-then Q m k s t = Safe-step Any Q m (λ _. k) s (λ _ _. t)

  -- What is read of the executor goes with what is known of it.
  pub Safe-read :
      (Q : B → Type 0) (g : Executor → A) (f : A → M B)
      → ((e : Executor) → view e ≡ v → Safe v Q (f (g e)))
      → Safe v Q (gets g >>= f)
  Safe-read Q g f t = record { run = λ e h. (t e h).run e h }

  pub Safe-option :
      (Q : B → Type 0) (o : Option A) (f : A → M B) (m : M B)
      → ((a : A) → Safe v Q (f a))
      → Safe v Q m
      → Safe v Q (elim o as (λ _. M B) [ none ↦ m | some a ↦ f a ])
  Safe-option Q none f m t s = s
  Safe-option Q (some a) f m t s = t a

  pub Safe-catch :
      (Q : B → Type 0) (m : M A) (handler : M B) (k : A → M B)
      → Safe v Any m
      → Safe v Q handler
      → ((a : A) → Safe v Q (k a))
      → Safe v Q (catch m handler k)
  Safe-catch Q m handler k s t u = record { run = λ e h. go (m e) (s.run e h) }
    where
      go :
          (r : Result A × Executor)
          → Good v Any r
          → Good v Q (elim r.0 as (λ _. Result B × Executor) [
            | ok a ↦ k a r.1
            | err x ↦ handler r.1
            | panic x ↦ (panic x, r.1)
          ])
      go (ok a, e') h = (u a).run e' h.0
      go (err x, e') h = t.run e' h
      go (panic x, e') h = elim h [ ]

pub ruleset safe_rules = (
  Safe-pure, Safe-throw, Safe-gets, Safe-if, Safe-send, Safe-ask, Safe-record_event, Safe-then,
  Safe-bind, Safe-catch, Safe-option,
)

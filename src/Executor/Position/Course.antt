-- ===== src/Executor/Position/Course.antt =====
-- The course of a rollout: what a run that returns does to the step it is on, where nothing
-- interrupts the rollout. A run that fails leaves the position as it is.
pub mod Steps
pub mod Runs
use batch_release.Base.{ℕ, ◌≡◌, ◌⊎◌, sym, subst, ◌∙◌, refl, List, Bool, true, false, if◌then◌else◌}
use batch_release.Base.Int.{pos, ◌+ℤ◌, ◌<ℤ◌}
use batch_release.Release.{Phase, StepState}
use batch_release.Executor.Monad.{Executor, M, Result, ok, err, panic, ◌>>=◌}
use batch_release.Executor.Position.{Position, position, Stays}

-- What a step does in the run of a rollout that goes on.
pub data Course (p q : Position) : Type 0 where
  -- A step that has not begun, or whose state is unknown, begins its upgrade.
  start :
      (p.state ≡ StepState.initial) ⊎ ((s : List ℕ) × (p.state ≡ StepState.other s))
      → q ≡ record p { state = StepState.upgrade }
      → Course p q
  -- The upgrade goes on, or it has ended.
  wait : p.state ≡ StepState.upgrade → q ≡ p → Course p q
  block : p.state ≡ StepState.upgrade → q ≡ record p { state = StepState.blocking } → Course p q
  -- A step that is not the last one waits for its user.
  hold : p.state ≡ StepState.blocking → p.step +ℤ pos 1 <ℤ pos p.steps → q ≡ p → Course p q
  -- The last step needs nobody to continue it.
  pass :
      p.state ≡ StepState.blocking
      → p.step +ℤ pos 1 ≡ pos p.steps
      → q ≡ record p { state = StepState.completed }
      → Course p q
  -- The next step begins.
  advance :
      p.state ≡ StepState.completed
      → p.step +ℤ pos 1 <ℤ pos p.steps
      → q ≡ record p { step = p.step +ℤ pos 1; state = StepState.initial }
      → Course p q
  -- After the last step.
  finish :
      p.state ≡ StepState.completed
      → p.step +ℤ pos 1 ≡ pos p.steps
      → q ≡ record p { phase = Phase.finalizing }
      → Course p q

-- Where a computation that returns lands; one that fails or panics leaves the position as it is.
abbrev pub Lands : {A : Type 0} → (Position → Type 0) → Position → Result A × Executor → Type 0
Lands Q p (ok a, e) = Q (position e)
Lands Q p (err x, e) = position e ≡ p
Lands Q p (panic x, e) = position e ≡ p

pub Lands-mono :
    {A : Type 0} (P Q : Position → Type 0) (p : Position)
    → ((q : Position) → P q → Q q)
    → (r : Result A × Executor) → Lands P p r
    → Lands Q p r
Lands-mono P Q p f (ok a, e) h = f (position e) h
Lands-mono P Q p f (err x, e) h = h
Lands-mono P Q p f (panic x, e) h = h

-- `m` lands in `Q` from wherever the release stands at `p`.
pub record Reaches {A : Type 0} (Q : Position → Type 0) (p : Position) (m : M A) : Type 0 where
  pub at : (e : Executor) → position e ≡ p → Lands Q p (m e)

module _ {A : Type 0} (Q : Position → Type 0) (p : Position) where
  pub Reaches-Stays : (m : M A) → Stays m → Q p → Reaches Q p m
  Reaches-Stays m s here = record { at = λ e h. go (m e) (s.same e ∙ h) }
    where
      go : (r : Result A × Executor) → position r.1 ≡ p → Lands Q p r
      go (ok a, e') h = subst Q (sym h) here
      go (err x, e') h = h
      go (panic x, e') h = h

  pub Reaches-if :
      (b : Bool) (m n : M A) → Reaches Q p m → Reaches Q p n → Reaches Q p (if b then m else n)
  Reaches-if true m n s t = s
  Reaches-if false m n s t = t

module _ {A B : Type 0} (Q : Position → Type 0) (p : Position) where
  -- What follows a computation goes with what is known of its run.
  pub Lands-bind :
      (m : M A) (f : A → M B) (e : Executor)
      → Stays m
      → position e ≡ p
      → ((a : A) (e' : Executor) → m e ≡ (ok a, e') → position e' ≡ p → Lands Q p (f a e'))
      → Lands Q p ((m >>= f) e)
  Lands-bind m f e s h t = go (m e) refl (s.same e ∙ h)
    where
      go :
          (r : Result A × Executor)
          → m e ≡ r
          → position r.1 ≡ p
          → Lands Q p (elim r.0 as (λ _. Result B × Executor) [
            | ok a ↦ f a r.1
            | err x ↦ (err x, r.1)
            | panic x ↦ (panic x, r.1)
          ])
      go (ok a, e') k j = t a e' k j
      go (err x, e') k j = j
      go (panic x, e') k j = j

  pub Reaches-bind :
      (m : M A) (f : A → M B) → Stays m → ((a : A) → Reaches Q p (f a)) → Reaches Q p (m >>= f)
  Reaches-bind m f s t = record { at = λ e h. Lands-bind m f e s h (λ a e' _ j. (t a).at e' j) }

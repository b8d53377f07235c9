-- ===== src/Executor/Position/Move.antt =====
-- The moves of a release from position to position: what one run of the executor may do to the
-- phase, the step and the state of the step.
use batch_release.Base.{
  ℕ, ◌≡◌, ◌⊎◌, sym, subst, [], ◌∙◌, Bool, true, false, List, ◌≤◌, if◌then◌else◌,
}
use batch_release.Base.Int.{pos, ◌+ℤ◌, ◌≤ℤ◌, ◌<ℤ◌}
use batch_release.Release.{Phase, StepState}
use batch_release.Executor.Monad.{Executor, M, Result, ok, err, panic, gets, modify, ◌>>=◌, ◌>>◌}
use batch_release.Executor.Position.{Position, position, Stays}

-- The step is one of the release, whose steps are fewer than 2^31.
pub record IsOnStep (p : Position) : Type 0 where
  pub from_start : pos 0 ≤ℤ p.step
  pub before_end : p.step <ℤ pos p.steps
  pub few : p.steps ≤ 2147483647

-- A rollout or a rollback is going on.
abbrev pub IsRolling : Phase → Type 0
IsRolling ph = (ph ≡ Phase.rolling_update) ⊎ (ph ≡ Phase.rolling_back)

-- A phase in which init runs, and what it leads to where it succeeds.
pub data Begins : Phase → Phase → Type 0 where
  release : Begins Phase.initial Phase.rolling_update
  unknown : (s : List ℕ) → Begins (Phase.other s) Phase.rolling_update
  rollback : Begins Phase.rolling_update Phase.rolling_back
  late_rollback : Begins Phase.completed Phase.rolling_back

-- The position with which init takes the deployment over: before the first step.
abbrev pub taken : Position → Position
taken p = record p { step = pos 0; state = StepState.other [] }

pub data Move (p q : Position) : Type 0 where
  -- Nothing changes.
  stay : q ≡ p → Move p q
  -- The template has changed, or the phase is unknown.
  restart : q ≡ record p { phase = Phase.initial } → Move p q
  -- init takes the deployment over, but its write fails: the phase is as before, or initial.
  reset : q ≡ taken p → Move p q
  reset_unknown : q ≡ record (taken p) { phase = Phase.initial } → Move p q
  -- init takes the deployment over.
  begin : (next : Phase) → Begins p.phase next → q ≡ record (taken p) { phase = next } → Move p q
  -- A scaling event starts the step again.
  rescale : IsRolling p.phase → q ≡ record p { state = StepState.initial } → Move p q
  -- A step starts, unless it is under way.
  start :
      IsRolling p.phase
      → (p.state ≡ StepState.initial) ⊎ ((s : List ℕ) × (p.state ≡ StepState.other s))
      → q ≡ record p { state = StepState.upgrade }
      → Move p q
  -- The pods of the step are there.
  block :
      IsRolling p.phase
      → p.state ≡ StepState.upgrade
      → q ≡ record p { state = StepState.blocking }
      → Move p q
  -- The last step needs nobody to continue it.
  pass :
      IsRolling p.phase
      → p.state ≡ StepState.blocking
      → p.step +ℤ pos 1 ≡ pos p.steps
      → q ≡ record p { state = StepState.completed }
      → Move p q
  -- The next step.
  advance :
      IsRolling p.phase
      → p.state ≡ StepState.completed
      → p.step +ℤ pos 1 <ℤ pos p.steps
      → q ≡ record p { step = p.step +ℤ pos 1; state = StepState.initial }
      → Move p q
  -- After the last step.
  finish :
      IsRolling p.phase
      → p.state ≡ StepState.completed
      → p.step +ℤ pos 1 ≡ pos p.steps
      → q ≡ record p { phase = Phase.finalizing }
      → Move p q
  -- The deployment is handed back.
  complete : p.phase ≡ Phase.finalizing → q ≡ record p { phase = Phase.completed } → Move p q
  -- The rollback mark is removed from the release as the server has it.
  refetch : p.phase ≡ Phase.rolling_back → IsOnStep q → Move p q

-- `m` moves a release that stands at `p`, whether it returns, fails or panics.
pub record Moves {A : Type 0} (p : Position) (m : M A) : Type 0 where
  pub at : (e : Executor) → position e ≡ p → Move p (position (m e).1)

module _ {A : Type 0} (p : Position) where
  pub Moves-Stays : (m : M A) → Stays m → Moves p m
  Moves-Stays m s = record { at = λ e h. Move.stay (s.same e ∙ h) }

  pub Moves-if : (b : Bool) (m n : M A) → Moves p m → Moves p n → Moves p (if b then m else n)
  Moves-if true m n s t = s
  Moves-if false m n s t = t

module _ {A B : Type 0} (p : Position) where
  pub Moves-bind : (m : M A) (f : A → M B) → Stays m → ((a : A) → Moves p (f a)) → Moves p (m >>= f)
  Moves-bind m f s t = record { at = λ e h. go (m e) (s.same e ∙ h) }
    where
      go :
          (r : Result A × Executor)
          → position r.1 ≡ p
          → Move p (
              position
                (elim r.0 as (λ _. Result B × Executor) [
                  | ok a ↦ f a r.1
                  | err x ↦ (err x, r.1)
                  | panic x ↦ (panic x, r.1)
                ]).1)
      go (ok a, e') h = (t a).at e' h
      go (err x, e') h = Move.stay h
      go (panic x, e') h = Move.stay h

  -- What is read of the executor goes with what is known of it.
  pub Moves-gets :
      (g : Executor → A) (f : A → M B)
      → ((e : Executor) → position e ≡ p → Moves p (f (g e)))
      → Moves p (gets g >>= f)
  Moves-gets g f t = record { at = λ e h. (t e h).at e h }

module _ {B : Type 0} (p : Position) where
  -- A write to the executor, and nothing that moves after it.
  pub Moves-modify :
      (f : Executor → Executor) (k : M B)
      → ((e : Executor) → position e ≡ p → Move p (position (f e)))
      → Stays k
      → Moves p (modify f >> k)
  Moves-modify f k t s = record { at = λ e h. subst (Move p) (sym (s.same (f e))) (t e h) }

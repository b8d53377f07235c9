-- ===== src/Executor/Position/Order.antt =====
-- The order of the steps: what one run of Do does not do.
use batch_release.Base.{◌≡◌, ◌⊎◌, sym, ap, subst, ◌∙◌, inl, inr, []}
use batch_release.Base.Int.{pos, ◌+ℤ◌}
use batch_release.Release.{Phase, StepState}
use batch_release.Executor.Monad.{Env, Executor}
use batch_release.Executor.Phases.{run}
use batch_release.Executor.Position.{Position, position}
use batch_release.Executor.Position.Move.{IsOnStep, IsRolling, Move}
use batch_release.Executor.Position.Runs.{run-Move}
use batch_release.Executor.Position.Storing.{IsRetry, KeepsSteps}

-- The step stays, or starts from the first one again, or the next one follows a completed one.
pub data NextStep (p q : Position) : Type 0 where
  same : q.step ≡ p.step → NextStep p q
  first : q.step ≡ pos 0 → q.state ≡ StepState.other [] → NextStep p q
  next :
      IsRolling p.phase
      → p.state ≡ StepState.completed
      → q.step ≡ p.step +ℤ pos 1
      → q.state ≡ StepState.initial
      → q.phase ≡ p.phase
      → NextStep p q

Move-NextStep : (p q : Position) → ¬ (p.phase ≡ Phase.rolling_back) → Move p q → NextStep p q
Move-NextStep p q forth (Move.stay h) = NextStep.same (ap (λ (r : Position). r.step) h)
Move-NextStep p q forth (Move.restart h) = NextStep.same (ap (λ (r : Position). r.step) h)
Move-NextStep p q forth (Move.reset h) =
    NextStep.first (ap (λ (r : Position). r.step) h) (ap (λ (r : Position). r.state) h)
Move-NextStep p q forth (Move.reset_unknown h) =
    NextStep.first (ap (λ (r : Position). r.step) h) (ap (λ (r : Position). r.state) h)
Move-NextStep p q forth (Move.begin ph b h) =
    NextStep.first (ap (λ (r : Position). r.step) h) (ap (λ (r : Position). r.state) h)
Move-NextStep p q forth (Move.rescale _ h) = NextStep.same (ap (λ (r : Position). r.step) h)
Move-NextStep p q forth (Move.start _ _ h) = NextStep.same (ap (λ (r : Position). r.step) h)
Move-NextStep p q forth (Move.block _ _ h) = NextStep.same (ap (λ (r : Position). r.step) h)
Move-NextStep p q forth (Move.pass _ _ _ h) = NextStep.same (ap (λ (r : Position). r.step) h)
Move-NextStep p q forth (Move.advance rolling done _ h) =
    NextStep.next rolling done (ap (λ (r : Position). r.step) h) (ap (λ (r : Position). r.state) h)
      (ap (λ (r : Position). r.phase) h)
Move-NextStep p q forth (Move.finish _ _ _ h) = NextStep.same (ap (λ (r : Position). r.step) h)
Move-NextStep p q forth (Move.complete _ h) = NextStep.same (ap (λ (r : Position). r.step) h)
Move-NextStep p q forth (Move.refetch back _) = absurd (forth back)

abbrev IsCompleted : StepState → Type 0
IsCompleted StepState.completed = Unit {0}
IsCompleted _ = ⊥

-- The step of `p` is completed, or it blocks and is the last one.
abbrev pub MayComplete : Position → Type 0
MayComplete p =
    (p.state ≡ StepState.completed)
    ⊎ ((p.state ≡ StepState.blocking) × (p.step +ℤ pos 1 ≡ pos p.steps))

kept : (p q : Position) → q.state ≡ p.state → q.state ≡ StepState.completed → MayComplete p
kept p q h done = inl (sym h ∙ done)

IsCompleted-state :
    (q : Position) (s : StepState) → q.state ≡ s → q.state ≡ StepState.completed → IsCompleted s
IsCompleted-state q s h done = subst IsCompleted (sym done ∙ h) tt

Move-MayComplete :
    (p q : Position)
    → ¬ (p.phase ≡ Phase.rolling_back)
    → Move p q
    → q.state ≡ StepState.completed
    → MayComplete p
Move-MayComplete p q forth (Move.stay h) done = kept p q (ap (λ (r : Position). r.state) h) done
Move-MayComplete p q forth (Move.restart h) done = kept p q (ap (λ (r : Position). r.state) h) done
Move-MayComplete p q forth (Move.reset h) done =
    absurd (IsCompleted-state q _ (ap (λ (r : Position). r.state) h) done)
Move-MayComplete p q forth (Move.reset_unknown h) done =
    absurd (IsCompleted-state q _ (ap (λ (r : Position). r.state) h) done)
Move-MayComplete p q forth (Move.begin ph b h) done =
    absurd (IsCompleted-state q _ (ap (λ (r : Position). r.state) h) done)
Move-MayComplete p q forth (Move.rescale _ h) done =
    absurd (IsCompleted-state q _ (ap (λ (r : Position). r.state) h) done)
Move-MayComplete p q forth (Move.start _ _ h) done =
    absurd (IsCompleted-state q _ (ap (λ (r : Position). r.state) h) done)
Move-MayComplete p q forth (Move.block _ _ h) done =
    absurd (IsCompleted-state q _ (ap (λ (r : Position). r.state) h) done)
Move-MayComplete p q forth (Move.pass _ blocked end h) done = inr (blocked, end)
Move-MayComplete p q forth (Move.advance rolling done' _ h) done = inl done'
Move-MayComplete p q forth (Move.finish _ done' _ h) done = inl done'
Move-MayComplete p q forth (Move.complete _ h) done =
    kept p q (ap (λ (r : Position). r.state) h) done
Move-MayComplete p q forth (Move.refetch back _) done = absurd (forth back)

module _ (w : Env) (retry : IsRetry w) (keeps : KeepsSteps w.client) (e : Executor)
    (on : IsOnStep (position e)) (forth : ¬ (e.br.status.phase ≡ Phase.rolling_back)) where
  -- Where a write that conflicts is tried again as RetryOnConflict documents, and the server keeps
  -- releases on one of their steps, of which there are fewer than 2^31, one run of Do on a
  -- release that is on one of its steps and is not rolling back keeps the index of the step, or starts
  -- from the first step with no state, or goes on from a completed step of a rollout to the next one,
  -- which is then in its initial state, in the same phase.
  pub run-NextStep : NextStep (position e) (position (run w e).1)
  run-NextStep = Move-NextStep (position e) _ forth (run-Move w retry keeps e on)

  -- Where a write that conflicts is tried again as RetryOnConflict documents, and the server keeps
  -- releases on one of their steps, of which there are fewer than 2^31, and the release is on one
  -- of its steps and is not rolling back: a step that is completed after a run of Do was completed
  -- before it, or it was blocking and is the last one. Any other step that blocks waits for its user.
  pub run-MayComplete :
      (run w e).1.br.status.current_step_state ≡ StepState.completed → MayComplete (position e)
  run-MayComplete done = Move-MayComplete (position e) _ forth (run-Move w retry keeps e on) done

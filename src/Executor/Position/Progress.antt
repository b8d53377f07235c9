-- ===== src/Executor/Position/Progress.antt =====
-- A rollout ends: how many runs change the position from the first step to the last one.
use batch_release.Base.{
  ℕ, suc, ◌+◌, ◌*◌, ◌≡◌, true, false, refl, subst, sym, inl, inr, length, arith, ◌≤◌,
}
use batch_release.Base.Text.{text_eq}
use batch_release.Release.{Phase, StepState}
use batch_release.Executor.Monad.{Env, Executor, Result, ok, err, panic}
use batch_release.Executor.Phases.{
  clean_status_reason_and_message, is_pre_rollback, run, template_hash,
}
use batch_release.Executor.Position.{Position, position}
use batch_release.Executor.Position.Course.{Course, Lands}
use batch_release.Executor.Position.Course.Runs.{Rolled, SeesScaling, run-Rolled}
use batch_release.Executor.Position.Left.{left, rolling_left, state_left, Course-left, Course-Move}
use batch_release.Executor.Position.Move.{IsOnStep}
use batch_release.Executor.Position.Reach.{Move-IsOnStep, same_step, moved_to}
use batch_release.Executor.Steps.{Requeue}

-- Nothing interrupts the rollout: no rollback, no new template and no scaling event.
pub record Goes (w : Env) (e : Executor) : Type 0 where
  pub rolls : e.br.status.phase ≡ Phase.rolling_update
  pub unmarked : is_pre_rollback e ≡ false
  pub same : text_eq e.br.status.observed_update_reversion (template_hash w e) ≡ true
  pub unscaled : ¬ SeesScaling w (clean_status_reason_and_message w e).1

-- A rollout of `n` moves: runs of Do that change the position and that nothing interrupts, and users
-- that continue a step. The release is read again in between.
pub data Rollout (w : Env) (e : Executor) : ℕ → Executor → Type 0 where
  begun : Rollout w e 0 e
  ran :
      {n : ℕ} {e' : Executor}
      → Rollout w e n e'
      → Goes w e'
      → ¬ (position (run w e').1 ≡ position e')
      → Rollout w e (suc n) (run w e').1
  -- A run that changes nothing, or the release is read again.
  kept :
      {n : ℕ} {e' e'' : Executor}
      → Rollout w e n e'
      → position e'' ≡ position e'
      → Rollout w e n e''
  continued :
      {n : ℕ} {e' e'' : Executor}
      → Rollout w e n e'
      → e'.br.status.phase ≡ Phase.rolling_update
      → e'.br.status.current_step_state ≡ StepState.blocking
      → position e'' ≡ record (position e') { state = StepState.completed }
      → Rollout w e (suc n) e''

-- What holds along a rollout.
record OnWay (n : ℕ) (p q : Position) : Type 0 where
  on : IsOnStep q
  fewer : n + left q ≤ left p

module _ (w : Env) (e : Executor) where
  -- A run that nothing interrupts, and that changes the position.
  moved :
      (e' : Executor) (r : Result Requeue × Executor)
      → Lands (Rolled w e') (position e') r
      → ¬ (position r.1 ≡ position e')
      → ¬ SeesScaling w (clean_status_reason_and_message w e').1
      → Course (position e') (position r.1)
  moved e' (ok a, e'') (inl goes) moves unscaled = goes
  moved e' (ok a, e'') (inr (_, sees)) moves unscaled = absurd (unscaled sees)
  moved e' (err x, e'') h moves unscaled = absurd (moves h)
  moved e' (panic x, e'') h moves unscaled = absurd (moves h)

  one_more :
      (n : ℕ) (p q : Position)
      → OnWay n (position e) p
      → p.phase ≡ Phase.rolling_update
      → Course p q
      → ¬ (q ≡ p)
      → OnWay (suc n) (position e) q
  one_more n p q way rolls goes moves = record {
    on = Move-IsOnStep p q way.on (Course-Move p q (inl rolls) goes);
    fewer = elim (Course-left p q way.on rolls goes) [
      | inl h ↦ absurd (moves h)
      | inr less ↦ omega (arith, way.fewer, less)
    ];
  }

  Rollout-OnWay :
      (n : ℕ) (e' : Executor)
      → IsOnStep (position e)
      → Rollout w e n e'
      → OnWay n (position e) (position e')
  Rollout-OnWay n e' on begun = record { on = on; fewer = omega arith }
  Rollout-OnWay _ _ on (ran {n} {e'} way goes moves) =
      let before = Rollout-OnWay n e' on way in
      let lands = run-Rolled w e' before.on (inl goes.rolls) goes.unmarked goes.same in
      one_more n (position e') _ before goes.rolls (moved e' (run w e') lands moves goes.unscaled)
        moves
  Rollout-OnWay n e'' on (kept {e'} way h) =
      subst (OnWay n (position e)) (sym h) (Rollout-OnWay n e' on way)
  Rollout-OnWay _ e'' on (continued {n} {e'} way rolls blocks h) =
      let before = Rollout-OnWay n e' on way in
      let less =
        state_left (position e') StepState.blocking StepState.completed before.on rolls blocks
          (omega arith) (position e'') h in
      record {
        on =
            moved_to _ _ (same_step (position e') e'.br.status.phase StepState.completed before.on)
              h;
        fewer = omega (arith, before.fewer, less);
      }

  -- A rollout of a release that starts in the phase RollingUpdate on one of its steps, of which
  -- there are fewer than 2^31, has at most 4 * n moves, for n steps. The moves are users that
  -- continue a blocking step, and runs of Do in that phase that change the position and that no
  -- rollback mark, no new template and no scaling event interrupts.
  pub Rollout-ends :
      (n : ℕ) (e' : Executor)
      → IsOnStep (position e)
      → e.br.status.phase ≡ Phase.rolling_update
      → Rollout w e n e'
      → n ≤ 4 * length e.br.spec.strategy.steps
  Rollout-ends n e' on rolls way =
      let way' = Rollout-OnWay n e' on way in
      let all = rolling_left (position e) e.br.status.current_step_state rolls refl in
      omega (arith, way'.fewer, all)

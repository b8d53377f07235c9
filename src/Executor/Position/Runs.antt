-- ===== src/Executor/Position/Runs.antt =====
-- One run of Do makes one move, and what holds of a release after any number of runs.
use batch_release.Base.{
  ◌≡◌, refl, sym, ap, subst, inl, inr, Bool, true, false, not, ◌&&◌, [], if◌then◌else◌,
}
use batch_release.Base.GoMap.{get, or_empty}
use batch_release.Base.Text.{Text, codes, text_eq}
use batch_release.Release.{
  Phase, current_stable_reversion_key, current_stable_reversion_raw_key, last_stable_reversion_key,
  last_stable_reversion_raw_key,
}
use batch_release.Executor.Monad.{
  Env, Executor, M, Result, ok, err, panic, pure, gets, record_event, ◌>>=◌, ◌>>◌,
}
use batch_release.Executor.Phases.{
  is_pre_rollback, template_hash, clean_status_reason_and_message, handle_pod_template_update,
  pre_rollback, remove_rollback_mark, phase_case, run,
}
use batch_release.Executor.Steps.{Requeue, no_requeue}
use batch_release.Executor.Position.{Position, position, Stays-pure, Stays-record_event}
use batch_release.Executor.Position.Move.{
  IsOnStep, Begins, Move, Moves, Moves-Stays, Moves-if, Moves-bind,
}
use batch_release.Executor.Position.Phases.{
  pre_rollback-Moves, remove_rollback_mark-Move, finalize-Moves, fresh_start-Moves,
  unknown_phase-Moves,
}
use batch_release.Executor.Position.Steps.{rolling_update-Moves}
use batch_release.Executor.Position.Storing.{IsRetry, KeepsSteps}

-- What handlePodTemplateUpdate leaves.
abbrev Handled : Position → Result Bool × Executor → Type 0
Handled p (ok true, e) = position e ≡ record p { phase = Phase.initial }
Handled p (ok false, e) = position e ≡ p
Handled p (err x, e) = position e ≡ p
Handled p (panic x, e) = position e ≡ p

Handled-if :
    (p : Position) (e : Executor) (b : Bool) (m n : M Bool)
    → Handled p (m e)
    → Handled p (n e)
    → Handled p ((if b then m else n) e)
Handled-if p e true m n s t = s
Handled-if p e false m n s t = t

handle_pod_template_update-Handled :
    (w : Env) (e : Executor) → Handled (position e) (handle_pod_template_update w e)
unfolding handle_pod_template_update
handle_pod_template_update-Handled w e =
    Handled-if (position e) e
      (not (text_eq e.br.status.observed_update_reversion [])
        && (not (text_eq e.br.status.observed_update_reversion (template_hash w e))
            && not (is_pre_rollback e)))
      _ _ refl refl

after_template :
    (p : Position) (k : Executor → M Requeue)
    → ((e : Executor) → position e ≡ p → Move p (position (k e e).1))
    → (r : Result Bool × Executor) → Handled p r
    → Move p (
        position
          (elim r.0 as (λ _. Result Requeue × Executor) [
            | ok updated ↦
                (gets (λ (e : Executor). e) >>= λ e. if updated then pure no_requeue else k e) r.1
            | err x ↦ (err x, r.1)
            | panic x ↦ (panic x, r.1)
          ]).1)
after_template p k t (ok true, e) h = Move.restart h
after_template p k t (ok false, e) h = t e h
after_template p k t (err x, e) h = Move.stay h
after_template p k t (panic x, e) h = Move.stay h

module _ (w : Env) (retry : IsRetry w) (keeps : KeepsSteps w.client) where
  -- A rollback that the release's annotation asks for.
  rollback-Moves :
      (p : Position) (reversion pod_template : Text)
      → Begins p.phase Phase.rolling_back
      → Moves p (record_event (codes "RollbackRequested") >> pre_rollback w reversion pod_template)
  rollback-Moves p reversion pod_template begins =
      Moves-bind p (record_event (codes "RollbackRequested")) _
        (Stays-record_event (codes "RollbackRequested"))
        (λ _. pre_rollback-Moves w retry p reversion pod_template begins)

  remove_rollback_mark-Moves :
      (p : Position) → IsOnStep p → p.phase ≡ Phase.rolling_back → Moves p (remove_rollback_mark w)
  remove_rollback_mark-Moves p on back = record {
    at = λ e h.
        subst
          (λ (q : Position).
            IsOnStep q
            → q.phase ≡ Phase.rolling_back
            → Move q (position (remove_rollback_mark w e).1))
          h (remove_rollback_mark-Move w retry keeps e) on back;
  }

  phase_case-Moves :
      (p : Position)
      → IsOnStep p
      → (ph : Phase) → p.phase ≡ ph
      → (e : Executor) → Moves p (phase_case w ph e)
  unfolding phase_case
  phase_case-Moves p on Phase.initial h e = fresh_start-Moves w retry p h
  phase_case-Moves p on Phase.rolling_update h e =
      Moves-if p (is_pre_rollback e) _ _
        (rollback-Moves p (or_empty (get current_stable_reversion_key e.br.annotations))
          (or_empty (get current_stable_reversion_raw_key e.br.annotations))
          (subst (λ (ph : Phase). Begins ph Phase.rolling_back) (sym h) Begins.rollback))
        (rolling_update-Moves w p (inl h) on)
  phase_case-Moves p on Phase.rolling_back h e =
      Moves-if p (is_pre_rollback e) _ _ (remove_rollback_mark-Moves p on h)
        (rolling_update-Moves w p (inr h) on)
  phase_case-Moves p on Phase.finalizing h e = finalize-Moves w retry p h
  phase_case-Moves p on Phase.completed h e =
      Moves-if p (is_pre_rollback e) _ _
        (rollback-Moves p (or_empty (get last_stable_reversion_key e.br.annotations))
          (or_empty (get last_stable_reversion_raw_key e.br.annotations))
          (subst (λ (ph : Phase). Begins ph Phase.rolling_back) (sym h) Begins.late_rollback))
        (Moves-Stays p (pure no_requeue) (Stays-pure no_requeue))
  phase_case-Moves p on (Phase.other s) h e = unknown_phase-Moves w retry p s h

  -- Where a write that conflicts is tried again as RetryOnConflict documents, and the server keeps
  -- releases on one of their steps, of which there are fewer than 2^31, one run of Do on a
  -- release that is on one of its steps is one move of the state machine `Move`, whether the run
  -- returns, fails or panics.
  pub run-Move : (e : Executor) → IsOnStep (position e) → Move (position e) (position (run w e).1)
  unfolding run clean_status_reason_and_message
  run-Move e on =
      let clean = (clean_status_reason_and_message w e).1 in
      after_template (position e) (λ e'. phase_case w e'.br.status.phase e')
        (λ e' h.
          (phase_case-Moves (position e) on e'.br.status.phase
              (ap (λ (q : Position). q.phase) (sym h)) e').at
            e' h)
        (handle_pod_template_update w clean) (handle_pod_template_update-Handled w clean)

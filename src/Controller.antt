-- ===== src/Controller.antt =====
-- One reconciliation of a BatchRelease: Reconcile and syncBatchReleaseStatus
-- (internal/controller/batchrelease_controller.go).
pub mod Writes
pub mod Handlers
pub mod Survival
use batch_release.Base.{
  ℕ, Bool, true, false, ◌&&◌, ◌==◌, Option, none, some, List, [], ◌∷◌, if◌then◌else◌,
}
use batch_release.Base.Int.{ℤ, eqb_ℤ}
use batch_release.Base.Text.{Text, text_eq}
use batch_release.Objects.{IntOrString, int_value, str_value, Deployment}
use batch_release.Release.{BatchRelease, BatchReleaseStatus, Phase, StepState}
use batch_release.Deployment.Progress.{deployment_rollout_satisfied}
use batch_release.Executor.Monad.{
  Env, Executor, M, Call, Error, Fault, Result, ok, err, panic, Answer, answer, refuse, server,
  ServerError, not_found, get_batch_release, get_deployment, pure, gets, ◌>>=◌, ◌>>◌,
}
use batch_release.Executor.Phases.{run}
use batch_release.Executor.Ready.{desired_partition}
use batch_release.Executor.Steps.{Requeue, no_requeue, after_default}
use batch_release.Executor.Store.{update_br_status}

same_phase : Phase → Phase → Bool
same_phase Phase.initial Phase.initial = true
same_phase Phase.rolling_update Phase.rolling_update = true
same_phase Phase.rolling_back Phase.rolling_back = true
same_phase Phase.finalizing Phase.finalizing = true
same_phase Phase.completed Phase.completed = true
same_phase (Phase.other a) (Phase.other b) = text_eq a b
same_phase _ _ = false

same_step_state : StepState → StepState → Bool
same_step_state StepState.initial StepState.initial = true
same_step_state StepState.upgrade StepState.upgrade = true
same_step_state StepState.blocking StepState.blocking = true
same_step_state StepState.completed StepState.completed = true
same_step_state (StepState.other a) (StepState.other b) = text_eq a b
same_step_state _ _ = false

same_value : Option IntOrString → Option IntOrString → Bool
same_value none none = true
same_value (some (int_value a)) (some (int_value b)) = eqb_ℤ a b
same_value (some (str_value a)) (some (str_value b)) = text_eq a b
same_value _ _ = false

same_time : Option ℕ → Option ℕ → Bool
same_time none none = true
same_time (some a) (some b) = a == b
same_time _ _ = false

-- `reflect.DeepEqual(old.Status, new.Status)`
unfoldable pub same_release_status : BatchReleaseStatus → BatchReleaseStatus → Bool
unfolding same_phase same_step_state same_value same_time
same_release_status a b =
    same_phase a.phase b.phase
    && (eqb_ℤ a.current_step_index b.current_step_index
        && (same_step_state a.current_step_state b.current_step_state
            && (eqb_ℤ a.updated_ready_replicas b.updated_ready_replicas
                && (same_value a.max_unavailable b.max_unavailable
                    && (same_value a.max_surge b.max_surge
                        && (text_eq a.reason b.reason
                            && (text_eq a.message b.message
                                && (eqb_ℤ a.observed_generation b.observed_generation
                                    && (text_eq a.observed_update_reversion
                                          b.observed_update_reversion
                                        && same_time a.last_update_time b.last_update_time)))))))))

-- What Reconcile returns: a result, the errors it collects, or a panic. The result that it returns
-- beside errors is dropped by controller-runtime.
pub data Outcome : Type 0 where
  reconciled : Requeue → Outcome
  failed : List Error → Outcome
  crashed : Fault → Outcome

module _ (w : Env) where
  open w use {client, vendor, now}

  -- The status with which the release is written back.
  unfoldable pub stamped : BatchRelease → BatchReleaseStatus → BatchRelease → BatchRelease
  stamped old status br = record br {
    status = record status { observed_generation = old.generation; last_update_time = some now };
  }

  unfoldable pub sync_batch_release_status : BatchRelease → M (Unit {0})
  sync_batch_release_status old = do
    status ← gets (λ (e : Executor). e.br.status)
    if same_release_status old.status status
        then pure tt
        else update_br_status w old (stamped old status)

  -- What follows a run and a write of the status that both succeed.
  unfoldable pub settle : Deployment → Requeue → M Requeue
  settle de after_default = pure after_default
  settle de no_requeue = do
    partition ← desired_partition w
    elim (deployment_rollout_satisfied vendor de partition) [
      | none ↦ pure no_requeue
      | some unsatisfied ↦ pure after_default
    ]

  outcome : Result Requeue × Executor → Outcome × List Call
  outcome (ok r, e) = (reconciled r, e.calls)
  outcome (err x, e) = (failed (x ∷ []), e.calls)
  outcome (panic x, e) = (crashed x, e.calls)

  -- The write of the status after the run, whatever the run returned, and the errors of both.
  unfoldable pub after_run :
      BatchRelease → Deployment → Result Requeue × Executor → Outcome × List Call
  unfolding outcome
  after_run br de (panic x, e) = (crashed x, e.calls)
  after_run br de (ok r, e) = outcome ((sync_batch_release_status br >> settle de r) e)
  after_run br de (err x, e) =
      let (written, e') = sync_batch_release_status br e in
      elim written [
        | ok _ ↦ (failed (x ∷ []), e'.calls)
        | err y ↦ (failed (x ∷ y ∷ []), e'.calls)
        | panic y ↦ (crashed y, e'.calls)
      ]

  -- Reconcile, from the requests that were made before; a release that is gone is skipped.
  unfoldable pub reconcile : Text → Text → List Call → Outcome × List Call
  reconcile name namespace calls =
      let calls' = get_batch_release name namespace ∷ calls in
      elim (client.on_get_batch_release calls name namespace) [
        | refuse not_found ↦ (reconciled no_requeue, calls')
        | refuse x ↦ (failed (server x ∷ []), calls')
        | answer br ↦
            let workload = br.spec.workload_ref.name in
            let calls'' = get_deployment workload namespace ∷ calls' in
            elim (client.on_get_deployment calls' workload namespace) [
              | refuse x ↦ (failed (server x ∷ []), calls'')
              | answer de ↦
                  after_run br de
                    (run w (record { br = br; de = de; calls = calls''; events = [] }))
            ]
      ]

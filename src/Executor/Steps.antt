-- ===== src/Executor/Steps.antt =====
-- A step of the release: sync, rollingUpdate and stepByStep
-- (internal/controller/partition/executor.go).
pub mod Range
use batch_release.Base.{Bool, true, false, some, List, length, if◌then◌else◌}
use batch_release.Base.Int.{pos, eqb_ℤ, add32, sub32, to_int32, ◌-ℤ◌}
use batch_release.Base.Text.{codes}
use batch_release.Objects.{ReplicaSet}
use batch_release.Release.{
  BatchReleaseStatus, StepState, Phase, step_blocking_message, reason_step_blocking,
}
use batch_release.Deployment.Counts.{append_new, filter_active, pointers}
use batch_release.Executor.Monad.{
  Env, Executor, M, pure, gets, modify, deref, record_event, ◌>>=◌, ◌>>◌,
}
use batch_release.Executor.Listing.{
  get_all_replica_sets_and_sync_revision, get_replica_sets_for_deployment, is_scaling_event,
}
use batch_release.Executor.NewSet.{reconcile_new_replica_set}
use batch_release.Executor.OldSets.{reconcile_old_replica_sets}
use batch_release.Executor.Proportion.{scale}
use batch_release.Executor.Ready.{is_batch_ready}
use batch_release.Executor.Status.{sync_deployment_status, sync_rollout_status}

-- ctrl.Result: the zero value, or RequeueAfter with DefaultRetryDuration.
pub data Requeue : Type 0 where
  no_requeue after_default : Requeue

-- An assignment to `e.Br.Status`.
abbrev pub modify_status : (BatchReleaseStatus → BatchReleaseStatus) → M (Unit {0})
modify_status f = modify (λ e. record e { br = record e.br { status = f e.br.status } })

abbrev pub set_step_state : StepState → M (Unit {0})
set_step_state s = modify_status (λ st. record st { current_step_state = s })

abbrev pub set_phase : Phase → M (Unit {0})
set_phase p = modify_status (λ st. record st { phase = p })

-- `CurrentStepIndex == len(Steps) - 1`, with the length cut to an int32 before or after the
-- subtraction: the two places of the source agree below 2^31 steps.
unfoldable pub is_last_step : Executor → Bool
is_last_step e =
    eqb_ℤ e.br.status.current_step_index (to_int32 (pos (length e.br.spec.strategy.steps) -ℤ pos 1))

unfoldable pub is_final_step : Executor → Bool
is_final_step e =
    eqb_ℤ e.br.status.current_step_index
      (sub32 (to_int32 (pos (length e.br.spec.strategy.steps))) (pos 1))

module _ (w : Env) where
  unfoldable pub sync : List ReplicaSet → M (Unit {0})
  sync rs_list = do
    (new_rs, old_rss) ← get_all_replica_sets_and_sync_revision w rs_list false
    old_rss' ← scale w new_rs old_rss
    sync_deployment_status w (append_new old_rss' new_rs) new_rs

  -- The case of StepStateInitial.
  unfoldable pub start_step : M Requeue
  start_step = do set_step_state StepState.upgrade; pure no_requeue

  -- What follows when nothing was scaled.
  unfoldable pub finish_upgrade : M Requeue
  finish_upgrade = do is_batch_ready w; set_step_state StepState.blocking; pure no_requeue

  -- The case of StepStateUpgrade. An error of IsBatchReady comes with RequeueAfter, which
  -- controller-runtime drops beside an error.
  unfoldable pub upgrade_step : List ReplicaSet → M Requeue
  upgrade_step rs_list = do
    (found, old_rss) ← get_all_replica_sets_and_sync_revision w rs_list true
    new_rs ← deref found
    let all_rss = append_new old_rss (some new_rs)
    scaled_up ← reconcile_new_replica_set w all_rss new_rs
    if scaled_up then (do sync_rollout_status w all_rss (some new_rs); pure no_requeue) else (do
      de ← gets (λ (e : Executor). e.de)
      scaled_down ←
          reconcile_old_replica_sets w all_rss (filter_active (pointers old_rss)) new_rs de
      sync_rollout_status w all_rss (some new_rs)
      if scaled_down then pure no_requeue else finish_upgrade)

  -- The case of StepStateBlocking.
  unfoldable pub block_step : M Requeue
  block_step = do
    last ← gets is_last_step
    if last then (do set_step_state StepState.completed; pure no_requeue) else (do
      modify_status
          (λ st. record st { reason = reason_step_blocking; message = step_blocking_message })
      record_event (codes "BatchStepBlocking")
      pure no_requeue)

  -- The case of StepStateCompleted.
  unfoldable pub complete_step : M Requeue
  complete_step = do
    record_event (codes "BatchStepCompleted")
    last ← gets is_final_step
    if last then (do set_phase Phase.finalizing; pure no_requeue) else (do
      modify_status (λ st. record st {
        current_step_index = add32 st.current_step_index (pos 1);
        current_step_state = StepState.initial;
      })
      pure no_requeue)

  -- The switch on the step's state; the default goes on to StepStateInitial.
  unfoldable pub step_case : StepState → List ReplicaSet → M Requeue
  step_case StepState.initial rs_list = start_step
  step_case StepState.upgrade rs_list = upgrade_step rs_list
  step_case StepState.blocking rs_list = block_step
  step_case StepState.completed rs_list = complete_step
  step_case (StepState.other s) rs_list = do set_step_state StepState.initial; start_step

  unfoldable pub step_by_step : List ReplicaSet → M Requeue
  step_by_step rs_list = do
    state ← gets (λ (e : Executor). e.br.status.current_step_state)
    step_case state rs_list

  unfoldable pub rolling_update : M Requeue
  rolling_update = do
    rs_list ← get_replica_sets_for_deployment w
    scaling_event ← is_scaling_event w rs_list
    if scaling_event
        then (do sync rs_list; set_step_state StepState.initial; pure no_requeue)
        else step_by_step rs_list

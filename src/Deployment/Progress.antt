-- ===== src/Deployment/Progress.antt =====
-- Whether a rollout is complete, makes progress, or has timed out, and whether a deployment
-- satisfies a step (pkg/util/deployment/deployment.go).
use batch_release.Base.{ℕ, Bool, true, false, not, ◌&&◌, ◌||◌, Option, none, some, if◌then◌else◌}
use batch_release.Base.Int.{ℤ, pos, ltb_ℤ, leb_ℤ, eqb_ℤ, sub32, ◌+ℤ◌, ◌*ℤ◌}
use batch_release.Base.Text.{text_eq}
use batch_release.Objects.{Deployment, DeploymentStatus, DeploymentCondition, IntOrString}
use batch_release.Vendor.{Vendor}
use batch_release.Deployment.Conditions.{
  get_deployment_condition, progressing_condition, new_rs_available_reason, timed_out_reason,
}
use batch_release.Deployment.Limits.{new_rs_replicas_limit}

-- math.MaxInt32 stands for no deadline.
unfoldable pub is_deadline : Option ℤ → Bool
is_deadline none = false
is_deadline (some seconds) = not (eqb_ℤ seconds (pos 2147483647))

unfoldable pub has_progress_deadline : Deployment → Bool
unfolding is_deadline
has_progress_deadline d = is_deadline d.progress_deadline_seconds

unfoldable pub deployment_complete : Deployment → DeploymentStatus → Bool
deployment_complete d new_status =
    eqb_ℤ new_status.updated_replicas d.replicas
    && (eqb_ℤ new_status.replicas d.replicas
        && (eqb_ℤ new_status.available_replicas d.replicas
            && leb_ℤ d.generation new_status.observed_generation))

unfoldable pub deployment_progressing : Deployment → DeploymentStatus → Bool
deployment_progressing d new_status =
    let old_status = d.status in
    let old_status_old_replicas = sub32 old_status.replicas old_status.updated_replicas in
    let new_status_old_replicas = sub32 new_status.replicas new_status.updated_replicas in
    ltb_ℤ old_status.updated_replicas new_status.updated_replicas
    || (ltb_ℤ new_status_old_replicas old_status_old_replicas
        || (ltb_ℤ old_status.ready_replicas new_status.ready_replicas
            || ltb_ℤ old_status.available_replicas new_status.available_replicas))

-- `time.Duration(seconds) * time.Second` added to an instant; an int32 of seconds is far from the
-- bounds of an int64 of nanoseconds.
abbrev pub after_deadline : ℕ → Option ℤ → ℤ
after_deadline from none = pos from
after_deadline from (some seconds) = pos from +ℤ seconds *ℤ pos 1000000000

unfoldable pub condition_timed_out : ℕ → Option ℤ → Option DeploymentCondition → Bool
condition_timed_out now deadline none = false
condition_timed_out now deadline (some c) =
    if text_eq c.reason new_rs_available_reason
    then false
    else if text_eq c.reason timed_out_reason
    then true
    else ltb_ℤ (after_deadline c.last_update_time deadline) (pos now)

unfoldable pub deployment_timed_out : ℕ → Deployment → DeploymentStatus → Bool
unfolding condition_timed_out
deployment_timed_out now d new_status =
    if not (has_progress_deadline d)
    then false
    else condition_timed_out now d.progress_deadline_seconds
        (get_deployment_condition new_status progressing_condition)

pub data Unsatisfied : Type 0 where
  generation_not_observed replicas_differ updated_too_few : Unsatisfied

-- DeploymentRolloutSatisfied; `none` is the nil error.
module _ (v : Vendor) where
  unfoldable pub deployment_rollout_satisfied : Deployment → IntOrString → Option Unsatisfied
  deployment_rollout_satisfied d partition =
      if ltb_ℤ d.status.observed_generation d.generation
      then some generation_not_observed
      else if not (eqb_ℤ d.status.replicas d.replicas)
      then some replicas_differ
      else if ltb_ℤ d.status.updated_replicas (new_rs_replicas_limit v partition d)
      then some updated_too_few
      else none

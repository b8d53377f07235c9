-- ===== src/Executor/Status.antt =====
-- The status that the executor writes to the deployment: calculateStatus, syncDeploymentStatus,
-- syncRolloutStatus, getReplicaFailures, patchDeploymentStatusAndAnnotation and
-- requeueStuckDeployment (internal/controller/partition/executor.go).
pub mod Failures
pub mod Available
pub mod Conditions
use batch_release.Base.{
  ℕ, Bool, false, not, ◌&&◌, ◌||◌, Option, none, some, List, [], ◌∷◌, ◌++◌, if◌then◌else◌,
}
use batch_release.Base.Int.{ℤ, pos, negsuc, ltb_ℤ, leb_ℤ, eqb_ℤ, sub32, ◌-ℤ◌}
use batch_release.Base.Text.{Text, codes, text_eq}
use batch_release.Objects.{
  ReplicaSet, ReplicaSetCondition, Deployment, DeploymentStatus, DeploymentCondition,
  same_deployment_status, cond_true, cond_false, same_status,
}
use batch_release.Deployment.Conditions.{
  get_deployment_condition, new_deployment_condition, set_deployment_condition,
  remove_deployment_condition, replica_set_to_deployment_condition, available_condition,
  progressing_condition, replica_failure_condition, minimum_replicas_available,
  minimum_replicas_unavailable, new_rs_available_reason, replica_set_updated_reason,
  timed_out_reason,
}
use batch_release.Deployment.Counts.{
  get_replica_count, get_available_replica_count, get_actual_replica_count, get_ready_replica_count,
}
use batch_release.Deployment.Progress.{
  has_progress_deadline, deployment_complete, deployment_progressing, deployment_timed_out,
  after_deadline,
}
use batch_release.Executor.Monad.{
  Env, Executor, M, pure, gets, modify, send, patch_deployment, ◌>>=◌, ◌>>◌,
}
use batch_release.Executor.Scale.{max_unavailable}

-- The failure conditions of one replica set.
unfoldable pub failures_of : List ReplicaSetCondition → List DeploymentCondition
failures_of [] = []
failures_of (c ∷ cs) =
    let rest = failures_of cs in
    if text_eq c.kind replica_failure_condition
    then replica_set_to_deployment_condition c ∷ rest
    else rest

unfoldable pub failures_of_all : List (Option ReplicaSet) → List DeploymentCondition
failures_of_all [] = []
failures_of_all (none ∷ rss) = failures_of_all rss
failures_of_all (some rs ∷ rss) = failures_of rs.status.conditions ++ failures_of_all rss

abbrev first_nonempty :
    List DeploymentCondition → List DeploymentCondition → List DeploymentCondition
first_nonempty [] others = others
first_nonempty (c ∷ cs) others = c ∷ cs

abbrev failures_of_new : Option ReplicaSet → List DeploymentCondition
failures_of_new none = []
failures_of_new (some rs) = failures_of rs.status.conditions

-- The failures of the new replica set, or else those of all.
unfoldable pub get_replica_failures :
    List (Option ReplicaSet) → Option ReplicaSet → List DeploymentCondition
get_replica_failures all_rss new_rs =
    first_nonempty (failures_of_new new_rs) (failures_of_all all_rss)

-- The message names the new replica set, or the deployment where there is none.
unfoldable pub progress_message : Option ReplicaSet → Deployment → Text → Text
progress_message none d ending = codes "Deployment \"" ++ d.name ++ codes "\"" ++ ending
progress_message (some rs) d ending = codes "ReplicaSet \"" ++ rs.name ++ codes "\"" ++ ending

-- `newStatus.Replicas == newStatus.UpdatedReplicas && currentCond != nil && currentCond.Reason == NewRSAvailableReason`
unfoldable pub is_complete_deployment : DeploymentStatus → Option DeploymentCondition → Bool
is_complete_deployment new_status none = false
is_complete_deployment new_status (some c) =
    eqb_ℤ new_status.replicas new_status.updated_replicas
    && text_eq c.reason new_rs_available_reason

-- The Progressing condition that replaces `current` where progress was made.
unfoldable pub with_progress :
    Option DeploymentCondition → DeploymentCondition → DeploymentStatus → DeploymentStatus
with_progress none c status = set_deployment_condition status c
with_progress (some current) c status =
    set_deployment_condition (remove_deployment_condition status progressing_condition) (
      if same_status current.status cond_true
      then record c { last_transition_time = current.last_transition_time }
      else c)

-- The switch of syncRolloutStatus.
unfoldable pub estimate_progress :
    ℕ
    → Deployment
    → Option ReplicaSet
    → Option DeploymentCondition
    → DeploymentStatus
    → DeploymentStatus
estimate_progress now d new_rs current status =
    if deployment_complete d status
    then set_deployment_condition status (
        new_deployment_condition now progressing_condition cond_true new_rs_available_reason
          (progress_message new_rs d (codes " has successfully progressed.")))
    else if deployment_progressing d status
    then with_progress current
        (new_deployment_condition now progressing_condition cond_true replica_set_updated_reason
          (progress_message new_rs d (codes " is progressing.")))
        status
    else if deployment_timed_out now d status
    then set_deployment_condition status (
        new_deployment_condition now progressing_condition cond_false timed_out_reason
          (progress_message new_rs d (codes " has timed out progressing.")))
    else status

unfoldable pub with_failures : List DeploymentCondition → DeploymentStatus → DeploymentStatus
with_failures [] status = remove_deployment_condition status replica_failure_condition
with_failures (c ∷ cs) status = set_deployment_condition status c

abbrev pub ready_of : Option ReplicaSet → ℤ
ready_of none = pos 0
ready_of (some rs) = rs.status.ready_replicas

abbrev pub set_updated_ready_replicas : Executor → ℤ → Executor
set_updated_ready_replicas e n = record e {
  br = record e.br { status = record e.br.status { updated_ready_replicas = n } };
}

module _ (w : Env) where
  open w use {client, now}

  -- The counts of calculateStatus, with the conditions of the old status.
  unfoldable pub counted_status :
      Executor → List (Option ReplicaSet) → Option ReplicaSet → DeploymentStatus
  counted_status e all_rss new_rs =
      let available = get_available_replica_count all_rss in
      let unavailable = sub32 (get_replica_count all_rss) available in
      record {
        observed_generation = e.de.generation;
        replicas = get_actual_replica_count all_rss;
        updated_replicas = get_actual_replica_count (new_rs ∷ []);
        ready_replicas = get_ready_replica_count all_rss;
        available_replicas = available;
        unavailable_replicas = if ltb_ℤ unavailable (pos 0) then pos 0 else unavailable;
        conditions = e.de.status.conditions;
        collision_count = e.de.status.collision_count;
      }

  unfoldable pub calculate_status :
      Executor → List (Option ReplicaSet) → Option ReplicaSet → DeploymentStatus
  calculate_status e all_rss new_rs =
      let status = counted_status e all_rss new_rs in
      if leb_ℤ (sub32 e.de.replicas (max_unavailable w e)) (get_available_replica_count all_rss)
      then set_deployment_condition status (
          new_deployment_condition now available_condition cond_true minimum_replicas_available
            (codes "Deployment has minimum availability."))
      else set_deployment_condition status (
          new_deployment_condition now available_condition cond_false minimum_replicas_unavailable
            (codes "Deployment does not have minimum availability."))

  -- The status that syncRolloutStatus writes.
  unfoldable pub rollout_status :
      Executor → List (Option ReplicaSet) → Option ReplicaSet → DeploymentStatus
  rollout_status e all_rss new_rs =
      let calculated = calculate_status e all_rss new_rs in
      let status =
        (if has_progress_deadline e.de
          then calculated
          else remove_deployment_condition calculated progressing_condition) in
      let current = get_deployment_condition e.de.status progressing_condition in
      let estimated =
        (if has_progress_deadline e.de && not (is_complete_deployment status current)
          then estimate_progress now e.de new_rs current status
          else status) in
      with_failures (get_replica_failures all_rss new_rs) estimated

  -- patchDeploymentStatusAndAnnotation. The server's answer is written to a copy that nothing reads.
  unfoldable pub patch_deployment_status : Deployment → DeploymentStatus → M (Unit {0})
  patch_deployment_status d new_status =
      let copy = record d { status = new_status } in
      if same_deployment_status d.status new_status then pure tt else (do
        send (λ calls. client.on_patch_deployment calls d copy) (patch_deployment d copy)
        pure tt)

  unfoldable pub sync_deployment_status :
      List (Option ReplicaSet) → Option ReplicaSet → M (Unit {0})
  sync_deployment_status all_rss new_rs = do
    e ← gets (λ (e : Executor). e)
    patch_deployment_status e.de (calculate_status e all_rss new_rs)

  -- The value of requeueStuckDeployment, which its caller drops, is left out.
  unfoldable pub sync_rollout_status : List (Option ReplicaSet) → Option ReplicaSet → M (Unit {0})
  sync_rollout_status all_rss new_rs = do
    e ← gets (λ (e : Executor). e)
    let new_status = rollout_status e all_rss new_rs
    modify (λ e. set_updated_ready_replicas e (ready_of new_rs))
    patch_deployment_status e.de new_status

  -- requeueStuckDeployment, in nanoseconds; -1 where no progress check is due.
  unfoldable pub stuck_after : Deployment → DeploymentStatus → Option DeploymentCondition → ℤ
  stuck_after d new_status none = negsuc 0
  stuck_after d new_status (some c) =
      let after = after_deadline c.last_update_time d.progress_deadline_seconds -ℤ pos now in
      if not (has_progress_deadline d)
      then negsuc 0
      else if deployment_complete d new_status || text_eq c.reason timed_out_reason
      then negsuc 0
      else if ltb_ℤ after (pos 1000000000)
      then pos 0
      else after

  unfoldable pub requeue_stuck_deployment : Deployment → DeploymentStatus → ℤ
  requeue_stuck_deployment d new_status =
      stuck_after d new_status (get_deployment_condition d.status progressing_condition)

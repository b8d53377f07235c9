-- ===== src/Executor/Status/Conditions.antt =====
-- The conditions of the status that syncRolloutStatus writes.
use batch_release.Base.{ℕ, ◌≡◌, Option, none, some, List, [], ◌∷◌, if◌then◌else◌}
use batch_release.Base.Int.{leb_ℤ, sub32}
use batch_release.Objects.{
  ReplicaSet, Deployment, DeploymentCondition, DeploymentStatus, cond_true, cond_false,
}
use batch_release.Deployment.Conditions.{get_deployment_condition, available_condition}
use batch_release.Deployment.Conditions.Unique.{HasDistinct, distinct_rules}
use batch_release.Deployment.Counts.{get_available_replica_count}
use batch_release.Executor.Monad.{Env, Executor}
use batch_release.Executor.Scale.{max_unavailable}
use batch_release.Executor.Status.Available.{rollout_status-SaysAvailable}
use batch_release.Executor.Status.{
  with_progress, estimate_progress, with_failures, counted_status, calculate_status, rollout_status,
}

with_progress-HasDistinct :
    (current : Option DeploymentCondition) (c : DeploymentCondition) (status : DeploymentStatus)
    → HasDistinct status
    → HasDistinct (with_progress current c status)
unfolding with_progress
with_progress-HasDistinct none c status h = search distinct_rules
with_progress-HasDistinct (some current) c status h = search distinct_rules

estimate_progress-HasDistinct :
    (now : ℕ) (d : Deployment) (new_rs : Option ReplicaSet) (current : Option DeploymentCondition)
    (status : DeploymentStatus)
    → HasDistinct status
    → HasDistinct (estimate_progress now d new_rs current status)
unfolding estimate_progress
estimate_progress-HasDistinct now d new_rs current status h =
    search (distinct_rules, with_progress-HasDistinct) depth 9

with_failures-HasDistinct :
    (cs : List DeploymentCondition) (status : DeploymentStatus)
    → HasDistinct status
    → HasDistinct (with_failures cs status)
unfolding with_failures
with_failures-HasDistinct [] status h = search distinct_rules
with_failures-HasDistinct (c ∷ cs) status h = search distinct_rules

module _ (w : Env) (e : Executor) (all_rss : List (Option ReplicaSet))
    (new_rs : Option ReplicaSet) where
  counted_status-HasDistinct :
      HasDistinct e.de.status → HasDistinct (counted_status w e all_rss new_rs)
  unfolding counted_status
  counted_status-HasDistinct h = record { distinct = h.distinct }

  calculate_status-HasDistinct :
      HasDistinct e.de.status → HasDistinct (calculate_status w e all_rss new_rs)
  unfolding calculate_status
  calculate_status-HasDistinct h = search (distinct_rules, counted_status-HasDistinct)

  rollout_status-HasDistinct :
      HasDistinct e.de.status → HasDistinct (rollout_status w e all_rss new_rs)
  unfolding rollout_status
  rollout_status-HasDistinct h =
      search
        (
          distinct_rules, calculate_status-HasDistinct, estimate_progress-HasDistinct,
          with_failures-HasDistinct,
        )
        depth 9

  -- Where the status of the deployment holds at most one condition of each type, so does the status
  -- that syncRolloutStatus writes, and its Available condition is True exactly where as many pods are
  -- available as the deployment's size less maxUnavailable, and False otherwise, whatever is said of
  -- the progress and of failures.
  pub rollout_status_conditions :
      HasDistinct e.de.status
      → let status = rollout_status w e all_rss new_rs in
        HasDistinct status
        × ((held : DeploymentCondition) × (get_deployment_condition status available_condition
              ≡ some held)
            × (held.status ≡ (
                if leb_ℤ
                  (sub32 e.de.replicas (max_unavailable w e))
                  (get_available_replica_count all_rss)
                then cond_true
                else cond_false)))
  rollout_status_conditions h =
      let available = rollout_status-SaysAvailable w e all_rss new_rs in
      (rollout_status-HasDistinct h, (available.held, available.found, available.says))

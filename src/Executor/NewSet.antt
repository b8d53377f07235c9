-- ===== src/Executor/NewSet.antt =====
-- How large the new replica set may be: newRSNewReplicas, newRSReplicasLowerBound and
-- reconcileNewReplicaSet (internal/controller/partition/executor.go).
pub mod Bounds
pub mod Room
pub mod Growing
use batch_release.Base.{Bool, true, false, Option, List, if◌then◌else◌}
use batch_release.Base.Int.{ℤ, pos, ltb_ℤ, leb_ℤ, eqb_ℤ, add32, sub32, to_int32}
use batch_release.Objects.{IntOrString, ReplicaSet, Deployment}
use batch_release.Deployment.Counts.{get_replica_count}
use batch_release.Deployment.Limits.{new_rs_replicas_limit}
use batch_release.Executor.Monad.{Env, M, pure, gets, ◌>>=◌, ◌>>◌, Executor}
use batch_release.Executor.OldSets.{current_partition}
use batch_release.Executor.Scale.{max_surge, scale_replica_set_and_record_event}

module _ (w : Env) where
  open w use {vendor}

  -- The `surge` is e.maxSurge(). The source returns a nil error on every path.
  unfoldable pub new_rs_new_replicas :
      ℤ → Deployment → List (Option ReplicaSet) → ReplicaSet → IntOrString → ℤ
  new_rs_new_replicas surge deployment all_rss new_rs step_replicas =
      let current_pod_count = get_replica_count all_rss in
      let scale_up_limit = new_rs_replicas_limit vendor step_replicas deployment in
      let max_total_pods = add32 deployment.replicas surge in
      let scale_up_count = to_int32 (
        vendor.int_min (sub32 max_total_pods current_pod_count)
          (sub32 deployment.replicas new_rs.replicas)) in
      if ltb_ℤ new_rs.replicas current_pod_count
      then if leb_ℤ scale_up_limit new_rs.replicas
        then new_rs.replicas
        else if leb_ℤ max_total_pods current_pod_count
        then new_rs.replicas
        else vendor.int32_min (add32 new_rs.replicas scale_up_count) scale_up_limit
      else deployment.replicas

  unfoldable pub new_rs_replicas_lower_bound : ℤ → Deployment → ℤ
  new_rs_replicas_lower_bound surge deployment =
      if ltb_ℤ (pos 0) surge then pos 0 else vendor.int32_min (pos 1) deployment.replicas

  unfoldable pub scale_to : ReplicaSet → ℤ → M Bool
  scale_to rs n = do
    deployment ← gets (λ (e : Executor). e.de)
    (scaled, _) ← scale_replica_set_and_record_event w rs n deployment
    pure scaled

  unfoldable pub reconcile_new_replica_set : List (Option ReplicaSet) → ReplicaSet → M Bool
  reconcile_new_replica_set all_rss new_rs = do
    deployment ← gets (λ (e : Executor). e.de)
    if eqb_ℤ new_rs.replicas deployment.replicas
        then pure false
        else if ltb_ℤ deployment.replicas new_rs.replicas
        then scale_to new_rs deployment.replicas
        else (do
          partition ← current_partition
          surge ← gets (max_surge w)
          scale_to new_rs (new_rs_new_replicas surge deployment all_rss new_rs partition))

-- ===== src/Executor/OldSets.antt =====
-- How the old replica sets are scaled: ScaleDownLimitForOld, scaleUpOldReplicaSets,
-- cleanupUnhealthyReplicas, scaleDownOldReplicaSetsForRollingUpdate and reconcileOldReplicaSets
-- (internal/controller/partition/executor.go).
pub mod Cleanup
pub mod ScaleDown
pub mod Partition
pub mod Availability
pub mod Slack
pub mod Progress
use batch_release.Base.{
  Bool, true, false, ◌||◌, Option, none, some, List, [], ◌∷◌, ◌++◌, length, take, if◌then◌else◌,
}
use batch_release.Base.Int.{ℤ, pos, ltb_ℤ, leb_ℤ, eqb_ℤ, add32, sub32, neg32, to_int32}
use batch_release.Base.Sort.{sort}
use batch_release.Objects.{IntOrString, ReplicaSet, Deployment}
use batch_release.Vendor.{Vendor}
use batch_release.Deployment.Counts.{pointers, get_replica_count, get_available_replica_count}
use batch_release.Deployment.Find.{find_new_replica_set}
use batch_release.Deployment.Limits.{new_rs_replicas_limit}
use batch_release.Deployment.Order.{by_creation_timestamp, by_smaller_revision, by_size_older}
use batch_release.Executor.Monad.{
  Env, Executor, M, invalid_scale_down, pure, throw, gets, deref, index, catch, ◌>>=◌, ◌>>◌,
}
use batch_release.Executor.Scale.{max_unavailable, scale_replica_set_and_record_event}

unfoldable pub scale_down_limit_for_old :
    Vendor → List ReplicaSet → ReplicaSet → Deployment → IntOrString → ℤ
scale_down_limit_for_old v old_rss new_rs deployment partition =
    let new_rs_update_limit = new_rs_replicas_limit v partition deployment in
    let new_rs_desired_count = v.int32_max new_rs_update_limit new_rs.replicas in
    let old_rs_desired_count = sub32 deployment.replicas new_rs_desired_count in
    sub32 (get_replica_count (pointers old_rss)) old_rs_desired_count

-- The `Replicas` of the current step, which panics where the index is out of range.
unfoldable pub current_partition : M IntOrString
current_partition e =
    (do step ← index e.br.spec.strategy.steps e.br.status.current_step_index; pure step.replicas) e

-- A list with its head, where `len(xs) == 0` has been excluded.
abbrev pub scale_up_first :
    (ReplicaSet → ℤ → Deployment → M (Bool × ReplicaSet))
    → List ReplicaSet
    → ℤ
    → Deployment
    → M Bool
scale_up_first scale_to [] count deployment = pure false
scale_up_first scale_to (rs ∷ rss) count deployment = do
  (scaled, _) ← scale_to rs (add32 rs.replicas count) deployment
  pure scaled

module _ (w : Env) where
  open w use {vendor, spare_capacity}

  unfoldable pub scale_up_old_replica_sets : List ReplicaSet → ℤ → Deployment → M Bool
  scale_up_old_replica_sets old_rss scaled_up_count deployment =
      if leb_ℤ scaled_up_count (pos 0)
      then pure false
      else scale_up_first (scale_replica_set_and_record_event w) (sort by_size_older old_rss)
          scaled_up_count deployment

  -- The replicas that one round of the cleanup removes.
  unfoldable pub cleanup_count : ℤ → ℤ → ReplicaSet → ℤ
  cleanup_count max_cleanup_count total rs = to_int32 (
      vendor.int_min (sub32 max_cleanup_count total)
        (sub32 rs.replicas rs.status.available_replicas))

  -- The replicas that one round of the scale-down removes.
  unfoldable pub scale_down_count : ℤ → ℤ → ReplicaSet → ℤ
  scale_down_count count total rs = to_int32 (vendor.int_min rs.replicas (sub32 count total))

  -- The loop of cleanupUnhealthyReplicas: the slice as it leaves it, and the count.
  unfoldable pub cleanup_from : Deployment → ℤ → ℤ → List ReplicaSet → M (List ReplicaSet × ℤ)
  cleanup_from deployment max_cleanup_count total [] = pure ([], total)
  cleanup_from deployment max_cleanup_count total (rs ∷ rss) =
      let skip : M (List ReplicaSet × ℤ) =
        cleanup_from deployment max_cleanup_count total rss >>= λ (rest, t). pure (rs ∷ rest, t) in
      let scaled_down_count = cleanup_count max_cleanup_count total rs in
      let new_replicas_count = sub32 rs.replicas scaled_down_count in
      let scale_down : M (List ReplicaSet × ℤ) =
        scale_replica_set_and_record_event w rs new_replicas_count deployment >>= λ (_, updated).
        cleanup_from deployment max_cleanup_count (add32 total scaled_down_count) rss
        >>= λ (rest, t). pure (updated ∷ rest, t) in
      if leb_ℤ max_cleanup_count total
      then pure (rs ∷ rss, total)
      else if eqb_ℤ rs.replicas (pos 0) || eqb_ℤ rs.replicas rs.status.available_replicas
      then skip
      else if ltb_ℤ rs.replicas new_replicas_count
      then throw invalid_scale_down
      else scale_down

  unfoldable pub cleanup_unhealthy_replicas :
      List ReplicaSet → Deployment → ℤ → M (List ReplicaSet × ℤ)
  cleanup_unhealthy_replicas old_rss deployment max_cleanup_count =
      cleanup_from deployment max_cleanup_count (pos 0) (sort by_creation_timestamp old_rss)

  -- The loop of scaleDownOldReplicaSetsForRollingUpdate.
  unfoldable pub scale_down_from : Deployment → ℤ → ℤ → List ReplicaSet → M ℤ
  scale_down_from deployment count total [] = pure total
  scale_down_from deployment count total (rs ∷ rss) =
      let skip : M ℤ = scale_down_from deployment count total rss in
      let removed = scale_down_count count total rs in
      let new_replicas_count = sub32 rs.replicas removed in
      let scale_down : M ℤ =
        scale_replica_set_and_record_event w rs new_replicas_count deployment
        >> scale_down_from deployment count (add32 total removed) rss in
      if leb_ℤ count total
      then pure total
      else if eqb_ℤ rs.replicas (pos 0)
      then skip
      else if ltb_ℤ rs.replicas new_replicas_count
      then throw invalid_scale_down
      else scale_down

  -- `allRSs` is `append(oldRSs, newRS)`. Where that took a spare slot of the array behind `oldRSs`,
  -- the sort in FindNewReplicaSet reorders `oldRSs` too.
  unfoldable pub old_after_find : Bool → List ReplicaSet → ReplicaSet → List ReplicaSet
  old_after_find shared old_rss new_rs =
      if shared
      then take (length old_rss) (sort by_creation_timestamp (old_rss ++ new_rs ∷ []))
      else old_rss

  unfoldable pub scale_down_old_replica_sets_for_rolling_update :
      Bool → List ReplicaSet → ReplicaSet → Deployment → M ℤ
  scale_down_old_replica_sets_for_rolling_update shared old_rss appended deployment = do
    unavailable ← gets (max_unavailable w)
    let min_available = sub32 deployment.replicas unavailable
    let available_pod_count = get_available_replica_count (pointers (old_rss ++ appended ∷ []))
    if leb_ℤ available_pod_count min_available then pure (pos 0) else (do
      let by_revision = sort by_smaller_revision old_rss
      let all_rss = (if shared then by_revision else old_rss) ++ appended ∷ []
      let old_rss' = old_after_find shared by_revision appended
      partition ← current_partition
      new_rs ← deref (find_new_replica_set vendor deployment all_rss)
      let limit = scale_down_limit_for_old vendor old_rss' new_rs deployment partition
      let count = vendor.int32_min (sub32 available_pod_count min_available) limit
      scale_down_from deployment count (pos 0) old_rss')

  unfoldable pub reconcile_old_replica_sets :
      List (Option ReplicaSet) → List ReplicaSet → ReplicaSet → Deployment → M Bool
  reconcile_old_replica_sets all_rss old_rss new_rs deployment =
      if eqb_ℤ (get_replica_count (pointers old_rss)) (pos 0) then pure false else (do
        unavailable ← gets (max_unavailable w)
        partition ← current_partition
        let limit = scale_down_limit_for_old vendor old_rss new_rs deployment partition
        if leb_ℤ limit (pos 0)
            then scale_up_old_replica_sets old_rss (neg32 limit) deployment
            else (do
              let min_available = sub32 deployment.replicas unavailable
              let new_rs_unavailable = sub32 new_rs.replicas new_rs.status.available_replicas
              let headroom =
                  sub32 (sub32 (get_replica_count all_rss) min_available) new_rs_unavailable
              let max_scaled_down = vendor.int32_min headroom limit
              if leb_ℤ max_scaled_down (pos 0)
                  then pure false
                  else catch (cleanup_unhealthy_replicas old_rss deployment max_scaled_down)
                      (pure false)
                      λ (cleaned, cleanup_count).
                        catch
                          (scale_down_old_replica_sets_for_rolling_update
                            (spare_capacity (length cleaned)) cleaned new_rs deployment)
                          (pure false)
                          λ scaled_down_count.
                            pure (ltb_ℤ (pos 0) (add32 cleanup_count scaled_down_count))))

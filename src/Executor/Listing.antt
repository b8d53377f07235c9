-- ===== src/Executor/Listing.antt =====
-- The replica sets of the deployment: getReplicaSetsForDeployment, getAllReplicaSetsAndSyncRevision
-- and isScalingEvent (internal/controller/partition/executor.go).
use batch_release.Base.{Bool, true, false, not, Option, none, some, List, [], ◌∷◌, if◌then◌else◌}
use batch_release.Base.Int.{ℤ, eqb_ℤ}
use batch_release.Objects.{ReplicaSet, Deployment}
use batch_release.Deployment.Annotations.{get_replicas_annotation}
use batch_release.Deployment.Counts.{append_new, filter_active}
use batch_release.Deployment.Find.{find_new_replica_set, find_old_replica_sets}
use batch_release.Executor.Monad.{
  Env, Executor, M, invalid_selector, pure, throw, gets, send, list_replica_sets, ◌>>=◌,
}
use batch_release.Executor.NewReplicaSet.{get_new_replica_set}

module _ (w : Env) where
  open w use {client, vendor}

  -- The new replica set, if there is one, and the old ones.
  unfoldable pub get_all_replica_sets_and_sync_revision :
      List ReplicaSet → Bool → M (Option ReplicaSet × List ReplicaSet)
  get_all_replica_sets_and_sync_revision rs_list create = do
    de ← gets (λ (e : Executor). e.de)
    let old_rss = (find_old_replica_sets vendor de rs_list).1
    new_rs ← get_new_replica_set w (find_new_replica_set vendor de rs_list) old_rss create
    pure (new_rs, old_rss)

  -- The listed sets that are not being deleted and that the deployment controls.
  unfoldable pub owned_by : Deployment → List ReplicaSet → List ReplicaSet
  owned_by d [] = []
  owned_by d (rs ∷ rss) =
      let rest = owned_by d rss in
      elim rs.deletion_timestamp [
        | some deleted ↦ rest
        | none ↦ if vendor.is_controlled_by rs d then rs ∷ rest else rest
      ]

  unfoldable pub get_replica_sets_for_deployment : M (List ReplicaSet)
  get_replica_sets_for_deployment = do
    d ← gets (λ (e : Executor). e.de)
    if not (vendor.is_valid_selector d.selector) then throw invalid_selector else (do
      items ←
          send (λ calls. client.on_list_replica_sets calls d.namespace d.selector)
            (list_replica_sets d.namespace d.selector)
      pure (owned_by d items))

  -- Whether an active set was sized for another number of replicas than `desired`.
  unfoldable pub any_resized : ℤ → List ReplicaSet → Bool
  any_resized replicas [] = false
  any_resized replicas (rs ∷ rss) =
      let rest = any_resized replicas rss in
      elim (get_replicas_annotation rs) [
        | none ↦ rest
        | some desired ↦ if eqb_ℤ desired replicas then rest else true
      ]

  unfoldable pub is_scaling_event : List ReplicaSet → M Bool
  is_scaling_event rs_list = do
    (new_rs, old_rss) ← get_all_replica_sets_and_sync_revision rs_list false
    de ← gets (λ (e : Executor). e.de)
    pure (any_resized de.replicas (filter_active (append_new old_rss new_rs)))

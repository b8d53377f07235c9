-- ===== src/Executor/Safety/OldSets.antt =====
-- Scaling the old replica sets, where the new one has the Deployment's template, and panics.
use batch_release.Base.{◌≡◌, ◌≢◌, refl, Bool, true, Option, none, some, List, [], ◌∷◌, ◌++◌}
use batch_release.Objects.{ReplicaSet, Deployment}
use batch_release.Deployment.Find.{equal_ignore_hash, find_new_replica_set}
use batch_release.Deployment.Order.{by_creation_timestamp}
use batch_release.Executor.Monad.{Env, deref}
use batch_release.Executor.OldSets.{
  scale_down_old_replica_sets_for_rolling_update, reconcile_old_replica_sets,
}
use batch_release.Executor.OldSets.Partition.{first_matching-sort}
use batch_release.Executor.Position.Move.{IsOnStep}
use batch_release.Executor.Safety.{View, Any, Safe, safe_rules, Safe-pure}
use batch_release.Executor.Safety.Scaling.{
  current_partition-Safe, cleanup-Safe, scale_down_from-Safe, scale_up-Safe,
}

module _ (v : View) where
  deref-Safe : (o : Option ReplicaSet) → o ≢ none → Safe v Any (deref o)
  deref-Safe none h = absurd (h refl)
  deref-Safe (some rs) h = Safe-pure v rs

module _ (v : View) (on : IsOnStep v.at) (w : Env) (new_rs : ReplicaSet) (d : Deployment)
    (same : equal_ignore_hash w.vendor new_rs.template d.template ≡ true) where
  found-Safe :
      (rss : List ReplicaSet)
      → Safe v Any (deref (find_new_replica_set w.vendor d (rss ++ new_rs ∷ [])))
  unfolding find_new_replica_set
  found-Safe rss =
      deref-Safe v _ (first_matching-sort w.vendor d.template by_creation_timestamp rss new_rs same)

  scale_down_old-Safe :
      (shared : Bool) (rss : List ReplicaSet)
      → Safe v Any (scale_down_old_replica_sets_for_rolling_update w shared rss new_rs d)
  unfolding scale_down_old_replica_sets_for_rolling_update
  scale_down_old-Safe shared rss =
      search (safe_rules, current_partition-Safe, found-Safe, scale_down_from-Safe) depth 9

  pub reconcile_old_replica_sets-Safe :
      (all_rss : List (Option ReplicaSet)) (rss : List ReplicaSet)
      → Safe v Any (reconcile_old_replica_sets w all_rss rss new_rs d)
  unfolding reconcile_old_replica_sets
  reconcile_old_replica_sets-Safe all_rss rss =
      search (safe_rules, current_partition-Safe, scale_up-Safe, cleanup-Safe, scale_down_old-Safe)
        depth 14

-- ===== src/Executor/Position/Scaling.antt =====
-- Scaling the replica sets leaves the position of the release alone.
use batch_release.Base.{Bool, true, false, Option, List, [], ◌∷◌}
use batch_release.Base.Int.{ℤ, pos, add32}
use batch_release.Objects.{ReplicaSet, Deployment}
use batch_release.Deployment.Find.{find_active_or_latest}
use batch_release.Executor.Monad.{Env, Executor, pure, index}
use batch_release.Executor.NewSet.{scale_to, reconcile_new_replica_set}
use batch_release.Executor.OldSets.{
  current_partition, scale_up_old_replica_sets, scale_up_first, cleanup_count, scale_down_count,
  cleanup_from, cleanup_unhealthy_replicas, scale_down_from,
  scale_down_old_replica_sets_for_rolling_update, reconcile_old_replica_sets,
}
use batch_release.Executor.Proportion.{scale_all, scale_down_to_zero, scale_proportionally, scale}
use batch_release.Executor.Scale.{
  announce, send_resized, scale_replica_set, scale_replica_set_and_record_event,
}
use batch_release.Executor.Position.{
  Stays, stays_rules, Stays-pure, Stays-throw, Stays-gets, Stays-if, Stays-bind, Stays-then,
  Stays-option, Stays-index,
}

announce-Stays : (grows : Bool) (rs : ReplicaSet) → Stays (announce grows rs)
announce-Stays true rs = search stays_rules
announce-Stays false rs = search stays_rules

pub current_partition-Stays : Stays current_partition
unfolding current_partition
current_partition-Stays = record {
  same = λ e.
      (Stays-bind (index e.br.spec.strategy.steps e.br.status.current_step_index)
          (λ step. pure step.replicas)
          (Stays-index e.br.spec.strategy.steps e.br.status.current_step_index)
          (λ step. Stays-pure _)).same
        e;
}

module _ (w : Env) where
  scale_replica_set-Stays :
      (rs : ReplicaSet) (n : ℤ) (d : Deployment) → Stays (scale_replica_set w rs n d)
  unfolding scale_replica_set send_resized
  scale_replica_set-Stays rs n d = search (stays_rules, announce-Stays) depth 9

  event-Stays :
      (rs : ReplicaSet) (n : ℤ) (d : Deployment)
      → Stays (scale_replica_set_and_record_event w rs n d)
  unfolding scale_replica_set_and_record_event
  event-Stays rs n d = search (stays_rules, scale_replica_set-Stays)

  cleanup_from-Stays :
      (d : Deployment) (max c : ℤ) (rss : List ReplicaSet) → Stays (cleanup_from w d max c rss)
  unfolding cleanup_from
  cleanup_from-Stays d max c [] = search stays_rules
  cleanup_from-Stays d max c (rs ∷ rss) = Stays-if _ _ _ (Stays-pure _) (
      Stays-if _ _ _ (Stays-bind _ _ (cleanup_from-Stays d max c rss) (λ r. Stays-pure _)) (
        Stays-if _ _ _ (Stays-throw _) (
          Stays-bind _ _ (event-Stays rs _ d) (λ u.
            Stays-bind _ _ (cleanup_from-Stays d max (add32 c (cleanup_count w max c rs)) rss)
              (λ r. Stays-pure _)))))

  cleanup-Stays :
      (rss : List ReplicaSet) (d : Deployment) (max : ℤ)
      → Stays (cleanup_unhealthy_replicas w rss d max)
  unfolding cleanup_unhealthy_replicas
  cleanup-Stays rss d max = cleanup_from-Stays d max (pos 0) _

  scale_down_from-Stays :
      (d : Deployment) (count c : ℤ) (rss : List ReplicaSet)
      → Stays (scale_down_from w d count c rss)
  unfolding scale_down_from
  scale_down_from-Stays d count c [] = Stays-pure _
  scale_down_from-Stays d count c (rs ∷ rss) = Stays-if _ _ _ (Stays-pure _) (
      Stays-if _ _ _ (scale_down_from-Stays d count c rss) (
        Stays-if _ _ _ (Stays-throw _) (
          Stays-then _ _ (event-Stays rs _ d)
            (scale_down_from-Stays d count (add32 c (scale_down_count w count c rs)) rss))))

  scale_down_old-Stays :
      (shared : Bool) (rss : List ReplicaSet) (appended : ReplicaSet) (d : Deployment)
      → Stays (scale_down_old_replica_sets_for_rolling_update w shared rss appended d)
  unfolding scale_down_old_replica_sets_for_rolling_update
  scale_down_old-Stays shared rss appended d =
      search (stays_rules, current_partition-Stays, scale_down_from-Stays) depth 9

  scale_up_first-Stays :
      (rss : List ReplicaSet) (count : ℤ) (d : Deployment)
      → Stays (scale_up_first (scale_replica_set_and_record_event w) rss count d)
  scale_up_first-Stays [] count d = search stays_rules
  scale_up_first-Stays (rs ∷ rss) count d = search (stays_rules, event-Stays)

  scale_up-Stays :
      (rss : List ReplicaSet) (count : ℤ) (d : Deployment)
      → Stays (scale_up_old_replica_sets w rss count d)
  unfolding scale_up_old_replica_sets
  scale_up-Stays rss count d = search (stays_rules, scale_up_first-Stays)

  pub reconcile_old_replica_sets-Stays :
      (all_rss : List (Option ReplicaSet)) (rss : List ReplicaSet) (new_rs : ReplicaSet)
      (d : Deployment)
      → Stays (reconcile_old_replica_sets w all_rss rss new_rs d)
  unfolding reconcile_old_replica_sets
  reconcile_old_replica_sets-Stays all_rss rss new_rs d =
      search
        (stays_rules, current_partition-Stays, scale_up-Stays, cleanup-Stays, scale_down_old-Stays)
        depth 14

  scale_to-Stays : (rs : ReplicaSet) (n : ℤ) → Stays (scale_to w rs n)
  unfolding scale_to
  scale_to-Stays rs n = search (stays_rules, event-Stays)

  pub reconcile_new_replica_set-Stays :
      (all_rss : List (Option ReplicaSet)) (new_rs : ReplicaSet)
      → Stays (reconcile_new_replica_set w all_rss new_rs)
  unfolding reconcile_new_replica_set
  reconcile_new_replica_set-Stays all_rss new_rs =
      search (stays_rules, current_partition-Stays, scale_to-Stays) depth 9

  scale_all-Stays : (d : Deployment) (sizes : List (ReplicaSet × ℤ)) → Stays (scale_all w d sizes)
  unfolding scale_all
  scale_all-Stays d [] = Stays-pure _
  scale_all-Stays d ((rs, n) ∷ sizes) =
      Stays-then _ _ (scale_replica_set-Stays rs n d) (scale_all-Stays d sizes)

  scale_down_to_zero-Stays :
      (d : Deployment) (rss : List ReplicaSet) → Stays (scale_down_to_zero w d rss)
  unfolding scale_down_to_zero
  scale_down_to_zero-Stays d [] = Stays-pure _
  scale_down_to_zero-Stays d (rs ∷ rss) =
      Stays-then _ _ (event-Stays rs (pos 0) d) (scale_down_to_zero-Stays d rss)

  scale_proportionally-Stays :
      (new_rs : Option ReplicaSet) (rss : List ReplicaSet)
      → Stays (scale_proportionally w new_rs rss)
  unfolding scale_proportionally
  scale_proportionally-Stays new_rs rss =
      search (stays_rules, cleanup-Stays, scale_all-Stays) depth 9

  pub scale-Stays :
      (new_rs : Option ReplicaSet) (rss : List ReplicaSet) → Stays (scale w new_rs rss)
  unfolding scale
  scale-Stays new_rs rss = Stays-bind _ _ (Stays-gets (λ (e : Executor). e.de)) (λ d.
      Stays-option (find_active_or_latest new_rs rss).0 _ _
        (λ found. Stays-bind _ _ (event-Stays found d.replicas d) (λ _. Stays-pure _))
        (search (stays_rules, scale_down_to_zero-Stays, scale_proportionally-Stays)))

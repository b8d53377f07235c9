-- ===== src/Executor/Safety/Scaling.antt =====
-- Scaling the replica sets, and panics: the indices that the loops and DesiredPartition read.
use batch_release.Base.{
  zero, suc, ◌≡◌, sym, subst, arith, length, Bool, true, false, Option, List, [], ◌∷◌,
}
use batch_release.Base.Int.{ℤ, pos, negsuc, ◌≤ℤ◌, ◌<ℤ◌, add32}
use batch_release.Release.{Step}
use batch_release.Objects.{ReplicaSet, Deployment}
use batch_release.Deployment.Find.{find_active_or_latest}
use batch_release.Executor.Monad.{Env, Executor, pure, index, ◌>>=◌}
use batch_release.Executor.NewSet.{scale_to, reconcile_new_replica_set}
use batch_release.Executor.OldSets.{
  current_partition, scale_up_old_replica_sets, scale_up_first, cleanup_count, scale_down_count,
  cleanup_from, cleanup_unhealthy_replicas, scale_down_from,
}
use batch_release.Executor.Proportion.{scale_all, scale_down_to_zero, scale_proportionally, scale}
use batch_release.Executor.Scale.{
  announce, send_resized, scale_replica_set, scale_replica_set_and_record_event,
}
use batch_release.Executor.Position.Move.{IsOnStep}
use batch_release.Executor.Safety.{
  View, view, Good, Any, Safe, safe_rules, Safe-pure, Safe-throw, Safe-gets, Safe-if, Safe-bind,
  Safe-then, Safe-option,
}

index-Good :
    {A B : Type 0} (v : View) (f : A → B) (xs : List A) (i : ℤ) (e : Executor)
    → view e ≡ v
    → pos 0 ≤ℤ i
    → i <ℤ pos (length xs)
    → Good v Any ((index xs i >>= λ a. pure (f a)) e)
index-Good v f [] i e h lo hi = absurd (omega arith)
index-Good v f (x ∷ xs) (pos zero) e h lo hi = (h, tt)
index-Good v f (x ∷ xs) (pos (suc n)) e h lo hi =
    index-Good v f xs (pos n) e h (omega arith) (omega arith)
index-Good v f (x ∷ xs) (negsuc n) e h lo hi = absurd (omega arith)

module _ (v : View) where
  announce-Safe : (grows : Bool) (rs : ReplicaSet) → Safe v Any (announce grows rs)
  announce-Safe true rs = search safe_rules
  announce-Safe false rs = search safe_rules

  pub current_partition-Safe : IsOnStep v.at → Safe v Any current_partition
  unfolding current_partition
  current_partition-Safe on = record {
    run = λ e h.
        let on' = subst (λ (u : View). IsOnStep u.at) (sym h) on in
        index-Good v (λ (step : Step). step.replicas) e.br.spec.strategy.steps
          e.br.status.current_step_index e h on'.from_start on'.before_end;
  }

module _ (v : View) (w : Env) where
  scale_replica_set-Safe :
      (rs : ReplicaSet) (n : ℤ) (d : Deployment) → Safe v Any (scale_replica_set w rs n d)
  unfolding scale_replica_set send_resized
  scale_replica_set-Safe rs n d = search (safe_rules, announce-Safe) depth 9

  event-Safe :
      (rs : ReplicaSet) (n : ℤ) (d : Deployment)
      → Safe v Any (scale_replica_set_and_record_event w rs n d)
  unfolding scale_replica_set_and_record_event
  event-Safe rs n d = search (safe_rules, scale_replica_set-Safe)

  cleanup_from-Safe :
      (d : Deployment) (max c : ℤ) (rss : List ReplicaSet) → Safe v Any (cleanup_from w d max c rss)
  unfolding cleanup_from
  cleanup_from-Safe d max c [] = search safe_rules
  cleanup_from-Safe d max c (rs ∷ rss) = Safe-if v Any _ _ _ (Safe-pure v _) (
      Safe-if v Any _ _ _ (Safe-bind v Any _ _ (cleanup_from-Safe d max c rss) (λ r. Safe-pure v _))
        (Safe-if v Any _ _ _ (Safe-throw v Any _) (
          Safe-bind v Any _ _ (event-Safe rs _ d) (λ u.
            Safe-bind v Any _ _ (cleanup_from-Safe d max (add32 c (cleanup_count w max c rs)) rss)
              (λ r. Safe-pure v _)))))

  pub cleanup-Safe :
      (rss : List ReplicaSet) (d : Deployment) (max : ℤ)
      → Safe v Any (cleanup_unhealthy_replicas w rss d max)
  unfolding cleanup_unhealthy_replicas
  cleanup-Safe rss d max = cleanup_from-Safe d max (pos 0) _

  pub scale_down_from-Safe :
      (d : Deployment) (count c : ℤ) (rss : List ReplicaSet)
      → Safe v Any (scale_down_from w d count c rss)
  unfolding scale_down_from
  scale_down_from-Safe d count c [] = Safe-pure v _
  scale_down_from-Safe d count c (rs ∷ rss) = Safe-if v Any _ _ _ (Safe-pure v _) (
      Safe-if v Any _ _ _ (scale_down_from-Safe d count c rss) (
        Safe-if v Any _ _ _ (Safe-throw v Any _) (
          Safe-then v Any _ _ (event-Safe rs _ d)
            (scale_down_from-Safe d count (add32 c (scale_down_count w count c rs)) rss))))

  scale_up_first-Safe :
      (rss : List ReplicaSet) (count : ℤ) (d : Deployment)
      → Safe v Any (scale_up_first (scale_replica_set_and_record_event w) rss count d)
  scale_up_first-Safe [] count d = search safe_rules
  scale_up_first-Safe (rs ∷ rss) count d = search (safe_rules, event-Safe)

  pub scale_up-Safe :
      (rss : List ReplicaSet) (count : ℤ) (d : Deployment)
      → Safe v Any (scale_up_old_replica_sets w rss count d)
  unfolding scale_up_old_replica_sets
  scale_up-Safe rss count d = search (safe_rules, scale_up_first-Safe)

  scale_to-Safe : (rs : ReplicaSet) (n : ℤ) → Safe v Any (scale_to w rs n)
  unfolding scale_to
  scale_to-Safe rs n = search (safe_rules, event-Safe)

  pub reconcile_new_replica_set-Safe :
      IsOnStep v.at
      → (all_rss : List (Option ReplicaSet)) (new_rs : ReplicaSet)
      → Safe v Any (reconcile_new_replica_set w all_rss new_rs)
  unfolding reconcile_new_replica_set
  reconcile_new_replica_set-Safe on all_rss new_rs =
      search (safe_rules, current_partition-Safe, scale_to-Safe) depth 9

  scale_all-Safe :
      (d : Deployment) (sizes : List (ReplicaSet × ℤ)) → Safe v Any (scale_all w d sizes)
  unfolding scale_all
  scale_all-Safe d [] = Safe-pure v _
  scale_all-Safe d ((rs, n) ∷ sizes) =
      Safe-then v Any _ _ (scale_replica_set-Safe rs n d) (scale_all-Safe d sizes)

  scale_down_to_zero-Safe :
      (d : Deployment) (rss : List ReplicaSet) → Safe v Any (scale_down_to_zero w d rss)
  unfolding scale_down_to_zero
  scale_down_to_zero-Safe d [] = Safe-pure v _
  scale_down_to_zero-Safe d (rs ∷ rss) =
      Safe-then v Any _ _ (event-Safe rs (pos 0) d) (scale_down_to_zero-Safe d rss)

  scale_proportionally-Safe :
      (new_rs : Option ReplicaSet) (rss : List ReplicaSet)
      → Safe v Any (scale_proportionally w new_rs rss)
  unfolding scale_proportionally
  scale_proportionally-Safe new_rs rss = search (safe_rules, cleanup-Safe, scale_all-Safe) depth 9

  pub scale-Safe :
      (new_rs : Option ReplicaSet) (rss : List ReplicaSet) → Safe v Any (scale w new_rs rss)
  unfolding scale
  scale-Safe new_rs rss = Safe-bind v Any _ _ (Safe-gets v (λ (e : Executor). e.de)) (λ d.
      Safe-option v Any (find_active_or_latest new_rs rss).0 _ _
        (λ found. Safe-bind v Any _ _ (event-Safe found d.replicas d) (λ _. Safe-pure v _))
        (search (safe_rules, scale_down_to_zero-Safe, scale_proportionally-Safe)))

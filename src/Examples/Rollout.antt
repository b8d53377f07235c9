-- ===== src/Examples/Rollout.antt =====
-- The first step of a release of ten replicas: the new replica set grows, the old one shrinks.
use batch_release.Base.{◌≡◌, ◌⊎◌, refl, inr, Option, some, List, [], ◌∷◌, true, false, arith}
use batch_release.Base.GoMap.{delete}
use batch_release.Base.Int.{ℤ, pos, ◌+ℤ◌, ◌-ℤ◌, ◌≤ℤ◌, ◌<ℤ◌, add32, to_int32}
use batch_release.Base.Sum.{total}
use batch_release.Base.Text.{codes, text_eq}
use batch_release.Deployment.Counts.{count_from, get_replica_count}
use batch_release.Deployment.Find.{equal_ignore_hash, without_hash}
use batch_release.Deployment.Limits.{new_rs_replicas_limit, resolve_fenceposts}
use batch_release.Executor.Monad.{Executor, Ends, IsServer}
use batch_release.Executor.NewSet.{reconcile_new_replica_set, new_rs_new_replicas}
use batch_release.Executor.NewSet.Growing.{IsReconcilable, reconcile_new_replica_set_safe}
use batch_release.Executor.OldSets.{scale_down_old_replica_sets_for_rolling_update}
use batch_release.Executor.OldSets.Availability.{
  available, scale_down_old_replica_sets_for_rolling_update_safe,
}
use batch_release.Executor.OldSets.Partition.{IsAtStep}
use batch_release.Executor.OldSets.Progress.{IsMoving, upgrade_progress}
use batch_release.Executor.Scale.{max_surge, max_unavailable}
use batch_release.Executor.Scale.Effects.{Asks}
use batch_release.Objects.{ReplicaSet, int_value}
use batch_release.Release.{Phase, StepState}
use batch_release.Examples.Sample.{
  vendor, vendor-IsVendor, deployment, env, replica_set, template, old_template, executor_at,
}

abbrev executor : Executor
executor = executor_at Phase.rolling_update StepState.upgrade (pos 0)

abbrev executor-IsAtStep : IsAtStep executor
executor-IsAtStep = record {
  step = record { replicas = int_value (pos 2) };
  position = 0;
  at_position = refl;
  held = refl;
}

abbrev old_set : ReplicaSet
old_set = replica_set (codes "web-1") old_template 1 10 10

abbrev new_set : ReplicaSet
new_set = replica_set (codes "web-2") template 2 2 2

same_template : equal_ignore_hash vendor new_set.template deployment.template ≡ true
unfolding equal_ignore_hash without_hash delete text_eq
same_template = refl

surge_of_three : max_surge env executor ≡ pos 3
unfolding max_surge resolve_fenceposts to_int32
surge_of_three = refl

two_unavailable : max_unavailable env executor ≡ pos 2
unfolding max_unavailable resolve_fenceposts to_int32 ◌+ℤ◌
two_unavailable = refl

scale_down_old_replica_sets_for_rolling_update_safe_example :
    Ends
      (λ t e'.
        Asks (pos 0 -ℤ t) executor e'
        × (pos 0 ≤ℤ t)
        × ((pos 10 -ℤ max_unavailable env executor ≤ℤ total available (old_set ∷ new_set ∷ []) -ℤ t)
            ⊎ (t ≤ℤ pos 0)))
      IsServer
      (scale_down_old_replica_sets_for_rolling_update env false
        (old_set ∷ [])
        new_set
        deployment
        executor)
unfolding max_unavailable resolve_fenceposts to_int32 ◌+ℤ◌
scale_down_old_replica_sets_for_rolling_update_safe_example =
    scale_down_old_replica_sets_for_rolling_update_safe env false (old_set ∷ []) new_set deployment
      executor vendor-IsVendor (omega arith) (omega arith) (omega arith) (omega arith) (omega arith)
      (omega arith) (omega arith) (omega arith) executor-IsAtStep same_template

abbrev both : List (Option ReplicaSet)
both = some old_set ∷ some (replica_set (codes "web-2") template 2 1 1) ∷ []

both-IsReconcilable :
    IsReconcilable env executor
      (get_replica_count both)
      (replica_set (codes "web-2") template 2 1 1)
unfolding get_replica_count count_from add32 to_int32 ◌+ℤ◌ max_surge resolve_fenceposts
both-IsReconcilable = omega arith

reconcile_new_replica_set_safe_example :
    let new_rs = replica_set (codes "web-2") template 2 1 1 in
    Ends
      (λ r e'.
        (n : ℤ) × Asks (n -ℤ pos 1) executor e'
        × (pos 0 ≤ℤ n)
        × (n ≤ℤ pos 10)
        × ((n ≤ℤ new_rs_replicas_limit vendor (int_value (pos 2)) deployment) ⊎ (n ≤ℤ pos 1))
        × ((get_replica_count both -ℤ pos 1 +ℤ n ≤ℤ pos 10 +ℤ max_surge env executor)
            ⊎ (n ≤ℤ pos 1)))
      IsServer
      (reconcile_new_replica_set env both new_rs executor)
unfolding get_replica_count count_from add32 to_int32 ◌+ℤ◌
reconcile_new_replica_set_safe_example =
    reconcile_new_replica_set_safe env vendor-IsVendor both
      (replica_set (codes "web-2") template 2 1 1) executor executor-IsAtStep both-IsReconcilable
      (omega arith)

twelve_pods : get_replica_count (some old_set ∷ some new_set ∷ []) ≡ pos 10 +ℤ pos 0 +ℤ pos 2
unfolding get_replica_count count_from add32 to_int32 ◌+ℤ◌
twelve_pods = refl

other_template : equal_ignore_hash vendor old_set.template deployment.template ≡ false
unfolding equal_ignore_hash without_hash delete text_eq
other_template = refl

two_sets-IsMoving : IsMoving env executor deployment (old_set ∷ []) new_set
unfolding ◌+ℤ◌ max_surge max_unavailable resolve_fenceposts to_int32
two_sets-IsMoving = record {
  counts = (record { nonneg = omega arith; sized = omega arith }, tt);
  new_count = record { nonneg = omega arith; sized = omega arith };
  total_sized = omega arith;
  all_available = (refl, (refl, tt));
  new_below = omega arith;
  surge_nonneg = omega arith;
  room = omega arith;
  unavailable_nonneg = omega arith;
  unavailable_below = omega arith;
  some_slack = omega arith;
  others = (other_template, tt);
  same = same_template;
}

upgrade_progress_example :
    (pos 2
      <ℤ new_rs_new_replicas env
          (max_surge env executor)
          deployment
          (some old_set ∷ some new_set ∷ [])
          new_set
          (int_value (pos 2)))
    ⊎ Ends
        (λ t e'. (pos 1 ≤ℤ t) × Asks (pos 0 -ℤ t) executor e')
        IsServer
        (scale_down_old_replica_sets_for_rolling_update env false
          (old_set ∷ [])
          new_set
          deployment
          executor)
upgrade_progress_example =
    upgrade_progress env vendor-IsVendor executor deployment (old_set ∷ []) new_set
      two_sets-IsMoving executor-IsAtStep (some old_set ∷ some new_set ∷ []) twelve_pods
      (inr (unfold ◌+ℤ◌ in omega arith))

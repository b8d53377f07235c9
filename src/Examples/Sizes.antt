-- ===== src/Examples/Sizes.antt =====
-- How large the replica sets get at the deployment of ten.
use batch_release.Base.{◌≡◌, ◌⊎◌, some, List, [], ◌∷◌, Option, arith}
use batch_release.Base.Int.{negsuc, pos, ◌≤ℤ◌, ◌+ℤ◌, ◌-ℤ◌, ◌*ℤ◌, add32, sub32, mul32, to_int32}
use batch_release.Base.GoMap.{get, lookup}
use batch_release.Base.Sum.{total}
use batch_release.Base.Text.{codes}
use batch_release.Deployment.Annotations.{get_max_replicas_annotation, get_int_from_annotation}
use batch_release.Deployment.Counts.{count_from, get_replica_count}
use batch_release.Deployment.Limits.{new_rs_replicas_limit, resolve_fenceposts}
use batch_release.Executor.Monad.{Executor}
use batch_release.Executor.NewSet.{new_rs_new_replicas}
use batch_release.Executor.NewSet.Bounds.{IsScalable, new_rs_new_replicas_safe}
use batch_release.Executor.OldSets.ScaleDown.{size}
use batch_release.Executor.Proportion.{get_replica_set_fraction, proportional_sizes}
use batch_release.Executor.Proportion.Growth.{given, proportional_sizes_grow}
use batch_release.Executor.Proportion.Shrinking.{proportional_sizes_shrink}
use batch_release.Executor.Scale.{max_surge}
use batch_release.Objects.{ReplicaSet, str_value}
use batch_release.Release.{Phase, StepState}
use batch_release.Examples.Sample.{
  vendor, vendor-IsVendor, deployment, env, replica_set, template, old_template, executor_at,
}

abbrev old_set : ReplicaSet
old_set = replica_set (codes "web-1") old_template 1 10 10

abbrev new_set : ReplicaSet
new_set = replica_set (codes "web-2") template 2 1 1

abbrev both : List (Option ReplicaSet)
both = some old_set ∷ some new_set ∷ []

both-IsScalable : IsScalable (pos 3) deployment (get_replica_count both) new_set
unfolding get_replica_count count_from add32 to_int32 ◌+ℤ◌
both-IsScalable = omega arith

new_rs_new_replicas_safe_example :
    let n = new_rs_new_replicas env (pos 3) deployment both new_set (str_value (codes "50%")) in
    ((n ≤ℤ new_rs_replicas_limit vendor (str_value (codes "50%")) deployment) ⊎ (n ≤ℤ pos 1))
    × ((get_replica_count both -ℤ pos 1 +ℤ n ≤ℤ pos 10 +ℤ pos 3) ⊎ (n ≤ℤ pos 1))
unfolding get_replica_count count_from add32 to_int32 ◌+ℤ◌
new_rs_new_replicas_safe_example =
    new_rs_new_replicas_safe env vendor-IsVendor (pos 3) deployment both new_set
      (str_value (codes "50%")) both-IsScalable (omega arith)

abbrev executor : Executor
executor = executor_at Phase.rolling_update StepState.upgrade (pos 0)

abbrev small_sets : List ReplicaSet
small_sets =
    replica_set (codes "web-1") old_template 1 4 4 ∷ replica_set (codes "web-2") template 2 2 2 ∷ []

proportional_sizes_grow_example :
    total given (proportional_sizes env executor (pos 4) small_sets)
    ≡ total size small_sets +ℤ pos 4
unfolding get_replica_set_fraction get_max_replicas_annotation get_int_from_annotation get lookup
    max_surge resolve_fenceposts add32 sub32 mul32 to_int32 ◌+ℤ◌ ◌-ℤ◌ ◌*ℤ◌
proportional_sizes_grow_example =
    proportional_sizes_grow env executor (pos 4) small_sets vendor-IsVendor (omega arith)
      (omega arith) (omega arith) (omega arith) (omega arith)

-- The deployment of ten replicas is to have three.
abbrev smaller : Executor
smaller = record executor { de = record deployment { replicas = pos 3 } }

proportional_sizes_shrink_example :
    (total size small_sets -ℤ pos 3
      ≤ℤ total given (proportional_sizes env smaller (negsuc 2) small_sets))
    × (total given (proportional_sizes env smaller (negsuc 2) small_sets) ≤ℤ total size small_sets)
unfolding get_replica_set_fraction get_max_replicas_annotation get_int_from_annotation get lookup
    max_surge resolve_fenceposts add32 sub32 mul32 to_int32 ◌+ℤ◌ ◌-ℤ◌ ◌*ℤ◌
proportional_sizes_shrink_example =
    proportional_sizes_shrink env smaller (negsuc 2) small_sets vendor-IsVendor (omega arith)
      (omega arith) (omega arith) (omega arith)

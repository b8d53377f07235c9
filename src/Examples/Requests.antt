-- ===== src/Examples/Requests.antt =====
-- What a run asks of the server.
use batch_release.Base.{List, [], ◌∷◌, arith}
use batch_release.Base.Int.{pos, ◌+ℤ◌, ◌-ℤ◌}
use batch_release.Base.Sum.{total}
use batch_release.Base.Text.{codes}
use batch_release.Executor.Monad.{Executor, Ends, IsServer}
use batch_release.Executor.OldSets.{cleanup_unhealthy_replicas, scale_down_from}
use batch_release.Executor.OldSets.Cleanup.{unhealthy, cleanup_unhealthy_replicas_exact}
use batch_release.Executor.OldSets.ScaleDown.{size, scale_down_from_exact}
use batch_release.Executor.Scale.Effects.{Asks}
use batch_release.Objects.{ReplicaSet}
use batch_release.Release.{Phase, StepState}
use batch_release.Vendor.Laws.{IsMin}
use batch_release.Examples.Sample.{
  vendor-IsVendor, deployment, env, replica_set, old_template, executor_at,
}

abbrev executor : Executor
executor = executor_at Phase.rolling_update StepState.upgrade (pos 0)

abbrev old_sets : List ReplicaSet
old_sets =
    replica_set (codes "web-1") old_template 2 4 1
    ∷ replica_set (codes "web-2") old_template 1 3 3
    ∷ []

cleanup_unhealthy_replicas_exact_example :
    Ends
      (λ r e'. Asks (pos 0 -ℤ r.1) executor e' × IsMin (pos 2) (total unhealthy old_sets) r.1)
      IsServer
      (cleanup_unhealthy_replicas env old_sets deployment (pos 2) executor)
cleanup_unhealthy_replicas_exact_example =
    cleanup_unhealthy_replicas_exact env old_sets deployment (pos 2) executor vendor-IsVendor
      (omega arith) (omega arith) (omega arith)

scale_down_from_exact_example :
    Ends
      (λ t e'. Asks (pos 0 -ℤ t) executor e' × IsMin (pos 5) (pos 0 +ℤ total size old_sets) t)
      IsServer
      (scale_down_from env deployment (pos 5) (pos 0) old_sets executor)
scale_down_from_exact_example =
    scale_down_from_exact env vendor-IsVendor deployment (pos 5) (omega arith) (pos 0) old_sets
      executor (omega arith) (omega arith) (omega arith)

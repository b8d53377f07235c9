-- ===== src/Executor/Ready.antt =====
-- IsBatchReady, allowedUnavailable and DesiredPartition
-- (internal/controller/partition/executor.go).
use batch_release.Base.{true, ◌&&◌, Option, none, some, if◌then◌else◌}
use batch_release.Base.Int.{ℤ, pos, ltb_ℤ, eqb_ℤ, add32, to_int32}
use batch_release.Objects.{IntOrString}
use batch_release.Deployment.Limits.{new_rs_replicas_limit}
use batch_release.Executor.Monad.{
  Env, Executor, M, pure, throw, gets, updated_replicas_not_satisfied, ready_replicas_not_satisfied,
  no_ready_replicas, ◌>>=◌,
}
use batch_release.Executor.OldSets.{current_partition}

module _ (w : Env) where
  open w use {vendor}

  -- The error of the conversion is dropped.
  unfoldable pub allowed_unavailable : Option IntOrString → ℤ → ℤ
  allowed_unavailable none replicas = pos 0
  allowed_unavailable (some threshold) replicas =
      to_int32 (vendor.get_scaled_value threshold replicas true).0

  unfoldable pub is_batch_ready : M (Unit {0})
  is_batch_ready = do
    desired_partition ← current_partition
    e ← gets (λ (e : Executor). e)
    let desired = new_rs_replicas_limit vendor desired_partition e.de
    let toleration = allowed_unavailable e.br.status.max_unavailable e.de.status.updated_replicas
    if ltb_ℤ e.de.status.updated_replicas desired
        then throw updated_replicas_not_satisfied
        else if ltb_ℤ (add32 toleration e.br.status.updated_ready_replicas) desired
        then throw ready_replicas_not_satisfied
        else if ltb_ℤ (pos 0) desired && eqb_ℤ e.br.status.updated_ready_replicas (pos 0)
        then throw no_ready_replicas
        else pure tt

  -- DesiredPartition, as the reconciler calls it after the executor's run.
  unfoldable pub desired_partition : M IntOrString
  desired_partition = current_partition

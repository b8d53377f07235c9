-- ===== src/Executor/NewSet/Bounds.antt =====
-- How far newRSNewReplicas lets the new replica set grow.
use batch_release.Base.{◌⊎◌, Option, List, arith}
use batch_release.Base.Int.{
  ℤ, pos, ◌+ℤ◌, ◌-ℤ◌, ◌≤ℤ◌, ◌<ℤ◌, max_int32, add32, sub32, to_int32, int_laws,
}
use batch_release.Objects.{IntOrString, ReplicaSet, Deployment}
use batch_release.Vendor.{IsVendor}
use batch_release.Vendor.Laws.{int_min-IsMin, int32_min-IsMin}
use batch_release.Deployment.Counts.{get_replica_count}
use batch_release.Deployment.Limits.{new_rs_replicas_limit}
use batch_release.Deployment.Limits.Bounds.{new_rs_replicas_limit_bounds}
use batch_release.Executor.Monad.{Env}
use batch_release.Executor.NewSet.{new_rs_new_replicas}

-- The numbers that newRSNewReplicas reads: no count is negative, the pods are an int32, and so is
-- the deployment's size with its surge.
pub record IsScalable (surge : ℤ) (d : Deployment) (count : ℤ) (new_rs : ReplicaSet) : Type 0 where
  pub surge_nonneg : pos 0 ≤ℤ surge
  pub room : d.replicas +ℤ surge ≤ℤ max_int32
  pub count_nonneg : pos 0 ≤ℤ count
  pub count_sized : count ≤ℤ max_int32
  pub new_nonneg : pos 0 ≤ℤ new_rs.replicas
  pub new_below : new_rs.replicas ≤ℤ d.replicas

module _ (w : Env) (laws : IsVendor w.vendor) (surge : ℤ) (d : Deployment)
    (all_rss : List (Option ReplicaSet)) (new_rs : ReplicaSet) (step : IntOrString)
    (h : IsScalable surge d (get_replica_count all_rss) new_rs) where
  -- The premises of both theorems, in one place for the tactics.
  limit_range :
      (pos 0 ≤ℤ new_rs_replicas_limit w.vendor step d)
      × (new_rs_replicas_limit w.vendor step d ≤ℤ d.replicas)
  limit_range =
      new_rs_replicas_limit_bounds w.vendor laws step d (omega (arith, h.new_nonneg, h.new_below))
        (omega (int_laws, h.room, h.surge_nonneg))

  -- Given packages that behave as documented, where no number is negative, the pods and the
  -- deployment's size with its surge are int32s, and the new replica set is no larger than the
  -- deployment: newRSNewReplicas neither shrinks it nor lets it outgrow the deployment.
  pub new_rs_new_replicas_range :
      (new_rs.replicas ≤ℤ new_rs_new_replicas w surge d all_rss new_rs step)
      × (new_rs_new_replicas w surge d all_rss new_rs step ≤ℤ d.replicas)
  unfolding new_rs_new_replicas
  new_rs_new_replicas_range =
      let count = get_replica_count all_rss in
      let limit = new_rs_replicas_limit w.vendor step d in
      let room = sub32 (add32 d.replicas surge) count in
      let gap = sub32 d.replicas new_rs.replicas in
      let up = to_int32 (w.vendor.int_min room gap) in
      let m1 = int_min-IsMin w.vendor laws room gap in
      let m2 = int32_min-IsMin w.vendor laws (add32 new_rs.replicas up) limit in
      grind (
        int_laws, m1, m2, limit_range, h.new_below, h.room, h.new_nonneg, h.surge_nonneg,
        h.count_nonneg, h.count_sized,
      )

  -- Given packages that behave as documented, where no number is negative, the pods and the
  -- deployment's size with its surge are int32s, and the new replica set is no larger than the
  -- deployment: while other replica sets have pods, a new replica set that grows gets no larger than
  -- the limit of the step, and all pods together no more than the deployment's size with its surge.
  pub new_rs_new_replicas_safe :
      new_rs.replicas <ℤ get_replica_count all_rss
      → let n = new_rs_new_replicas w surge d all_rss new_rs step in
        ((n ≤ℤ new_rs_replicas_limit w.vendor step d) ⊎ (n ≤ℤ new_rs.replicas))
        × ((get_replica_count all_rss -ℤ new_rs.replicas +ℤ n ≤ℤ d.replicas +ℤ surge)
            ⊎ (n ≤ℤ new_rs.replicas))
  unfolding new_rs_new_replicas
  new_rs_new_replicas_safe others =
      let count = get_replica_count all_rss in
      let limit = new_rs_replicas_limit w.vendor step d in
      let room = sub32 (add32 d.replicas surge) count in
      let gap = sub32 d.replicas new_rs.replicas in
      let up = to_int32 (w.vendor.int_min room gap) in
      let m1 = int_min-IsMin w.vendor laws room gap in
      let m2 = int32_min-IsMin w.vendor laws (add32 new_rs.replicas up) limit in
      grind (
        int_laws, m1, m2, limit_range, h.new_below, h.room, h.new_nonneg, h.surge_nonneg,
        h.count_nonneg, h.count_sized,
      )

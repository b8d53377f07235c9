-- ===== src/Executor/NewSet/Room.antt =====
-- When newRSNewReplicas lets the new replica set grow.
use batch_release.Base.{◌⊎◌, inl, inr, Option, List, arith, Bool-cases}
use batch_release.Base.Int.{ℤ, ◌+ℤ◌, ◌≤ℤ◌, ◌<ℤ◌, leb_ℤ, add32, sub32, to_int32, int_laws}
use batch_release.Objects.{IntOrString, ReplicaSet, Deployment}
use batch_release.Vendor.{IsVendor}
use batch_release.Vendor.Laws.{int_min-IsMin, int32_min-IsMin}
use batch_release.Deployment.Counts.{get_replica_count}
use batch_release.Deployment.Limits.{new_rs_replicas_limit}
use batch_release.Deployment.Limits.Bounds.{new_rs_replicas_limit_bounds}
use batch_release.Executor.Monad.{Env}
use batch_release.Executor.NewSet.{new_rs_new_replicas}
use batch_release.Executor.NewSet.Bounds.{IsScalable}

module _ (w : Env) (laws : IsVendor w.vendor) (surge : ℤ) (d : Deployment)
    (all_rss : List (Option ReplicaSet)) (new_rs : ReplicaSet) (step : IntOrString)
    (h : IsScalable surge d (get_replica_count all_rss) new_rs) where
  -- Where there is room, for the step and for the surge, the new replica set grows.
  growth :
      new_rs.replicas <ℤ new_rs_replicas_limit w.vendor step d
      → get_replica_count all_rss <ℤ d.replicas +ℤ surge
      → new_rs.replicas <ℤ new_rs_new_replicas w surge d all_rss new_rs step
  unfolding new_rs_new_replicas
  growth below free =
      let count = get_replica_count all_rss in
      let limit = new_rs_replicas_limit w.vendor step d in
      let range =
        new_rs_replicas_limit_bounds w.vendor laws step d (omega (arith, h.new_nonneg, h.new_below))
          (omega (int_laws, h.room, h.surge_nonneg)) in
      let room = sub32 (add32 d.replicas surge) count in
      let gap = sub32 d.replicas new_rs.replicas in
      let up = to_int32 (w.vendor.int_min room gap) in
      let m1 = int_min-IsMin w.vendor laws room gap in
      let m2 = int32_min-IsMin w.vendor laws (add32 new_rs.replicas up) limit in
      grind (
        int_laws, m1, m2, range, below, free, h.new_below, h.room, h.new_nonneg, h.surge_nonneg,
        h.count_nonneg, h.count_sized,
      )

  -- Where it does not grow, it has reached the limit of the step, or the pods are as many as the
  -- surge allows.
  pub no_growth :
      new_rs_new_replicas w surge d all_rss new_rs step ≤ℤ new_rs.replicas
      → (new_rs_replicas_limit w.vendor step d ≤ℤ new_rs.replicas)
        ⊎ (d.replicas +ℤ surge ≤ℤ get_replica_count all_rss)
  no_growth same =
      let limit = new_rs_replicas_limit w.vendor step d in
      elim (Bool-cases (leb_ℤ limit new_rs.replicas)) [
        | inl reached ↦ inl (ground (arith, reached))
        | inr below ↦ elim (Bool-cases (leb_ℤ (d.replicas +ℤ surge) (get_replica_count all_rss))) [
          | inl full ↦ inr (ground (arith, full))
          | inr free ↦
              let below' : new_rs.replicas <ℤ limit = ground (arith, below) in
              let free' : get_replica_count all_rss <ℤ d.replicas +ℤ surge = ground (arith, free) in
              let more = growth below' free' in absurd (omega (arith, more, same))
        ]
      ]

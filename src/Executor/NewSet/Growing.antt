-- ===== src/Executor/NewSet/Growing.antt =====
-- What reconcileNewReplicaSet asks of the server.
use batch_release.Base.{◌⊎◌, inl, inr, Option, List, arith, Bool-cases}
use batch_release.Base.Int.{ℤ, pos, ◌+ℤ◌, ◌-ℤ◌, ◌≤ℤ◌, ◌<ℤ◌, ltb_ℤ, eqb_ℤ, max_int32}
use batch_release.Objects.{ReplicaSet}
use batch_release.Vendor.{IsVendor}
use batch_release.Deployment.Counts.{get_replica_count}
use batch_release.Deployment.Limits.{new_rs_replicas_limit}
use batch_release.Executor.Monad.{
  Env, Executor, pure, Ends, Ends-bind, Ends-ok, Ends-mono, IsServer, ◌>>=◌, gets,
}
use batch_release.Executor.NewSet.{new_rs_new_replicas, scale_to, reconcile_new_replica_set}
use batch_release.Executor.NewSet.Bounds.{
  IsScalable, new_rs_new_replicas_range, new_rs_new_replicas_safe,
}
use batch_release.Executor.OldSets.{current_partition}
use batch_release.Executor.OldSets.Partition.{IsAtStep, current_partition-IsAtStep}
use batch_release.Executor.Scale.{max_surge, scale_replica_set_and_record_event}
use batch_release.Executor.Scale.Effects.{Asks, Asks-none, scale_replica_set_and_record_event-Asks}

scale_to-Asks :
    (w : Env) (rs : ReplicaSet) (n : ℤ) (e : Executor)
    → Ends (λ r e'. Asks (n -ℤ rs.replicas) e e') IsServer (scale_to w rs n e)
unfolding scale_to
scale_to-Asks w rs n e =
    Ends-bind (λ r e'. Asks (n -ℤ rs.replicas) e e') IsServer (λ r e'. Asks (n -ℤ rs.replicas) e e')
      (scale_replica_set_and_record_event w rs n e.de) (λ r. pure r.0) e
      (scale_replica_set_and_record_event-Asks w rs n e.de e) (λ r e' q. q)

-- The numbers that reconcileNewReplicaSet reads: none is negative, and the pods and the deployment's
-- size with its surge are int32s.
pub record IsReconcilable (w : Env) (e : Executor) (count : ℤ) (new_rs : ReplicaSet) : Type 0 where
  pub surge_nonneg : pos 0 ≤ℤ max_surge w e
  pub room : e.de.replicas +ℤ max_surge w e ≤ℤ max_int32
  pub count_nonneg : pos 0 ≤ℤ count
  pub count_sized : count ≤ℤ max_int32
  pub new_nonneg : pos 0 ≤ℤ new_rs.replicas
  pub desired_nonneg : pos 0 ≤ℤ e.de.replicas

module _ (w : Env) (laws : IsVendor w.vendor) (all_rss : List (Option ReplicaSet))
    (new_rs : ReplicaSet) (e : Executor) (at_step : IsAtStep e)
    (h : IsReconcilable w e (get_replica_count all_rss) new_rs)
    (others : new_rs.replicas <ℤ get_replica_count all_rss) where
  -- The new replica set goes to the size `n`, which the step and the surge allow unless it shrinks.
  abbrev Reconciled : Executor → Type 0
  Reconciled e' =
      (n : ℤ) × Asks (n -ℤ new_rs.replicas) e e'
      × (pos 0 ≤ℤ n)
      × (n ≤ℤ e.de.replicas)
      × ((n ≤ℤ new_rs_replicas_limit w.vendor at_step.step.replicas e.de) ⊎ (n ≤ℤ new_rs.replicas))
      × ((get_replica_count all_rss -ℤ new_rs.replicas +ℤ n ≤ℤ e.de.replicas +ℤ max_surge w e)
          ⊎ (n ≤ℤ new_rs.replicas))

  grown :
      new_rs.replicas ≤ℤ e.de.replicas
      → let n = new_rs_new_replicas w (max_surge w e) e.de all_rss new_rs at_step.step.replicas in
        Ends (λ r e'. Reconciled e') IsServer (scale_to w new_rs n e)
  grown below =
      let n = new_rs_new_replicas w (max_surge w e) e.de all_rss new_rs at_step.step.replicas in
      let scalable : IsScalable (max_surge w e) e.de (get_replica_count all_rss) new_rs = record {
        surge_nonneg = h.surge_nonneg;
        room = h.room;
        count_nonneg = h.count_nonneg;
        count_sized = h.count_sized;
        new_nonneg = h.new_nonneg;
        new_below = below;
      } in
      let range =
        new_rs_new_replicas_range w laws (max_surge w e) e.de all_rss new_rs at_step.step.replicas
          scalable in
      let safe =
        new_rs_new_replicas_safe w laws (max_surge w e) e.de all_rss new_rs at_step.step.replicas
          scalable others in
      Ends-mono (λ r e'. Asks (n -ℤ new_rs.replicas) e e') (λ r e'. Reconciled e') IsServer
        (scale_to w new_rs n e) (scale_to-Asks w new_rs n e)
        (λ r e' q. (n, q, omega (arith, range.0, h.new_nonneg), range.1, safe.0, safe.1))

  shrunk :
      e.de.replicas ≤ℤ new_rs.replicas
      → Ends (λ r e'. Reconciled e') IsServer (scale_to w new_rs e.de.replicas e)
  shrunk above =
      Ends-mono (λ r e'. Asks (e.de.replicas -ℤ new_rs.replicas) e e') (λ r e'. Reconciled e')
        IsServer (scale_to w new_rs e.de.replicas e) (scale_to-Asks w new_rs e.de.replicas e)
        (λ r e' q. (e.de.replicas, q, h.desired_nonneg, omega arith, inr above, inr above))

  -- Given packages that behave as documented, where no number is negative, the pods and the
  -- deployment's size with its surge are int32s, the index of the current step is in range, and
  -- other replica sets have pods: reconcileNewReplicaSet never panics and fails only by an error of
  -- the server. Where it succeeds, it has asked the server for the difference to a size of the new
  -- replica set from none to all of the deployment's replicas, which either is no larger than before
  -- or exceeds neither the limit of the step nor, with the pods of the others, the deployment's size
  -- with its surge. Neither object of the executor has changed.
  pub reconcile_new_replica_set_safe :
      Ends
        (λ r e'.
          (n : ℤ) × Asks (n -ℤ new_rs.replicas) e e'
          × (pos 0 ≤ℤ n)
          × (n ≤ℤ e.de.replicas)
          × ((n ≤ℤ new_rs_replicas_limit w.vendor at_step.step.replicas e.de)
              ⊎ (n ≤ℤ new_rs.replicas))
          × ((get_replica_count all_rss -ℤ new_rs.replicas +ℤ n ≤ℤ e.de.replicas +ℤ max_surge w e)
              ⊎ (n ≤ℤ new_rs.replicas)))
        IsServer
        (reconcile_new_replica_set w all_rss new_rs e)
  unfolding reconcile_new_replica_set
  reconcile_new_replica_set_safe = elim (Bool-cases (eqb_ℤ new_rs.replicas e.de.replicas)) [
    | inl same ↦ rw same (
      new_rs.replicas,
      Asks-none new_rs.replicas e,
      h.new_nonneg,
      ground arith,
      inr (omega arith),
      inr (omega arith),
    )
    | inr differs ↦ elim (Bool-cases (ltb_ℤ e.de.replicas new_rs.replicas)) [
      | inl above ↦ rw (differs, above) (shrunk (ground arith))
      | inr below ↦
          rw (differs, below)
            (Ends-ok IsServer (λ r e'. Reconciled e') current_partition
              (λ partition. gets (max_surge w) >>= λ surge.
                scale_to w new_rs (new_rs_new_replicas w surge e.de all_rss new_rs partition))
              at_step.step.replicas e (current_partition-IsAtStep e at_step) (grown (ground arith)))
    ]
  ]

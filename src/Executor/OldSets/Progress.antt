-- ===== src/Executor/OldSets/Progress.antt =====
-- A step of a rollout whose pods are available goes on: the new replica set may grow, or an old
-- one gives way.
use batch_release.Base.{
  ◌≡◌, ◌⊎◌, refl, sym, ap, subst, ◌∙◌, inl, inr, true, false, Option, List, [], ◌∷◌, ◌++◌, All,
  All-append, arith, Bool-cases,
}
use batch_release.Base.Int.{
  ℤ, pos, ◌+ℤ◌, ◌-ℤ◌, ◌≤ℤ◌, ◌<ℤ◌, pos_part, neg_part, leb_ℤ, ltb_ℤ, max_int32, sub32, int_laws,
}
use batch_release.Base.Sort.{sort, sort-perm, All-sort}
use batch_release.Base.Sum.{total, total-append, total_of_perm}
use batch_release.Objects.{ReplicaSet, Deployment}
use batch_release.Vendor.{IsVendor}
use batch_release.Vendor.Laws.{IsMin, int32_min-IsMin, int32_max-IsMax}
use batch_release.Deployment.Counts.{pointers, get_available_replica_count, get_replica_count}
use batch_release.Deployment.Counts.Totals.{count_from-pointers, get_replica_count-pointers}
use batch_release.Deployment.Find.{equal_ignore_hash, find_new_replica_set}
use batch_release.Deployment.Limits.{new_rs_replicas_limit}
use batch_release.Deployment.Limits.Bounds.{new_rs_replicas_limit_bounds}
use batch_release.Deployment.Order.{by_smaller_revision}
use batch_release.Executor.Monad.{Env, Executor, deref, ◌>>=◌, Ends, Ends-ok, Ends-mono, IsServer}
use batch_release.Executor.NewSet.{new_rs_new_replicas}
use batch_release.Executor.NewSet.Bounds.{IsScalable}
use batch_release.Executor.NewSet.Room.{no_growth}
use batch_release.Executor.OldSets.{
  scale_down_from, scale_down_limit_for_old, current_partition,
  scale_down_old_replica_sets_for_rolling_update, old_after_find,
}
use batch_release.Executor.OldSets.Availability.{available}
use batch_release.Executor.OldSets.Partition.{IsAtStep, current_partition-IsAtStep, found_new}
use batch_release.Executor.OldSets.ScaleDown.{IsCount, size, sizes_nonneg, scale_down_from_exact}
use batch_release.Executor.Scale.{max_surge, max_unavailable}
use batch_release.Executor.Scale.Effects.{Asks}
use batch_release.Executor.OldSets.Slack.{removable, not_leb}

-- A step whose pods are all available: the sizes and the limits are int32s, surge and unavailable
-- pods are not both excluded, and only the new replica set `a` has the template.
pub record IsMoving (w : Env) (e : Executor) (d : Deployment) (rss : List ReplicaSet)
    (a : ReplicaSet) : Type 0 where
  pub counts : All IsCount rss
  pub new_count : IsCount a
  pub total_sized : total size rss +ℤ a.replicas ≤ℤ max_int32
  pub all_available : All (λ rs. available rs ≡ rs.replicas) (rss ++ a ∷ [])
  pub new_below : a.replicas ≤ℤ d.replicas
  pub surge_nonneg : pos 0 ≤ℤ max_surge w e
  pub room : d.replicas +ℤ max_surge w e ≤ℤ max_int32
  pub unavailable_nonneg : pos 0 ≤ℤ max_unavailable w e
  pub unavailable_below : max_unavailable w e ≤ℤ d.replicas
  pub some_slack : pos 1 ≤ℤ max_surge w e +ℤ max_unavailable w e
  pub others : All (λ rs. equal_ignore_hash w.vendor rs.template d.template ≡ false) rss
  pub same : equal_ignore_hash w.vendor a.template d.template ≡ true

module _ (w : Env) (laws : IsVendor w.vendor) (e : Executor) (d : Deployment)
    (rss : List ReplicaSet) (a : ReplicaSet) (h : IsMoving w e d rss a) (at_step : IsAtStep e) where
  abbrev surge : ℤ
  surge = max_surge w e

  total-available :
      (xs : List ReplicaSet)
      → All (λ rs. available rs ≡ rs.replicas) xs
      → total available xs ≡ total size xs
  total-available [] k = refl
  total-available (x ∷ xs) k = rw (k.0, total-available xs k.1) refl

  each_nonneg : (xs : List ReplicaSet) → All IsCount xs → All (λ rs. pos 0 ≤ℤ rs.replicas) xs
  each_nonneg [] k = tt
  each_nonneg (x ∷ xs) k = (k.0.nonneg, each_nonneg xs k.1)

  available_nonneg :
      (xs : List ReplicaSet)
      → All IsCount xs
      → All (λ rs. available rs ≡ rs.replicas) xs
      → All (λ rs. pos 0 ≤ℤ available rs) xs
  available_nonneg [] k j = tt
  available_nonneg (x ∷ xs) k j = (rw j.0 k.0.nonneg, available_nonneg xs k.1 j.1)

  abbrev limit : ℤ
  limit = new_rs_replicas_limit w.vendor at_step.step.replicas d

  -- The old replica sets in the order in which they are scaled down.
  abbrev ordered : List ReplicaSet
  ordered = sort by_smaller_revision rss

  abbrev all : List ReplicaSet
  all = rss ++ a ∷ []

  total-all : total size all ≡ total size rss +ℤ a.replicas
  total-all = total-append size rss (a ∷ []) ∙ omega int_laws

  counted_available : get_available_replica_count (pointers all) ≡ total size rss +ℤ a.replicas
  unfolding get_available_replica_count
  counted_available =
      let same_totals = total-available all h.all_available ∙ total-all in
      count_from-pointers available all
        (available_nonneg all (All-append IsCount rss (a ∷ []) h.counts (h.new_count, tt))
          h.all_available)
        (rw same_totals h.total_sized)
      ∙ same_totals

  counted_old : get_replica_count (pointers ordered) ≡ total size rss
  counted_old =
      let kept = total_of_perm size (sort-perm by_smaller_revision rss) in
      get_replica_count-pointers ordered (record {
        each = each_nonneg ordered (All-sort by_smaller_revision IsCount rss h.counts);
        within = rw kept (omega (int_laws, h.total_sized, h.new_count.nonneg));
      })
      ∙ kept

  -- What may be removed of them.
  abbrev removed_at_most : ℤ
  removed_at_most =
      w.vendor.int32_min
        (sub32 (get_available_replica_count (pointers all))
          (sub32 d.replicas (max_unavailable w e)))
        (scale_down_limit_for_old w.vendor ordered a d at_step.step.replicas)

  scale_down_from_some :
      pos 1 ≤ℤ removed_at_most
      → removed_at_most ≤ℤ max_int32
      → pos 1 ≤ℤ total size rss
      → Ends
          (λ t e'. (pos 1 ≤ℤ t) × Asks (pos 0 -ℤ t) e e')
          IsServer
          (scale_down_from w d removed_at_most (pos 0) ordered e)
  scale_down_from_some some_left sized some_old =
      let kept = total_of_perm size (sort-perm by_smaller_revision rss) in
      Ends-mono
        (λ t e'. Asks (pos 0 -ℤ t) e e' × IsMin removed_at_most (pos 0 +ℤ total size ordered) t)
        (λ t e'. (pos 1 ≤ℤ t) × Asks (pos 0 -ℤ t) e e') IsServer
        (scale_down_from w d removed_at_most (pos 0) ordered e)
        (scale_down_from_exact w laws d removed_at_most sized (pos 0) ordered e
          (All-sort by_smaller_revision IsCount rss h.counts) (omega arith)
          (omega (arith, some_left)))
        (λ t e' q.
          (omega (int_laws, q.1, some_left, some_old, ap pos_part kept, ap neg_part kept), q.0))

  abbrev target : ℤ
  target = w.vendor.int32_max limit a.replicas

  abbrev least_available : ℤ
  least_available = sub32 d.replicas (max_unavailable w e)

  removed_lem :
      removed_at_most
      ≡ w.vendor.int32_min
          (sub32 (total size rss +ℤ a.replicas) least_available)
          (sub32 (total size rss) (sub32 d.replicas target))
  unfolding scale_down_limit_for_old
  removed_lem =
      ap
        (λ (c : ℤ).
          w.vendor.int32_min (sub32 c least_available)
            (scale_down_limit_for_old w.vendor ordered a d at_step.step.replicas))
        counted_available
      ∙ ap
          (λ (c : ℤ).
            w.vendor.int32_min (sub32 (total size rss +ℤ a.replicas) least_available)
              (sub32 c (sub32 d.replicas target)))
          counted_old

  -- The numbers that the scale-down meets where the new replica set does not grow.
  abbrev Numbers : Type 0
  Numbers =
      (pos 1 ≤ℤ total size rss)
      × (pos 1 ≤ℤ removed_at_most)
      × (removed_at_most ≤ℤ max_int32)
      × (leb_ℤ (get_available_replica_count (pointers all)) (sub32 d.replicas (max_unavailable w e))
          ≡ false)

  numbers :
      (a.replicas <ℤ limit) ⊎ (d.replicas <ℤ total size rss +ℤ a.replicas)
      → (limit ≤ℤ a.replicas) ⊎ (d.replicas +ℤ surge ≤ℤ total size rss +ℤ a.replicas)
      → Numbers
  numbers unfinished full =
      let range =
        new_rs_replicas_limit_bounds w.vendor laws at_step.step.replicas d
          (omega (arith, h.new_count.nonneg, h.new_below))
          (omega (int_laws, h.room, h.surge_nonneg)) in
      let facts =
        removable a.replicas (total size rss) d.replicas surge (max_unavailable w e) limit target
          h.new_count.nonneg h.new_below (sizes_nonneg rss h.counts) h.total_sized h.surge_nonneg
          h.room h.unavailable_nonneg h.unavailable_below h.some_slack range.0 range.1 unfinished
          full (int32_max-IsMax w.vendor laws limit a.replicas) in
      let least =
        int32_min-IsMin w.vendor laws (sub32 (total size rss +ℤ a.replicas) least_available)
          (sub32 (total size rss) (sub32 d.replicas target)) in
      let removed =
        subst (λ (m : ℤ). (pos 1 ≤ℤ m) × (m ≤ℤ max_int32)) (sym removed_lem)
          (omega (arith, least, facts), omega (arith, least, facts)) in
      (
        facts.0,
        removed.0,
        removed.1,
        subst (λ (c : ℤ). leb_ℤ c least_available ≡ false) (sym counted_available)
            (not_leb (total size rss +ℤ a.replicas) least_available facts.2),
      )

  abbrev Progressed : ℤ → Executor → Type 0
  Progressed t e' = (pos 1 ≤ℤ t) × Asks (pos 0 -ℤ t) e e'

  gives_way :
      Numbers
      → Ends Progressed IsServer (scale_down_old_replica_sets_for_rolling_update w false rss a d e)
  unfolding scale_down_old_replica_sets_for_rolling_update old_after_find find_new_replica_set
  gives_way k =
      let found = found_new w.vendor d.template rss a h.others h.same in
      rw k.3 (
        Ends-ok IsServer Progressed current_partition
          (λ partition. deref (find_new_replica_set w.vendor d all) >>= λ new_rs.
            scale_down_from w d
              (w.vendor.int32_min
                (sub32 (get_available_replica_count (pointers all)) least_available)
                (scale_down_limit_for_old w.vendor ordered new_rs d partition))
              (pos 0) ordered)
          at_step.step.replicas e (current_partition-IsAtStep e at_step)
          (Ends-ok IsServer Progressed (deref (find_new_replica_set w.vendor d all))
            (λ new_rs.
              scale_down_from w d
                (w.vendor.int32_min
                  (sub32 (get_available_replica_count (pointers all)) least_available)
                  (scale_down_limit_for_old w.vendor ordered new_rs d at_step.step.replicas))
                (pos 0) ordered)
            a e (ap (λ (o : Option ReplicaSet). deref o e) found)
            (scale_down_from_some k.1 k.2 k.0)))

  -- A step goes on. Given packages that behave as documented, where all pods are available, the
  -- numbers are int32s, maxSurge and maxUnavailable are not both 0, only the new replica set has the
  -- deployment's template and it is no larger than the deployment, the index of the step is in
  -- range, and the slice of the old sets shares no array: as long as the new set is below the limit
  -- of the step, or there are more pods than the deployment wants, newRSNewReplicas lets the new set
  -- grow, or the scale-down of the old sets removes at least one pod, unless the server refuses.
  pub upgrade_progress :
      (all_rss : List (Option ReplicaSet))
      → get_replica_count all_rss ≡ total size rss +ℤ a.replicas
      → (a.replicas <ℤ new_rs_replicas_limit w.vendor at_step.step.replicas d)
        ⊎ (d.replicas <ℤ total size rss +ℤ a.replicas)
      → (a.replicas <ℤ new_rs_new_replicas w (max_surge w e) d all_rss a at_step.step.replicas)
        ⊎ Ends
            (λ t e'. (pos 1 ≤ℤ t) × Asks (pos 0 -ℤ t) e e')
            IsServer
            (scale_down_old_replica_sets_for_rolling_update w false rss a d e)
  upgrade_progress all_rss pods unfinished =
      let grown = new_rs_new_replicas w surge d all_rss a at_step.step.replicas in
      elim (Bool-cases (ltb_ℤ a.replicas grown)) [
        | inl grows ↦ inl (ground (arith, grows))
        | inr stays ↦
            let scalable : IsScalable surge d (get_replica_count all_rss) a = record {
              surge_nonneg = h.surge_nonneg;
              room = h.room;
              count_nonneg =
                  rw pods (omega (int_laws, sizes_nonneg rss h.counts, h.new_count.nonneg));
              count_sized = rw pods h.total_sized;
              new_nonneg = h.new_count.nonneg;
              new_below = h.new_below;
            } in
            let full =
              no_growth w laws surge d all_rss a at_step.step.replicas scalable
                (ground (arith, stays)) in
            inr (gives_way (numbers unfinished (rw pods at full)))
      ]

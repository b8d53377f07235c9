-- ===== src/Executor/Safety/Steps.antt =====
-- The step state machine, rollingUpdate and stepByStep, and panics.
use batch_release.Base.{◌≡◌, sym, subst, true, Option, none, some, List, if◌then◌else◌}
use batch_release.Objects.{ReplicaSet, PodTemplate}
use batch_release.Release.{StepState}
use batch_release.Deployment.Counts.{append_new, filter_active, pointers}
use batch_release.Deployment.Find.{equal_ignore_hash}
use batch_release.Executor.Monad.{Env, Executor, pure, gets, deref, ◌>>=◌, ◌>>◌}
use batch_release.Executor.Listing.{
  get_all_replica_sets_and_sync_revision, get_replica_sets_for_deployment, is_scaling_event,
}
use batch_release.Executor.NewSet.{reconcile_new_replica_set}
use batch_release.Executor.OldSets.{current_partition, reconcile_old_replica_sets}
use batch_release.Executor.Ready.{is_batch_ready}
use batch_release.Executor.Status.{sync_rollout_status}
use batch_release.Executor.Steps.{
  no_requeue, set_step_state, sync, start_step, finish_upgrade, upgrade_step, block_step,
  complete_step, step_case, step_by_step, rolling_update,
}
use batch_release.Executor.Safety.{View, IsFit, Any, Safe, safe_rules, Safe-pure, Safe-value}
use batch_release.Executor.Safety.Held.{KeepsSpecs, IsHeld, read_de-Safe}
use batch_release.Executor.Safety.Creating.{ComparesTemplates, IsNew}
use batch_release.Executor.Safety.Listing.{
  IsFound, get_all-Safe, get_either-Safe, is_scaling_event-Safe, get_replica_sets-Safe,
  sync_deployment_status-Safe, sync_rollout_status-Safe,
}
use batch_release.Executor.Safety.OldSets.{reconcile_old_replica_sets-Safe}
use batch_release.Executor.Safety.Scaling.{
  current_partition-Safe, reconcile_new_replica_set-Safe, scale-Safe,
}
use batch_release.Executor.Safety.Ending.{
  NoPanic, NoPanicAt, no_panic_rules, NoPanicAt-NoPanic, NoPanicAt-Safe, NoPanicAt-if,
  NoPanicAt-step, NoPanicAt-bind, NoPanicAt-then,
}

module _ (w : Env) where
  set_state-NoPanic : (s : StepState) → NoPanic (set_step_state s >> pure no_requeue)
  set_state-NoPanic s = search no_panic_rules

  start_step-NoPanic : NoPanic (start_step w)
  unfolding start_step
  start_step-NoPanic = search no_panic_rules

  block_step-NoPanic : NoPanic (block_step w)
  unfolding block_step
  block_step-NoPanic = search no_panic_rules depth 9

  complete_step-NoPanic : NoPanic (complete_step w)
  unfolding complete_step
  complete_step-NoPanic = search no_panic_rules depth 9

module _ (v : View) (fit : IsFit v) (w : Env) (keeps : KeepsSpecs w.client)
    (compares : ComparesTemplates w.vendor) where
  partition-Safe : Safe v Any current_partition
  partition-Safe = current_partition-Safe v fit.on_step

  is_batch_ready-Safe : Safe v Any (is_batch_ready w)
  unfolding is_batch_ready
  is_batch_ready-Safe = search (safe_rules, partition-Safe) depth 9

  sync-Safe : (rss : List ReplicaSet) → Safe v Any (sync w rss)
  unfolding sync
  sync-Safe rss =
      search (safe_rules, get_either-Safe, scale-Safe, sync_deployment_status-Safe) depth 9

  finish_upgrade-NoPanicAt : NoPanicAt v (finish_upgrade w)
  unfolding finish_upgrade
  finish_upgrade-NoPanicAt =
      NoPanicAt-bind v (is_batch_ready w) _ is_batch_ready-Safe
        (λ _. NoPanicAt-NoPanic v _ (set_state-NoPanic w StepState.blocking))

  -- What upgrade_step does once the new replica set has its size.
  scale_down_part :
      (old_rss : List ReplicaSet) (new_rs : ReplicaSet)
      → IsNew v w new_rs
      → let all_rss = append_new old_rss (some new_rs) in
        NoPanicAt v (do
          de ← gets (λ (e : Executor). e.de)
          scaled_down ←
              reconcile_old_replica_sets w all_rss (filter_active (pointers old_rss)) new_rs de
          sync_rollout_status w all_rss (some new_rs)
          if scaled_down then pure no_requeue else finish_upgrade w)
  scale_down_part old_rss new_rs new =
      let all_rss = append_new old_rss (some new_rs) in
      let active = filter_active (pointers old_rss) in
      NoPanicAt-step v (IsHeld v) (gets (λ (e : Executor). e.de)) _ (read_de-Safe v) (λ de held.
        NoPanicAt-bind v (reconcile_old_replica_sets w all_rss active new_rs de) _
          (reconcile_old_replica_sets-Safe v fit.on_step w new_rs de
            (subst (λ (t : PodTemplate). equal_ignore_hash w.vendor new_rs.template t ≡ true)
              (sym held.0) new)
            all_rss active)
          (λ scaled_down.
            NoPanicAt-bind v (sync_rollout_status w all_rss (some new_rs)) _
              (sync_rollout_status-Safe v w all_rss (some new_rs))
              (λ _.
                NoPanicAt-if v scaled_down _ _ (NoPanicAt-Safe v Any _ (Safe-pure v no_requeue))
                  finish_upgrade-NoPanicAt)))

  -- What upgrade_step does with the new replica set.
  upgrade_found :
      (old_rss : List ReplicaSet) (new_rs : ReplicaSet)
      → IsNew v w new_rs
      → let all_rss = append_new old_rss (some new_rs) in
        NoPanicAt v (do
          scaled_up ← reconcile_new_replica_set w all_rss new_rs
          if scaled_up
              then (do sync_rollout_status w all_rss (some new_rs); pure no_requeue)
              else (do
                de ← gets (λ (e : Executor). e.de)
                scaled_down ←
                    reconcile_old_replica_sets w all_rss
                      (filter_active (pointers old_rss))
                      new_rs
                      de
                sync_rollout_status w all_rss (some new_rs)
                if scaled_down then pure no_requeue else finish_upgrade w))
  upgrade_found old_rss new_rs new =
      let all_rss = append_new old_rss (some new_rs) in
      NoPanicAt-bind v (reconcile_new_replica_set w all_rss new_rs) _
        (reconcile_new_replica_set-Safe v w fit.on_step all_rss new_rs)
        (λ scaled_up.
          NoPanicAt-if v scaled_up _ _
            (NoPanicAt-Safe v Any _ (search (safe_rules, sync_rollout_status-Safe)))
            (scale_down_part old_rss new_rs new))

  deref_found-Safe :
      (found : Option ReplicaSet) → IsFound v w true found → Safe v (IsNew v w) (deref found)
  deref_found-Safe none h = elim h [ ]
  deref_found-Safe (some rs) new = Safe-value v (IsNew v w) rs new

  upgrade_step-NoPanicAt : (rss : List ReplicaSet) → NoPanicAt v (upgrade_step w rss)
  unfolding upgrade_step
  upgrade_step-NoPanicAt rss =
      NoPanicAt-step v (λ a. IsFound v w true a.0)
        (get_all_replica_sets_and_sync_revision w rss true) _
        (get_all-Safe v fit w keeps compares rss true)
        (λ a found.
          NoPanicAt-step v (IsNew v w) (deref a.0) _ (deref_found-Safe a.0 found)
            (λ new_rs new. upgrade_found a.1 new_rs new))

  step_case-NoPanicAt : (s : StepState) (rss : List ReplicaSet) → NoPanicAt v (step_case w s rss)
  unfolding step_case
  step_case-NoPanicAt StepState.initial rss = NoPanicAt-NoPanic v _ (start_step-NoPanic w)
  step_case-NoPanicAt StepState.upgrade rss = upgrade_step-NoPanicAt rss
  step_case-NoPanicAt StepState.blocking rss = NoPanicAt-NoPanic v _ (block_step-NoPanic w)
  step_case-NoPanicAt StepState.completed rss = NoPanicAt-NoPanic v _ (complete_step-NoPanic w)
  step_case-NoPanicAt (StepState.other s) rss =
      NoPanicAt-NoPanic v _ (search (no_panic_rules, start_step-NoPanic))

  step_by_step-NoPanicAt : (rss : List ReplicaSet) → NoPanicAt v (step_by_step w rss)
  unfolding step_by_step
  step_by_step-NoPanicAt rss =
      NoPanicAt-bind v (gets (λ (e : Executor). e.br.status.current_step_state)) _
        (search safe_rules) (λ s. step_case-NoPanicAt s rss)

  pub rolling_update-NoPanicAt : NoPanicAt v (rolling_update w)
  unfolding rolling_update
  rolling_update-NoPanicAt =
      NoPanicAt-bind v (get_replica_sets_for_deployment w) _ (get_replica_sets-Safe v w) (λ rss.
        NoPanicAt-bind v (is_scaling_event w rss) _
          (is_scaling_event-Safe v fit w keeps compares rss)
          (λ scaling_event.
            NoPanicAt-if v scaling_event _ _
              (NoPanicAt-then v (sync w rss) _ (sync-Safe rss)
                (NoPanicAt-NoPanic v _ (set_state-NoPanic w StepState.initial)))
              (step_by_step-NoPanicAt rss)))

-- ===== src/Executor/Position/Steps.antt =====
-- stepByStep and rollingUpdate make moves only.
use batch_release.Base.{
  ℕ, ◌≡◌, ◌⊎◌, refl, sym, ap, subst, inl, inr, true, some, List, length, Bool-cases, if◌then◌else◌,
}
use batch_release.Base.Int.{ℤ, pos, ◌-ℤ◌, eqb_ℤ}
use batch_release.Objects.{ReplicaSet}
use batch_release.Release.{Phase, StepState}
use batch_release.Executor.Monad.{Env, Executor, pure, gets, deref, ◌>>=◌, ◌>>◌}
use batch_release.Deployment.Counts.{append_new, filter_active, pointers}
use batch_release.Executor.Listing.{
  get_all_replica_sets_and_sync_revision, get_replica_sets_for_deployment, is_scaling_event,
}
use batch_release.Executor.NewSet.{reconcile_new_replica_set}
use batch_release.Executor.OldSets.{reconcile_old_replica_sets}
use batch_release.Executor.Status.{sync_rollout_status}
use batch_release.Executor.Ready.{is_batch_ready}
use batch_release.Executor.Steps.{
  no_requeue, set_step_state, set_phase, is_last_step, is_final_step, sync, start_step,
  finish_upgrade, upgrade_step, block_step, complete_step, step_case, step_by_step, rolling_update,
}
use batch_release.Executor.Steps.Range.{last_index, final_index, at_end, not_at_end, incremented}
use batch_release.Executor.Position.{
  Position, position, Stays, stays_rules, Stays-pure, Stays-gets, Stays-deref,
}
use batch_release.Executor.Position.Creating.{
  get_all-Stays, get_replica_sets-Stays, is_scaling_event-Stays, sync_deployment_status-Stays,
  sync_rollout_status-Stays,
}
use batch_release.Executor.Position.Move.{
  IsOnStep, IsRolling, Move, Moves, Moves-Stays, Moves-if, Moves-bind, Moves-gets, Moves-modify,
}
use batch_release.Executor.Position.Scaling.{
  current_partition-Stays, scale-Stays, reconcile_new_replica_set-Stays,
  reconcile_old_replica_sets-Stays,
}

pub is_batch_ready-Stays : (w : Env) → Stays (is_batch_ready w)
unfolding is_batch_ready
is_batch_ready-Stays w = search (stays_rules, current_partition-Stays) depth 9

pub sync-Stays : (w : Env) (rss : List ReplicaSet) → Stays (sync w rss)
unfolding sync
sync-Stays w rss =
    search (stays_rules, get_all-Stays, scale-Stays, sync_deployment_status-Stays) depth 9

module _ (p : Position) where
  -- An assignment of the step's state, or of the phase, that ends the run.
  Moves-state :
      (s : StepState)
      → Move p (record p { state = s })
      → Moves p (set_step_state s >> pure no_requeue)
  Moves-state s mv =
      Moves-modify p
        (λ e. record e {
          br = record e.br { status = record e.br.status { current_step_state = s } };
        })
        (pure no_requeue)
        (λ e h. subst (Move p) (ap (λ (q : Position). record q { state = s }) (sym h)) mv)
        (Stays-pure _)

  pub Moves-phase :
      (ph : Phase) → Move p (record p { phase = ph }) → Moves p (set_phase ph >> pure no_requeue)
  Moves-phase ph mv =
      Moves-modify p
        (λ e. record e { br = record e.br { status = record e.br.status { phase = ph } } })
        (pure no_requeue)
        (λ e h. subst (Move p) (ap (λ (q : Position). record q { phase = ph }) (sym h)) mv)
        (Stays-pure _)

module _ (w : Env) (e : Executor) (rolling : IsRolling e.br.status.phase)
    (on : IsOnStep (position e)) where
  block-Move :
      e.br.status.current_step_state ≡ StepState.blocking
      → Move (position e) (position (block_step w e).1)
  unfolding block_step is_last_step
  block-Move blocked =
      let i = e.br.status.current_step_index in
      let n = length e.br.spec.strategy.steps in
      let index = last_index i n on.from_start on.before_end on.few in
      elim (Bool-cases (eqb_ℤ i (pos n -ℤ pos 1))) [
        | inl last ↦
            let end = at_end i n on.from_start on.before_end on.few last in
            rw (index, last) (Move.pass rolling blocked end refl)
        | inr more ↦ rw (index, more) (Move.stay refl)
      ]

  complete-Move :
      e.br.status.current_step_state ≡ StepState.completed
      → Move (position e) (position (complete_step w e).1)
  unfolding complete_step is_final_step
  complete-Move done =
      let i = e.br.status.current_step_index in
      let n = length e.br.spec.strategy.steps in
      let index = final_index i n on.from_start on.before_end on.few in
      elim (Bool-cases (eqb_ℤ i (pos n -ℤ pos 1))) [
        | inl last ↦
            let end = at_end i n on.from_start on.before_end on.few last in
            rw (index, last) (Move.finish rolling done end refl)
        | inr more ↦
            let below = not_at_end i n on.from_start on.before_end on.few more in
            let up = incremented i n on.from_start on.before_end on.few in
            rw (index, more)
              (Move.advance rolling done below
                (ap (λ (j : ℤ). record (position e) { step = j; state = StepState.initial }) up))
      ]

module _ (w : Env) (p : Position) (rolling : IsRolling p.phase) where
  start_step-Moves :
      (p.state ≡ StepState.initial) ⊎ ((s : List ℕ) × (p.state ≡ StepState.other s))
      → Moves p (start_step w)
  unfolding start_step
  start_step-Moves fresh = Moves-state p StepState.upgrade (Move.start rolling fresh refl)

  finish_upgrade-Moves : p.state ≡ StepState.upgrade → Moves p (finish_upgrade w)
  unfolding finish_upgrade
  finish_upgrade-Moves upgrading =
      Moves-bind p (is_batch_ready w) _ (is_batch_ready-Stays w)
        (λ _. Moves-state p StepState.blocking (Move.block rolling upgrading refl))

  -- What upgrade_step does once the new replica set has its size.
  scale_down_part :
      (old_rss : List ReplicaSet) (new_rs : ReplicaSet)
      → p.state ≡ StepState.upgrade
      → let all_rss = append_new old_rss (some new_rs) in
        Moves p (do
          de ← gets (λ (e : Executor). e.de)
          scaled_down ←
              reconcile_old_replica_sets w all_rss (filter_active (pointers old_rss)) new_rs de
          sync_rollout_status w all_rss (some new_rs)
          if scaled_down then pure no_requeue else finish_upgrade w)
  scale_down_part old_rss new_rs upgrading =
      let all_rss = append_new old_rss (some new_rs) in
      let active = filter_active (pointers old_rss) in
      Moves-bind p (gets (λ (e : Executor). e.de)) _ (Stays-gets _) (λ de.
        Moves-bind p (reconcile_old_replica_sets w all_rss active new_rs de) _
          (reconcile_old_replica_sets-Stays w all_rss active new_rs de)
          (λ scaled_down.
            Moves-bind p (sync_rollout_status w all_rss (some new_rs)) _
              (sync_rollout_status-Stays w all_rss (some new_rs))
              (λ _.
                Moves-if p scaled_down _ _ (Moves-Stays p _ (Stays-pure _))
                  (finish_upgrade-Moves upgrading))))

  upgrade_step-Moves :
      (rss : List ReplicaSet) → p.state ≡ StepState.upgrade → Moves p (upgrade_step w rss)
  unfolding upgrade_step
  upgrade_step-Moves rss upgrading =
      Moves-bind p (get_all_replica_sets_and_sync_revision w rss true) _ (get_all-Stays w rss true)
        (λ a. Moves-bind p (deref a.0) _ (Stays-deref a.0) (λ new_rs.
          Moves-bind p (reconcile_new_replica_set w (append_new a.1 (some new_rs)) new_rs) _
            (reconcile_new_replica_set-Stays w (append_new a.1 (some new_rs)) new_rs)
            (λ scaled_up.
              Moves-if p scaled_up _ _
                (Moves-Stays p _ (search (stays_rules, sync_rollout_status-Stays)))
                (scale_down_part a.1 new_rs upgrading))))

  block_step-Moves : IsOnStep p → p.state ≡ StepState.blocking → Moves p (block_step w)
  block_step-Moves on blocked = record {
    at = λ e h.
        subst
          (λ (q : Position).
            IsRolling q.phase
            → IsOnStep q
            → q.state ≡ StepState.blocking
            → Move q (position (block_step w e).1))
          h (block-Move w e) rolling on blocked;
  }

  complete_step-Moves : IsOnStep p → p.state ≡ StepState.completed → Moves p (complete_step w)
  complete_step-Moves on done = record {
    at = λ e h.
        subst
          (λ (q : Position).
            IsRolling q.phase
            → IsOnStep q
            → q.state ≡ StepState.completed
            → Move q (position (complete_step w e).1))
          h (complete-Move w e) rolling on done;
  }

  step_case-Moves :
      (s : StepState) (rss : List ReplicaSet)
      → IsOnStep p
      → p.state ≡ s
      → Moves p (step_case w s rss)
  unfolding step_case start_step
  step_case-Moves StepState.initial rss on h = start_step-Moves (inl h)
  step_case-Moves StepState.upgrade rss on h = upgrade_step-Moves rss h
  step_case-Moves StepState.blocking rss on h = block_step-Moves on h
  step_case-Moves StepState.completed rss on h = complete_step-Moves on h
  step_case-Moves (StepState.other s) rss on h = record {
    at = λ e here.
        subst (Move p) (ap (λ (q : Position). record q { state = StepState.upgrade }) (sym here))
          (Move.start rolling (inr (s, h)) refl);
  }

  step_by_step-Moves : (rss : List ReplicaSet) → IsOnStep p → Moves p (step_by_step w rss)
  unfolding step_by_step
  step_by_step-Moves rss on =
      Moves-gets p (λ (e : Executor). e.br.status.current_step_state) (λ s. step_case w s rss)
        (λ e h.
          step_case-Moves e.br.status.current_step_state rss on
            (ap (λ (q : Position). q.state) (sym h)))

  pub rolling_update-Moves : IsOnStep p → Moves p (rolling_update w)
  unfolding rolling_update
  rolling_update-Moves on =
      Moves-bind p (get_replica_sets_for_deployment w) _ (get_replica_sets-Stays w) (λ rss.
        Moves-bind p (is_scaling_event w rss) _ (is_scaling_event-Stays w rss) (λ scaling_event.
          Moves-if p scaling_event _ _
            (Moves-bind p (sync w rss) _ (sync-Stays w rss)
              (λ _. Moves-state p StepState.initial (Move.rescale rolling refl)))
            (step_by_step-Moves rss on)))

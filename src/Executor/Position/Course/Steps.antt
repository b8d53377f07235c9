-- ===== src/Executor/Position/Course/Steps.antt =====
-- Each case of the switch on the step's state keeps to the course (reconcileRollingUpdate in
-- internal/controller/partition/executor.go).
use batch_release.Base.{
  ℕ, ◌≡◌, ◌⊎◌, refl, sym, ap, subst, inl, inr, some, List, length, Bool-cases, true, if◌then◌else◌,
}
use batch_release.Base.Int.{ℤ, pos, ◌-ℤ◌, eqb_ℤ}
use batch_release.Objects.{ReplicaSet}
use batch_release.Release.{StepState}
use batch_release.Executor.Monad.{Env, Executor, pure, gets, deref, ◌>>=◌, ◌>>◌}
use batch_release.Deployment.Counts.{append_new, filter_active, pointers}
use batch_release.Executor.Listing.{get_all_replica_sets_and_sync_revision}
use batch_release.Executor.NewSet.{reconcile_new_replica_set}
use batch_release.Executor.OldSets.{reconcile_old_replica_sets}
use batch_release.Executor.Status.{sync_rollout_status}
use batch_release.Executor.Ready.{is_batch_ready}
use batch_release.Executor.Steps.{
  no_requeue, set_step_state, is_last_step, is_final_step, start_step, finish_upgrade, upgrade_step,
  block_step, complete_step, step_case, step_by_step,
}
use batch_release.Executor.Steps.Range.{last_index, final_index, at_end, not_at_end, incremented}
use batch_release.Executor.Position.{
  Position, position, stays_rules, Stays-pure, Stays-gets, Stays-deref,
}
use batch_release.Executor.Position.Course.{
  Course, Lands, Reaches, Reaches-Stays, Reaches-if, Reaches-bind,
}
use batch_release.Executor.Position.Creating.{get_all-Stays, sync_rollout_status-Stays}
use batch_release.Executor.Position.Move.{IsOnStep}
use batch_release.Executor.Position.Scaling.{
  reconcile_new_replica_set-Stays, reconcile_old_replica_sets-Stays,
}
use batch_release.Executor.Position.Steps.{is_batch_ready-Stays}

module _ (w : Env) (e : Executor) (on : IsOnStep (position e)) where
  block-Course :
      e.br.status.current_step_state ≡ StepState.blocking
      → Lands (Course (position e)) (position e) (block_step w e)
  unfolding block_step is_last_step
  block-Course blocked =
      let i = e.br.status.current_step_index in
      let n = length e.br.spec.strategy.steps in
      let index = last_index i n on.from_start on.before_end on.few in
      elim (Bool-cases (eqb_ℤ i (pos n -ℤ pos 1))) [
        | inl last ↦
            let end = at_end i n on.from_start on.before_end on.few last in
            rw (index, last) (Course.pass blocked end refl)
        | inr more ↦
            let below = not_at_end i n on.from_start on.before_end on.few more in
            rw (index, more) (Course.hold blocked below refl)
      ]

  complete-Course :
      e.br.status.current_step_state ≡ StepState.completed
      → Lands (Course (position e)) (position e) (complete_step w e)
  unfolding complete_step is_final_step
  complete-Course done =
      let i = e.br.status.current_step_index in
      let n = length e.br.spec.strategy.steps in
      let index = final_index i n on.from_start on.before_end on.few in
      elim (Bool-cases (eqb_ℤ i (pos n -ℤ pos 1))) [
        | inl last ↦
            let end = at_end i n on.from_start on.before_end on.few last in
            rw (index, last) (Course.finish done end refl)
        | inr more ↦
            let below = not_at_end i n on.from_start on.before_end on.few more in
            let up = incremented i n on.from_start on.before_end on.few in
            rw (index, more)
              (Course.advance done below
                (ap (λ (j : ℤ). record (position e) { step = j; state = StepState.initial }) up))
      ]

module _ (w : Env) (p : Position) where
  start-Course :
      (p.state ≡ StepState.initial) ⊎ ((s : List ℕ) × (p.state ≡ StepState.other s))
      → (e : Executor) → position e ≡ p
      → Course p (record (position e) { state = StepState.upgrade })
  start-Course fresh e h =
      Course.start fresh (ap (λ (q : Position). record q { state = StepState.upgrade }) h)

  finish_upgrade-Reaches : p.state ≡ StepState.upgrade → Reaches (Course p) p (finish_upgrade w)
  unfolding finish_upgrade
  finish_upgrade-Reaches upgrading =
      Reaches-bind (Course p) p (is_batch_ready w)
        (λ _. set_step_state StepState.blocking >> pure no_requeue) (is_batch_ready-Stays w)
        (λ _. record {
          at = λ e h.
              Course.block upgrading
                (ap (λ (q : Position). record q { state = StepState.blocking }) h);
        })

  -- What upgrade_step does once the new replica set has its size.
  scale_down_part :
      (old_rss : List ReplicaSet) (new_rs : ReplicaSet)
      → p.state ≡ StepState.upgrade
      → let all_rss = append_new old_rss (some new_rs) in
        Reaches (Course p) p (do
          de ← gets (λ (e : Executor). e.de)
          scaled_down ←
              reconcile_old_replica_sets w all_rss (filter_active (pointers old_rss)) new_rs de
          sync_rollout_status w all_rss (some new_rs)
          if scaled_down then pure no_requeue else finish_upgrade w)
  scale_down_part old_rss new_rs upgrading =
      let all_rss = append_new old_rss (some new_rs) in
      let active = filter_active (pointers old_rss) in
      let Q = Course p in
      Reaches-bind Q p (gets (λ (e : Executor). e.de)) _ (Stays-gets _) (λ de.
        Reaches-bind Q p (reconcile_old_replica_sets w all_rss active new_rs de) _
          (reconcile_old_replica_sets-Stays w all_rss active new_rs de)
          (λ scaled_down.
            Reaches-bind Q p (sync_rollout_status w all_rss (some new_rs)) _
              (sync_rollout_status-Stays w all_rss (some new_rs))
              (λ _.
                Reaches-if Q p scaled_down _ _
                  (Reaches-Stays Q p _ (Stays-pure _) (Course.wait upgrading refl))
                  (finish_upgrade-Reaches upgrading))))

  upgrade_step-Reaches :
      (rss : List ReplicaSet)
      → p.state ≡ StepState.upgrade
      → Reaches (Course p) p (upgrade_step w rss)
  unfolding upgrade_step
  upgrade_step-Reaches rss upgrading =
      let Q = Course p in
      Reaches-bind Q p (get_all_replica_sets_and_sync_revision w rss true) _
        (get_all-Stays w rss true)
        (λ a. Reaches-bind Q p (deref a.0) _ (Stays-deref a.0) (λ new_rs.
          Reaches-bind Q p (reconcile_new_replica_set w (append_new a.1 (some new_rs)) new_rs) _
            (reconcile_new_replica_set-Stays w (append_new a.1 (some new_rs)) new_rs)
            (λ scaled_up.
              Reaches-if Q p scaled_up _ _
                (Reaches-Stays Q p _ (search (stays_rules, sync_rollout_status-Stays))
                  (Course.wait upgrading refl))
                (scale_down_part a.1 new_rs upgrading))))

  step_case-Reaches :
      (s : StepState) (rss : List ReplicaSet)
      → IsOnStep p
      → p.state ≡ s
      → Reaches (Course p) p (step_case w s rss)
  unfolding step_case start_step
  step_case-Reaches StepState.initial rss on h = record { at = start-Course (inl h) }
  step_case-Reaches StepState.upgrade rss on h = upgrade_step-Reaches rss h
  step_case-Reaches StepState.blocking rss on h = record {
    at = λ e here.
        subst
          (λ (q : Position).
            IsOnStep q → q.state ≡ StepState.blocking → Lands (Course q) q (block_step w e))
          here (block-Course w e) on h;
  }
  step_case-Reaches StepState.completed rss on h = record {
    at = λ e here.
        subst
          (λ (q : Position).
            IsOnStep q → q.state ≡ StepState.completed → Lands (Course q) q (complete_step w e))
          here (complete-Course w e) on h;
  }
  step_case-Reaches (StepState.other s) rss on h = record { at = start-Course (inr (s, h)) }

pub step_by_step-Course :
    (w : Env) (p : Position) (rss : List ReplicaSet)
    → IsOnStep p
    → Reaches (Course p) p (step_by_step w rss)
unfolding step_by_step
step_by_step-Course w p rss on = record {
  at = λ e h.
      (step_case-Reaches w p e.br.status.current_step_state rss on
          (ap (λ (q : Position). q.state) (sym h))).at
        e h;
}

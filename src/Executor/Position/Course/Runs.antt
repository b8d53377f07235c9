-- ===== src/Executor/Position/Course/Runs.antt =====
-- One run of Do in a rollout that nothing interrupts (Do in
-- internal/controller/partition/executor.go).
use batch_release.Base.{
  ◌≡◌, ◌⊎◌, refl, sym, ap, subst, ◌∙◌, inl, inr, Bool, true, false, List, [], Bool-cases,
  if◌then◌else◌,
}
use batch_release.Base.Text.{text_eq}
use batch_release.Objects.{ReplicaSet}
use batch_release.Release.{Phase, StepState}
use batch_release.Executor.Monad.{Env, Executor, Result, ok, err, panic, pure, gets, ◌>>=◌, ◌>>◌}
use batch_release.Executor.Listing.{get_replica_sets_for_deployment, is_scaling_event}
use batch_release.Executor.Phases.{
  clean_status_reason_and_message, handle_pod_template_update, is_pre_rollback, phase_case, run,
  template_hash,
}
use batch_release.Executor.Steps.{
  Requeue, no_requeue, set_step_state, sync, step_by_step, rolling_update,
}
use batch_release.Executor.Position.{Position, position}
use batch_release.Executor.Position.Course.{Course, Lands, Lands-mono, Lands-bind}
use batch_release.Executor.Position.Course.Steps.{step_by_step-Course}
use batch_release.Executor.Position.Creating.{get_replica_sets-Stays, is_scaling_event-Stays}
use batch_release.Executor.Position.Move.{IsOnStep, IsRolling}
use batch_release.Executor.Position.Steps.{sync-Stays}

-- The executor lists replica sets one of which was resized, so that the step starts again.
pub record SeesScaling (w : Env) (e : Executor) : Type 0 where
  pub rs_list : List ReplicaSet
  pub listed : Executor
  pub checked : Executor
  pub lists : get_replica_sets_for_deployment w e ≡ (ok rs_list, listed)
  pub sees : is_scaling_event w rs_list listed ≡ (ok true, checked)

-- What a run of a rollout ends in where it returns: the step keeps to its course, or it starts
-- again where a replica set was resized.
abbrev pub Rolled : Env → Executor → Position → Type 0
Rolled w e q =
    Course (position e) q
    ⊎ ((q ≡ record (position e) { state = StepState.initial })
        × SeesScaling w (clean_status_reason_and_message w e).1)

module _ (w : Env) where
  scaled_or_not :
      (p : Position) (Q : Position → Type 0) (rss : List ReplicaSet) (e : Executor)
      → IsOnStep p
      → position e ≡ p
      → ((q : Position) → Course p q → Q q)
      → (scaling_event : Bool) → (scaling_event ≡ true → Q (record p { state = StepState.initial }))
      → Lands Q p (
          (if scaling_event
              then (do sync w rss; set_step_state StepState.initial; pure no_requeue)
              else step_by_step w rss)
            e)
  scaled_or_not p Q rss e on h goes true again =
      Lands-bind Q p (sync w rss) (λ _. set_step_state StepState.initial >> pure no_requeue) e
        (sync-Stays w rss) h
        (λ _ e' _ j.
          subst Q (ap (λ (q : Position). record q { state = StepState.initial }) (sym j))
            (again refl))
  scaled_or_not p Q rss e on h goes false again =
      Lands-mono (Course p) Q p goes (step_by_step w rss e)
        ((step_by_step-Course w p rss on).at e h)

  -- The switch on whether the run sees a scaling event, which it looks for first.
  rolling_update-Lands :
      (e : Executor) (Q : Position → Type 0)
      → IsOnStep (position e)
      → ((q : Position) → Course (position e) q → Q q)
      → (SeesScaling w e → Q (record (position e) { state = StepState.initial }))
      → Lands Q (position e) (rolling_update w e)
  unfolding rolling_update
  rolling_update-Lands e Q on goes again =
      let p = position e in
      let go = λ (rss : List ReplicaSet) (scaling_event : Bool).
        if scaling_event
        then (do sync w rss; set_step_state StepState.initial; pure no_requeue)
        else step_by_step w rss in
      Lands-bind Q p (get_replica_sets_for_deployment w) (λ rss. is_scaling_event w rss >>= go rss)
        e (get_replica_sets-Stays w) refl
        (λ rss listed lists here.
          Lands-bind Q p (is_scaling_event w rss) (go rss) listed (is_scaling_event-Stays w rss)
            here
            (λ scaling_event checked sees there.
              scaled_or_not p Q rss checked on there goes scaling_event (λ resized. again (record {
                rs_list = rss;
                listed = listed;
                checked = checked;
                lists = lists;
                sees = sees ∙ ap (λ (b : Bool). (ok b, checked)) resized;
              }))))

  -- handlePodTemplateUpdate lets a release go on whose template is the one that was observed.
  same_template :
      (e : Executor)
      → text_eq e.br.status.observed_update_reversion (template_hash w e) ≡ true
      → handle_pod_template_update w e ≡ (ok false, e)
  unfolding handle_pod_template_update
  same_template e same = elim (Bool-cases (text_eq e.br.status.observed_update_reversion [])) [
    | inl none_yet ↦ rw none_yet refl
    | inr observed ↦ rw (observed, same) refl
  ]

  unmarked_phase :
      (e : Executor)
      → IsRolling e.br.status.phase
      → is_pre_rollback e ≡ false
      → (e' : Executor) → phase_case w e.br.status.phase e e' ≡ rolling_update w e'
  unfolding phase_case
  unmarked_phase e (inl h) unmarked e' =
      ap (λ (ph : Phase). phase_case w ph e e') h ∙ rw unmarked refl
  unmarked_phase e (inr h) unmarked e' =
      ap (λ (ph : Phase). phase_case w ph e e') h ∙ rw unmarked refl

  -- What follows handlePodTemplateUpdate.
  abbrev next : Result Bool × Executor → Result Requeue × Executor
  next r = elim r.0 as (λ _. Result Requeue × Executor) [
    | ok updated ↦
        (gets (λ (e : Executor). e) >>= λ e.
        if updated then pure no_requeue else phase_case w e.br.status.phase e)
          r.1
    | err x ↦ (err x, r.1)
    | panic x ↦ (panic x, r.1)
  ]

  run-rolling :
      (e : Executor)
      → IsRolling e.br.status.phase
      → is_pre_rollback e ≡ false
      → text_eq e.br.status.observed_update_reversion (template_hash w e) ≡ true
      → run w e ≡ rolling_update w (clean_status_reason_and_message w e).1
  unfolding run clean_status_reason_and_message template_hash is_pre_rollback
  run-rolling e rolling unmarked same =
      let clean = (clean_status_reason_and_message w e).1 in
      ap next (same_template clean same) ∙ unmarked_phase clean rolling unmarked clean

  -- A run of Do on a release that is on one of its steps, of which there are fewer than 2^31, in the
  -- phase RollingUpdate or RollingBack, without a rollback mark and with the template that was
  -- observed: if it returns, the step has
  -- kept to its course (an initial step begins its upgrade, an upgrade goes on or the step blocks, a
  -- step that blocks waits unless it is the last one, which is then completed, and a completed step
  -- goes on to the next one, or to finalizing after the last), or it is initial again, where the
  -- replica sets that this run lists show a scaling event. If it fails or panics, the phase, the
  -- step and its state are as before.
  pub run-Rolled :
      (e : Executor)
      → IsOnStep (position e)
      → IsRolling e.br.status.phase
      → is_pre_rollback e ≡ false
      → text_eq e.br.status.observed_update_reversion (template_hash w e) ≡ true
      → Lands (Rolled w e) (position e) (run w e)
  unfolding clean_status_reason_and_message
  run-Rolled e on rolling unmarked same =
      subst (Lands (Rolled w e) (position e)) (sym (run-rolling e rolling unmarked same)) (
        rolling_update-Lands (clean_status_reason_and_message w e).1 (Rolled w e) on
          (λ q goes. inl goes) (λ sees. inr (refl, sees)))

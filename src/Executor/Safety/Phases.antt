-- ===== src/Executor/Safety/Phases.antt =====
-- The phases, Do, and panics.
use batch_release.Base.{
  ◌≡◌, refl, Bool, true, false, not, ◌&&◌, Option, none, some, [], if◌then◌else◌,
}
use batch_release.Base.Text.{Text, text_eq}
use batch_release.Objects.{Deployment, PodTemplate, RollingUpdate}
use batch_release.Release.{BatchRelease, Phase}
use batch_release.Executor.Monad.{
  Env, Executor, M, Result, ok, err, panic, bad_yaml, pure, throw, gets, ◌>>=◌, ◌>>◌,
}
use batch_release.Executor.Phases.{
  is_pre_rollback, template_hash, record_stable_version, clean_status_reason_and_message,
  handle_pod_template_update, save_limits, take_over, initialise, with_rollback, pre_rollback,
  remove_rollback_mark, finalize, begin_release, phase_case, run,
}
use batch_release.Executor.Store.{
  try_update_br, try_update_held_br, try_update_de, update_br, update_held_br, update_de,
}
use batch_release.Executor.Steps.{Requeue, no_requeue}
use batch_release.Executor.Position.Storing.{IsRetry}
use batch_release.Executor.Safety.{View, view, IsFit}
use batch_release.Executor.Safety.Held.{KeepsSpecs}
use batch_release.Executor.Safety.Creating.{ComparesTemplates}
use batch_release.Executor.Safety.Steps.{rolling_update-NoPanicAt}
use batch_release.Executor.Safety.Ending.{
  HasEnded, NoPanic, NoPanicAt, no_panic_rules, NoPanic-pure, NoPanic-throw, NoPanic-gets,
  NoPanic-if, NoPanic-option, NoPanic-bind, NoPanic-then, retry-NoPanic, NoPanicAt-NoPanic,
  NoPanicAt-if,
}

module _ (w : Env) (retry : IsRetry w) where
  try_update_br-NoPanic : (change : BatchRelease → BatchRelease) → NoPanic (try_update_br w change)
  unfolding try_update_br
  try_update_br-NoPanic change = search no_panic_rules depth 9

  try_update_held_br-NoPanic :
      (change : BatchRelease → BatchRelease) → NoPanic (try_update_held_br w change)
  unfolding try_update_held_br
  try_update_held_br-NoPanic change = search no_panic_rules depth 9

  try_update_de-NoPanic : (change : Deployment → Deployment) → NoPanic (try_update_de w change)
  unfolding try_update_de
  try_update_de-NoPanic change = search no_panic_rules depth 9

  update_br-NoPanic : (change : BatchRelease → BatchRelease) → NoPanic (update_br w change)
  unfolding update_br
  update_br-NoPanic change = retry-NoPanic w retry _ (try_update_br-NoPanic change)

  update_held_br-NoPanic :
      (change : BatchRelease → BatchRelease) → NoPanic (update_held_br w change)
  unfolding update_held_br
  update_held_br-NoPanic change = retry-NoPanic w retry _ (try_update_held_br-NoPanic change)

  pub update_de-NoPanic : (change : Deployment → Deployment) → NoPanic (update_de w change)
  unfolding update_de
  update_de-NoPanic change = retry-NoPanic w retry _ (try_update_de-NoPanic change)

  record_stable_version-NoPanic : (t : PodTemplate) → NoPanic (record_stable_version w t)
  unfolding record_stable_version
  record_stable_version-NoPanic t = NoPanic-bind _ _ (NoPanic-gets (λ (e : Executor). e)) (λ e.
      NoPanic-if _ _ _ (NoPanic-pure _) (
        NoPanic-option (w.vendor.yaml_marshal t) _ _ (λ yaml. update_br-NoPanic _)
          (NoPanic-pure _)))

  save_limits-NoPanic : (limits : Option RollingUpdate) → NoPanic (save_limits w limits)
  unfolding save_limits
  save_limits-NoPanic none = NoPanic-throw _
  save_limits-NoPanic (some limits) = search no_panic_rules

  take_over-NoPanic : NoPanic (take_over w)
  unfolding take_over
  take_over-NoPanic = search (no_panic_rules, update_de-NoPanic) depth 9

  initialise-NoPanic : NoPanic (initialise w)
  unfolding initialise
  initialise-NoPanic =
      search (no_panic_rules, save_limits-NoPanic, record_stable_version-NoPanic, take_over-NoPanic)
        depth 12

  begin_release-NoPanic : NoPanic (begin_release w)
  unfolding begin_release
  begin_release-NoPanic = search (no_panic_rules, initialise-NoPanic) depth 9

  rollback_spec-NoPanic :
      (pod_template : Text)
      → NoPanic {A = Requeue} (elim (w.vendor.yaml_unmarshal pod_template) [
        | none ↦ throw bad_yaml
        | some template ↦ do update_br w (with_rollback w template); pure no_requeue
      ])
  rollback_spec-NoPanic pod_template =
      NoPanic-option (w.vendor.yaml_unmarshal pod_template)
        (λ template. update_br w (with_rollback w template) >> pure no_requeue) (throw bad_yaml)
        (λ template.
          NoPanic-then _ _ (update_br-NoPanic (with_rollback w template)) (NoPanic-pure no_requeue))
        (NoPanic-throw bad_yaml)

  pre_rollback-NoPanic :
      (reversion pod_template : Text) → NoPanic (pre_rollback w reversion pod_template)
  unfolding pre_rollback
  pre_rollback-NoPanic reversion pod_template =
      search (no_panic_rules, rollback_spec-NoPanic, initialise-NoPanic) depth 14

  remove_rollback_mark-NoPanic : NoPanic (remove_rollback_mark w)
  unfolding remove_rollback_mark
  remove_rollback_mark-NoPanic = search (no_panic_rules, update_held_br-NoPanic)

  finalize-NoPanic : NoPanic (finalize w)
  unfolding finalize
  finalize-NoPanic =
      search (no_panic_rules, update_de-NoPanic, record_stable_version-NoPanic) depth 12

module _ (w : Env) (retry : IsRetry w) (keeps : KeepsSpecs w.client)
    (compares : ComparesTemplates w.vendor) (v : View) (fit : IsFit v) where
  phase_case-NoPanicAt : (ph : Phase) (e : Executor) → NoPanicAt v (phase_case w ph e)
  unfolding phase_case
  phase_case-NoPanicAt Phase.initial e = NoPanicAt-NoPanic v _ (begin_release-NoPanic w retry)
  phase_case-NoPanicAt Phase.rolling_update e =
      NoPanicAt-if v (is_pre_rollback e) _ _
        (NoPanicAt-NoPanic v _ (search (no_panic_rules, pre_rollback-NoPanic)))
        (rolling_update-NoPanicAt v fit w keeps compares)
  phase_case-NoPanicAt Phase.rolling_back e =
      NoPanicAt-if v (is_pre_rollback e) _ _
        (NoPanicAt-NoPanic v _ (remove_rollback_mark-NoPanic w retry))
        (rolling_update-NoPanicAt v fit w keeps compares)
  phase_case-NoPanicAt Phase.finalizing e = NoPanicAt-NoPanic v _ (finalize-NoPanic w retry)
  phase_case-NoPanicAt Phase.completed e =
      NoPanicAt-NoPanic v _ (search (no_panic_rules, pre_rollback-NoPanic) depth 9)
  phase_case-NoPanicAt (Phase.other p) e =
      NoPanicAt-NoPanic v _ (search (no_panic_rules, begin_release-NoPanic) depth 9)

  -- What handlePodTemplateUpdate leaves: the view, where the template is the one observed.
  abbrev Handled : Result Bool × Executor → Type 0
  Handled (ok true, e) = Unit {0}
  Handled (ok false, e) = view e ≡ v
  Handled (err x, e) = Unit {0}
  Handled (panic x, e) = ⊥

  Handled-if :
      (b : Bool) (m n : M Bool) (e : Executor)
      → Handled (m e)
      → Handled (n e)
      → Handled ((if b then m else n) e)
  Handled-if true m n e s t = s
  Handled-if false m n e s t = t

  handle_pod_template_update-Handled :
      (e : Executor) → view e ≡ v → Handled (handle_pod_template_update w e)
  unfolding handle_pod_template_update
  handle_pod_template_update-Handled e h =
      Handled-if
        (not (text_eq e.br.status.observed_update_reversion [])
          && (not (text_eq e.br.status.observed_update_reversion (template_hash w e))
              && not (is_pre_rollback e)))
        _ _ e tt h

  after_template :
      (r : Result Bool × Executor)
      → Handled r
      → HasEnded
          (elim r.0 as (λ _. Result Requeue × Executor) [
            | ok updated ↦
                (gets (λ (e : Executor). e) >>= λ e.
                if updated then pure no_requeue else phase_case w e.br.status.phase e)
                  r.1
            | err x ↦ (err x, r.1)
            | panic x ↦ (panic x, r.1)
          ]).0
  after_template (ok true, e) h = tt
  after_template (ok false, e) h = (phase_case-NoPanicAt e.br.status.phase e).run e h
  after_template (err x, e) h = tt
  after_template (panic x, e) h = elim h [ ]

  run-NoPanicAt : NoPanicAt v (run w)
  unfolding run clean_status_reason_and_message
  run-NoPanicAt = record { run = λ e h. after_template _ (handle_pod_template_update-Handled _ h) }

-- Where a write that conflicts is tried again as RetryOnConflict documents, the server stores the
-- templates and the selectors that it is sent, and equality.Semantic.DeepEqual is symmetric and
-- compares label maps by their entries, one run of Do returns or fails, and never panics, on a
-- release that is on one of its steps and a Deployment that has a selector and whose template's
-- labels have distinct keys.
pub run-HasEnded :
    (w : Env) (retry : IsRetry w) (keeps : KeepsSpecs w.client)
    (compares : ComparesTemplates w.vendor) (e : Executor)
    → IsFit (view e)
    → HasEnded (run w e).0
run-HasEnded w retry keeps compares e fit =
    (run-NoPanicAt w retry keeps compares (view e) fit).run e refl

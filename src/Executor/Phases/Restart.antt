-- ===== src/Executor/Phases/Restart.antt =====
-- The run of a release that is marked for a rollback and has the template of it already.
use batch_release.Base.{
  ◌≡◌, refl, ap, ◌∙◌, Bool, true, false, not, ◌||◌, ◌&&◌, Option, some, [], ◌∷◌, if◌then◌else◌,
}
use batch_release.Base.GoMap.{GoMap, get, put, or_empty}
use batch_release.Base.Int.{pos}
use batch_release.Base.Text.{Text, codes, text_eq}
use batch_release.Release.{
  Phase, StepState, rollback_mark, current_stable_reversion_key, current_stable_reversion_raw_key,
}
use batch_release.Executor.Monad.{Env, Executor, M, Result, ok, err, panic, gets, pure, ◌>>=◌, ◌>>◌}
use batch_release.Executor.Phases.{
  is_some, control_info, is_pre_rollback, phase_case, pre_rollback, stable_annotations,
  template_hash, taken_over, initialise, take_over, run, clean_status_reason_and_message,
  handle_pod_template_update,
}
use batch_release.Executor.Phases.Rollback.{get_current, marked, under_mark}
use batch_release.Executor.Steps.{Requeue, no_requeue, set_phase}
use batch_release.Executor.Store.{update_de}

-- init has saved the limits of the deployment's strategy.
abbrev pub IsLimited : Executor → Type 0
IsLimited e =
    (not (is_some e.br.status.max_unavailable) || not (is_some e.br.status.max_surge)) ≡ false

-- The limits are saved, and a stable version is recorded.
pub record IsReady (e : Executor) : Type 0 where
  pub limited : IsLimited e
  pub known : not (is_some (get current_stable_reversion_key e.br.annotations)) ≡ false

module _ (w : Env) where
  -- The release before its first step, as init leaves it.
  abbrev pub before_first_step : Executor → Executor
  before_first_step e = record e {
    br = record e.br {
      status = record e.br.status {
        current_step_index = pos 0;
        current_step_state = StepState.other [];
        updated_ready_replicas = pos 0;
        observed_update_reversion = template_hash w e;
      };
    };
  }

  -- The deployment is taken over with the template of the release, and the rollback begins.
  abbrev pub take_back : Executor → M Requeue
  take_back e =
      update_de w (taken_over (control_info w.vendor e.br) e.br.spec.template)
      >> (set_phase Phase.rolling_back >> pure no_requeue)

  initialise-take_over : (e : Executor) → IsReady e → initialise w e ≡ take_over w e
  unfolding initialise
  initialise-take_over e ready = rw (ready.limited, ready.known) refl

  -- What follows init.
  abbrev follow : Result Bool × Executor → Result Requeue × Executor
  follow r = elim r.0 as (λ _. Result Requeue × Executor) [
    | ok success ↦
        (if success then (set_phase Phase.rolling_back >> pure no_requeue) else pure no_requeue) r.1
    | err x ↦ (err x, r.1)
    | panic x ↦ (panic x, r.1)
  ]

  follow-then :
      (r : Result (Unit {0}) × Executor)
      → follow (elim r.0 as (λ _. Result Bool × Executor) [
        | ok u ↦ (ok true, r.1)
        | err x ↦ (err x, r.1)
        | panic x ↦ (panic x, r.1)
      ])
        ≡ elim r.0 as (λ _. Result Requeue × Executor) [
          | ok u ↦ (set_phase Phase.rolling_back >> pure no_requeue) r.1
          | err x ↦ (err x, r.1)
          | panic x ↦ (panic x, r.1)
        ]
  follow-then (ok u, e) = refl
  follow-then (err x, e) = refl
  follow-then (panic x, e) = refl

  init-begins :
      (e : Executor)
      → IsReady e
      → (do
        success ← initialise w
        if success then (do set_phase Phase.rolling_back; pure no_requeue) else pure no_requeue)
          e
        ≡ take_back e (before_first_step e)
  unfolding take_over template_hash
  init-begins e ready =
      ap follow (initialise-take_over e ready)
      ∙ follow-then (
          update_de w (taken_over (control_info w.vendor e.br) e.br.spec.template)
            (before_first_step e))

  pre_rollback-begins :
      (e : Executor) (reversion pod_template : Text)
      → text_eq reversion (template_hash w e) ≡ true
      → IsReady e
      → pre_rollback w reversion pod_template e
        ≡ take_back e (before_first_step (record e { events = codes "RollbackStarted" ∷ e.events }))
  unfolding pre_rollback template_hash
  pre_rollback-begins e reversion pod_template same ready =
      let e' = record e { events = codes "RollbackStarted" ∷ e.events } in
      rw same (init-begins e' (record { limited = ready.limited; known = ready.known }))

  -- A marked release is not begun again where its template has changed.
  handle_pod_template_update-marked :
      (e : Executor) → is_pre_rollback e ≡ true → handle_pod_template_update w e ≡ (ok false, e)
  unfolding handle_pod_template_update
  handle_pod_template_update-marked e h =
      let a = not (text_eq e.br.status.observed_update_reversion []) in
      let b = not (text_eq e.br.status.observed_update_reversion (template_hash w e)) in
      rw h (rw (stopped a b) refl)
    where
      stopped : (a b : Bool) → (a && (b && not true)) ≡ false
      stopped true true = refl
      stopped true false = refl
      stopped false b = refl

  abbrev pub cleaned : Executor → Executor
  cleaned e = (clean_status_reason_and_message w e).1

  -- What follows handlePodTemplateUpdate.
  abbrev next : Result Bool × Executor → Result Requeue × Executor
  next r = elim r.0 as (λ _. Result Requeue × Executor) [
    | ok updated ↦
        (gets (λ (e : Executor). e) >>= λ e.
        if updated then pure no_requeue else phase_case w e.br.status.phase e)
          r.1
    | err x ↦ (err x, r.1)
    | panic x ↦ (panic x, r.1)
  ]

  pub run-marked :
      (e : Executor)
      → is_pre_rollback e ≡ true
      → run w e ≡ phase_case w e.br.status.phase (cleaned e) (cleaned e)
  unfolding run clean_status_reason_and_message is_pre_rollback
  run-marked e h = ap next (handle_pod_template_update-marked (cleaned e) h)

module _ (w : Env) (hash yaml csv csvr mark : Text) (m : GoMap) (e : Executor)
    (recorded : e.br.annotations
      ≡ put rollback_mark mark (stable_annotations hash yaml csv csvr m)) where
  current_known : get current_stable_reversion_key e.br.annotations ≡ some hash
  unfolding text_eq
  current_known =
      under_mark w hash yaml csv csvr mark m e recorded current_stable_reversion_key (some hash)
        refl (get_current hash yaml csv csvr m)

  pub rolling-begins :
      text_eq hash (template_hash w e) ≡ true
      → IsLimited e
      → phase_case w Phase.rolling_update e e
        ≡ take_back w e (
            before_first_step w (record e {
              events = codes "RollbackStarted" ∷ codes "RollbackRequested" ∷ e.events;
            }))
  unfolding phase_case template_hash
  rolling-begins same limited =
      let e' = record e { events = codes "RollbackRequested" ∷ e.events } in
      let raw = or_empty (get current_stable_reversion_raw_key e.br.annotations) in
      rw (marked w hash yaml csv csvr mark m e recorded) (
        ap (λ (x : Option Text). pre_rollback w (or_empty x) raw e') current_known
        ∙ pre_rollback-begins w e' hash raw same (record {
          limited = limited;
          known = ap (λ (o : Option Text). not (is_some o)) current_known;
        }))

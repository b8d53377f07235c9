-- ===== src/Executor/Phases.antt =====
-- The phases of a release: Do, init, preRollback, removeRollbackMark, finalize,
-- handlePodTemplateUpdate and recordStableVersion (internal/controller/partition/executor.go).
pub mod Handover
pub mod Rollback
pub mod Restart
pub mod Restore
use batch_release.Base.{
  Bool, true, false, not, ◌&&◌, ◌||◌, Option, none, some, List, [], ◌∷◌, if◌then◌else◌,
}
use batch_release.Base.Int.{pos}
use batch_release.Base.Text.{Text, codes, text_eq}
use batch_release.Base.GoMap.{GoMap, get, or_empty, make_if_nil, put, delete}
use batch_release.Objects.{Deployment, PodTemplate, RollingUpdate, recreate, rolling}
use batch_release.Release.{
  BatchRelease, BatchReleaseStatus, Phase, Step, StepState, current_stable_reversion_key,
  current_stable_reversion_raw_key, last_stable_reversion_key, last_stable_reversion_raw_key,
  rollback_mark, control_info_anno,
}
use batch_release.Vendor.{Vendor}
use batch_release.Deployment.Hash.{compute_hash}
use batch_release.Executor.Monad.{
  Env, Executor, M, no_rolling_update_strategy, bad_yaml, pure, throw, gets, record_event, ◌>>=◌,
  ◌>>◌,
}
use batch_release.Executor.Steps.{Requeue, no_requeue, modify_status, set_phase, rolling_update}
use batch_release.Executor.Store.{update_br, update_held_br, update_de}

abbrev pub is_some : {A : Type 0} → Option A → Bool
is_some none = false
is_some (some a) = true

-- jsonutil.DumpJSON (pkg/util/json/json.go): the error of json.Marshal is dropped, with an empty text.
abbrev pub dump_json : Option Text → Text
dump_json none = []
dump_json (some text) = text

-- What names the release that controls a deployment.
abbrev pub control_info : Vendor → BatchRelease → Text
control_info v br = dump_json (v.marshal_controller_ref br)

unfoldable pub is_pre_rollback : Executor → Bool
is_pre_rollback e = is_some (get rollback_mark e.br.annotations)

-- The annotations that recordStableVersion writes over `m`: the hash and the text of the template,
-- and what was current before as the last one (itself, on the first release).
unfoldable pub stable_annotations : Text → Text → Text → Text → GoMap → GoMap
stable_annotations hash yaml csv csvr m =
    let current =
      put current_stable_reversion_raw_key yaml
        (put current_stable_reversion_key hash (make_if_nil m)) in
    if text_eq csv []
    then put last_stable_reversion_raw_key yaml (put last_stable_reversion_key hash current)
    else put last_stable_reversion_raw_key csvr (put last_stable_reversion_key csv current)

-- The deployment as init leaves it: the new template, paused, out of reach of the native
-- controller, and marked with the release that controls it.
unfoldable pub taken_over : Text → PodTemplate → Deployment → Deployment
taken_over control_info template d = record d {
  template = template;
  paused = true;
  strategy_type = recreate;
  rolling_update = none;
  annotations = put control_info_anno control_info (make_if_nil d.annotations);
}

-- The deployment as finalize hands it back.
unfoldable pub handed_back : BatchReleaseStatus → Deployment → Deployment
handed_back status d = record d {
  paused = false;
  strategy_type = rolling;
  rolling_update =
      some (record { max_unavailable = status.max_unavailable; max_surge = status.max_surge });
  annotations = delete control_info_anno d.annotations;
}

module _ (w : Env) where
  open w use {vendor}

  unfoldable pub template_hash : Executor → Text
  template_hash e = compute_hash vendor e.br.spec.template none

  -- A failure to serialise the template is only logged.
  unfoldable pub record_stable_version : PodTemplate → M (Unit {0})
  record_stable_version pod_template = do
    e ← gets (λ (e : Executor). e)
    let csv = or_empty (get current_stable_reversion_key e.br.annotations)
    let csvr = or_empty (get current_stable_reversion_raw_key e.br.annotations)
    let hash = compute_hash vendor pod_template none
    if text_eq csv hash then pure tt else elim (vendor.yaml_marshal pod_template) [
      | none ↦ pure tt
      | some yaml ↦
          update_br w
            (λ br. record br { annotations = stable_annotations hash yaml csv csvr br.annotations })
    ]

  unfoldable pub clean_status_reason_and_message : M (Unit {0})
  clean_status_reason_and_message = modify_status (λ st. record st { reason = []; message = [] })

  unfoldable pub handle_pod_template_update : M Bool
  handle_pod_template_update = do
    e ← gets (λ (e : Executor). e)
    let observed = e.br.status.observed_update_reversion
    if not (text_eq observed [])
          && (not (text_eq observed (template_hash e)) && not (is_pre_rollback e))
        then (do
          record_event (codes "BatchReleaseUpdated")
          modify_status (λ st. record st {
            observed_update_reversion = template_hash e;
            phase = Phase.initial;
          })
          pure true)
        else pure false

  -- The branch of init that copies the limits of the deployment's strategy.
  unfoldable pub save_limits : Option RollingUpdate → M Bool
  save_limits none = throw no_rolling_update_strategy
  save_limits (some limits) = do
    modify_status
        (λ st. record st { max_unavailable = limits.max_unavailable; max_surge = limits.max_surge })
    pure false

  -- The last part of init: the status starts again, and the deployment is taken over.
  unfoldable pub take_over : M Bool
  take_over = do
    e ← gets (λ (e : Executor). e)
    modify_status (λ st. record st {
      current_step_index = pos 0;
      current_step_state = StepState.other [];
      updated_ready_replicas = pos 0;
      observed_update_reversion = template_hash e;
    })
    update_de w (taken_over (control_info vendor e.br) e.br.spec.template)
    pure true

  -- `init`; the value says whether it is done, or has to be called again.
  unfoldable pub initialise : M Bool
  initialise = do
    e ← gets (λ (e : Executor). e)
    if not (is_some e.br.status.max_unavailable) || not (is_some e.br.status.max_surge)
        then save_limits e.de.rolling_update
        else if not (is_some (get current_stable_reversion_key e.br.annotations))
        then (do record_stable_version e.de.template; pure false)
        else take_over

  -- The steps of a rollback.
  unfoldable pub rollback_steps : List Step
  rollback_steps =
      record { replicas = vendor.parse (codes "1") }
      ∷ record { replicas = vendor.parse (codes "100%") }
      ∷ []

  unfoldable pub with_rollback : PodTemplate → BatchRelease → BatchRelease
  with_rollback template br = record br {
    spec = record br.spec { strategy = record { steps = rollback_steps }; template = template };
  }

  unfoldable pub pre_rollback : Text → Text → M Requeue
  pre_rollback reversion pod_template = do
    record_event (codes "RollbackStarted")
    hash ← gets template_hash
    if not (text_eq reversion hash)
        then elim (vendor.yaml_unmarshal pod_template) [
          | none ↦ throw bad_yaml
          | some template ↦ do update_br w (with_rollback template); pure no_requeue
        ]
        else (do
          success ← initialise
          if success then (do set_phase Phase.rolling_back; pure no_requeue) else pure no_requeue)

  unfoldable pub remove_rollback_mark : M Requeue
  remove_rollback_mark = do
    update_held_br w (λ br. record br { annotations = delete rollback_mark br.annotations })
    pure no_requeue

  unfoldable pub finalize : M Requeue
  finalize = do
    e ← gets (λ (e : Executor). e)
    update_de w (handed_back e.br.status)
    record_stable_version e.br.spec.template
    record_event (codes "BatchReleaseCompleted")
    set_phase Phase.completed
    pure no_requeue

  -- The case of PhaseInitial.
  unfoldable pub begin_release : M Requeue
  begin_release = do
    success ← initialise
    if success
        then (do
          record_event (codes "BatchReleaseStarted")
          set_phase Phase.rolling_update
          pure no_requeue)
        else pure no_requeue

  -- The switch on the phase; the default goes on to PhaseInitial.
  unfoldable pub phase_case : Phase → Executor → M Requeue
  phase_case Phase.initial e = begin_release
  phase_case Phase.rolling_update e =
      if is_pre_rollback e
      then (do
        record_event (codes "RollbackRequested")
        pre_rollback (or_empty (get current_stable_reversion_key e.br.annotations))
            (or_empty (get current_stable_reversion_raw_key e.br.annotations)))
      else rolling_update w
  phase_case Phase.rolling_back e =
      if is_pre_rollback e then remove_rollback_mark else rolling_update w
  phase_case Phase.finalizing e = finalize
  phase_case Phase.completed e =
      if is_pre_rollback e
      then (do
        record_event (codes "RollbackRequested")
        pre_rollback (or_empty (get last_stable_reversion_key e.br.annotations))
            (or_empty (get last_stable_reversion_raw_key e.br.annotations)))
      else pure no_requeue
  phase_case (Phase.other p) e = do set_phase Phase.initial; begin_release

  -- `Do`
  unfoldable pub run : M Requeue
  run = do
    clean_status_reason_and_message
    updated ← handle_pod_template_update
    e ← gets (λ (e : Executor). e)
    if updated then pure no_requeue else phase_case e.br.status.phase e

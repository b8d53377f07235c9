-- ===== src/Controller/Survival.antt =====
-- A reconciliation and panics: Reconcile, and the write of the status after the run
-- (internal/controller/batchrelease_controller.go).
use batch_release.Base.{◌≡◌, ◌≢◌, refl, some, List, [], ◌∷◌}
use batch_release.Base.GoMap.{entries}
use batch_release.Base.Text.{Text}
use batch_release.Labels.Lookup.{IsMap}
use batch_release.Objects.{Deployment, Selector}
use batch_release.Release.{BatchRelease}
use batch_release.Deployment.Progress.{deployment_rollout_satisfied}
use batch_release.Executor.Monad.{
  Env, Executor, Client, Call, Error, Fault, server, Result, ok, err, panic, Answer, answer, refuse,
  not_found, conflict, already_exists, namespace_terminating, other_error, get_batch_release,
  get_deployment, pure, ◌>>◌,
}
use batch_release.Executor.Phases.{run}
use batch_release.Executor.OldSets.{current_partition}
use batch_release.Executor.Ready.{desired_partition}
use batch_release.Executor.Steps.{Requeue, no_requeue, after_default}
use batch_release.Executor.Store.{try_update_br_status, update_br_status}
use batch_release.Executor.Position.{position, position_of}
use batch_release.Executor.Position.Move.{IsOnStep}
use batch_release.Executor.Position.Reach.{Move-IsOnStep}
use batch_release.Executor.Position.Runs.{run-Move}
use batch_release.Executor.Position.Storing.{IsRetry, KeepsSteps}
use batch_release.Executor.Safety.{
  View, view, IsFit, Any, Safe, safe_rules, Safe-pure, Safe-bind, Safe-then, Safe-option,
}
use batch_release.Executor.Safety.Held.{KeepsSpecs}
use batch_release.Executor.Safety.Creating.{ComparesTemplates}
use batch_release.Executor.Safety.Scaling.{current_partition-Safe}
use batch_release.Executor.Safety.Ending.{HasEnded, retry-Safe, NoPanicAt-Safe}
use batch_release.Executor.Safety.Phases.{run-HasEnded}
use batch_release.Controller.{
  Outcome, reconciled, failed, crashed, sync_batch_release_status, settle, outcome, after_run,
  reconcile,
}

-- The Deployments that the server holds have a selector, which it requires, and the labels of their
-- template are a map.
pub record GetsDeployments (c : Client) : Type 0 where
  pub selected :
      (calls : List Call) (name namespace : Text) (d : Deployment)
      → c.on_get_deployment calls name namespace ≡ answer d
      → (s : Selector) × (d.selector ≡ some s)
  pub labelled :
      (calls : List Call) (name namespace : Text) (d : Deployment)
      → c.on_get_deployment calls name namespace ≡ answer d
      → IsMap (entries d.template.labels)

abbrev Survives : Outcome × List Call → Type 0
Survives o = (f : Fault) → o.0 ≢ crashed f

module _ (w : Env) (retry : IsRetry w) (v : View) where
  try_update-Safe :
      (old : BatchRelease) (change : BatchRelease → BatchRelease)
      → Safe v Any (try_update_br_status w old change)
  unfolding try_update_br_status
  try_update-Safe old change = search safe_rules depth 9

  update-Safe :
      (old : BatchRelease) (change : BatchRelease → BatchRelease)
      → Safe v Any (update_br_status w old change)
  unfolding update_br_status
  update-Safe old change =
      retry-Safe w retry v (try_update_br_status w old change) (try_update-Safe old change)

  sync-Safe : (old : BatchRelease) → Safe v Any (sync_batch_release_status w old)
  unfolding sync_batch_release_status
  sync-Safe old = search (safe_rules, update-Safe) depth 9

  settle-Safe : IsOnStep v.at → (d : Deployment) (r : Requeue) → Safe v Any (settle w d r)
  unfolding settle desired_partition
  settle-Safe on d after_default = Safe-pure v after_default
  settle-Safe on d no_requeue =
      Safe-bind v Any current_partition _ (current_partition-Safe v on) (λ partition.
        Safe-option v Any (deployment_rollout_satisfied w.vendor d partition)
          (λ u. pure after_default) (pure no_requeue) (λ u. Safe-pure v after_default)
          (Safe-pure v no_requeue))

module _ (w : Env) where
  outcome-Survives : (r : Result Requeue × Executor) → HasEnded r.0 → Survives (outcome w r)
  unfolding outcome
  outcome-Survives (ok r, e) h f = λ k. cc
  outcome-Survives (err x, e) h f = λ k. cc
  outcome-Survives (panic x, e) h f = elim h [ ]

  after_error :
      (x : Error) (r : Result (Unit {0}) × Executor)
      → HasEnded r.0
      → Survives (elim r.0 as (λ _. Outcome × List Call) [
        | ok u ↦ (failed (x ∷ []), r.1.calls)
        | err y ↦ (failed (x ∷ y ∷ []), r.1.calls)
        | panic y ↦ (crashed y, r.1.calls)
      ])
  after_error x (ok u, e) h f = λ k. cc
  after_error x (err y, e) h f = λ k. cc
  after_error x (panic y, e) h f = elim h [ ]

  after_run-Survives :
      IsRetry w
      → (br : BatchRelease) (d : Deployment) (r : Result Requeue × Executor) → HasEnded r.0
      → IsOnStep (position r.1)
      → Survives (after_run w br d r)
  unfolding after_run
  after_run-Survives retry br d (ok r, e) h on =
      outcome-Survives ((sync_batch_release_status w br >> settle w d r) e) (
        (NoPanicAt-Safe (view e) Any (sync_batch_release_status w br >> settle w d r) (
            Safe-then (view e) Any _ _ (sync-Safe w retry (view e) br)
              (settle-Safe w retry (view e) on d r))).run
          e refl)
  after_run-Survives retry br d (err x, e) h on = after_error x (sync_batch_release_status w br e) (
      (NoPanicAt-Safe (view e) Any (sync_batch_release_status w br)
          (sync-Safe w retry (view e) br)).run
        e refl)
  after_run-Survives retry br d (panic x, e) h on = elim h [ ]

module _ (w : Env) (retry : IsRetry w) (steps : KeepsSteps w.client) (specs : KeepsSpecs w.client)
    (gets_de : GetsDeployments w.client) (compares : ComparesTemplates w.vendor) where
  held-Survives :
      (e : Executor) (d : Deployment) → IsFit (view e) → Survives (after_run w e.br d (run w e))
  held-Survives e d fit =
      after_run-Survives w retry e.br d (run w e) (run-HasEnded w retry specs compares e fit) (
        Move-IsOnStep (position e) (position (run w e).1) fit.on_step
          (run-Move w retry steps e fit.on_step))

  with_workload-Survives :
      (name namespace : Text) (br : BatchRelease) (calls : List Call)
      → IsOnStep (position_of br)
      → (a : Answer Deployment) → w.client.on_get_deployment calls name namespace ≡ a
      → let calls' = get_deployment name namespace ∷ calls in
        Survives (elim a as (λ _. Outcome × List Call) [
          | refuse x ↦ (failed (server x ∷ []), calls')
          | answer d ↦
              after_run w br d (run w (record { br = br; de = d; calls = calls'; events = [] }))
        ])
  with_workload-Survives name namespace br calls on (refuse x) h = λ f k. cc
  with_workload-Survives name namespace br calls on (answer d) h =
      held-Survives
        (record { br = br; de = d; calls = get_deployment name namespace ∷ calls; events = [] }) d
        (record {
          on_step = on;
          selected = gets_de.selected calls name namespace d h;
          labelled = gets_de.labelled calls name namespace d h;
        })

  with_release-Survives :
      (name namespace : Text) (calls : List Call)
      → (a : Answer BatchRelease) → w.client.on_get_batch_release calls name namespace ≡ a
      → let calls' = get_batch_release name namespace ∷ calls in
        Survives (elim a as (λ _. Outcome × List Call) [
          | refuse not_found ↦ (reconciled no_requeue, calls')
          | refuse x ↦ (failed (server x ∷ []), calls')
          | answer br ↦
              let workload = br.spec.workload_ref.name in
              let calls'' = get_deployment workload namespace ∷ calls' in
              elim (w.client.on_get_deployment calls' workload namespace) [
                | refuse x ↦ (failed (server x ∷ []), calls'')
                | answer de ↦
                    after_run w br de
                      (run w (record { br = br; de = de; calls = calls''; events = [] }))
              ]
        ])
  with_release-Survives name namespace calls (refuse not_found) h = λ f k. cc
  with_release-Survives name namespace calls (refuse conflict) h = λ f k. cc
  with_release-Survives name namespace calls (refuse already_exists) h = λ f k. cc
  with_release-Survives name namespace calls (refuse namespace_terminating) h = λ f k. cc
  with_release-Survives name namespace calls (refuse other_error) h = λ f k. cc
  with_release-Survives name namespace calls (answer br) h =
      with_workload-Survives br.spec.workload_ref.name namespace br
        (get_batch_release name namespace ∷ calls) (steps.got calls name namespace br h)
        (w.client.on_get_deployment (get_batch_release name namespace ∷ calls)
          br.spec.workload_ref.name namespace)
        refl

  -- Where a write that conflicts is tried again as RetryOnConflict documents, the server keeps
  -- releases on one of their steps, of which there are fewer than 2^31, and the templates and
  -- selectors that it is sent, its Deployments have a selector and template labels with distinct
  -- keys, and equality.Semantic.DeepEqual is symmetric and compares label maps by their entries, a
  -- reconciliation never panics: it ends with a result or with errors.
  pub reconcile-Survives :
      (name namespace : Text) (calls : List Call) (f : Fault)
      → (reconcile w name namespace calls).0 ≢ crashed f
  unfolding reconcile
  reconcile-Survives name namespace calls =
      with_release-Survives name namespace calls
        (w.client.on_get_batch_release calls name namespace) refl

-- ===== src/Executor/NewReplicaSet.antt =====
-- Finding or creating the new replica set: getAllReplicaSetsAndSyncRevision, getNewReplicaSet and
-- getReplicaSetsForDeployment (internal/controller/partition/executor.go).
use batch_release.Base.{
  Bool, true, false, not, ◌&&◌, ◌||◌, Option, none, some, List, [], ◌∷◌, ◌++◌, if◌then◌else◌,
}
use batch_release.Base.Int.{ℤ, pos, ltb_ℤ, eqb_ℤ, ◌+ℤ◌, add32, to_int64}
use batch_release.Base.Text.{Text, codes, text_eq, print_int}
use batch_release.Base.GoMap.{get, or_empty}
use batch_release.Objects.{
  ReplicaSet, Deployment, DeploymentCondition, Selector, cond_true, cond_false,
}
use batch_release.Labels.{clone_and_add_label, clone_selector_and_add_label}
use batch_release.Deployment.Annotations.{
  revision_annotation, max_revision, set_deployment_revision,
}
use batch_release.Deployment.Conditions.{
  get_deployment_condition, new_deployment_condition, set_deployment_condition,
  progressing_condition, found_new_rs_reason, failed_rs_create_reason, new_replica_set_reason,
}
use batch_release.Deployment.Counts.{append_new}
use batch_release.Deployment.Find.{equal_ignore_hash, pod_template_hash_label}
use batch_release.Deployment.Hash.{compute_hash}
use batch_release.Deployment.Progress.{has_progress_deadline}
use batch_release.Executor.Monad.{
  Env, Executor, M, Result, Answer, answer, refuse, ServerError, already_exists,
  namespace_terminating, server, pure, throw, gets, modify, deref, catch, send, record_event, Call,
  patch_replica_set, create_replica_set, get_replica_set, update_deployment_status, ◌>>=◌, ◌>>◌,
}
use batch_release.Executor.NewSet.{new_rs_new_replicas, new_rs_replicas_lower_bound}
use batch_release.Executor.OldSets.{current_partition}
use batch_release.Executor.Revision.{
  max_rev_history_length_in_chars, set_new_replica_set_annotations,
}
use batch_release.Executor.Scale.{max_surge}

-- `e.de` is written through its pointer.
abbrev pub hold_de : Deployment → M (Unit {0})
hold_de d = modify (λ e. record e { de = d })

-- A request whose error is looked at.
abbrev pub ask : {A : Type 0} → (List Call → Answer A) → Call → M (Answer A)
ask on_call call e = (Result.ok (on_call e.calls), record e { calls = call ∷ e.calls })

-- The revision after the greatest of the old ones.
unfoldable pub next_revision : List ReplicaSet → Text
next_revision old_rss = print_int (to_int64 (max_revision old_rss +ℤ pos 1))

abbrev is_missing : Option DeploymentCondition → Bool
is_missing none = true
is_missing (some c) = false

-- `controllerRef != nil && controllerRef.UID == e.de.UID`
abbrev is_owner : Option Text → Text → Bool
is_owner none uid = false
is_owner (some owner) uid = text_eq owner uid

-- The deployment with a Progressing condition set in its status.
unfoldable pub with_progressing : Deployment → DeploymentCondition → Deployment
with_progressing d c = record d { status = set_deployment_condition d.status c }

abbrev bump : Option ℤ → Option ℤ
bump none = some (pos 1)
bump (some n) = some (add32 n (pos 1))

-- `collisionCount` goes up, from 0 where it is nil.
unfoldable pub with_collision : Deployment → Deployment
with_collision d = record d {
  status = record d.status { collision_count = bump d.status.collision_count };
}

module _ (w : Env) where
  open w use {client, vendor, now, error_text}

  -- `client.Status().Update(ctx, e.de)`, which writes the server's answer to e.de.
  unfoldable pub update_held_de_status : M (Unit {0})
  update_held_de_status = do
    d ← gets (λ (e : Executor). e.de)
    updated ←
        send (λ calls. client.on_update_deployment_status calls d) (update_deployment_status d)
    hold_de updated

  -- The same where an error is only logged.
  unfoldable pub try_update_held_de_status : M (Unit {0})
  try_update_held_de_status = catch update_held_de_status (pure tt) pure

  -- The Progressing condition that records `reason` at this instant.
  unfoldable pub progressing : Text → Text → DeploymentCondition
  progressing reason message =
      new_deployment_condition now progressing_condition cond_true reason message

  -- The branch for a new replica set that exists.
  unfoldable pub sync_existing : ReplicaSet → Text → M ReplicaSet
  sync_existing existing new_revision = do
    de ← gets (λ (e : Executor). e.de)
    surge ← gets (max_surge w)
    let (annotated, annotations_updated) =
        set_new_replica_set_annotations de surge existing new_revision true
          max_rev_history_length_in_chars
    let rs_copy = record annotated { min_ready_seconds = de.min_ready_seconds }
    if annotations_updated || not (eqb_ℤ annotated.min_ready_seconds de.min_ready_seconds)
        then send (λ calls. client.on_patch_replica_set calls existing rs_copy)
            (patch_replica_set existing rs_copy)
        else (do
          let (revised, updated) =
              set_deployment_revision de (or_empty (get revision_annotation annotated.annotations))
          let unseen =
              has_progress_deadline de
              && is_missing (get_deployment_condition de.status progressing_condition)
          let message = codes "Found new replica set \"" ++ annotated.name ++ codes "\""
          hold_de (
              if unseen
              then with_progressing revised (progressing found_new_rs_reason message)
              else revised)
          (if updated || unseen then update_held_de_status else pure tt)
          pure annotated)

  -- The new replica set before its size and its annotations are known.
  unfoldable pub fresh_replica_set : Deployment → Selector → ReplicaSet
  fresh_replica_set de selector =
      let hash = compute_hash vendor de.template de.status.collision_count in
      let labels = clone_and_add_label de.template.labels pod_template_hash_label hash in
      record {
        name = de.name ++ codes "-" ++ hash;
        namespace = de.namespace;
        uid = [];
        labels = labels;
        annotations = none;
        controller = some de.uid;
        creation_timestamp = 0;
        deletion_timestamp = none;
        replicas = pos 0;
        min_ready_seconds = de.min_ready_seconds;
        selector = some (clone_selector_and_add_label selector pod_template_hash_label hash);
        template = record de.template { labels = labels };
        status = record {
          replicas = pos 0;
          ready_replicas = pos 0;
          available_replicas = pos 0;
          conditions = [];
        };
      }

  -- After the creation: the deployment's revision and its Progressing condition.
  unfoldable pub note_creation : Bool → ReplicaSet → ℤ → Text → M ReplicaSet
  note_creation exists_already created count new_revision = do
    (if not exists_already && ltb_ℤ (pos 0) count
        then record_event (codes "ScalingReplicaSet")
        else pure tt)
    de ← gets (λ (e : Executor). e.de)
    let (revised, updated) = set_deployment_revision de new_revision
    let announced = not exists_already && has_progress_deadline de
    let message = codes "Created new replica set \"" ++ created.name ++ codes "\""
    hold_de (
        if announced
        then with_progressing revised (progressing new_replica_set_reason message)
        else revised)
    (if updated || announced then update_held_de_status else pure tt)
    pure created

  -- The replica set of that name exists: it is the new one, or the hashes collide.
  unfoldable pub resolve_existing : ReplicaSet → ℤ → Text → M ReplicaSet
  resolve_existing new_rs count new_revision = do
    rs ←
        send (λ calls. client.on_get_replica_set calls new_rs.namespace new_rs.name)
          (get_replica_set new_rs.namespace new_rs.name)
    de ← gets (λ (e : Executor). e.de)
    if is_owner rs.controller de.uid && equal_ignore_hash vendor de.template rs.template
        then note_creation true rs count new_revision
        else (do
          hold_de (with_collision de)
          try_update_held_de_status
          throw (server already_exists))

  unfoldable pub report_failure : ServerError → ReplicaSet → M ReplicaSet
  report_failure x new_rs = do
    de ← gets (λ (e : Executor). e.de)
    let message =
        codes "Failed to create new replica set \"" ++ new_rs.name ++ codes "\": " ++ error_text x
    let failed =
        new_deployment_condition now progressing_condition cond_false failed_rs_create_reason
          message
    (if has_progress_deadline de
        then (do hold_de (with_progressing de failed); try_update_held_de_status)
        else pure tt)
    record_event failed_rs_create_reason
    throw (server x)

  -- The switch on the error of the creation.
  unfoldable pub after_creation : Answer ReplicaSet → ReplicaSet → ℤ → Text → M ReplicaSet
  after_creation (answer created) new_rs count new_revision =
      note_creation false created count new_revision
  after_creation (refuse already_exists) new_rs count new_revision =
      resolve_existing new_rs count new_revision
  after_creation (refuse namespace_terminating) new_rs count new_revision =
      throw (server namespace_terminating)
  after_creation (refuse x) new_rs count new_revision = report_failure x new_rs

  unfoldable pub create_new : List ReplicaSet → Text → M ReplicaSet
  create_new old_rss new_revision = do
    de ← gets (λ (e : Executor). e.de)
    surge ← gets (max_surge w)
    selector ← deref de.selector
    let fresh = fresh_replica_set de selector
    partition ← current_partition
    let count = new_rs_new_replicas w surge de (append_new old_rss (some fresh)) fresh partition
    let size = vendor.int32_max count (new_rs_replicas_lower_bound w surge de)
    let new_rs =
        (set_new_replica_set_annotations de surge (record fresh { replicas = size }) new_revision
          false max_rev_history_length_in_chars).0
    created ← ask (λ calls. client.on_create_replica_set calls new_rs) (create_replica_set new_rs)
    after_creation created new_rs count new_revision

  -- getNewReplicaSet, by what FindNewReplicaSet finds.
  unfoldable pub get_new_replica_set :
      Option ReplicaSet → List ReplicaSet → Bool → M (Option ReplicaSet)
  get_new_replica_set (some existing) old_rss create = do
    rs ← sync_existing existing (next_revision old_rss)
    pure (some rs)
  get_new_replica_set none old_rss false = pure none
  get_new_replica_set none old_rss true = do
    rs ← create_new old_rss (next_revision old_rss)
    pure (some rs)

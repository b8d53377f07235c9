-- ===== src/Executor/Position/Creating.antt =====
-- Finding or creating the new replica set, and writing the deployment's status, leave the position
-- of the release alone.
use batch_release.Base.{refl, Bool, true, false, Option, none, some, List}
use batch_release.Base.Int.{ℤ}
use batch_release.Base.Text.{Text}
use batch_release.Objects.{ReplicaSet, Deployment, DeploymentStatus}
use batch_release.Executor.Listing.{
  get_all_replica_sets_and_sync_revision, get_replica_sets_for_deployment, is_scaling_event,
}
use batch_release.Executor.Monad.{
  Env, Executor, Answer, answer, refuse, ServerError, not_found, conflict, already_exists,
  namespace_terminating, other_error,
}
use batch_release.Executor.NewReplicaSet.{
  update_held_de_status, try_update_held_de_status, sync_existing, note_creation, resolve_existing,
  report_failure, after_creation, create_new, get_new_replica_set,
}
use batch_release.Executor.Status.{
  patch_deployment_status, sync_deployment_status, rollout_status, sync_rollout_status, ready_of,
  set_updated_ready_replicas,
}
use batch_release.Executor.Position.{
  Stays, stays_rules, Stays-pure, Stays-throw, Stays-gets, Stays-bind, Stays-then, Stays-modify,
}
use batch_release.Executor.Position.Scaling.{current_partition-Stays}

module _ (w : Env) where
  update_held_de_status-Stays : Stays (update_held_de_status w)
  unfolding update_held_de_status
  update_held_de_status-Stays = search stays_rules

  try_update-Stays : Stays (try_update_held_de_status w)
  unfolding try_update_held_de_status
  try_update-Stays = search (stays_rules, update_held_de_status-Stays)

  sync_existing-Stays : (rs : ReplicaSet) (rev : Text) → Stays (sync_existing w rs rev)
  unfolding sync_existing
  sync_existing-Stays rs rev = search (stays_rules, update_held_de_status-Stays) depth 12

  note_creation-Stays :
      (exists : Bool) (rs : ReplicaSet) (n : ℤ) (rev : Text)
      → Stays (note_creation w exists rs n rev)
  unfolding note_creation
  note_creation-Stays exists rs n rev = search (stays_rules, update_held_de_status-Stays) depth 12

  resolve_existing-Stays :
      (rs : ReplicaSet) (n : ℤ) (rev : Text) → Stays (resolve_existing w rs n rev)
  unfolding resolve_existing
  resolve_existing-Stays rs n rev =
      search (stays_rules, note_creation-Stays, try_update-Stays) depth 12

  report_failure-Stays : (x : ServerError) (rs : ReplicaSet) → Stays (report_failure w x rs)
  unfolding report_failure
  report_failure-Stays x rs = search (stays_rules, try_update-Stays) depth 12

  after_creation-Stays :
      (a : Answer ReplicaSet) (rs : ReplicaSet) (n : ℤ) (rev : Text)
      → Stays (after_creation w a rs n rev)
  unfolding after_creation
  after_creation-Stays (answer created) rs n rev = note_creation-Stays false created n rev
  after_creation-Stays (refuse already_exists) rs n rev = resolve_existing-Stays rs n rev
  after_creation-Stays (refuse namespace_terminating) rs n rev = Stays-throw _
  after_creation-Stays (refuse not_found) rs n rev = report_failure-Stays not_found rs
  after_creation-Stays (refuse conflict) rs n rev = report_failure-Stays conflict rs
  after_creation-Stays (refuse other_error) rs n rev = report_failure-Stays other_error rs

  create_new-Stays : (rss : List ReplicaSet) (rev : Text) → Stays (create_new w rss rev)
  unfolding create_new
  create_new-Stays rss rev =
      search (stays_rules, current_partition-Stays, after_creation-Stays) depth 14

  get_new_replica_set-Stays :
      (found : Option ReplicaSet) (rss : List ReplicaSet) (create : Bool)
      → Stays (get_new_replica_set w found rss create)
  unfolding get_new_replica_set
  get_new_replica_set-Stays (some rs) rss create = search (stays_rules, sync_existing-Stays)
  get_new_replica_set-Stays none rss false = Stays-pure _
  get_new_replica_set-Stays none rss true = search (stays_rules, create_new-Stays)

  pub get_all-Stays :
      (rss : List ReplicaSet) (create : Bool)
      → Stays (get_all_replica_sets_and_sync_revision w rss create)
  unfolding get_all_replica_sets_and_sync_revision
  get_all-Stays rss create = search (stays_rules, get_new_replica_set-Stays)

  pub get_replica_sets-Stays : Stays (get_replica_sets_for_deployment w)
  unfolding get_replica_sets_for_deployment
  get_replica_sets-Stays = search stays_rules depth 9

  pub is_scaling_event-Stays : (rss : List ReplicaSet) → Stays (is_scaling_event w rss)
  unfolding is_scaling_event
  is_scaling_event-Stays rss = search (stays_rules, get_all-Stays) depth 9

  patch_status-Stays :
      (d : Deployment) (status : DeploymentStatus) → Stays (patch_deployment_status w d status)
  unfolding patch_deployment_status
  patch_status-Stays d status = search stays_rules depth 9

  pub sync_deployment_status-Stays :
      (rss : List (Option ReplicaSet)) (new_rs : Option ReplicaSet)
      → Stays (sync_deployment_status w rss new_rs)
  unfolding sync_deployment_status
  sync_deployment_status-Stays rss new_rs = search (stays_rules, patch_status-Stays)

  pub sync_rollout_status-Stays :
      (rss : List (Option ReplicaSet)) (new_rs : Option ReplicaSet)
      → Stays (sync_rollout_status w rss new_rs)
  unfolding sync_rollout_status
  sync_rollout_status-Stays rss new_rs =
      Stays-bind _ _ (Stays-gets (λ (e : Executor). e)) (λ (e : Executor).
        Stays-then _ _
          (Stays-modify (λ e. set_updated_ready_replicas e (ready_of new_rs)) (λ e. refl))
          (patch_status-Stays e.de (rollout_status w e rss new_rs)))

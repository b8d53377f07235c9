-- ===== src/Executor/Safety/Listing.antt =====
-- Listing the replica sets, with the new one among them, and writing the Deployment's status.
use batch_release.Base.{◌≡◌, refl, subst, Bool, true, false, Option, none, some, List}
use batch_release.Objects.{ReplicaSet, Deployment, DeploymentStatus, PodTemplate}
use batch_release.Deployment.Find.{equal_ignore_hash, find_new_replica_set, find_old_replica_sets}
use batch_release.Deployment.Order.{by_creation_timestamp}
use batch_release.Base.Sort.{sort}
use batch_release.Executor.Monad.{Env, Executor, pure, ◌>>=◌}
use batch_release.Executor.NewReplicaSet.{get_new_replica_set, next_revision}
use batch_release.Executor.Listing.{
  get_all_replica_sets_and_sync_revision, get_replica_sets_for_deployment, is_scaling_event,
}
use batch_release.Executor.Status.{
  patch_deployment_status, sync_deployment_status, rollout_status, sync_rollout_status, ready_of,
  set_updated_ready_replicas,
}
use batch_release.Executor.OldSets.Partition.{first_matching-matches}
use batch_release.Executor.Safety.{
  View, IsFit, Any, Safe, safe_rules, Safe-value, Safe-step, Safe-forget, Safe-bind, Safe-gets,
  Safe-then, Safe-modify,
}
use batch_release.Executor.Safety.Held.{KeepsSpecs, IsHeld, Safe-with_de}
use batch_release.Executor.Safety.Creating.{ComparesTemplates, IsNew, sync_existing-Safe}
use batch_release.Executor.Safety.NewReplicaSet.{create_new-Safe}

module _ (v : View) (w : Env) where
  -- What is found is new, and something is found where it may be created.
  abbrev pub IsFound : Bool → Option ReplicaSet → Type 0
  IsFound create (some rs) = IsNew v w rs
  IsFound true none = ⊥
  IsFound false none = Unit {0}

  find_new_replica_set-IsFound :
      (de : Deployment) (rss : List ReplicaSet) (o : Option ReplicaSet)
      → find_new_replica_set w.vendor de rss ≡ o
      → IsHeld v de
      → IsFound false o
  unfolding find_new_replica_set
  find_new_replica_set-IsFound de rss none h held = tt
  find_new_replica_set-IsFound de rss (some rs) h held =
      subst (λ (t : PodTemplate). equal_ignore_hash w.vendor rs.template t ≡ true) held.0
        (first_matching-matches w.vendor de.template (sort by_creation_timestamp rss) rs h)

module _ (v : View) (fit : IsFit v) (w : Env) (keeps : KeepsSpecs w.client)
    (compares : ComparesTemplates w.vendor) where
  get_new_replica_set-Safe :
      (found : Option ReplicaSet) (rss : List ReplicaSet) (create : Bool)
      → IsFound v w false found
      → Safe v (IsFound v w create) (get_new_replica_set w found rss create)
  unfolding get_new_replica_set
  get_new_replica_set-Safe (some rs) rss create new =
      Safe-step v (IsNew v w) (IsFound v w create) _ _
        (sync_existing-Safe v w keeps rs (next_revision rss) new)
        (λ rs' new'. Safe-value v (IsFound v w create) (some rs') new')
  get_new_replica_set-Safe none rss false h = Safe-value v (IsFound v w false) none tt
  get_new_replica_set-Safe none rss true h =
      Safe-step v (IsNew v w) (IsFound v w true) _ _
        (create_new-Safe v fit w keeps compares rss (next_revision rss))
        (λ rs' new'. Safe-value v (IsFound v w true) (some rs') new')

  -- The new replica set, beside the old ones.
  abbrev Listed : Bool → Option ReplicaSet × List ReplicaSet → Type 0
  Listed create a = IsFound v w create a.0

  found_for-Safe :
      (de : Deployment) (rss old_rss : List ReplicaSet) (create : Bool)
      → IsHeld v de
      → Safe v (Listed create) (do
        new_rs ← get_new_replica_set w (find_new_replica_set w.vendor de rss) old_rss create
        pure (new_rs, old_rss))
  found_for-Safe de rss old_rss create held =
      Safe-step v (IsFound v w create) (Listed create) _ _
        (get_new_replica_set-Safe (find_new_replica_set w.vendor de rss) old_rss create
          (find_new_replica_set-IsFound v w de rss _ refl held))
        (λ o found. Safe-value v (Listed create) (o, old_rss) found)

  pub get_all-Safe :
      (rss : List ReplicaSet) (create : Bool)
      → Safe v (λ a. IsFound v w create a.0) (get_all_replica_sets_and_sync_revision w rss create)
  unfolding get_all_replica_sets_and_sync_revision
  get_all-Safe rss create =
      Safe-with_de v (Listed create) _
        (λ de held. found_for-Safe de rss (find_old_replica_sets w.vendor de rss).1 create held)

  pub get_either-Safe :
      (rss : List ReplicaSet) (create : Bool)
      → Safe v Any (get_all_replica_sets_and_sync_revision w rss create)
  get_either-Safe rss create = Safe-forget v (Listed create) _ (get_all-Safe rss create)

  pub is_scaling_event-Safe : (rss : List ReplicaSet) → Safe v Any (is_scaling_event w rss)
  unfolding is_scaling_event
  is_scaling_event-Safe rss = search (safe_rules, get_either-Safe) depth 9

module _ (v : View) (w : Env) where
  pub get_replica_sets-Safe : Safe v Any (get_replica_sets_for_deployment w)
  unfolding get_replica_sets_for_deployment
  get_replica_sets-Safe = search safe_rules depth 9

  patch_status-Safe :
      (d : Deployment) (status : DeploymentStatus) → Safe v Any (patch_deployment_status w d status)
  unfolding patch_deployment_status
  patch_status-Safe d status = search safe_rules depth 9

  pub sync_deployment_status-Safe :
      (rss : List (Option ReplicaSet)) (new_rs : Option ReplicaSet)
      → Safe v Any (sync_deployment_status w rss new_rs)
  unfolding sync_deployment_status
  sync_deployment_status-Safe rss new_rs = search (safe_rules, patch_status-Safe)

  pub sync_rollout_status-Safe :
      (rss : List (Option ReplicaSet)) (new_rs : Option ReplicaSet)
      → Safe v Any (sync_rollout_status w rss new_rs)
  unfolding sync_rollout_status
  sync_rollout_status-Safe rss new_rs =
      Safe-bind v Any _ _ (Safe-gets v (λ (e : Executor). e)) (λ (e : Executor).
        Safe-then v Any _ _
          (Safe-modify v (λ e. set_updated_ready_replicas e (ready_of new_rs)) (λ e h. h))
          (patch_status-Safe e.de (rollout_status w e rss new_rs)))

-- ===== src/Executor/Status/Available.antt =====
-- The Available condition of the status that syncRolloutStatus writes.
use batch_release.Base.{
  ℕ, ◌≡◌, refl, ◌∙◌, subst, Bool, true, false, Option, none, some, List, [], ◌∷◌, All, arith,
  if◌then◌else◌,
}
use batch_release.Base.Int.{leb_ℤ, sub32}
use batch_release.Base.Text.{Text, text_eq, text_eq_iff, codes}
use batch_release.Objects.{
  ReplicaSet, Deployment, DeploymentCondition, DeploymentStatus, ConditionStatus, cond_true,
  cond_false, same_status,
}
use batch_release.Deployment.Conditions.{
  get_deployment_condition, set_deployment_condition, remove_deployment_condition,
  new_deployment_condition, available_condition, progressing_condition, minimum_replicas_available,
  minimum_replicas_unavailable, replica_failure_condition,
}
use batch_release.Deployment.Conditions.Lookup.{
  get_deployment_condition-set_deployment_condition, set_deployment_condition_others,
  get_deployment_condition-remove_deployment_condition,
}
use batch_release.Deployment.Counts.{get_available_replica_count}
use batch_release.Executor.Monad.{Env, Executor}
use batch_release.Executor.Scale.{max_unavailable}
use batch_release.Executor.Status.Failures.{get_replica_failures-AreFailures}
use batch_release.Executor.Status.{
  get_replica_failures, with_progress, estimate_progress, with_failures, counted_status,
  calculate_status, rollout_status,
}

-- The status says whether the deployment has its minimum of available pods.
pub record SaysAvailable (b : Bool) (status : DeploymentStatus) : Type 0 where
  pub held : DeploymentCondition
  pub found : get_deployment_condition status available_condition ≡ some held
  pub says : held.status ≡ (if b then cond_true else cond_false)

module _ (b : Bool) where
  SaysAvailable-if :
      (test : Bool) (s t : DeploymentStatus)
      → SaysAvailable b s
      → SaysAvailable b t
      → SaysAvailable b (if test then s else t)
  SaysAvailable-if true s t h k = h
  SaysAvailable-if false s t h k = k

  SaysAvailable-own :
      (status : DeploymentStatus) (c : DeploymentCondition)
      → c.kind ≡ available_condition
      → c.status ≡ (if b then cond_true else cond_false)
      → SaysAvailable b (set_deployment_condition status c)
  SaysAvailable-own status c own says =
      let (held, found, same, reason) =
        get_deployment_condition-set_deployment_condition status c in
      record {
        held = held;
        found =
            subst
              (λ (k : Text).
                get_deployment_condition (set_deployment_condition status c) k ≡ some held)
              own found;
        says = same ∙ says;
      }

  SaysAvailable-set :
      (status : DeploymentStatus) (c : DeploymentCondition)
      → text_eq c.kind available_condition ≡ false
      → SaysAvailable b status
      → SaysAvailable b (set_deployment_condition status c)
  SaysAvailable-set status c other h = record {
    held = h.held;
    found =
        set_deployment_condition_others status c available_condition
          (ground (arith, other, text_eq_iff c.kind available_condition))
        ∙ h.found;
    says = h.says;
  }

  SaysAvailable-remove :
      (status : DeploymentStatus) (kind : Text)
      → text_eq kind available_condition ≡ false
      → SaysAvailable b status
      → SaysAvailable b (remove_deployment_condition status kind)
  SaysAvailable-remove status kind other h = record {
    held = h.held;
    found =
        get_deployment_condition-remove_deployment_condition status kind available_condition
        ∙ rw other h.found;
    says = h.says;
  }

  not_progressing : text_eq progressing_condition available_condition ≡ false
  unfolding text_eq
  not_progressing = refl

  not_failure : text_eq replica_failure_condition available_condition ≡ false
  unfolding text_eq
  not_failure = refl

  new_progressing :
      (now : ℕ) (status : ConditionStatus) (reason message : Text)
      → text_eq
          (new_deployment_condition now progressing_condition status reason message).kind
          available_condition
        ≡ false
  unfolding new_deployment_condition
  new_progressing now status reason message = not_progressing

  with_progress-SaysAvailable :
      (current : Option DeploymentCondition) (c : DeploymentCondition) (status : DeploymentStatus)
      → text_eq c.kind available_condition ≡ false
      → SaysAvailable b status
      → SaysAvailable b (with_progress current c status)
  unfolding with_progress
  with_progress-SaysAvailable none c status other h = SaysAvailable-set status c other h
  with_progress-SaysAvailable (some current) c status other h =
      let removed = remove_deployment_condition status progressing_condition in
      let without = SaysAvailable-remove status progressing_condition not_progressing h in
      go (same_status current.status cond_true) removed without
    where
      go :
          (same : Bool) (s : DeploymentStatus)
          → SaysAvailable b s
          → SaysAvailable b (
              set_deployment_condition s (
                if same
                then record c { last_transition_time = current.last_transition_time }
                else c))
      go true s k = SaysAvailable-set s _ other k
      go false s k = SaysAvailable-set s c other k

  estimate_progress-SaysAvailable :
      (now : ℕ) (d : Deployment) (new_rs : Option ReplicaSet) (current : Option DeploymentCondition)
      (status : DeploymentStatus)
      → SaysAvailable b status
      → SaysAvailable b (estimate_progress now d new_rs current status)
  unfolding estimate_progress
  estimate_progress-SaysAvailable now d new_rs current status h =
      search (SaysAvailable-if, SaysAvailable-set, with_progress-SaysAvailable, new_progressing)
        depth 9

  with_failures-SaysAvailable :
      (cs : List DeploymentCondition) (status : DeploymentStatus)
      → All (λ c. c.kind ≡ replica_failure_condition) cs
      → SaysAvailable b status
      → SaysAvailable b (with_failures cs status)
  unfolding with_failures
  with_failures-SaysAvailable [] status hs h =
      SaysAvailable-remove status replica_failure_condition not_failure h
  with_failures-SaysAvailable (c ∷ cs) status hs h =
      SaysAvailable-set status c (rw hs.0 not_failure) h

module _ (w : Env) (e : Executor) (all_rss : List (Option ReplicaSet))
    (new_rs : Option ReplicaSet) where
  -- As many pods are available as the deployment wants, less those that may be missing.
  abbrev pub has_minimum : Bool
  has_minimum =
      leb_ℤ (sub32 e.de.replicas (max_unavailable w e)) (get_available_replica_count all_rss)

  calculate_status-SaysAvailable : SaysAvailable has_minimum (calculate_status w e all_rss new_rs)
  unfolding calculate_status new_deployment_condition
  calculate_status-SaysAvailable = go has_minimum (counted_status w e all_rss new_rs)
    where
      go :
          (b : Bool) (s : DeploymentStatus)
          → SaysAvailable b (
              if b
              then set_deployment_condition s (
                  new_deployment_condition w.now available_condition cond_true
                    minimum_replicas_available
                    (codes "Deployment has minimum availability."))
              else set_deployment_condition s (
                  new_deployment_condition w.now available_condition cond_false
                    minimum_replicas_unavailable
                    (codes "Deployment does not have minimum availability.")))
      go true s = SaysAvailable-own true s _ refl refl
      go false s = SaysAvailable-own false s _ refl refl

  pub rollout_status-SaysAvailable : SaysAvailable has_minimum (rollout_status w e all_rss new_rs)
  unfolding rollout_status
  rollout_status-SaysAvailable =
      with_failures-SaysAvailable has_minimum (get_replica_failures all_rss new_rs) _
        (get_replica_failures-AreFailures all_rss new_rs)
        (search
          (
            SaysAvailable-if, SaysAvailable-remove, estimate_progress-SaysAvailable,
            not_progressing, calculate_status-SaysAvailable,
          )
          depth 9)

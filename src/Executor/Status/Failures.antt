-- ===== src/Executor/Status/Failures.antt =====
-- The type of the conditions that getReplicaFailures collects.
use batch_release.Base.{
  ◌≡◌, Option, none, some, List, [], ◌∷◌, All, All-append, Bool-cases, inl, inr,
}
use batch_release.Base.Text.{text_eq, text_eq_iff}
use batch_release.Objects.{ReplicaSet, ReplicaSetCondition, DeploymentCondition}
use batch_release.Deployment.Conditions.{
  replica_failure_condition, replica_set_to_deployment_condition,
}
use batch_release.Executor.Status.{
  failures_of, failures_of_all, failures_of_new, first_nonempty, get_replica_failures,
}

-- The failure conditions are all of their type.
abbrev pub AreFailures : List DeploymentCondition → Type 0
AreFailures = All (λ c. c.kind ≡ replica_failure_condition)

failures_of-AreFailures : (cs : List ReplicaSetCondition) → AreFailures (failures_of cs)
unfolding failures_of replica_set_to_deployment_condition
failures_of-AreFailures [] = tt
failures_of-AreFailures (c ∷ cs) = elim (Bool-cases (text_eq c.kind replica_failure_condition)) [
  | inl failure ↦
      rw failure
        ((text_eq_iff c.kind replica_failure_condition).0 failure, failures_of-AreFailures cs)
  | inr other ↦ rw other (failures_of-AreFailures cs)
]

failures_of_all-AreFailures : (rss : List (Option ReplicaSet)) → AreFailures (failures_of_all rss)
unfolding failures_of_all
failures_of_all-AreFailures [] = tt
failures_of_all-AreFailures (none ∷ rss) = failures_of_all-AreFailures rss
failures_of_all-AreFailures (some rs ∷ rss) =
    All-append (λ c. c.kind ≡ replica_failure_condition) (failures_of rs.status.conditions)
      (failures_of_all rss) (failures_of-AreFailures rs.status.conditions)
      (failures_of_all-AreFailures rss)

first_nonempty-AreFailures :
    (cs ds : List DeploymentCondition)
    → AreFailures cs
    → AreFailures ds
    → AreFailures (first_nonempty cs ds)
first_nonempty-AreFailures [] ds h k = k
first_nonempty-AreFailures (c ∷ cs) ds h k = h

failures_of_new-AreFailures : (new_rs : Option ReplicaSet) → AreFailures (failures_of_new new_rs)
failures_of_new-AreFailures none = tt
failures_of_new-AreFailures (some rs) = failures_of-AreFailures rs.status.conditions

pub get_replica_failures-AreFailures :
    (all_rss : List (Option ReplicaSet)) (new_rs : Option ReplicaSet)
    → AreFailures (get_replica_failures all_rss new_rs)
unfolding get_replica_failures
get_replica_failures-AreFailures all_rss new_rs =
    first_nonempty-AreFailures (failures_of_new new_rs) (failures_of_all all_rss)
      (failures_of_new-AreFailures new_rs) (failures_of_all-AreFailures all_rss)

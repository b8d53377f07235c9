-- ===== src/Deployment/Conditions.antt =====
-- The conditions of a deployment's status (pkg/util/deployment/deployment.go). The clock is read
-- once for both instants of a new condition.
pub mod Lookup
pub mod Unique
use batch_release.Base.{ℕ, ◌&&◌, Option, none, some, List, [], ◌∷◌, ◌++◌, if◌then◌else◌}
use batch_release.Base.Text.{Text, codes, text_eq}
use batch_release.Objects.{
  DeploymentCondition, DeploymentStatus, ReplicaSetCondition, ConditionStatus, same_status,
}

abbrev pub available_condition : Text
available_condition = codes "Available"

abbrev pub progressing_condition : Text
progressing_condition = codes "Progressing"

abbrev pub replica_failure_condition : Text
replica_failure_condition = codes "ReplicaFailure"

abbrev pub found_new_rs_reason : Text
found_new_rs_reason = codes "FoundNewReplicaSet"

abbrev pub failed_rs_create_reason : Text
failed_rs_create_reason = codes "ReplicaSetCreateError"

abbrev pub new_replica_set_reason : Text
new_replica_set_reason = codes "NewReplicaSetCreated"

abbrev pub minimum_replicas_available : Text
minimum_replicas_available = codes "MinimumReplicasAvailable"

abbrev pub minimum_replicas_unavailable : Text
minimum_replicas_unavailable = codes "MinimumReplicasUnavailable"

abbrev pub new_rs_available_reason : Text
new_rs_available_reason = codes "NewReplicaSetAvailable"

abbrev pub replica_set_updated_reason : Text
replica_set_updated_reason = codes "ReplicaSetUpdated"

abbrev pub timed_out_reason : Text
timed_out_reason = codes "ProgressDeadlineExceeded"

-- The loop of GetDeploymentCondition: the first condition of the type.
unfoldable pub find_condition : Text → List DeploymentCondition → Option DeploymentCondition
find_condition kind [] = none
find_condition kind (c ∷ cs) = if text_eq c.kind kind then some c else find_condition kind cs

unfoldable pub get_deployment_condition : DeploymentStatus → Text → Option DeploymentCondition
get_deployment_condition status kind = find_condition kind status.conditions

unfoldable pub new_deployment_condition :
    ℕ → Text → ConditionStatus → Text → Text → DeploymentCondition
new_deployment_condition now kind status reason message = record {
  kind = kind;
  status = status;
  last_update_time = now;
  last_transition_time = now;
  reason = reason;
  message = message;
}

unfoldable pub filter_out_condition : List DeploymentCondition → Text → List DeploymentCondition
filter_out_condition [] kind = []
filter_out_condition (c ∷ cs) kind =
    let rest = filter_out_condition cs kind in if text_eq c.kind kind then rest else c ∷ rest

abbrev append_condition : DeploymentStatus → DeploymentCondition → DeploymentStatus
append_condition status c = record status {
  conditions = filter_out_condition status.conditions c.kind ++ c ∷ [];
}

-- SetDeploymentCondition, by the condition that the status holds already.
replace_condition :
    Option DeploymentCondition → DeploymentStatus → DeploymentCondition → DeploymentStatus
replace_condition none status c = append_condition status c
replace_condition (some current) status c =
    if same_status current.status c.status && text_eq current.reason c.reason
    then status
    else append_condition status (
        if same_status current.status c.status
        then record c { last_transition_time = current.last_transition_time }
        else c)

unfoldable pub set_deployment_condition : DeploymentStatus → DeploymentCondition → DeploymentStatus
unfolding replace_condition
set_deployment_condition status c =
    replace_condition (get_deployment_condition status c.kind) status c

unfoldable pub remove_deployment_condition : DeploymentStatus → Text → DeploymentStatus
remove_deployment_condition status kind = record status {
  conditions = filter_out_condition status.conditions kind;
}

unfoldable pub replica_set_to_deployment_condition : ReplicaSetCondition → DeploymentCondition
replica_set_to_deployment_condition c = record {
  kind = c.kind;
  status = c.status;
  last_update_time = c.last_transition_time;
  last_transition_time = c.last_transition_time;
  reason = c.reason;
  message = c.message;
}

-- ===== src/Examples/Conditions.antt =====
-- The conditions of a deployment of which enough pods are available.
use batch_release.Base.{◌≡◌, Option, some, List, ◌∷◌, [], if◌then◌else◌}
use batch_release.Base.Int.{pos, leb_ℤ, sub32}
use batch_release.Base.Text.{codes}
use batch_release.Objects.{ReplicaSet, DeploymentCondition, cond_true, cond_false}
use batch_release.Deployment.Conditions.{get_deployment_condition, available_condition}
use batch_release.Deployment.Conditions.Unique.{HasDistinct}
use batch_release.Deployment.Counts.{get_available_replica_count}
use batch_release.Executor.Scale.{max_unavailable}
use batch_release.Executor.Status.{rollout_status}
use batch_release.Executor.Status.Conditions.{rollout_status_conditions}
use batch_release.Examples.Positions.{at_second_step}
use batch_release.Examples.Sample.{env, replica_set, old_template, template}

abbrev new_set : Option ReplicaSet
new_set = some (replica_set (codes "web-2") template 2 4 4)

abbrev sets : List (Option ReplicaSet)
sets = some (replica_set (codes "web-1") old_template 1 6 5) ∷ new_set ∷ []

no_conditions : HasDistinct at_second_step.de.status
no_conditions = record { distinct = tt }

rollout_status_conditions_example :
    let status = rollout_status env at_second_step sets new_set in
    HasDistinct status
    × ((held : DeploymentCondition) × (get_deployment_condition status available_condition
          ≡ some held)
        × (held.status ≡ (
            if leb_ℤ
              (sub32 (pos 10) (max_unavailable env at_second_step))
              (get_available_replica_count sets)
            then cond_true
            else cond_false)))
rollout_status_conditions_example =
    rollout_status_conditions env at_second_step sets new_set no_conditions

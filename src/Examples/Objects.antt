-- ===== src/Examples/Objects.antt =====
-- The annotations, conditions and counts of concrete objects.
use batch_release.Base.{◌≡◌, ◌≢◌, false, some, [], arith}
use batch_release.Base.Int.{pos}
use batch_release.Base.Text.{codes, text_eq, text_eq_iff}
use batch_release.Deployment.Annotations.{
  set_replicas_annotations, replicas_annotations_need_update, get_replicas_annotation,
  get_max_replicas_annotation,
}
use batch_release.Deployment.Annotations.RoundTrip.{
  get_replicas_annotation-set_replicas_annotations, set_replicas_annotations_updated,
}
use batch_release.Deployment.Conditions.{
  get_deployment_condition, set_deployment_condition, progressing_condition, available_condition,
  new_rs_available_reason,
}
use batch_release.Deployment.Conditions.Lookup.{
  get_deployment_condition-set_deployment_condition, set_deployment_condition_others,
}
use batch_release.Objects.{ReplicaSet, DeploymentCondition, cond_true}
use batch_release.Examples.Sample.{deployment, replica_set, old_template}

abbrev old_set : ReplicaSet
old_set = replica_set (codes "web-1") old_template 1 4 4

get_replicas_annotation-set_replicas_annotations_example :
    let rs' = (set_replicas_annotations old_set (pos 10) (pos 13)).0 in
    (get_replicas_annotation rs' ≡ some (pos 10))
    × (get_max_replicas_annotation rs' ≡ some (pos 13))
    × (replicas_annotations_need_update rs' (pos 10) (pos 13) ≡ false)
get_replicas_annotation-set_replicas_annotations_example =
    get_replicas_annotation-set_replicas_annotations old_set (pos 10) (pos 13) (omega arith)
      (omega arith)

set_replicas_annotations_updated_example :
    (set_replicas_annotations old_set (pos 10) (pos 13)).1
    ≡ replicas_annotations_need_update old_set (pos 10) (pos 13)
set_replicas_annotations_updated_example =
    set_replicas_annotations_updated old_set (pos 10) (pos 13) (omega arith) (omega arith)

abbrev progressing : DeploymentCondition
progressing = record {
  kind = progressing_condition;
  status = cond_true;
  last_update_time = 5;
  last_transition_time = 5;
  reason = new_rs_available_reason;
  message = [];
}

get_deployment_condition-set_deployment_condition_example :
    (held : DeploymentCondition) × (get_deployment_condition
        (set_deployment_condition deployment.status progressing)
        progressing_condition
      ≡ some held)
    × (held.status ≡ cond_true)
    × (held.reason ≡ new_rs_available_reason)
get_deployment_condition-set_deployment_condition_example =
    get_deployment_condition-set_deployment_condition deployment.status progressing

other_kind : progressing_condition ≢ available_condition
unfolding text_eq
other_kind e = ground (arith, (text_eq_iff progressing_condition available_condition).1 e)

set_deployment_condition_others_example :
    get_deployment_condition
      (set_deployment_condition deployment.status progressing)
      available_condition
    ≡ get_deployment_condition deployment.status available_condition
set_deployment_condition_others_example =
    set_deployment_condition_others deployment.status progressing available_condition other_kind

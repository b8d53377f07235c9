-- ===== src/Objects.antt =====
-- The Kubernetes objects that the controller reads and writes (apps/v1 Deployment and ReplicaSet,
-- their statuses and conditions), with the fields that the program touches. Pointers to numbers
-- that the API server always fills in (`spec.replicas`) are plain values here; other pointers are
-- options. Instants are numbers of nanoseconds.
use batch_release.Base.{ℕ, Bool, true, false, ◌&&◌, Option, none, some, List, [], ◌∷◌, ◌==◌}
use batch_release.Base.Int.{ℤ, eqb_ℤ}
use batch_release.Base.Text.{Text, text_eq}
use batch_release.Base.GoMap.{GoMap}

-- intstr.IntOrString
pub data IntOrString : Type 0 where
  int_value : ℤ → IntOrString
  str_value : Text → IntOrString

-- v1.PodTemplateSpec: the labels, and all the rest as one opaque text.
pub record PodTemplate : Type 0 where
  pub labels : GoMap
  pub content : Text

-- metav1.LabelSelectorRequirement; `values` is nil or a list.
pub record Requirement : Type 0 where
  pub key : Text
  pub operator : Text
  pub values : Option (List Text)

-- metav1.LabelSelector
pub record Selector : Type 0 where
  pub match_labels : GoMap
  pub match_expressions : Option (List Requirement)

pub data ConditionStatus : Type 0 where
  cond_true cond_false cond_unknown : ConditionStatus

abbrev pub same_status : ConditionStatus → ConditionStatus → Bool
same_status cond_true cond_true = true
same_status cond_false cond_false = true
same_status cond_unknown cond_unknown = true
same_status _ _ = false

-- apps.DeploymentCondition
pub record DeploymentCondition : Type 0 where
  pub kind : Text  -- the field `Type`
  pub status : ConditionStatus
  pub last_update_time : ℕ
  pub last_transition_time : ℕ
  pub reason : Text
  pub message : Text

-- apps.ReplicaSetCondition
pub record ReplicaSetCondition : Type 0 where
  pub kind : Text
  pub status : ConditionStatus
  pub last_transition_time : ℕ
  pub reason : Text
  pub message : Text

-- apps.ReplicaSetStatus; the counts are int32.
pub record ReplicaSetStatus : Type 0 where
  pub replicas : ℤ
  pub ready_replicas : ℤ
  pub available_replicas : ℤ
  pub conditions : List ReplicaSetCondition

-- apps.ReplicaSet
pub record ReplicaSet : Type 0 where
  pub name : Text
  pub namespace : Text
  pub uid : Text
  pub labels : GoMap
  pub annotations : GoMap
  pub controller : Option Text  -- the UID of the controlling owner
  pub creation_timestamp : ℕ
  pub deletion_timestamp : Option ℕ
  pub replicas : ℤ  -- spec.replicas
  pub min_ready_seconds : ℤ
  pub selector : Option Selector
  pub template : PodTemplate
  pub status : ReplicaSetStatus

-- apps.DeploymentStatus
pub record DeploymentStatus : Type 0 where
  pub observed_generation : ℤ
  pub replicas : ℤ
  pub updated_replicas : ℤ
  pub ready_replicas : ℤ
  pub available_replicas : ℤ
  pub unavailable_replicas : ℤ
  pub conditions : List DeploymentCondition
  pub collision_count : Option ℤ

-- reflect.DeepEqual on two statuses, field by field; a nil list of conditions is an empty one.
same_condition : DeploymentCondition → DeploymentCondition → Bool
same_condition a b =
    text_eq a.kind b.kind
    && (same_status a.status b.status
        && (a.last_update_time == b.last_update_time
            && (a.last_transition_time == b.last_transition_time
                && (text_eq a.reason b.reason && text_eq a.message b.message))))

same_conditions : List DeploymentCondition → List DeploymentCondition → Bool
unfolding same_condition
same_conditions [] [] = true
same_conditions (a ∷ as') (b ∷ bs) = same_condition a b && same_conditions as' bs
same_conditions _ _ = false

same_count : Option ℤ → Option ℤ → Bool
same_count none none = true
same_count (some a) (some b) = eqb_ℤ a b
same_count _ _ = false

unfoldable pub same_deployment_status : DeploymentStatus → DeploymentStatus → Bool
unfolding same_conditions same_count
same_deployment_status a b =
    eqb_ℤ a.observed_generation b.observed_generation
    && (eqb_ℤ a.replicas b.replicas
        && (eqb_ℤ a.updated_replicas b.updated_replicas
            && (eqb_ℤ a.ready_replicas b.ready_replicas
                && (eqb_ℤ a.available_replicas b.available_replicas
                    && (eqb_ℤ a.unavailable_replicas b.unavailable_replicas
                        && (same_conditions a.conditions b.conditions
                            && same_count a.collision_count b.collision_count))))))

pub data StrategyType : Type 0 where
  recreate rolling : StrategyType

-- apps.RollingUpdateDeployment
pub record RollingUpdate : Type 0 where
  pub max_unavailable : Option IntOrString
  pub max_surge : Option IntOrString

-- apps.Deployment
pub record Deployment : Type 0 where
  pub name : Text
  pub namespace : Text
  pub uid : Text
  pub generation : ℤ
  pub annotations : GoMap
  pub replicas : ℤ  -- spec.replicas
  pub selector : Option Selector
  pub template : PodTemplate
  pub paused : Bool
  pub strategy_type : StrategyType
  pub rolling_update : Option RollingUpdate
  pub min_ready_seconds : ℤ
  pub progress_deadline_seconds : Option ℤ
  pub status : DeploymentStatus

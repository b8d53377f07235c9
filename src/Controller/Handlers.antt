-- ===== src/Controller/Handlers.antt =====
-- Which events on ReplicaSets and Deployments have a BatchRelease reconciled
-- (internal/controller/batchrelease_event_handller.go).
pub mod Requests
use batch_release.Base.{Bool, true, false, Option, none, some, List, [], ◌∷◌, if◌then◌else◌}
use batch_release.Base.GoMap.{GoMap, get}
use batch_release.Base.Int.{ℤ, eqb_ℤ}
use batch_release.Base.Text.{Text}
use batch_release.Objects.{ReplicaSet, Deployment}
use batch_release.Release.{control_info_anno}

-- `client.Object`, as far as the handlers look at its type.
pub data Object : Type 0 where
  replica_set : ReplicaSet → Object
  deployment : Deployment → Object
  another : Object

pub data Event : Type 0 where
  created deleted generic : Object → Event
  updated : Object → Object → Event  -- ObjectOld, ObjectNew

-- `reconcile.Request`
pub record Request : Type 0 where
  pub namespace : Text
  pub name : Text

-- `struct { Name, Namespace string }`, which the handler of ReplicaSets reads; a field that the text
-- does not have is empty.
pub record ControlInfo : Type 0 where
  pub name : Text
  pub namespace : Text

-- json.Unmarshal into the structs of the two handlers; `none` is an error.
pub record Json : Type 0 where
  pub unmarshal_info : Text → Option ControlInfo
  pub unmarshal_name : Text → Option Text

-- `a != nil && b != nil && *a == *b`
unfoldable pub same_replicas : Option ℤ → Option ℤ → Bool
same_replicas (some a) (some b) = eqb_ℤ a b
same_replicas _ _ = false

-- The requests that each handler adds to the queue.
module _ (json : Json) where
  -- What comes after the annotation was found.
  unfoldable pub enqueue_info : Option ControlInfo → List Request
  enqueue_info none = []
  enqueue_info (some info) = record { namespace = info.namespace; name = info.name } ∷ []

  unfoldable pub enqueue_name : Text → Option Text → List Request
  enqueue_name namespace none = []
  enqueue_name namespace (some name) = record { namespace = namespace; name = name } ∷ []

  unfoldable pub handle_replica_set : Object → List Request
  handle_replica_set (replica_set rs) = elim (get control_info_anno rs.annotations) [
    | none ↦ []
    | some control_info ↦ enqueue_info (json.unmarshal_info control_info)
  ]
  handle_replica_set _ = []

  unfoldable pub handle_deployment : Object → List Request
  handle_deployment (deployment d) = elim (get control_info_anno d.annotations) [
    | none ↦ []
    | some control_info ↦ enqueue_name d.namespace (json.unmarshal_name control_info)
  ]
  handle_deployment _ = []

  -- The methods of enqueueRequestForReplicaset.
  unfoldable pub on_replica_set : Event → List Request
  on_replica_set (created o) = handle_replica_set o
  on_replica_set (deleted o) = handle_replica_set o
  on_replica_set (generic o) = handle_replica_set o
  on_replica_set (updated old new) = handle_replica_set new

  -- The methods of enqueueRequestForDeployment. The model's deployments have `spec.replicas`.
  unfoldable pub on_deployment : Event → List Request
  on_deployment (updated (deployment old) (deployment new)) =
      if same_replicas (some old.replicas) (some new.replicas)
      then []
      else handle_deployment (deployment new)
  on_deployment _ = []

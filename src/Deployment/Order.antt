-- ===== src/Deployment/Order.antt =====
-- The four orders in which replica sets are sorted (pkg/util/deployment/deployment.go).
use batch_release.Base.{Bool, none, some, ltb, ◌==◌, if◌then◌else◌}
use batch_release.Base.Int.{ltb_ℤ, eqb_ℤ}
use batch_release.Base.Text.{text_lt}
use batch_release.Objects.{ReplicaSet}
use batch_release.Deployment.Annotations.{revision}

-- ReplicaSetsByCreationTimestamp: older first, by name where two are of one instant.
unfoldable pub by_creation_timestamp : ReplicaSet → ReplicaSet → Bool
by_creation_timestamp a b =
    if a.creation_timestamp == b.creation_timestamp
    then text_lt a.name b.name
    else ltb a.creation_timestamp b.creation_timestamp

-- sort.Reverse swaps the arguments.
unfoldable pub reversed : (ReplicaSet → ReplicaSet → Bool) → ReplicaSet → ReplicaSet → Bool
reversed less a b = less b a

-- ReplicaSetsBySmallerRevision: the greater revision first, in spite of the name.
unfoldable pub by_smaller_revision : ReplicaSet → ReplicaSet → Bool
by_smaller_revision a b = elim (revision a) [
  | none ↦ by_creation_timestamp a b
  | some r ↦ elim (revision b) [
    | none ↦ by_creation_timestamp a b
    | some s ↦ if eqb_ℤ r s then by_creation_timestamp a b else ltb_ℤ s r
  ]
]

-- ReplicaSetsBySizeOlder: larger first, then older.
unfoldable pub by_size_older : ReplicaSet → ReplicaSet → Bool
by_size_older a b =
    if eqb_ℤ a.replicas b.replicas then by_creation_timestamp a b else ltb_ℤ b.replicas a.replicas

-- ReplicaSetsBySizeNewer: larger first, then newer.
unfoldable pub by_size_newer : ReplicaSet → ReplicaSet → Bool
by_size_newer a b =
    if eqb_ℤ a.replicas b.replicas then by_creation_timestamp b a else ltb_ℤ b.replicas a.replicas

-- ===== src/Deployment/Annotations.antt =====
-- The annotations of a replica set: the revision, the desired and the maximal size
-- (pkg/util/deployment/deployment.go). Several functions of the source write through a pointer
-- and return whether they wrote: here they return the new object and that flag.
pub mod RoundTrip
pub mod MaxRevision
use batch_release.Base.{
  Bool, true, false, not, ◌||◌, Option, none, some, List, [], ◌∷◌, if◌then◌else◌,
}
use batch_release.Base.Int.{ℤ, pos, ltb_ℤ, to_int32}
use batch_release.Base.Text.{Text, codes, text_eq, print_int, parse_int}
use batch_release.Base.GoMap.{GoMap, Entries, entries, get, or_empty, make_if_nil, put}
use batch_release.Objects.{ReplicaSet, Deployment}

abbrev pub revision_annotation : Text
revision_annotation = codes "deployment.kubernetes.io/revision"

abbrev pub revision_history_annotation : Text
revision_history_annotation = codes "deployment.kubernetes.io/revision-history"

abbrev pub replicas_annotation : Text
replicas_annotation = codes "deployment.kubernetes.io/desired-replicas"

abbrev pub max_replicas_annotation : Text
max_replicas_annotation = codes "deployment.kubernetes.io/max-replicas"

-- Revision: a missing annotation is revision 0, a text that is no int64 an error.
unfoldable pub revision : ReplicaSet → Option ℤ
revision rs = elim (get revision_annotation rs.annotations) [
  | none ↦ some (pos 0)
  | some v ↦ parse_int v
]

unfoldable pub max_revision_from : ℤ → List ReplicaSet → ℤ
max_revision_from max [] = max
max_revision_from max (rs ∷ rss) =
    max_revision_from (elim (revision rs) [ none ↦ max | some v ↦ if ltb_ℤ max v then v else max ])
      rss

unfoldable pub max_revision : List ReplicaSet → ℤ
max_revision = max_revision_from (pos 0)

-- `if m[key] != value { m[key] = value; updated = true }`
unfoldable pub write_if_changed : Text → Text → GoMap × Bool → GoMap × Bool
write_if_changed key value (m, updated) =
    if text_eq (or_empty (get key m)) value then (m, updated) else (put key value m, true)

unfoldable pub set_replicas_annotations : ReplicaSet → ℤ → ℤ → ReplicaSet × Bool
unfolding write_if_changed
set_replicas_annotations rs desired max =
    let (m, updated) = write_if_changed max_replicas_annotation (print_int max) (
      write_if_changed replicas_annotation (print_int desired)
        (make_if_nil rs.annotations, false)) in
    (record rs { annotations = m }, updated)

unfoldable pub annotations_need_update : GoMap → ℤ → ℤ → Bool
annotations_need_update none desired max = true
annotations_need_update (some m) desired max =
    if not (text_eq (or_empty (get replicas_annotation (some m))) (print_int desired))
    then true
    else not (text_eq (or_empty (get max_replicas_annotation (some m))) (print_int max))

unfoldable pub replicas_annotations_need_update : ReplicaSet → ℤ → ℤ → Bool
unfolding annotations_need_update
replicas_annotations_need_update rs = annotations_need_update rs.annotations

-- `int32(intValue)` truncates what Atoi read.
unfoldable pub get_int_from_annotation : ReplicaSet → Text → Option ℤ
get_int_from_annotation rs key = elim (get key rs.annotations) [
  | none ↦ none
  | some text ↦ elim (parse_int text) [ none ↦ none | some n ↦ some (to_int32 n) ]
]

unfoldable pub get_replicas_annotation : ReplicaSet → Option ℤ
get_replicas_annotation rs = get_int_from_annotation rs replicas_annotation

unfoldable pub get_max_replicas_annotation : ReplicaSet → Option ℤ
get_max_replicas_annotation rs = get_int_from_annotation rs max_replicas_annotation

abbrev pub mem_text : Text → List Text → Bool
mem_text k [] = false
mem_text k (j ∷ js) = text_eq j k || mem_text k js

-- `annotationsToSkip`, with v1.LastAppliedConfigAnnotation and apps.DeprecatedRollbackTo.
abbrev pub annotations_to_skip : List Text
annotations_to_skip =
    codes "kubectl.kubernetes.io/last-applied-configuration"
    ∷ revision_annotation
    ∷ revision_history_annotation
    ∷ replicas_annotation
    ∷ max_replicas_annotation
    ∷ codes "deprecated.deployment.rollback.to"
    ∷ []

unfoldable pub skip_copy_annotation : Text → Bool
skip_copy_annotation key = mem_text key annotations_to_skip

-- `exist && rs.Annotations[k] == v`
unfoldable pub holds_already : Text → Text → GoMap → Bool
holds_already k v m = elim (get k m) [ none ↦ false | some w ↦ text_eq w v ]

unfoldable pub copy_entries : Entries → GoMap × Bool → GoMap × Bool
copy_entries [] acc = acc
copy_entries ((k, v) ∷ rest) (m, changed) =
    copy_entries rest
      (if skip_copy_annotation k || holds_already k v m then (m, changed) else (put k v m, true))

unfoldable pub copy_deployment_annotations : Deployment → ReplicaSet → ReplicaSet × Bool
copy_deployment_annotations deployment rs =
    let (m, changed) =
      copy_entries (entries deployment.annotations) (make_if_nil rs.annotations, false) in
    (record rs { annotations = m }, changed)

unfoldable pub set_deployment_revision : Deployment → Text → Deployment × Bool
unfolding write_if_changed
set_deployment_revision deployment revision_text =
    let (m, updated) =
      write_if_changed revision_annotation revision_text
        (make_if_nil deployment.annotations, false) in
    (record deployment { annotations = m }, updated)

-- ===== src/Executor/Revision.antt =====
-- setNewReplicaSetAnnotations: the revision of the new replica set and the history of those it had
-- (internal/controller/partition/executor.go; strings.Split and strings.Join of Go's library).
pub mod Fields
pub mod History
use batch_release.Base.{
  ℕ, ◌+◌, ◌-◌, Bool, true, false, Option, none, some, List, [], ◌∷◌, ◌++◌, length, leb, ltb, ◌==◌,
  if◌then◌else◌,
}
use batch_release.Base.Int.{ℤ, pos, ltb_ℤ, add32}
use batch_release.Base.Text.{Text, parse_int}
use batch_release.Base.GoMap.{GoMap, get, or_empty, put}
use batch_release.Objects.{ReplicaSet, Deployment}
use batch_release.Deployment.Annotations.{
  revision_annotation, revision_history_annotation, copy_deployment_annotations,
  set_replicas_annotations,
}

abbrev pub max_rev_history_length_in_chars : ℕ
max_rev_history_length_in_chars = 2000

-- The first field in front of those that follow.
abbrev onto_first : ℕ → List Text → List Text
onto_first c [] = (c ∷ []) ∷ []
onto_first c (field ∷ fields) = (c ∷ field) ∷ fields

-- strings.Split(s, ",")
unfoldable pub split : Text → List Text
split [] = [] ∷ []
split (c ∷ s) = if c == b',' then [] ∷ split s else onto_first c (split s)

-- strings.Join(fields, ",")
unfoldable pub join : List Text → Text
join [] = []
join (field ∷ []) = field
join (field ∷ field' ∷ fields) = field ++ b',' ∷ join (field' ∷ fields)

-- The loop that drops the oldest revisions: what is left of them, and the length with the new one.
unfoldable pub drop_oldest : ℕ → ℕ → List Text → List Text × ℕ
drop_oldest limit total_len [] = ([], total_len)
drop_oldest limit total_len (field ∷ fields) =
    let shorter = drop_oldest limit (total_len - length field - 1) fields in
    if ltb limit total_len then shorter else (field ∷ fields, total_len)

-- The history with `old_revision` at its end, or `none` where it does not fit.
extend_fields : ℕ → Text → Text → List Text → Option Text
extend_fields limit history old_revision [] = none
extend_fields limit history old_revision ([] ∷ fields) = some old_revision
extend_fields limit history old_revision ((c ∷ field) ∷ fields) =
    let (kept, total_len) =
      drop_oldest limit (length history + length old_revision + 1) ((c ∷ field) ∷ fields) in
    if leb total_len limit then some (join (kept ++ old_revision ∷ [])) else none

unfoldable pub extend_history : ℕ → Text → Text → Option Text
unfolding extend_fields
extend_history limit history old_revision = extend_fields limit history old_revision (split history)

-- `ok && oldRevisionInt < newRevisionInt`: the annotations with the history that then holds.
unfoldable pub with_history : ℕ → Option Text → GoMap → GoMap
with_history limit none m = m
with_history limit (some old_revision) m =
    elim (extend_history limit (or_empty (get revision_history_annotation m)) old_revision) [
      | none ↦ m
      | some history ↦ put revision_history_annotation history m
    ]

-- The number of an old revision text, where an empty one is 0.
unfoldable pub old_revision_number : Text → Option ℤ
old_revision_number [] = some (pos 0)
old_revision_number (c ∷ s) = parse_int (c ∷ s)

-- The annotations after the revision step, and whether they changed; `none` is the early return
-- where one of the texts is no number.
unfoldable pub revise : ℕ → Text → GoMap → Option (GoMap × Bool)
revise limit new_revision m = elim (old_revision_number (or_empty (get revision_annotation m))) [
  | none ↦ none
  | some old ↦ elim (parse_int new_revision) [
    | none ↦ none
    | some new ↦ some (
        if ltb_ℤ old new
        then (
          with_history limit (get revision_annotation m) (put revision_annotation new_revision m),
          true,
        )
        else (m, false))
  ]
]

-- The last step: the sizes, for a replica set that is about to be created.
unfoldable pub with_sizes : Deployment → ℤ → Bool → ReplicaSet × Bool → ReplicaSet × Bool
with_sizes de surge exists (rs, changed) =
    let (sized, updated) = set_replicas_annotations rs de.replicas (add32 de.replicas surge) in
    if exists then (rs, changed) else (sized, if updated then true else changed)

-- The replica set with its annotations, and whether they changed. On the early return the flag is
-- false, though annotations may have been copied.
unfoldable pub set_new_replica_set_annotations :
    Deployment → ℤ → ReplicaSet → Text → Bool → ℕ → ReplicaSet × Bool
set_new_replica_set_annotations de surge new_rs new_revision exists limit =
    let (copied, changed) = copy_deployment_annotations de new_rs in
    elim (revise limit new_revision copied.annotations) [
      | none ↦ (copied, false)
      | some (m, revised) ↦
          with_sizes de surge exists
            (record copied { annotations = m }, if revised then true else changed)
    ]

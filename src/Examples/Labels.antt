-- ===== src/Examples/Labels.antt =====
-- The labels of a selector, and the replica sets of a deployment.
use mathlib.Core.List.{Mem}
use batch_release.Base.{
  ℕ, ◌⊎◌, ◌≡◌, ◌≢◌, ◌↔◌, refl, ap, length, true, none, some, List, [], ◌∷◌, All, arith,
  if◌then◌else◌,
}
use batch_release.Base.GoMap.{GoMap, lookup}
use batch_release.Base.Int.{pos, ◌≤ℤ◌}
use batch_release.Base.Text.{Text, codes, text_eq}
use batch_release.Deployment.Annotations.{revision, max_revision}
use batch_release.Deployment.Annotations.MaxRevision.{
  IsUpTo, IsRevisionOf, max_revision-IsRevisionOf,
}
use batch_release.Deployment.Find.{find_new_replica_set, find_old_replica_sets}
use batch_release.Deployment.Find.Membership.{IsOld, mem-find_old_replica_sets}
use batch_release.Labels.{clone_selector_and_add_label, selector_has_label}
use batch_release.Labels.Lookup.{selector_has_label-clone_selector_and_add_label}
use batch_release.Objects.{ReplicaSet, Selector}
use batch_release.Examples.Sample.{vendor, deployment, replica_set, template, old_template}

abbrev labels : GoMap
labels = some ((codes "app", codes "web") ∷ [])

nonempty : (c : ℕ) (s : Text) → (c ∷ s) ≢ []
nonempty c s e = ground (arith, ap length e)

abbrev selector : Selector
selector = record { match_labels = labels; match_expressions = none }

selector_has_label-clone_selector_and_add_label_example :
    selector_has_label
      (clone_selector_and_add_label selector (codes "hash") (codes "1"))
      (codes "app")
    ≡ (if text_eq (codes "hash") (codes "app")
        then true
        else selector_has_label selector (codes "app"))
unfolding lookup
selector_has_label-clone_selector_and_add_label_example =
    selector_has_label-clone_selector_and_add_label selector (codes "hash") (codes "1")
      (codes "app") (refl, tt) (nonempty b'h' (codes "ash")) (nonempty b'1' [])

abbrev sets : List ReplicaSet
sets =
    replica_set (codes "web-1") old_template 1 4 4 ∷ replica_set (codes "web-2") template 2 2 2 ∷ []

max_revision-IsRevisionOf_example :
    (pos 0 ≤ℤ max_revision sets)
    × All (λ rs. IsUpTo (max_revision sets) (revision rs)) sets
    × ((max_revision sets ≡ pos 0) ⊎ IsRevisionOf (max_revision sets) sets)
max_revision-IsRevisionOf_example = max_revision-IsRevisionOf sets

mem-find_old_replica_sets_example :
    let rs = replica_set (codes "web-1") old_template 1 4 4 in
    let (required, old) = find_old_replica_sets vendor deployment sets in
    (Mem rs old ↔ (Mem rs sets × IsOld (find_new_replica_set vendor deployment sets) rs))
    × (Mem rs required ↔ (Mem rs old × (rs.replicas ≢ pos 0)))
mem-find_old_replica_sets_example =
    mem-find_old_replica_sets vendor deployment sets
      (replica_set (codes "web-1") old_template 1 4 4)

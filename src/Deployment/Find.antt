-- ===== src/Deployment/Find.antt =====
-- Which replica set is the new one and which are old, and which one a scaling event concerns
-- (pkg/util/deployment/deployment.go). The sorts reorder the caller's slice in place, so the
-- functions return the slice as they leave it.
pub mod Membership
use batch_release.Base.{Bool, false, ◌&&◌, Option, none, some, List, [], ◌∷◌, if◌then◌else◌}
use batch_release.Base.Int.{pos, eqb_ℤ, to_int32}
use batch_release.Base.Text.{Text, codes, text_eq, parse_int}
use batch_release.Base.GoMap.{get, or_empty, delete}
use batch_release.Base.Sort.{sort}
use batch_release.Objects.{ReplicaSet, Deployment, PodTemplate}
use batch_release.Vendor.{Vendor}
use batch_release.Deployment.Annotations.{replicas_annotation}
use batch_release.Deployment.Counts.{filter_active, append_new}
use batch_release.Deployment.Order.{by_creation_timestamp, reversed}

-- apps.DefaultDeploymentUniqueLabelKey
abbrev pub pod_template_hash_label : Text
pod_template_hash_label = codes "pod-template-hash"

unfoldable pub without_hash : PodTemplate → PodTemplate
without_hash t = record t { labels = delete pod_template_hash_label t.labels }

module _ (v : Vendor) where
  unfoldable pub equal_ignore_hash : PodTemplate → PodTemplate → Bool
  equal_ignore_hash template1 template2 =
      v.deep_equal (without_hash template1) (without_hash template2)

  unfoldable pub first_matching : PodTemplate → List ReplicaSet → Option ReplicaSet
  first_matching t [] = none
  first_matching t (rs ∷ rss) =
      if equal_ignore_hash rs.template t then some rs else first_matching t rss

  -- The new replica set, if there is one, of the list that the call leaves sorted.
  unfoldable pub find_new_replica_set : Deployment → List ReplicaSet → Option ReplicaSet
  find_new_replica_set deployment rs_list =
      first_matching deployment.template (sort by_creation_timestamp rs_list)

  -- `newRS != nil && rs.UID == newRS.UID`
  unfoldable pub is_new : Option ReplicaSet → ReplicaSet → Bool
  is_new none rs = false
  is_new (some new_rs) rs = text_eq rs.uid new_rs.uid

  unfoldable pub all_but : Option ReplicaSet → List ReplicaSet → List ReplicaSet
  all_but new_rs [] = []
  all_but new_rs (rs ∷ rss) =
      let rest = all_but new_rs rss in if is_new new_rs rs then rest else rs ∷ rest

  unfoldable pub with_replicas : List ReplicaSet → List ReplicaSet
  with_replicas [] = []
  with_replicas (rs ∷ rss) =
      let rest = with_replicas rss in if eqb_ℤ rs.replicas (pos 0) then rest else rs ∷ rest

  -- The old replica sets that have replicas, and all the old ones.
  unfoldable pub find_old_replica_sets :
      Deployment → List ReplicaSet → List ReplicaSet × List ReplicaSet
  find_old_replica_sets deployment rs_list =
      let old =
        all_but (find_new_replica_set deployment rs_list) (sort by_creation_timestamp rs_list) in
      (with_replicas old, old)

-- The cases of `len(allRSs)`: none active, one, several. The last argument is `oldRSs[0]`.
unfoldable pub choose_active :
    List ReplicaSet → Option ReplicaSet → List ReplicaSet → Option ReplicaSet
choose_active [] (some new_rs) old_rss = some new_rs
choose_active [] none [] = none
choose_active [] none (rs ∷ rss) = some rs
choose_active (rs ∷ []) new_rs old_rss = some rs
choose_active (rs ∷ rs' ∷ rss) new_rs old_rss = none

-- FindActiveOrLatest, with the order in which it leaves `oldRSs`: newest first.
unfoldable pub find_active_or_latest :
    Option ReplicaSet → List ReplicaSet → Option ReplicaSet × List ReplicaSet
find_active_or_latest none [] = (none, [])
find_active_or_latest new_rs old_rss =
    let sorted = sort (reversed by_creation_timestamp) old_rss in
    (choose_active (filter_active (append_new sorted new_rs)) new_rs sorted, sorted)

unfoldable pub is_saturated : Deployment → Option ReplicaSet → Bool
is_saturated deployment none = false
is_saturated deployment (some rs) =
    elim (parse_int (or_empty (get replicas_annotation rs.annotations))) [
      | none ↦ false
      | some desired ↦
          eqb_ℤ rs.replicas deployment.replicas
          && (eqb_ℤ (to_int32 desired) deployment.replicas
              && eqb_ℤ rs.status.available_replicas deployment.replicas)
    ]

-- ===== src/Deployment/Counts.antt =====
-- The replica counts of a list of replica sets, in which a pointer may be nil, and the filter for
-- the active ones (pkg/util/deployment/deployment.go).
pub mod Totals
use batch_release.Base.{
  ◌≡◌, Bool, true, false, Option, none, some, List, [], ◌∷◌, ◌++◌, map, if◌then◌else◌,
}
use batch_release.Base.Int.{ℤ, pos, ltb_ℤ, add32}
use batch_release.Objects.{ReplicaSet}

module _ (field : ReplicaSet → ℤ) where
  -- `for _, rs := range replicaSets { if rs != nil { acc += field(rs) } }`
  unfoldable pub count_from : ℤ → List (Option ReplicaSet) → ℤ
  count_from acc [] = acc
  count_from acc (none ∷ rss) = count_from acc rss
  count_from acc (some rs ∷ rss) = count_from (add32 acc (field rs)) rss

unfoldable pub get_replica_count : List (Option ReplicaSet) → ℤ
get_replica_count = count_from (λ rs. rs.replicas) (pos 0)

unfoldable pub get_available_replica_count : List (Option ReplicaSet) → ℤ
get_available_replica_count = count_from (λ rs. rs.status.available_replicas) (pos 0)

unfoldable pub get_actual_replica_count : List (Option ReplicaSet) → ℤ
get_actual_replica_count = count_from (λ rs. rs.status.replicas) (pos 0)

unfoldable pub get_ready_replica_count : List (Option ReplicaSet) → ℤ
get_ready_replica_count = count_from (λ rs. rs.status.ready_replicas) (pos 0)

-- FilterReplicaSets; a filter passes no nil pointer here, so the result has none.
unfoldable pub filter_replica_sets :
    (ReplicaSet → Bool) → List (Option ReplicaSet) → List ReplicaSet
filter_replica_sets keep [] = []
filter_replica_sets keep (none ∷ rss) = filter_replica_sets keep rss
filter_replica_sets keep (some rs ∷ rss) =
    let rest = filter_replica_sets keep rss in if keep rs then rs ∷ rest else rest

unfoldable pub filter_active : List (Option ReplicaSet) → List ReplicaSet
filter_active = filter_replica_sets (λ rs. ltb_ℤ (pos 0) rs.replicas)

-- A slice of pointers none of which is nil, and `append(oldRSs, newRS)`.
abbrev pub pointers : List ReplicaSet → List (Option ReplicaSet)
pointers = map some

abbrev pub append_new : List ReplicaSet → Option ReplicaSet → List (Option ReplicaSet)
append_new old_rss new_rs = pointers old_rss ++ new_rs ∷ []

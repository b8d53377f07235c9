-- ===== src/Deployment/Counts/Totals.antt =====
-- The int32 counting loops compute the sums that they mean, and the filter for active replica
-- sets loses no replicas.
use batch_release.Base.{
  ◌≡◌, refl, ◌∙◌, Option, none, some, List, [], ◌∷◌, ◌++◌, All, arith, inl, inr, Bool-cases,
}
use batch_release.Base.Int.{ℤ, pos, ◌≤ℤ◌, ltb_ℤ, max_int32, add32, int_laws, eq_of_parts}
use batch_release.Base.Sum.{total, sum_from, sum_from-eq-total}
use batch_release.Objects.{ReplicaSet}
use batch_release.Deployment.Counts.{
  count_from, filter_replica_sets, filter_active, pointers, append_new, get_replica_count,
}

-- The replica sets behind the pointers that are not nil.
abbrev pub present : List (Option ReplicaSet) → List ReplicaSet
present [] = []
present (none ∷ rss) = present rss
present (some rs ∷ rss) = rs ∷ present rss

module _ (field : ReplicaSet → ℤ) where
  pub count_from-eq-sum_from :
      (acc : ℤ) (rss : List (Option ReplicaSet))
      → count_from field acc rss ≡ sum_from field acc (present rss)
  unfolding count_from sum_from
  count_from-eq-sum_from acc [] = refl
  count_from-eq-sum_from acc (none ∷ rss) = count_from-eq-sum_from acc rss
  count_from-eq-sum_from acc (some rs ∷ rss) = count_from-eq-sum_from (add32 acc (field rs)) rss

pub present-pointers : (rss : List ReplicaSet) → present (pointers rss) ≡ rss
present-pointers [] = refl
present-pointers (rs ∷ rss) = rw (present-pointers rss)

pub present-append_new-some :
    (rss : List ReplicaSet) (rs : ReplicaSet) → present (append_new rss (some rs)) ≡ rss ++ rs ∷ []
present-append_new-some [] rs = refl
present-append_new-some (x ∷ rss) rs = rw (present-append_new-some rss rs)

-- The same over pointers none of which is nil.
pub count_from-pointers :
    (field : ReplicaSet → ℤ) (rss : List ReplicaSet)
    → All (λ rs. pos 0 ≤ℤ field rs) rss
    → total field rss ≤ℤ max_int32
    → count_from field (pos 0) (pointers rss) ≡ total field rss
count_from-pointers field rss h sized =
    count_from-eq-sum_from field (pos 0) (pointers rss)
    ∙ rw (present-pointers rss) (
        sum_from-eq-total field (pos 0) rss h (omega arith) (omega (int_laws, sized))
        ∙ omega int_laws)

-- No replica count is negative, and the sum is an int32.
pub record IsSized (rss : List ReplicaSet) : Type 0 where
  pub each : All (λ rs. pos 0 ≤ℤ rs.replicas) rss
  pub within : total (λ rs. rs.replicas) rss ≤ℤ max_int32

-- Where no replica count is negative and their sum is an int32, the counting loop over pointers, of
-- which some may be nil, computes the sum over the replica sets that are there.
get_replica_count-eq-total :
    (rss : List (Option ReplicaSet))
    → IsSized (present rss)
    → get_replica_count rss ≡ total (λ rs. rs.replicas) (present rss)
unfolding get_replica_count
get_replica_count-eq-total rss h = rw (count_from-eq-sum_from (λ rs. rs.replicas) (pos 0) rss) (
    sum_from-eq-total (λ rs. rs.replicas) (pos 0) (present rss) h.each (omega arith)
      (omega (int_laws, h.within))
    ∙ omega int_laws)

pub get_replica_count-pointers :
    (rss : List ReplicaSet)
    → IsSized rss
    → get_replica_count (pointers rss) ≡ total (λ rs. rs.replicas) rss
get_replica_count-pointers rss h =
    rw (present-pointers rss) at
      (get_replica_count-eq-total (pointers rss) (rw (present-pointers rss) h))

-- Where no replica count is negative, the active replica sets have all the replicas of the sets
-- that are there.
pub total-filter_active :
    (rss : List (Option ReplicaSet))
    → All (λ rs. pos 0 ≤ℤ rs.replicas) (present rss)
    → total (λ rs. rs.replicas) (filter_active rss) ≡ total (λ rs. rs.replicas) (present rss)
unfolding filter_active filter_replica_sets
total-filter_active [] h = refl
total-filter_active (none ∷ rss) h = total-filter_active rss h
total-filter_active (some rs ∷ rss) h = elim (Bool-cases (ltb_ℤ (pos 0) rs.replicas)) [
  | inl active ↦ rw (active, total-filter_active rss h.1) refl
  | inr idle ↦
      let none_left : rs.replicas ≡ pos 0 = eq_of_parts rs.replicas (pos 0) (ground arith) in
      rw (idle, total-filter_active rss h.1, none_left) (omega int_laws)
]

pub All-filter_active :
    (rss : List (Option ReplicaSet)) → All (λ rs. pos 1 ≤ℤ rs.replicas) (filter_active rss)
unfolding filter_active filter_replica_sets
All-filter_active [] = tt
All-filter_active (none ∷ rss) = All-filter_active rss
All-filter_active (some rs ∷ rss) = elim (Bool-cases (ltb_ℤ (pos 0) rs.replicas)) [
  | inl active ↦ rw active (ground arith, All-filter_active rss)
  | inr idle ↦ rw idle (All-filter_active rss)
]

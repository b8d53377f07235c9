-- ===== src/Executor/Proportion/Growth.antt =====
-- Scaling up: the active replica sets are given the new replicas, all of them and no more.
use batch_release.Base.{◌≡◌, refl, ◌∙◌, true, false, List, [], ◌∷◌, All, All-mono, arith}
use batch_release.Base.Int.{
  ℤ, pos, ◌+ℤ◌, ◌-ℤ◌, ◌≤ℤ◌, ◌<ℤ◌, ltb_ℤ, eqb_ℤ, max_int32, add32, sub32, int_laws,
}
use batch_release.Base.Sort.{sort, sort-perm, All-sort}
use batch_release.Base.Sum.{total, total_of_perm}
use batch_release.Objects.{ReplicaSet}
use batch_release.Vendor.{IsVendor}
use batch_release.Vendor.Laws.{int32_min-IsMin}
use batch_release.Deployment.Order.{by_size_newer}
use batch_release.Executor.Monad.{Env, Executor}
use batch_release.Executor.OldSets.ScaleDown.{IsCount, size, sizes_nonneg}
use batch_release.Executor.Proportion.{
  get_replica_set_fraction, get_proportion, estimate_from, with_leftover, sort_for,
  proportional_sizes,
}

abbrev pub given : ReplicaSet × ℤ → ℤ
given (rs, n) = n

-- A set that does not shrink by its own fraction.
pub record IsGrowing (w : Env) (e : Executor) (rs : ReplicaSet) : Type 0 where
  pub count : IsCount rs
  pub fair : pos 0 ≤ℤ get_replica_set_fraction w e rs

module _ (w : Env) (laws : IsVendor w.vendor) (e : Executor) (to_add : ℤ)
    (positive : pos 0 <ℤ to_add) (sized : to_add ≤ℤ max_int32) where
  get_proportion_bounds :
      (rs : ReplicaSet) (added : ℤ)
      → IsGrowing w e rs
      → pos 0 ≤ℤ added
      → added ≤ℤ to_add
      → (pos 0 ≤ℤ get_proportion w e rs to_add added)
        × (get_proportion w e rs to_add added ≤ℤ to_add -ℤ added)
  unfolding get_proportion
  get_proportion_bounds rs added g lo hi = grind (
    int_laws,
    positive,
    g.fair,
    int32_min-IsMin w.vendor laws (get_replica_set_fraction w e rs) (sub32 to_add added),
  )

  nonzero : eqb_ℤ to_add (pos 0) ≡ false
  nonzero = ground arith

  -- The sizes of the loop sum up to the old ones and what was added, which is no more than `to_add`.
  estimate_from_up :
      (added : ℤ) (rss : List ReplicaSet)
      → All (IsGrowing w e) rss
      → pos 0 ≤ℤ added
      → added ≤ℤ to_add
      → total size rss +ℤ to_add ≤ℤ max_int32
      → let (sizes, final) = estimate_from w e to_add added rss in
        (total given sizes ≡ total size rss +ℤ (final -ℤ added))
        × (added ≤ℤ final)
        × (final ≤ℤ to_add)
  unfolding estimate_from
  estimate_from_up added [] g lo hi u = (omega int_laws, omega arith, hi)
  estimate_from_up added (rs ∷ rss) g lo hi u =
      let p = get_proportion w e rs to_add added in
      let b = get_proportion_bounds rs added g.0 lo hi in
      let rest = sizes_nonneg rss (All-mono (IsGrowing w e) IsCount rss (λ r q. q.count) g.1) in
      let ih =
        estimate_from_up (add32 added p) rss g.1 (omega (int_laws, b, sized))
          (omega (int_laws, b, sized)) (omega (int_laws, g.0.count.nonneg)) in
      rw nonzero (
        rw ih.0 (omega (int_laws, b, sized, positive, g.0.count.nonneg)),
        omega (int_laws, ih.1, b, sized),
        ih.2,
      )

  total-with_leftover :
      (added : ℤ) (rs : ReplicaSet) (n : ℤ) (sizes : List (ReplicaSet × ℤ))
      → pos 0 ≤ℤ n
      → pos 0 ≤ℤ added
      → added ≤ℤ to_add
      → n +ℤ (to_add -ℤ added) ≤ℤ max_int32
      → total given (with_leftover w to_add added ((rs, n) ∷ sizes))
        ≡ n +ℤ total given sizes +ℤ (to_add -ℤ added)
  unfolding with_leftover
  total-with_leftover added rs n sizes n_lo lo hi u =
      let grown = add32 n (sub32 to_add added) in
      let stays : ltb_ℤ grown (pos 0) ≡ false = grind (int_laws, sized) in
      rw (nonzero, stays) (omega (int_laws, sized))

  -- The head of the estimate is the first set with its share.
  estimated_total :
      (rss : List ReplicaSet)
      → All (IsGrowing w e) rss
      → pos 0 <ℤ total size rss
      → total size rss +ℤ to_add ≤ℤ max_int32
      → let (sizes, added) = estimate_from w e to_add (pos 0) rss in
        total given (with_leftover w to_add added sizes) ≡ total size rss +ℤ to_add
  unfolding estimate_from
  estimated_total [] g some_left u = absurd (omega arith)
  estimated_total (rs ∷ rss) g some_left u =
      let p = get_proportion w e rs to_add (pos 0) in
      let b = get_proportion_bounds rs (pos 0) g.0 (omega arith) (omega (arith, positive)) in
      let rest = sizes_nonneg rss (All-mono (IsGrowing w e) IsCount rss (λ r q. q.count) g.1) in
      let up =
        estimate_from_up (add32 (pos 0) p) rss g.1 (omega (int_laws, b, sized))
          (omega (int_laws, b, sized)) (omega (int_laws, g.0.count.nonneg)) in
      let (sizes, final) = estimate_from w e to_add (add32 (pos 0) p) rss in
      rw nonzero (
        total-with_leftover final rs (add32 rs.replicas p) sizes
          (omega (int_laws, b, sized, g.0.count.nonneg)) (omega (int_laws, up.1, b, sized)) up.2
          (omega (int_laws, b, sized, g.0.count.nonneg))
        ∙ rw up.0 (omega (int_laws, b, sized, g.0.count.nonneg)))

-- Given packages that behave as documented, where `to_add` is a positive int32, the size of each set
-- is an int32 that is not negative and its fraction is not negative, some set has replicas, and the
-- grown total is an int32: the sizes that the sets are given sum up to their old sizes and `to_add`,
-- so what rounding leaves over is not lost.
pub proportional_sizes_grow :
    (w : Env) (e : Executor) (to_add : ℤ) (rss : List ReplicaSet)
    → IsVendor w.vendor
    → pos 0 <ℤ to_add
    → to_add ≤ℤ max_int32
    → All (IsGrowing w e) rss
    → pos 0 <ℤ total size rss
    → total size rss +ℤ to_add ≤ℤ max_int32
    → total given (proportional_sizes w e to_add rss) ≡ total size rss +ℤ to_add
unfolding proportional_sizes sort_for
proportional_sizes_grow w e to_add rss laws positive sized g some_left u =
    let same = total_of_perm size (sort-perm by_size_newer rss) in
    let up : ltb_ℤ (pos 0) to_add ≡ true = ground arith in
    rw up (
      estimated_total w laws e to_add positive sized (sort by_size_newer rss)
        (All-sort by_size_newer (IsGrowing w e) rss g) (rw same some_left) (rw same u)
      ∙ rw same refl)

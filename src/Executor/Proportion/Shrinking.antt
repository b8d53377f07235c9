-- ===== src/Executor/Proportion/Shrinking.antt =====
-- Scaling down proportionally: how many replicas the active replica sets lose.
use batch_release.Base.{◌≡◌, ap, inl, inr, true, false, List, [], ◌∷◌, All, arith, Bool-cases}
use batch_release.Base.Int.{
  ℤ, pos, ◌+ℤ◌, ◌-ℤ◌, ◌≤ℤ◌, ◌<ℤ◌, ltb_ℤ, eqb_ℤ, max_int32, add32, sub32, int_laws, pos_part,
  neg_part,
}
use batch_release.Base.Sort.{sort, sort-perm, All-sort}
use batch_release.Base.Sum.{total, total_of_perm}
use batch_release.Objects.{ReplicaSet}
use batch_release.Vendor.{IsVendor}
use batch_release.Vendor.Laws.{int32_max-IsMax}
use batch_release.Deployment.Order.{by_size_older}
use batch_release.Executor.Monad.{Env, Executor}
use batch_release.Executor.OldSets.ScaleDown.{IsCount, size}
use batch_release.Executor.Proportion.{
  get_replica_set_fraction, get_proportion, estimate_from, with_leftover, sort_for,
  proportional_sizes,
}
use batch_release.Executor.Proportion.Growth.{given}

-- A set that does not grow by its own fraction, nor loses more than it has.
pub record IsShrinking (w : Env) (e : Executor) (rs : ReplicaSet) : Type 0 where
  pub count : IsCount rs
  pub fair : get_replica_set_fraction w e rs ≤ℤ pos 0
  pub held : pos 0 -ℤ rs.replicas ≤ℤ get_replica_set_fraction w e rs

module _ (w : Env) (laws : IsVendor w.vendor) (e : Executor) (to_add : ℤ)
    (negative : to_add <ℤ pos 0) (sized : pos 0 -ℤ max_int32 ≤ℤ to_add) where
  get_proportion_bounds :
      (rs : ReplicaSet) (added : ℤ)
      → IsShrinking w e rs
      → added ≤ℤ pos 0
      → to_add ≤ℤ added
      → (get_proportion w e rs to_add added ≤ℤ pos 0)
        × (to_add -ℤ added ≤ℤ get_proportion w e rs to_add added)
        × (pos 0 -ℤ rs.replicas ≤ℤ get_proportion w e rs to_add added)
  unfolding get_proportion
  get_proportion_bounds rs added g hi lo = grind (
    int_laws,
    negative,
    sized,
    g.fair,
    g.held,
    g.count.nonneg,
    int32_max-IsMax w.vendor laws (get_replica_set_fraction w e rs) (sub32 to_add added),
  )

  nonzero : eqb_ℤ to_add (pos 0) ≡ false
  nonzero = ground arith

  -- The sizes of the loop sum up to the old ones and what was added, which is no less than `to_add`.
  estimate_from_down :
      (added : ℤ) (rss : List ReplicaSet)
      → All (IsShrinking w e) rss
      → added ≤ℤ pos 0
      → to_add ≤ℤ added
      → let (sizes, final) = estimate_from w e to_add added rss in
        (total given sizes ≡ total size rss +ℤ (final -ℤ added))
        × (final ≤ℤ added)
        × (to_add ≤ℤ final)
  unfolding estimate_from
  estimate_from_down added [] g hi lo = (omega int_laws, omega arith, lo)
  estimate_from_down added (rs ∷ rss) g hi lo =
      let p = get_proportion w e rs to_add added in
      let b = get_proportion_bounds rs added g.0 hi lo in
      let ih =
        estimate_from_down (add32 added p) rss g.1 (omega (int_laws, b, sized))
          (omega (int_laws, b, sized)) in
      rw nonzero (
        rw ih.0 (omega (int_laws, b, sized, negative, g.0.count.nonneg, g.0.count.sized)),
        omega (int_laws, ih.1, b, sized),
        ih.2,
      )

  -- What the first set takes besides does not make it grow, and it is left with none at worst.
  total-with_leftover :
      (added : ℤ) (rs : ReplicaSet) (n : ℤ) (sizes : List (ReplicaSet × ℤ))
      → pos 0 ≤ℤ n
      → n ≤ℤ max_int32
      → added ≤ℤ pos 0
      → to_add ≤ℤ added
      → (n +ℤ total given sizes +ℤ (to_add -ℤ added)
          ≤ℤ total given (with_leftover w to_add added ((rs, n) ∷ sizes)))
        × (total given (with_leftover w to_add added ((rs, n) ∷ sizes)) ≤ℤ n +ℤ total given sizes)
  unfolding with_leftover
  total-with_leftover added rs n sizes n_lo n_hi hi lo =
      let grown = add32 n (sub32 to_add added) in
      elim (Bool-cases (ltb_ℤ grown (pos 0))) [
        | inl below ↦
            rw (nonzero, below) (grind (int_laws, sized, below), grind (int_laws, sized, below))
        | inr stays ↦ rw (nonzero, stays) (omega (int_laws, sized), omega (int_laws, sized))
      ]

  estimated_total :
      (rss : List ReplicaSet)
      → All (IsShrinking w e) rss
      → pos 0 <ℤ total size rss
      → let (sizes, added) = estimate_from w e to_add (pos 0) rss in
        (total size rss +ℤ to_add ≤ℤ total given (with_leftover w to_add added sizes))
        × (total given (with_leftover w to_add added sizes) ≤ℤ total size rss)
  unfolding estimate_from
  estimated_total [] g some_left = absurd (omega arith)
  estimated_total (rs ∷ rss) g some_left =
      let p = get_proportion w e rs to_add (pos 0) in
      let b = get_proportion_bounds rs (pos 0) g.0 (omega arith) (omega (arith, negative)) in
      let down =
        estimate_from_down (add32 (pos 0) p) rss g.1 (omega (int_laws, b, sized))
          (omega (int_laws, b, sized)) in
      let (sizes, final) = estimate_from w e to_add (add32 (pos 0) p) rss in
      let first = add32 rs.replicas p in
      let left =
        total-with_leftover final rs first sizes
          (omega (int_laws, b, sized, g.0.count.nonneg, g.0.count.sized))
          (omega (int_laws, b, sized, g.0.count.nonneg, g.0.count.sized))
          (omega (int_laws, down.1, b, sized)) down.2 in
      rw nonzero (
        omega (
          int_laws,
          left.0,
          down.1,
          ap pos_part down.0,
          ap neg_part down.0,
          b,
          sized,
          g.0.count.nonneg,
          g.0.count.sized,
        ),
        omega (
          int_laws,
          left.1,
          down.1,
          ap pos_part down.0,
          ap neg_part down.0,
          b,
          sized,
          g.0.count.nonneg,
          g.0.count.sized,
        ),
      )

-- Given packages that behave as documented, where `to_add` is a negative int32, the size of each set
-- is an int32 that is not negative, its fraction takes from it no more than it has, and some set
-- has replicas: the sizes that the sets are given sum up to no more than their old sizes, and to no
-- less than those and `to_add`, so that no more replicas are removed than the scaling asks for.
pub proportional_sizes_shrink :
    (w : Env) (e : Executor) (to_add : ℤ) (rss : List ReplicaSet)
    → IsVendor w.vendor
    → to_add <ℤ pos 0
    → pos 0 -ℤ max_int32 ≤ℤ to_add
    → All (IsShrinking w e) rss
    → pos 0 <ℤ total size rss
    → (total size rss +ℤ to_add ≤ℤ total given (proportional_sizes w e to_add rss))
      × (total given (proportional_sizes w e to_add rss) ≤ℤ total size rss)
unfolding proportional_sizes sort_for
proportional_sizes_shrink w e to_add rss laws negative sized g some_left =
    let same = total_of_perm size (sort-perm by_size_older rss) in
    let not_up : ltb_ℤ (pos 0) to_add ≡ false = ground arith in
    let down : ltb_ℤ to_add (pos 0) ≡ true = ground arith in
    let bounds =
      estimated_total w laws e to_add negative sized (sort by_size_older rss)
        (All-sort by_size_older (IsShrinking w e) rss g) (rw same some_left) in
    rw (not_up, down)
      (
        omega (int_laws, bounds.0, ap pos_part same, ap neg_part same),
        omega (int_laws, bounds.1, ap pos_part same, ap neg_part same),
      )

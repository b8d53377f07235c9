-- ===== src/Executor/Proportion.antt =====
-- A scaling event spread over the active replica sets: getReplicaSetFraction, GetProportion and
-- scale (internal/controller/partition/executor.go).
pub mod Growth
pub mod Shrinking
use batch_release.Base.{
  Bool, true, false, ◌||◌, Option, none, some, List, [], ◌∷◌, ◌++◌, if◌then◌else◌,
}
use batch_release.Base.Int.{ℤ, pos, ltb_ℤ, leb_ℤ, eqb_ℤ, add32, sub32, mul32, neg32}
use batch_release.Base.Sort.{sort}
use batch_release.Base.Text.{Text, text_eq}
use batch_release.Objects.{ReplicaSet, Deployment}
use batch_release.Deployment.Annotations.{get_max_replicas_annotation}
use batch_release.Deployment.Counts.{filter_active, append_new, pointers, get_replica_count}
use batch_release.Deployment.Find.{find_active_or_latest, is_saturated}
use batch_release.Deployment.Order.{by_size_newer, by_size_older}
use batch_release.Executor.Monad.{Env, Executor, M, pure, gets, ◌>>=◌, ◌>>◌}
use batch_release.Executor.OldSets.{cleanup_unhealthy_replicas}
use batch_release.Executor.Scale.{max_surge, scale_replica_set, scale_replica_set_and_record_event}

module _ (w : Env) where
  open w use {vendor}

  unfoldable pub get_replica_set_fraction : Executor → ReplicaSet → ℤ
  get_replica_set_fraction e rs =
      let deployment_replicas = add32 e.de.replicas (max_surge w e) in
      let annotated_replicas : ℤ = elim (get_max_replicas_annotation rs) [
        | none ↦ e.de.status.replicas
        | some n ↦ n
      ] in
      if eqb_ℤ e.de.replicas (pos 0)
      then neg32 rs.replicas
      else sub32 (vendor.round_quotient (mul32 rs.replicas deployment_replicas) annotated_replicas)
          rs.replicas

  -- `rs` is not nil where it is called.
  unfoldable pub get_proportion : Executor → ReplicaSet → ℤ → ℤ → ℤ
  get_proportion e rs to_add added =
      let fraction = get_replica_set_fraction e rs in
      let allowed = sub32 to_add added in
      if eqb_ℤ rs.replicas (pos 0) || (eqb_ℤ to_add (pos 0) || eqb_ℤ to_add added)
      then pos 0
      else if ltb_ℤ (pos 0) to_add
      then vendor.int32_min fraction allowed
      else vendor.int32_max fraction allowed

  -- The loop that fills `nameToSize`: the entries in the order of the sets, and what was added.
  unfoldable pub estimate_from : Executor → ℤ → ℤ → List ReplicaSet → List (ReplicaSet × ℤ) × ℤ
  estimate_from e to_add added [] = ([], added)
  estimate_from e to_add added (rs ∷ rss) =
      let proportion = if eqb_ℤ to_add (pos 0) then pos 0 else get_proportion e rs to_add added in
      let (sizes, final) = estimate_from e to_add (add32 added proportion) rss in
      (
        (rs, if eqb_ℤ to_add (pos 0) then rs.replicas else add32 rs.replicas proportion) ∷ sizes,
        final,
      )

  -- What the first, the largest set takes besides: the leftover, and never below 0.
  unfoldable pub with_leftover : ℤ → ℤ → List (ReplicaSet × ℤ) → List (ReplicaSet × ℤ)
  with_leftover to_add added [] = []
  with_leftover to_add added ((rs, size) ∷ sizes) =
      let grown = add32 size (sub32 to_add added) in
      if eqb_ℤ to_add (pos 0)
      then (rs, size) ∷ sizes
      else (rs, if ltb_ℤ grown (pos 0) then pos 0 else grown) ∷ sizes

  -- The loop that updates the replica sets; it stops at the first error.
  unfoldable pub scale_all : Deployment → List (ReplicaSet × ℤ) → M (Unit {0})
  scale_all deployment [] = pure tt
  scale_all deployment ((rs, size) ∷ sizes) =
      scale_replica_set w rs size deployment >> scale_all deployment sizes

  unfoldable pub scale_down_to_zero : Deployment → List ReplicaSet → M (Unit {0})
  scale_down_to_zero deployment [] = pure tt
  scale_down_to_zero deployment (rs ∷ rss) =
      scale_replica_set_and_record_event w rs (pos 0) deployment
      >> scale_down_to_zero deployment rss

  -- The sort by the direction of the scaling.
  unfoldable pub sort_for : ℤ → List ReplicaSet → List ReplicaSet
  sort_for to_add rss =
      if ltb_ℤ (pos 0) to_add
      then sort by_size_newer rss
      else if ltb_ℤ to_add (pos 0)
      then sort by_size_older rss
      else rss

  -- The sizes that the active sets are given.
  unfoldable pub proportional_sizes : Executor → ℤ → List ReplicaSet → List (ReplicaSet × ℤ)
  proportional_sizes e to_add rss =
      let (sizes, added) = estimate_from e to_add (pos 0) (sort_for to_add rss) in
      with_leftover to_add added sizes

  -- The branch of a rolling update; it returns `oldRSs` as the cleanup leaves it.
  unfoldable pub scale_proportionally : Option ReplicaSet → List ReplicaSet → M (List ReplicaSet)
  scale_proportionally new_rs old_rss = do
    deployment ← gets (λ (e : Executor). e.de)
    let active = filter_active (append_new old_rss new_rs)
    let allowed_size = if ltb_ℤ (pos 0) deployment.replicas then deployment.replicas else pos 0
    let to_add = sub32 allowed_size (get_replica_count (pointers active))
    (old_rss', cleanup_count) ←
        (if ltb_ℤ to_add (pos 0)
          then cleanup_unhealthy_replicas w old_rss deployment (neg32 to_add)
          else pure (old_rss, pos 0))
    let active' =
        if ltb_ℤ to_add (pos 0) then filter_active (append_new old_rss' new_rs) else active
    sizes ← gets (λ e. proportional_sizes e (add32 to_add cleanup_count) active')
    scale_all deployment sizes
    pure old_rss'

  -- The slice `oldRSs` is sorted, and partly replaced, in place: it is returned as it is left.
  unfoldable pub scale : Option ReplicaSet → List ReplicaSet → M (List ReplicaSet)
  scale new_rs old_rss = do
    deployment ← gets (λ (e : Executor). e.de)
    let found = find_active_or_latest new_rs old_rss
    elim found.0 [
      | some active_or_latest ↦ do
        scale_replica_set_and_record_event w active_or_latest deployment.replicas deployment
        pure found.1
      | none ↦
          if is_saturated deployment new_rs
          then (do scale_down_to_zero deployment (filter_active (pointers found.1)); pure found.1)
          else scale_proportionally new_rs found.1
    ]

-- ===== src/Executor/OldSets/Availability.antt =====
-- The scale-down of the old replica sets keeps enough pods available.
use batch_release.Base.{
  ◌≡◌, ◌≢◌, refl, sym, ap, subst, inl, inr, Bool, true, false, Option, none, List, [], ◌∷◌, ◌++◌,
  ◌⊎◌, length, All, All-append, All-take, arith, Bool-cases, if◌then◌else◌,
}
use batch_release.Base.Int.{
  ℤ, pos, ◌+ℤ◌, ◌-ℤ◌, ◌≤ℤ◌, leb_ℤ, max_int32, sub32, to_int32_range, int_laws,
}
use batch_release.Base.Sort.{sort, All-sort}
use batch_release.Base.Sum.{total, total_nonneg}
use batch_release.Objects.{ReplicaSet, Deployment}
use batch_release.Vendor.{IsVendor}
use batch_release.Vendor.Laws.{IsMin, int32_min-IsMin}
use batch_release.Deployment.Counts.Totals.{count_from-pointers}
use batch_release.Deployment.Counts.{pointers, get_available_replica_count}
use batch_release.Deployment.Find.{equal_ignore_hash, find_new_replica_set}
use batch_release.Deployment.Order.{by_creation_timestamp, by_smaller_revision}
use batch_release.Executor.Monad.{
  Env, Executor, ok, deref, ◌>>=◌, Ends, Ends-ok, Ends-mono, IsServer,
}
use batch_release.Executor.OldSets.{
  scale_down_from, scale_down_limit_for_old, old_after_find, current_partition,
  scale_down_old_replica_sets_for_rolling_update,
}
use batch_release.Executor.OldSets.Partition.{
  IsAtStep, current_partition-IsAtStep, first_matching-sort, some_of,
}
use batch_release.Executor.OldSets.ScaleDown.{IsCount, size, sizes_nonneg, scale_down_from_exact}
use batch_release.Executor.Scale.{max_unavailable}
use batch_release.Executor.Scale.Effects.{Asks, Asks-none}

All-old_after_find :
    (w : Env) (shared : Bool) (rss : List ReplicaSet) (appended : ReplicaSet)
    → All IsCount rss
    → IsCount appended
    → All IsCount (old_after_find w shared rss appended)
unfolding old_after_find
All-old_after_find w false rss appended h a = h
All-old_after_find w true rss appended h a =
    All-take IsCount (length rss) (sort by_creation_timestamp (rss ++ appended ∷ [])) (
      All-sort by_creation_timestamp IsCount (rss ++ appended ∷ [])
        (All-append IsCount rss (appended ∷ []) h (a, tt)))

-- What ends with `t` has asked for `t` replicas less, and `t` is 0 or no more than `count`.
abbrev Bounded : ℤ → Executor → ℤ → Executor → Type 0
Bounded count e t e' = Asks (pos 0 -ℤ t) e e' × (pos 0 ≤ℤ t) × ((t ≤ℤ count) ⊎ (t ≤ℤ pos 0))

module _ (w : Env) (laws : IsVendor w.vendor) (d : Deployment) where
  idle :
      (count : ℤ) (rss : List ReplicaSet) (e : Executor)
      → leb_ℤ (pos 0) count ≡ false
      → scale_down_from w d count (pos 0) rss e ≡ (ok (pos 0), e)
  unfolding scale_down_from
  idle count [] e negative = refl
  idle count (rs ∷ rss) e negative =
      let done : leb_ℤ count (pos 0) ≡ true = ground arith in rw done refl

  -- Nothing is removed beyond `count`, which may be negative.
  scale_down_from-Bounded :
      (count : ℤ) (rss : List ReplicaSet) (e : Executor)
      → All IsCount rss
      → count ≤ℤ max_int32
      → Ends (Bounded count e) IsServer (scale_down_from w d count (pos 0) rss e)
  scale_down_from-Bounded count rss e h sized = elim (Bool-cases (leb_ℤ (pos 0) count)) [
    | inl some_left ↦
        Ends-mono (λ t e'. Asks (pos 0 -ℤ t) e e' × IsMin count (pos 0 +ℤ total size rss) t)
          (Bounded count e) IsServer (scale_down_from w d count (pos 0) rss e)
          (scale_down_from_exact w laws d count sized (pos 0) rss e h (omega arith) (ground arith))
          (λ t e' q. (
            q.0,
            let room : pos 0 ≤ℤ count = ground (arith, some_left) in
                omega (int_laws, sizes_nonneg rss h, q.1, room),
            inl q.1.0,
          ))
    | inr negative ↦
        subst (Ends (Bounded count e) IsServer) (sym (idle count rss e negative))
          (Asks-none (pos 0) e, omega arith, inr (omega arith))
  ]

sub32_sized : (a b : ℤ) → sub32 a b ≤ℤ max_int32
unfolding sub32
sub32_sized a b = (to_int32_range (a -ℤ b)).upper

-- What is within the room leaves the minimum.
room_kept :
    (replicas unavailable count t : ℤ)
    → pos 0 ≤ℤ replicas
    → replicas ≤ℤ max_int32
    → pos 0 ≤ℤ unavailable
    → unavailable ≤ℤ replicas
    → pos 0 ≤ℤ count
    → count ≤ℤ max_int32
    → t ≤ℤ sub32 count (sub32 replicas unavailable)
    → replicas -ℤ unavailable ≤ℤ count -ℤ t
room_kept replicas unavailable count t lo hi u_lo u_hi c_lo c_hi within = omega int_laws

module _ (w : Env) (d : Deployment) (shared : Bool) (rss : List ReplicaSet) (appended : ReplicaSet)
    (same : equal_ignore_hash w.vendor appended.template d.template ≡ true) where
  -- The list that the new replica set is looked up in.
  abbrev all_rss : List ReplicaSet
  all_rss = (if shared then sort by_smaller_revision rss else rss) ++ appended ∷ []

  new_is_found : find_new_replica_set w.vendor d all_rss ≢ none
  unfolding find_new_replica_set
  new_is_found =
      first_matching-sort w.vendor d.template by_creation_timestamp
        (if shared then sort by_smaller_revision rss else rss) appended same

abbrev pub available : ReplicaSet → ℤ
available rs = rs.status.available_replicas

-- Of `t` replicas removed: the others keep the minimum available, or nothing was removed.
abbrev Kept : Env → List ReplicaSet → ReplicaSet → Deployment → Executor → ℤ → Executor → Type 0
Kept w rss appended d e t e' =
    Asks (pos 0 -ℤ t) e e'
    × (pos 0 ≤ℤ t)
    × ((d.replicas -ℤ max_unavailable w e ≤ℤ total available (rss ++ appended ∷ []) -ℤ t)
        ⊎ (t ≤ℤ pos 0))

-- Given packages that behave as documented, where no size and no available count is negative, each
-- size, the total available count and the deployment's size are int32s, maxUnavailable lies between
-- none and all of the deployment's replicas, the index of the current step is in range, and the new
-- replica set has the deployment's template but for the hash label: the scale-down of the old replica
-- sets, whether or not their slice shares its array, never panics and fails only by an error of the
-- server. Where it succeeds with `t`, it has asked the server for exactly `t` replicas less, `t` is
-- not negative, neither object of the executor has changed, and either nothing is removed or `t` pods
-- fewer than are available are still the deployment's size less maxUnavailable.
pub scale_down_old_replica_sets_for_rolling_update_safe :
    (w : Env) (shared : Bool) (rss : List ReplicaSet) (appended : ReplicaSet) (d : Deployment)
    (e : Executor)
    → IsVendor w.vendor
    → All IsCount rss
    → IsCount appended
    → All (λ rs. pos 0 ≤ℤ available rs) (rss ++ appended ∷ [])
    → total available (rss ++ appended ∷ []) ≤ℤ max_int32
    → pos 0 ≤ℤ d.replicas
    → d.replicas ≤ℤ max_int32
    → pos 0 ≤ℤ max_unavailable w e
    → max_unavailable w e ≤ℤ d.replicas
    → IsAtStep e
    → equal_ignore_hash w.vendor appended.template d.template ≡ true
    → Ends
        (λ t e'.
          Asks (pos 0 -ℤ t) e e'
          × (pos 0 ≤ℤ t)
          × ((d.replicas -ℤ max_unavailable w e ≤ℤ total available (rss ++ appended ∷ []) -ℤ t)
              ⊎ (t ≤ℤ pos 0)))
        IsServer
        (scale_down_old_replica_sets_for_rolling_update w shared rss appended d e)
unfolding scale_down_old_replica_sets_for_rolling_update
scale_down_old_replica_sets_for_rolling_update_safe w shared rss appended d e laws h a av sized lo
      hi u_lo u_hi at_step same =
    let all = rss ++ appended ∷ [] in
    let old = old_after_find w shared (sort by_smaller_revision rss) appended in
    let count = get_available_replica_count (pointers all) in
    let min_available = sub32 d.replicas (max_unavailable w e) in
    let counted : count ≡ total available all =
      unfold get_available_replica_count in count_from-pointers available all av sized in
    elim (Bool-cases (leb_ℤ count min_available)) [
      | inl enough ↦ rw enough (Asks-none (pos 0) e, omega arith, inr (omega arith))
      | inr more ↦
          let (new_rs, found) =
            some_of (find_new_replica_set w.vendor d (all_rss w d shared rss appended same))
              (new_is_found w d shared rss appended same) in
          let limit = scale_down_limit_for_old w.vendor old new_rs d at_step.step.replicas in
          let room = sub32 count min_available in
          rw more (
            Ends-ok IsServer (Kept w rss appended d e) current_partition
              (λ partition.
                deref (find_new_replica_set w.vendor d (all_rss w d shared rss appended same))
                >>= λ new_rs.
                    scale_down_from w d
                      (w.vendor.int32_min room
                        (scale_down_limit_for_old w.vendor old new_rs d partition))
                      (pos 0) old)
              at_step.step.replicas e (current_partition-IsAtStep e at_step)
              (Ends-ok IsServer (Kept w rss appended d e)
                (deref (find_new_replica_set w.vendor d (all_rss w d shared rss appended same)))
                (λ new_rs.
                  scale_down_from w d
                    (w.vendor.int32_min room
                      (scale_down_limit_for_old w.vendor old new_rs d at_step.step.replicas))
                    (pos 0) old)
                new_rs e (ap (λ (o : Option ReplicaSet). deref o e) found)
                (Ends-mono (Bounded (w.vendor.int32_min room limit) e) (Kept w rss appended d e)
                  IsServer (scale_down_from w d (w.vendor.int32_min room limit) (pos 0) old e)
                  (scale_down_from-Bounded w laws d (w.vendor.int32_min room limit) old e
                    (All-old_after_find w shared (sort by_smaller_revision rss) appended
                      (All-sort by_smaller_revision IsCount rss h) a)
                    (omega (
                      arith,
                      (int32_min-IsMin w.vendor laws room limit).0,
                      sub32_sized count min_available,
                    )))
                  (λ t e' q. (
                    q.0,
                    q.1,
                    let least = int32_min-IsMin w.vendor laws room limit in
                        let n = total_nonneg available all av in
                        elim q.2 [
                          | inl within ↦ inl (
                              rw (← counted) (
                                room_kept d.replicas (max_unavailable w e) count t lo hi u_lo u_hi
                                  (rw counted n) (rw counted sized)
                                  (omega (arith, within, least.0))))
                          | inr nothing ↦ inr nothing
                        ],
                  )))))
    ]

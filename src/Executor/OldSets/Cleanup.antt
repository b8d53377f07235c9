-- ===== src/Executor/OldSets/Cleanup.antt =====
-- cleanupUnhealthyReplicas asks the server to remove exactly the replicas that it counts, and no
-- more than it may.
use batch_release.Base.{◌≡◌, inl, inr, true, false, ◌||◌, List, [], ◌∷◌, All, arith, Bool-cases}
use batch_release.Base.Int.{
  ℤ, pos, ◌+ℤ◌, ◌-ℤ◌, ◌≤ℤ◌, ltb_ℤ, leb_ℤ, eqb_ℤ, max_int32, add32, sub32, int_laws,
}
use batch_release.Base.Sort.{All-sort, sort, sort-perm}
use batch_release.Base.Sum.{total, total_of_perm}
use batch_release.Objects.{ReplicaSet, Deployment}
use batch_release.Vendor.{IsVendor}
use batch_release.Vendor.Laws.{IsMin, int_min-IsMin}
use batch_release.Deployment.Order.{by_creation_timestamp}
use batch_release.Executor.Monad.{Env, Executor, Ends, Ends-bind, Ends-mono, IsServer, pure, ◌>>=◌}
use batch_release.Executor.OldSets.{cleanup_count, cleanup_from, cleanup_unhealthy_replicas}
use batch_release.Executor.Scale.{scale_replica_set_and_record_event}
use batch_release.Executor.Scale.Effects.{
  Asks, Asks-none, Asks-eq, Asks-trans, scale_replica_set_and_record_event-Asks,
}

-- The status counts no more available replicas than the spec asks for.
pub record IsHealthy (rs : ReplicaSet) : Type 0 where
  pub some_available : pos 0 ≤ℤ rs.status.available_replicas
  pub not_above : rs.status.available_replicas ≤ℤ rs.replicas
  pub sized : rs.replicas ≤ℤ max_int32

-- The replicas of a set that are not available.
abbrev pub unhealthy : ReplicaSet → ℤ
unhealthy rs = rs.replicas -ℤ rs.status.available_replicas

unhealthy_nonneg : (rss : List ReplicaSet) → All IsHealthy rss → pos 0 ≤ℤ total unhealthy rss
unhealthy_nonneg [] h = omega arith
unhealthy_nonneg (rs ∷ rss) h = omega (int_laws, unhealthy_nonneg rss h.1, h.0.not_above)

module _ (w : Env) (laws : IsVendor w.vendor) (d : Deployment) (max : ℤ)
    (sized : max ≤ℤ max_int32) where
  -- From the count `c`, the loop over `rss` asks for its final count less `c` replicas less, and
  -- that is as many as there are to clean up, if `max` allows it.
  abbrev Cleaned : ℤ → List ReplicaSet → Executor → List ReplicaSet × ℤ → Executor → Type 0
  Cleaned c rss e r e' = Asks (c -ℤ r.1) e e' × IsMin max (c +ℤ total unhealthy rss) r.1

  cleanup_count-IsMin :
      (c : ℤ) (rs : ReplicaSet)
      → IsHealthy rs
      → pos 0 ≤ℤ c
      → c ≤ℤ max
      → IsMin (max -ℤ c) (unhealthy rs) (cleanup_count w max c rs)
  unfolding cleanup_count
  cleanup_count-IsMin c rs h lo hi = omega (
    int_laws,
    h.some_available,
    h.not_above,
    h.sized,
    int_min-IsMin w.vendor laws (sub32 max c) (sub32 rs.replicas rs.status.available_replicas),
  )

  idle_healthy :
      (rs : ReplicaSet)
      → IsHealthy rs
      → (eqb_ℤ rs.replicas (pos 0) || eqb_ℤ rs.replicas rs.status.available_replicas) ≡ true
      → unhealthy rs ≡ pos 0
  idle_healthy rs h idle = grind (int_laws, h.some_available, h.not_above)

  cleanup_from-Cleaned :
      (c : ℤ) (rss : List ReplicaSet) (e : Executor)
      → All IsHealthy rss
      → pos 0 ≤ℤ c
      → c ≤ℤ max
      → Ends (Cleaned c rss e) IsServer (cleanup_from w d max c rss e)
  unfolding cleanup_from
  cleanup_from-Cleaned c [] e h lo hi = (Asks-none c e, omega int_laws)
  cleanup_from-Cleaned c (rs ∷ rss) e h lo hi =
      let k = cleanup_count w max c rs in
      let k_min = cleanup_count-IsMin c rs h.0 lo hi in
      let rest_nonneg = unhealthy_nonneg rss h.1 in
      let later = add32 c k in
      let smaller : ltb_ℤ rs.replicas (sub32 rs.replicas k) ≡ false =
        grind (int_laws, h.0.sized, h.0.not_above, h.0.some_available, k_min) in
      elim (Bool-cases (leb_ℤ max c)) [
        | inl done ↦
            rw done (
              let full : max ≤ℤ c = ground arith in
              (Asks-none c e, omega (int_laws, h.0.not_above)))
        | inr more ↦
            elim (Bool-cases
              (eqb_ℤ rs.replicas (pos 0) || eqb_ℤ rs.replicas rs.status.available_replicas)) [
                | inl idle ↦
                    rw (more, idle)
                      (Ends-bind (Cleaned c rss e) IsServer (Cleaned c (rs ∷ rss) e)
                        (cleanup_from w d max c rss) (λ r. pure (rs ∷ r.0, r.1)) e
                        (cleanup_from-Cleaned c rss e h.1 lo hi)
                        (λ r e' q. (q.0, rw (idle_healthy rs h.0 idle) (omega (int_laws, q.1)))))
                | inr busy ↦
                    rw (more, busy, smaller)
                      (Ends-bind (λ r e'. Asks (sub32 rs.replicas k -ℤ rs.replicas) e e') IsServer
                        (Cleaned c (rs ∷ rss) e)
                        (scale_replica_set_and_record_event w rs (sub32 rs.replicas k) d)
                        (λ u. cleanup_from w d max later rss >>= λ r. pure (u.1 ∷ r.0, r.1)) e
                        (scale_replica_set_and_record_event-Asks w rs (sub32 rs.replicas k) d e)
                        λ u e' first.
                          Ends-bind (Cleaned later rss e') IsServer (Cleaned c (rs ∷ rss) e)
                            (cleanup_from w d max later rss) (λ r. pure (u.1 ∷ r.0, r.1)) e'
                            (cleanup_from-Cleaned later rss e' h.1
                              (omega (int_laws, k_min, h.0.not_above))
                              (omega (int_laws, k_min, h.0.not_above)))
                            λ r e'' q. (
                              Asks-eq (sub32 rs.replicas k -ℤ rs.replicas +ℤ (later -ℤ r.1))
                                  (c -ℤ r.1) e e''
                                  (omega
                                    (int_laws, k_min, h.0.not_above, h.0.sized, h.0.some_available))
                                  (Asks-trans (sub32 rs.replicas k -ℤ rs.replicas) (later -ℤ r.1) e
                                    e' e'' first q.0),
                              omega (int_laws, q.1, k_min, h.0.not_above, h.0.sized),
                            ))
              ]
      ]

-- Given packages that behave as documented, where each set's available replicas are at least 0 and
-- at most its replicas, an int32, and `max` is an int32 that is not negative: a cleanup of unhealthy
-- replicas that succeeds counts the smaller of `max` and all the unavailable replicas of the old
-- sets, has asked the server for exactly that many replicas less, and has changed neither object of
-- the executor. It never panics, and fails only by an error of the server.
pub cleanup_unhealthy_replicas_exact :
    (w : Env) (rss : List ReplicaSet) (d : Deployment) (max : ℤ) (e : Executor)
    → IsVendor w.vendor
    → All IsHealthy rss
    → pos 0 ≤ℤ max
    → max ≤ℤ max_int32
    → Ends
        (λ r e'. Asks (pos 0 -ℤ r.1) e e' × IsMin max (total unhealthy rss) r.1)
        IsServer
        (cleanup_unhealthy_replicas w rss d max e)
unfolding cleanup_unhealthy_replicas
cleanup_unhealthy_replicas_exact w rss d max e laws h lo hi =
    let sorted = sort by_creation_timestamp rss in
    let same = total_of_perm unhealthy (sort-perm by_creation_timestamp rss) in
    Ends-mono (Cleaned w laws d max hi (pos 0) sorted e)
      (λ r e'. Asks (pos 0 -ℤ r.1) e e' × IsMin max (total unhealthy rss) r.1) IsServer
      (cleanup_from w d max (pos 0) sorted e)
      (cleanup_from-Cleaned w laws d max hi (pos 0) sorted e
        (All-sort by_creation_timestamp IsHealthy rss h) (omega arith) lo)
      (λ r e' q. (q.0, rw (← same) (omega (int_laws, q.1))))

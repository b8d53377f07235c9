-- ===== src/Executor/OldSets/ScaleDown.antt =====
-- The scale-down loop removes exactly what it counts: as many replicas as it may, or all there are.
use batch_release.Base.{◌≡◌, inl, inr, false, List, [], ◌∷◌, All, arith, Bool-cases}
use batch_release.Base.Int.{
  ℤ, pos, ◌+ℤ◌, ◌-ℤ◌, ◌≤ℤ◌, ltb_ℤ, leb_ℤ, eqb_ℤ, max_int32, add32, sub32, int_laws, eq_of_parts,
}
use batch_release.Base.Sum.{total}
use batch_release.Objects.{ReplicaSet, Deployment}
use batch_release.Vendor.{IsVendor}
use batch_release.Vendor.Laws.{IsMin, int_min-IsMin}
use batch_release.Executor.Monad.{Env, Executor, Ends, Ends-bind, Ends-mono, IsServer}
use batch_release.Executor.OldSets.{scale_down_count, scale_down_from}
use batch_release.Executor.Scale.{scale_replica_set_and_record_event}
use batch_release.Executor.Scale.Effects.{
  Asks, Asks-none, Asks-eq, Asks-trans, scale_replica_set_and_record_event-Asks,
}

abbrev pub size : ReplicaSet → ℤ
size rs = rs.replicas

-- A size that the API server accepts.
pub record IsCount (rs : ReplicaSet) : Type 0 where
  pub nonneg : pos 0 ≤ℤ rs.replicas
  pub sized : rs.replicas ≤ℤ max_int32

pub sizes_nonneg : (rss : List ReplicaSet) → All IsCount rss → pos 0 ≤ℤ total size rss
sizes_nonneg [] h = omega arith
sizes_nonneg (rs ∷ rss) h = omega (int_laws, sizes_nonneg rss h.1, h.0.nonneg)

module _ (w : Env) (laws : IsVendor w.vendor) (d : Deployment) (count : ℤ)
    (sized : count ≤ℤ max_int32) where
  abbrev Removed : ℤ → List ReplicaSet → Executor → ℤ → Executor → Type 0
  Removed c rss e t e' = Asks (c -ℤ t) e e' × IsMin count (c +ℤ total size rss) t

  scale_down_count-IsMin :
      (c : ℤ) (rs : ReplicaSet)
      → IsCount rs
      → pos 0 ≤ℤ c
      → c ≤ℤ count
      → IsMin rs.replicas (count -ℤ c) (scale_down_count w count c rs)
  unfolding scale_down_count
  scale_down_count-IsMin c rs h lo hi =
      omega (int_laws, h.nonneg, h.sized, int_min-IsMin w.vendor laws rs.replicas (sub32 count c))

  -- Given packages that behave as documented, where no size is negative or above an int32, `count`
  -- is at most an int32, and the loop that scales down the old sets begins with a number `c` from 0
  -- to `count`: where it succeeds, it ends with the smaller of `count` and `c` plus all the replicas
  -- of the sets, has asked the server for exactly the difference to `c` less, and has changed neither
  -- object of the executor. It never panics, and fails only by an error of the server.
  pub scale_down_from_exact :
      (c : ℤ) (rss : List ReplicaSet) (e : Executor)
      → All IsCount rss
      → pos 0 ≤ℤ c
      → c ≤ℤ count
      → Ends (Removed c rss e) IsServer (scale_down_from w d count c rss e)
  unfolding scale_down_from
  scale_down_from_exact c [] e h lo hi = (Asks-none c e, omega int_laws)
  scale_down_from_exact c (rs ∷ rss) e h lo hi =
      let k = scale_down_count w count c rs in
      let k_min = scale_down_count-IsMin c rs h.0 lo hi in
      let rest_nonneg = sizes_nonneg rss h.1 in
      let later = add32 c k in
      let smaller : ltb_ℤ rs.replicas (sub32 rs.replicas k) ≡ false =
        grind (int_laws, h.0.sized, h.0.nonneg, k_min) in
      elim (Bool-cases (leb_ℤ count c)) [
        | inl done ↦
            rw done (
              let full : count ≤ℤ c = ground arith in (Asks-none c e, omega (int_laws, h.0.nonneg)))
        | inr more ↦ elim (Bool-cases (eqb_ℤ rs.replicas (pos 0))) [
          | inl empty ↦
              rw (more, empty)
                (let nothing : rs.replicas ≡ pos 0 =
                    eq_of_parts rs.replicas (pos 0) (ground arith) in
                  Ends-mono (Removed c rss e) (Removed c (rs ∷ rss) e) IsServer
                    (scale_down_from w d count c rss e) (scale_down_from_exact c rss e h.1 lo hi)
                    (λ t e' q. (q.0, rw nothing (omega (int_laws, q.1)))))
          | inr some_left ↦
              rw (more, some_left, smaller)
                (Ends-bind (λ r e'. Asks (sub32 rs.replicas k -ℤ rs.replicas) e e') IsServer
                  (Removed c (rs ∷ rss) e)
                  (scale_replica_set_and_record_event w rs (sub32 rs.replicas k) d)
                  (λ u. scale_down_from w d count later rss) e
                  (scale_replica_set_and_record_event-Asks w rs (sub32 rs.replicas k) d e)
                  λ u e' first.
                    Ends-mono (Removed later rss e') (Removed c (rs ∷ rss) e) IsServer
                      (scale_down_from w d count later rss e')
                      (scale_down_from_exact later rss e' h.1 (omega (int_laws, k_min, h.0.nonneg))
                        (omega (int_laws, k_min, h.0.nonneg)))
                      λ t e'' q. (
                        Asks-eq (sub32 rs.replicas k -ℤ rs.replicas +ℤ (later -ℤ t)) (c -ℤ t) e e''
                            (omega (int_laws, k_min, h.0.nonneg, h.0.sized))
                            (Asks-trans (sub32 rs.replicas k -ℤ rs.replicas) (later -ℤ t) e e' e''
                              first q.0),
                        omega (int_laws, q.1, k_min, h.0.nonneg, h.0.sized),
                      ))
        ]
      ]

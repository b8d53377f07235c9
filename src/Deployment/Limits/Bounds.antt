-- ===== src/Deployment/Limits/Bounds.antt =====
-- How many replicas of the new template a step allows, and what the fenceposts resolve to.
use batch_release.Base.{
  ◌≡◌, ◌≢◌, ◌⊎◌, ◌&&◌, ◌||◌, refl, inl, inr, Bool-cases, true, false, Option, arith,
}
use batch_release.Base.Int.{
  int_laws, ℤ, pos, ◌≤ℤ◌, ◌<ℤ◌, ◌-ℤ◌, IsInt32, eqb_ℤ, to_int32_exact, max_int32, -ℤ_parts,
  eq_of_parts,
}
use batch_release.Base.Text.{codes, text_eq, text_eq_iff, text_eq_refl}
use batch_release.Objects.{IntOrString, int_value, str_value, Deployment}
use batch_release.Vendor.Laws.{int_min-IsMin, int_max-IsMax}
use batch_release.Vendor.{Vendor, IsVendor}
use batch_release.Deployment.Limits.{is_string, new_rs_replicas_limit, resolve_fenceposts}

-- Where both scaled values are int32s, ResolveFenceposts fails exactly if one of them cannot be
-- converted, and then both counts are zero. Where it does not fail, the surge and the unavailable
-- count are not both zero.
pub resolve_fenceposts_progress :
    (v : Vendor) (max_surge max_unavailable : Option IntOrString) (desired : ℤ)
    → let scaled_surge =
        v.get_scaled_value (v.value_or_default max_surge (v.from_int (pos 0))) desired true in
      let scaled_unavailable =
        v.get_scaled_value
          (v.value_or_default max_unavailable (v.from_int (pos 0)))
          desired
          false in
      IsInt32 scaled_surge.0
      → IsInt32 scaled_unavailable.0
      → let (surge, unavailable, failed) = resolve_fenceposts v max_surge max_unavailable desired in
        (failed ≡ (scaled_surge.1 || scaled_unavailable.1))
        × (((failed ≡ true) × (surge ≡ pos 0) × (unavailable ≡ pos 0))
            ⊎ ((failed ≡ false) × ¬ ((surge ≡ pos 0) × (unavailable ≡ pos 0))))
unfolding resolve_fenceposts
resolve_fenceposts_progress v ms mu desired fs fu =
    let surge = v.get_scaled_value (v.value_or_default ms (v.from_int (pos 0))) desired true in
    let unavailable =
      v.get_scaled_value (v.value_or_default mu (v.from_int (pos 0))) desired false in
    let hs = to_int32_exact surge.0 fs in
    let hu = to_int32_exact unavailable.0 fu in
    elim (Bool-cases surge.1) [
      | inl bad ↦ rw bad (refl, inl (refl, refl, refl))
      | inr fine ↦ elim (Bool-cases unavailable.1) [
        | inl bad ↦ rw (fine, bad) (refl, inl (refl, refl, refl))
        | inr fine' ↦ elim (Bool-cases (eqb_ℤ surge.0 (pos 0) && eqb_ℤ unavailable.0 (pos 0))) [
          | inl zero ↦ rw (fine, fine', zero) (refl, inr (refl, λ h. ground (arith, h.1)))
          | inr some_left ↦
              rw (fine, fine', some_left)
                (
                  refl,
                  inr (
                    refl,
                    λ h. ground (
                      arith,
                      some_left,
                      hs,
                      hu,
                      h.0,
                      h.1,
                      eq_of_parts surge.0 (pos 0),
                      eq_of_parts unavailable.0 (pos 0),
                    ),
                  ),
                )
        ]
      ]
    ]

module _ (v : Vendor) (laws : IsVendor v) (partition : IntOrString) (d : Deployment) where
  -- Given packages that behave as documented, the limit lies between none and all of a deployment's
  -- replicas, where their number is an int32 that is not negative, also where the partition cannot
  -- be scaled.
  pub new_rs_replicas_limit_bounds :
      pos 0 ≤ℤ d.replicas
      → d.replicas ≤ℤ max_int32
      → (pos 0 ≤ℤ new_rs_replicas_limit v partition d)
        × (new_rs_replicas_limit v partition d ≤ℤ d.replicas)
  unfolding new_rs_replicas_limit
  new_rs_replicas_limit_bounds lo hi =
      let n = d.replicas in
      let scaled = (v.get_scaled_value partition n true).0 in
      let clamped = v.int_max (v.int_min scaled n) (pos 0) in
      let h1 = int_min-IsMin v laws scaled n in
      let h2 = int_max-IsMax v laws (v.int_min scaled n) (pos 0) in
      let h3 = int_min-IsMin v laws clamped (n -ℤ pos 1) in
      ground (
        arith,
        h1,
        h2,
        h3,
        -ℤ_parts n (pos 1),
        to_int32_exact clamped,
        to_int32_exact (v.int_min clamped (n -ℤ pos 1)),
      )

  -- Given packages that behave as documented, a partition that is a string other than "100%" leaves
  -- at least one of two or more replicas, an int32, to the old template, however it rounds.
  pub new_rs_replicas_limit_partial :
      pos 1 <ℤ d.replicas
      → d.replicas ≤ℤ max_int32
      → is_string partition ≡ true
      → v.string partition ≢ codes "100%"
      → new_rs_replicas_limit v partition d <ℤ d.replicas
  unfolding new_rs_replicas_limit
  new_rs_replicas_limit_partial lo hi str part =
      let n = d.replicas in
      let scaled = (v.get_scaled_value partition n true).0 in
      let clamped = v.int_max (v.int_min scaled n) (pos 0) in
      let h1 = int_min-IsMin v laws scaled n in
      let h2 = int_max-IsMax v laws (v.int_min scaled n) (pos 0) in
      let h3 = int_min-IsMin v laws clamped (n -ℤ pos 1) in
      ground (
        arith,
        h1,
        h2,
        h3,
        -ℤ_parts n (pos 1),
        text_eq_iff (v.string partition) (codes "100%"),
        to_int32_exact clamped,
        to_int32_exact (v.int_min clamped (n -ℤ pos 1)),
      )

module _ (v : Vendor) (laws : IsVendor v) (d : Deployment) where
  -- "100%" lets all replicas be updated.
  new_rs_replicas_limit_full :
      pos 0 ≤ℤ d.replicas
      → d.replicas ≤ℤ max_int32
      → new_rs_replicas_limit v (str_value (codes "100%")) d ≡ d.replicas
  unfolding new_rs_replicas_limit
  new_rs_replicas_limit_full lo hi =
      let n = d.replicas in
      let h1 = int_min-IsMin v laws n n in
      let h2 = int_max-IsMax v laws (v.int_min n n) (pos 0) in
      let full : text_eq (codes "100%") (codes "100%") ≡ true = text_eq_refl (codes "100%") in
      rw (laws.scaled_full n true, laws.string_value (codes "100%"), full)
        (ground (
          arith,
          h1,
          h2,
          to_int32_exact (v.int_max (v.int_min n n) (pos 0)),
          eq_of_parts (v.int_max (v.int_min n n) (pos 0)) n,
        ))

  -- A number between none and all of the replicas is the limit itself.
  new_rs_replicas_limit_int :
      (k : ℤ)
      → pos 0 ≤ℤ k
      → k ≤ℤ d.replicas
      → d.replicas ≤ℤ max_int32
      → new_rs_replicas_limit v (int_value k) d ≡ k
  unfolding new_rs_replicas_limit
  new_rs_replicas_limit_int k lo le hi =
      let n = d.replicas in
      let h1 = int_min-IsMin v laws k n in
      let h2 = int_max-IsMax v laws (v.int_min k n) (pos 0) in
      rw (laws.scaled_int k n true) (
        ground (
          arith,
          h1,
          h2,
          to_int32_exact (v.int_max (v.int_min k n) (pos 0)),
          eq_of_parts (v.int_max (v.int_min k n) (pos 0)) k,
        ))

  -- Given packages that behave as documented, and where the number of the replicas of a deployment
  -- is an int32, "100%" lets all of them be updated, and a number between none and all of them is
  -- the limit itself.
  pub new_rs_replicas_limit_exact :
      (k : ℤ)
      → pos 0 ≤ℤ k
      → k ≤ℤ d.replicas
      → d.replicas ≤ℤ max_int32
      → (new_rs_replicas_limit v (str_value (codes "100%")) d ≡ d.replicas)
        × (new_rs_replicas_limit v (int_value k) d ≡ k)
  new_rs_replicas_limit_exact k lo le hi =
      (new_rs_replicas_limit_full (omega int_laws) hi, new_rs_replicas_limit_int k lo le hi)

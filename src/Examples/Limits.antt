-- ===== src/Examples/Limits.antt =====
-- The limits of a step at a deployment of ten replicas.
use batch_release.Base.{◌⊎◌, ◌||◌, true, false, ◌≡◌, refl, some, arith}
use batch_release.Base.Int.{pos, ◌≤ℤ◌, ◌<ℤ◌, ◌-ℤ◌, to_int32}
use batch_release.Base.Text.{codes, text_eq}
use batch_release.Objects.{int_value, str_value, IntOrString}
use batch_release.Deployment.Limits.{new_rs_replicas_limit, is_string, resolve_fenceposts}
use batch_release.Deployment.Limits.Bounds.{
  new_rs_replicas_limit_bounds, new_rs_replicas_limit_partial, new_rs_replicas_limit_exact,
  resolve_fenceposts_progress,
}
use batch_release.Examples.Sample.{vendor, vendor-IsVendor, deployment}

abbrev half : IntOrString
half = str_value (codes "50%")

new_rs_replicas_limit_bounds_example :
    (pos 0 ≤ℤ new_rs_replicas_limit vendor half deployment)
    × (new_rs_replicas_limit vendor half deployment ≤ℤ pos 10)
new_rs_replicas_limit_bounds_example =
    new_rs_replicas_limit_bounds vendor vendor-IsVendor half deployment (omega arith) (omega arith)

new_rs_replicas_limit_partial_example : new_rs_replicas_limit vendor half deployment <ℤ pos 10
unfolding is_string
new_rs_replicas_limit_partial_example =
    new_rs_replicas_limit_partial vendor vendor-IsVendor half deployment (omega arith) (omega arith)
      refl (ground arith)

new_rs_replicas_limit_exact_example :
    (new_rs_replicas_limit vendor (str_value (codes "100%")) deployment ≡ pos 10)
    × (new_rs_replicas_limit vendor (int_value (pos 4)) deployment ≡ pos 4)
new_rs_replicas_limit_exact_example =
    new_rs_replicas_limit_exact vendor vendor-IsVendor deployment (pos 4) (omega arith)
      (omega arith) (omega arith)

resolve_fenceposts_progress_example :
    let (surge, unavailable, failed) =
      resolve_fenceposts vendor
        (some (int_value (pos 0)))
        (some (str_value (codes "5%")))
        (pos 10) in
    (failed ≡ (false || false))
    × (((failed ≡ true) × (surge ≡ pos 0) × (unavailable ≡ pos 0))
        ⊎ ((failed ≡ false) × ¬ ((surge ≡ pos 0) × (unavailable ≡ pos 0))))
unfolding text_eq
resolve_fenceposts_progress_example =
    resolve_fenceposts_progress vendor (some (int_value (pos 0))) (some (str_value (codes "5%")))
      (pos 10) (omega arith) (omega arith)

half_of_ten : new_rs_replicas_limit vendor half deployment ≡ pos 5
unfolding new_rs_replicas_limit to_int32 text_eq ◌-ℤ◌
half_of_ten = refl

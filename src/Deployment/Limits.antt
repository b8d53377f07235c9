-- ===== src/Deployment/Limits.antt =====
-- NewRSReplicasLimit and ResolveFenceposts (pkg/util/deployment/deployment.go).
pub mod Bounds
use batch_release.Base.{Bool, true, false, not, ◌&&◌, Option, none, some, if◌then◌else◌}
use batch_release.Base.Int.{ℤ, pos, ltb_ℤ, eqb_ℤ, ◌-ℤ◌, to_int32}
use batch_release.Base.Text.{codes, text_eq}
use batch_release.Objects.{IntOrString, int_value, str_value, Deployment}
use batch_release.Vendor.{Vendor}

-- `partition.Type == intstr.String`
unfoldable pub is_string : IntOrString → Bool
is_string (int_value n) = false
is_string (str_value s) = true

module _ (v : Vendor) where
  -- Go's int has 64 bits and these values come from int32, so `replicas - 1` is exact.
  unfoldable pub new_rs_replicas_limit : IntOrString → Deployment → ℤ
  unfolding is_string
  new_rs_replicas_limit partition deployment =
      let replicas = deployment.replicas in
      let scaled = (v.get_scaled_value partition replicas true).0 in
      let limit = v.int_max (v.int_min scaled replicas) (pos 0) in
      to_int32 (
        if ltb_ℤ (pos 1) replicas
          && (is_string partition && not (text_eq (v.string partition) (codes "100%")))
        then v.int_min limit (replicas -ℤ pos 1)
        else limit)

  -- The surge and the unavailable count, and whether there is an error, with 0 for both.
  unfoldable pub resolve_fenceposts : Option IntOrString → Option IntOrString → ℤ → ℤ × ℤ × Bool
  resolve_fenceposts max_surge max_unavailable desired =
      let (surge, bad_surge) =
        v.get_scaled_value (v.value_or_default max_surge (v.from_int (pos 0))) desired true in
      let (unavailable, bad_unavailable) =
        v.get_scaled_value (v.value_or_default max_unavailable (v.from_int (pos 0))) desired
          false in
      if bad_surge
      then (pos 0, pos 0, true)
      else if bad_unavailable
      then (pos 0, pos 0, true)
      else if eqb_ℤ surge (pos 0) && eqb_ℤ unavailable (pos 0)
      then (to_int32 surge, pos 1, false)
      else (to_int32 surge, to_int32 unavailable, false)

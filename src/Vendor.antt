-- ===== src/Vendor.antt =====
-- What the program calls of packages that the repository does not hold: k8s.io/apimachinery's
-- intstr and equality, k8s.io/utils/integer, go-spew. Each call is a field of `Vendor`, and
-- `IsVendor` states what the packages document and the program relies on.
pub mod Laws
use batch_release.Base.{ℕ, ◌≡◌, Bool, true, false, Option, none, some, if◌then◌else◌}
use batch_release.Base.Int.{ℤ, pos, leb_ℤ, ◌≤ℤ◌}
use batch_release.Base.Text.{Text, codes}
use batch_release.Objects.{
  IntOrString, int_value, str_value, PodTemplate, Selector, ReplicaSet, Deployment,
}
use batch_release.Release.{BatchRelease}

pub record Vendor : Type 0 where
  -- intstr.GetScaledValueFromIntOrPercent: the value, and `true` where it returns an error
  pub get_scaled_value : IntOrString → ℤ → Bool → ℤ × Bool
  -- intstr.ValueOrDefault, intstr.FromInt, and the method String
  pub value_or_default : Option IntOrString → IntOrString → IntOrString
  pub from_int : ℤ → IntOrString
  pub string : IntOrString → Text
  -- integer.Int32Min, integer.Int32Max, integer.IntMin, integer.IntMax
  pub int32_min : ℤ → ℤ → ℤ
  pub int32_max : ℤ → ℤ → ℤ
  pub int_min : ℤ → ℤ → ℤ
  pub int_max : ℤ → ℤ → ℤ
  -- integer.RoundToInt32(float64(a) / float64(b)), the only place where the program uses floats
  pub round_quotient : ℤ → ℤ → ℤ
  -- equality.Semantic.DeepEqual on pod templates
  pub deep_equal : PodTemplate → PodTemplate → Bool
  -- the text that spew prints of a pod template
  pub dump : PodTemplate → Text
  -- yaml.Marshal and yaml.Unmarshal of a pod template; `none` is an error
  pub yaml_marshal : PodTemplate → Option Text
  pub yaml_unmarshal : Text → Option PodTemplate
  -- intstr.Parse
  pub parse : Text → IntOrString
  -- json.Marshal of metav1.NewControllerRef; `none` is an error
  pub marshal_controller_ref : BatchRelease → Option Text
  -- whether metav1.LabelSelectorAsSelector accepts a selector; metav1.IsControlledBy
  pub is_valid_selector : Option Selector → Bool
  pub is_controlled_by : ReplicaSet → Deployment → Bool

pub record IsVendor (v : Vendor) : Type 0 where
  -- An integer is returned as it is, whatever the total and the rounding.
  pub scaled_int : (n t : ℤ) (up : Bool) → v.get_scaled_value (int_value n) t up ≡ (n, false)
  -- "100%" of a total is the total.
  pub scaled_full :
      (t : ℤ) (up : Bool) → v.get_scaled_value (str_value (codes "100%")) t up ≡ (t, false)
  pub default_none : (d : IntOrString) → v.value_or_default none d ≡ d
  pub default_some : (x d : IntOrString) → v.value_or_default (some x) d ≡ x
  pub from_int_value : (n : ℤ) → v.from_int n ≡ int_value n
  pub string_value : (s : Text) → v.string (str_value s) ≡ s
  pub int32_min_value : (a b : ℤ) → v.int32_min a b ≡ (if leb_ℤ a b then a else b)
  pub int32_max_value : (a b : ℤ) → v.int32_max a b ≡ (if leb_ℤ a b then b else a)
  pub int_min_value : (a b : ℤ) → v.int_min a b ≡ (if leb_ℤ a b then a else b)
  pub int_max_value : (a b : ℤ) → v.int_max a b ≡ (if leb_ℤ a b then b else a)
  pub deep_equal_refl : (t : PodTemplate) → v.deep_equal t t ≡ true

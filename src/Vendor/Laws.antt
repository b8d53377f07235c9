-- ===== src/Vendor/Laws.antt =====
-- The laws of the minimum and maximum functions in the form that arithmetic uses, and the
-- truncation to int32 between two bounds.
use batch_release.Base.{◌⊎◌, arith}
use batch_release.Base.Int.{ℤ, ◌≤ℤ◌}
use batch_release.Vendor.{Vendor, IsVendor}

abbrev pub IsMin : ℤ → ℤ → ℤ → Type 0
IsMin a b m = (m ≤ℤ a) × (m ≤ℤ b) × ((a ≤ℤ m) ⊎ (b ≤ℤ m))

abbrev pub IsMax : ℤ → ℤ → ℤ → Type 0
IsMax a b m = (a ≤ℤ m) × (b ≤ℤ m) × ((m ≤ℤ a) ⊎ (m ≤ℤ b))

module _ (v : Vendor) (laws : IsVendor v) where
  pub int_min-IsMin : (a b : ℤ) → IsMin a b (v.int_min a b)
  int_min-IsMin a b = rw (laws.int_min_value a b) (ground arith)

  pub int_max-IsMax : (a b : ℤ) → IsMax a b (v.int_max a b)
  int_max-IsMax a b = rw (laws.int_max_value a b) (ground arith)

  pub int32_min-IsMin : (a b : ℤ) → IsMin a b (v.int32_min a b)
  int32_min-IsMin a b = rw (laws.int32_min_value a b) (ground arith)

  pub int32_max-IsMax : (a b : ℤ) → IsMax a b (v.int32_max a b)
  int32_max-IsMax a b = rw (laws.int32_max_value a b) (ground arith)

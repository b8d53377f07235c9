-- ===== src/Base/Sum.antt =====
-- Sums of signed integers over a list, and Go's int32 accumulator loop.
use mathlib.Core.List.{Perm, Permᴰ}
use batch_release.Base.{◌≡◌, refl, ◌∙◌, List, [], ◌∷◌, ◌++◌, arith, All}
use batch_release.Base.Int.{ℤ, pos, ◌+ℤ◌, ◌≤ℤ◌, max_int32, add32, int_laws, ℤ_set}
use mathlib.Core.Logic.{∥∥₁_elim}

module _ {ℓ} {A : Type ℓ} (f : A → ℤ) where
  -- The sum as it is meant.
  abbrev pub total : List A → ℤ
  total [] = pos 0
  total (x ∷ xs) = f x +ℤ total xs

  -- `acc := int32(0); for _, x := range xs { acc += f(x) }`
  unfoldable pub sum_from : ℤ → List A → ℤ
  sum_from acc [] = acc
  sum_from acc (x ∷ xs) = sum_from (add32 acc (f x)) xs

  pub total_nonneg : (xs : List A) → All (λ x. pos 0 ≤ℤ f x) xs → pos 0 ≤ℤ total xs
  total_nonneg [] h = omega arith
  total_nonneg (x ∷ xs) h = omega (int_laws, total_nonneg xs h.1)

  pub total-append : (xs ys : List A) → total (xs ++ ys) ≡ total xs +ℤ total ys
  total-append [] ys = omega int_laws
  total-append (x ∷ xs) ys = rw (total-append xs ys) (omega int_laws)

  pub sum_from-eq-total :
      (acc : ℤ) (xs : List A)
      → All (λ x. pos 0 ≤ℤ f x) xs
      → pos 0 ≤ℤ acc
      → acc +ℤ total xs ≤ℤ max_int32
      → sum_from acc xs ≡ acc +ℤ total xs
  unfolding sum_from
  sum_from-eq-total acc [] h a u = omega int_laws
  sum_from-eq-total acc (x ∷ xs) h a u =
      let rest = total_nonneg xs h.1 in
      let ih = sum_from-eq-total (add32 acc (f x)) xs h.1 (omega int_laws) (omega int_laws) in
      ih ∙ omega int_laws

  total_of_permᴰ : {xs ys : List A} → Permᴰ xs ys → total xs ≡ total ys
  total_of_permᴰ Permᴰ.nil = refl
  total_of_permᴰ (Permᴰ.cons e p) = rw (e, total_of_permᴰ p) refl
  total_of_permᴰ (Permᴰ.swap e e') = rw (e, e') (omega int_laws)
  total_of_permᴰ (Permᴰ.trans p q) = total_of_permᴰ p ∙ total_of_permᴰ q

  -- The order of the elements does not matter.
  pub total_of_perm : {xs ys : List A} → Perm xs ys → total xs ≡ total ys
  total_of_perm p = ∥∥₁_elim p (ℤ_set _ _) total_of_permᴰ

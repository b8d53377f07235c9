-- ===== src/Base/Sort.antt =====
-- sort.Sort as the insertion sort that Go runs on a slice of up to twelve elements: an element
-- moves to the left past each neighbour that it is less than.
use mathlib.Core.List.{Perm, perm_middle, reverse_perm, append-nil}
use mathlib.Core.List.Perm
use batch_release.Base.{Bool, List, [], ◌∷◌, ◌++◌, reverse, if◌then◌else◌, inl, inr, Bool-cases}
use batch_release.Base.Lists.{All, All-reverse}

module _ {ℓ} {A : Type ℓ} (less : A → A → Bool) where
  -- The sorted prefix is held from its last element to its first.
  unfoldable pub insert_back : A → List A → List A
  insert_back x [] = x ∷ []
  insert_back x (y ∷ ys) = if less x y then y ∷ insert_back x ys else x ∷ y ∷ ys

  unfoldable pub sort_onto : List A → List A → List A
  sort_onto prefix [] = prefix
  sort_onto prefix (x ∷ xs) = sort_onto (insert_back x prefix) xs

  unfoldable pub sort : List A → List A
  unfolding insert_back sort_onto
  sort xs = reverse (sort_onto [] xs)

  insert_back-perm : (x : A) (xs : List A) → Perm (insert_back x xs) (x ∷ xs)
  unfolding insert_back
  insert_back-perm x [] = Perm.refl (x ∷ [])
  insert_back-perm x (y ∷ ys) = elim (Bool-cases (less x y)) [
    | inl further ↦ rw further (Perm.trans (Perm.cons y (insert_back-perm x ys)) (Perm.swap x y ys))
    | inr here ↦ rw here (Perm.refl (x ∷ y ∷ ys))
  ]

  sort_onto-perm : (prefix xs : List A) → Perm (sort_onto prefix xs) (xs ++ prefix)
  unfolding sort_onto
  sort_onto-perm prefix [] = Perm.refl prefix
  sort_onto-perm prefix (x ∷ xs) =
      Perm.trans (sort_onto-perm (insert_back x prefix) xs) (
        Perm.trans (Perm.append (Perm.refl xs) (insert_back-perm x prefix)) (perm_middle xs prefix))

  -- Sorting permutes.
  pub sort-perm : (xs : List A) → Perm (sort xs) xs
  unfolding sort
  sort-perm xs =
      Perm.trans (reverse_perm (sort_onto [] xs)) (rw (append-nil xs) at (sort_onto-perm [] xs))

  module _ {κ} (P : A → Type κ) where
    All-insert_back : (x : A) (xs : List A) → P x → All P xs → All P (insert_back x xs)
    unfolding insert_back
    All-insert_back x [] h hs = (h, tt)
    All-insert_back x (y ∷ ys) h hs = elim (Bool-cases (less x y)) [
      | inl further ↦ rw further (hs.0, All-insert_back x ys h hs.1)
      | inr here ↦ rw here (h, hs)
    ]

    All-sort_onto : (prefix xs : List A) → All P prefix → All P xs → All P (sort_onto prefix xs)
    unfolding sort_onto
    All-sort_onto prefix [] h hs = h
    All-sort_onto prefix (x ∷ xs) h hs =
        All-sort_onto (insert_back x prefix) xs (All-insert_back x prefix hs.0 h) hs.1

    pub All-sort : (xs : List A) → All P xs → All P (sort xs)
    unfolding sort
    All-sort xs h = All-reverse P (sort_onto [] xs) (All-sort_onto [] xs tt h)

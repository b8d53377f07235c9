-- ===== src/Deployment/Annotations/MaxRevision.antt =====
-- MaxRevision is the largest revision of the replica sets (pkg/util/deployment/deployment.go).
use batch_release.Base.{
  ◌≡◌, ◌⊎◌, refl, sym, ap, ◌∙◌, if◌then◌else◌, inl, inr, Option, none, some, List, [], ◌∷◌, All,
  arith, Bool-cases,
}
use batch_release.Base.Int.{ℤ, pos, ◌≤ℤ◌, ltb_ℤ}
use batch_release.Objects.{ReplicaSet}
use batch_release.Deployment.Annotations.{revision, max_revision, max_revision_from}

-- No number above `max` was read.
abbrev pub IsUpTo : ℤ → Option ℤ → Type 0
IsUpTo max none = Unit
IsUpTo max (some n) = n ≤ℤ max

-- `max` is the revision of one of the sets.
abbrev pub IsRevisionOf : ℤ → List ReplicaSet → Type 0
IsRevisionOf max [] = ⊥
IsRevisionOf max (rs ∷ rss) = (revision rs ≡ some max) ⊎ IsRevisionOf max rss

-- One round of the loop.
next_lem :
    (max : ℤ) (read : Option ℤ)
    → let next : ℤ = elim read [ none ↦ max | some v ↦ if ltb_ℤ max v then v else max ] in
      (max ≤ℤ next) × IsUpTo next read × ((next ≡ max) ⊎ (read ≡ some next))
next_lem max none = (omega arith, tt, inl refl)
next_lem max (some v) = elim (Bool-cases (ltb_ℤ max v)) [
  | inl larger ↦ rw larger (ground (arith, larger), omega arith, inr refl)
  | inr smaller ↦ rw smaller (omega arith, ground (arith, smaller), inl refl)
]

IsUpTo-mono : (max max' : ℤ) (read : Option ℤ) → max ≤ℤ max' → IsUpTo max read → IsUpTo max' read
IsUpTo-mono max max' none h u = tt
IsUpTo-mono max max' (some n) h u = omega arith

max_revision_from_lem :
    (max : ℤ) (rss : List ReplicaSet)
    → (max ≤ℤ max_revision_from max rss)
      × All (λ rs. IsUpTo (max_revision_from max rss) (revision rs)) rss
      × ((max_revision_from max rss ≡ max) ⊎ IsRevisionOf (max_revision_from max rss) rss)
unfolding max_revision_from
max_revision_from_lem max [] = (omega arith, tt, inl refl)
max_revision_from_lem max (rs ∷ rss) =
    let next : ℤ = elim (revision rs) [ none ↦ max | some v ↦ if ltb_ℤ max v then v else max ] in
    let first = next_lem max (revision rs) in
    let rest = max_revision_from_lem next rss in
    (
      omega (arith, first.0, rest.0),
      (IsUpTo-mono next (max_revision_from next rss) (revision rs) rest.0 first.1, rest.1),
      elim rest.2 [
        | inl same ↦ elim first.2 [
          | inl kept ↦ inl (same ∙ kept)
          | inr read ↦ inr (inl (read ∙ ap some (sym same)))
        ]
        | inr later ↦ inr (inr later)
      ],
    )

-- MaxRevision is no smaller than 0 and than each revision that is a number, and it is 0 or the
-- revision of one of the sets.
pub max_revision-IsRevisionOf :
    (rss : List ReplicaSet)
    → (pos 0 ≤ℤ max_revision rss)
      × All (λ rs. IsUpTo (max_revision rss) (revision rs)) rss
      × ((max_revision rss ≡ pos 0) ⊎ IsRevisionOf (max_revision rss) rss)
unfolding max_revision
max_revision-IsRevisionOf rss = max_revision_from_lem (pos 0) rss

-- ===== src/Executor/Revision/History.antt =====
-- Which revisions the history keeps in front of a new one.
use batch_release.Base.{
  ℕ, ◌+◌, ◌-◌, ◌≤◌, ◌<◌, ◌≡◌, ◌⊎◌, refl, sym, ap, ◌∙◌, subst, inl, inr, true, false, Option, none,
  some, List, [], ◌∷◌, ◌++◌, length, All, leb, ltb, ◌==◌, arith, Bool-cases, if◌then◌else◌,
}
use batch_release.Base.Text.{Text}
use batch_release.Executor.Revision.{
  split, join, onto_first, drop_oldest, extend_fields, extend_history,
}
use batch_release.Executor.Revision.Fields.{
  room, HasNoComma, length-join_last, room-split, HasNoComma-split, split-onto_first,
  split-join_last, All-drop, chosen,
}

-- The last of the fields that are dropped does not fit.
abbrev pub IsNeeded : ℕ → Text → List Text → List Text → Type 0
IsNeeded limit revision dropped kept =
    (dropped ≡ [])
    ⊎ ((earlier : List Text) × (field : Text) × (dropped ≡ earlier ++ field ∷ [])
        × (limit < length (join (field ∷ kept ++ revision ∷ []))))

-- The loop keeps the longest end of the fields that fits.
record IsLongest (limit : ℕ) (revision : Text) (fields : List Text) (r : List Text × ℕ)
    : Type 0 where
  dropped : List Text
  parted : fields ≡ dropped ++ r.0
  needed : IsNeeded limit revision dropped r.0
  fits : r.1 ≤ limit
  counted : r.1 ≡ room r.0 + length revision

module _ (limit : ℕ) (revision : Text) (short : length revision ≤ limit) where
  drop_one :
      (field : Text) (fields : List Text) (r : List Text × ℕ)
      → limit < room (field ∷ fields) + length revision
      → IsLongest limit revision fields r
      → IsLongest limit revision (field ∷ fields) r
  drop_one f fs r long l = record {
    dropped = f ∷ l.dropped;
    parted = ap (λ (xs : List Text). f ∷ xs) l.parted;
    needed = elim l.needed [
      | inl nothing ↦
          let all : fs ≡ r.0 = l.parted ∙ ap (λ (xs : List Text). xs ++ r.0) nothing in
          let over = subst (λ (xs : List Text). limit < room (f ∷ xs) + length revision) all long in
          inr (
            [],
            f,
            ap (λ (xs : List Text). f ∷ xs) nothing,
            subst (λ (n : ℕ). limit < n) (sym (length-join_last (f ∷ r.0) revision)) over,
          )
      | inr (earlier, g, same, over) ↦
          inr (f ∷ earlier, g, ap (λ (xs : List Text). f ∷ xs) same, over)
    ];
    fits = l.fits;
    counted = l.counted;
  }

  drop_oldest-IsLongest :
      (fields : List Text) (n : ℕ)
      → n ≡ room fields + length revision
      → IsLongest limit revision fields (drop_oldest limit n fields)
  unfolding drop_oldest room
  drop_oldest-IsLongest [] n h = record {
    dropped = [];
    parted = refl;
    needed = inl refl;
    fits = omega (arith, h, short);
    counted = h;
  }
  drop_oldest-IsLongest (f ∷ fs) n h = elim (Bool-cases (ltb limit n)) [
    | inl long ↦ rw long (
        drop_one f fs (drop_oldest limit (n - length f - 1) fs) (ground (arith, long, h))
          (drop_oldest-IsLongest fs (n - length f - 1) (omega (arith, h))))
    | inr fitting ↦ rw fitting (record {
      dropped = [];
      parted = refl;
      needed = inl refl;
      fits = ground (arith, fitting);
      counted = h;
    })
  ]

  -- The history that the fields give.
  abbrev extended : Text → List Text → Option Text
  extended history fields =
      let (kept, total_len) = drop_oldest limit (length history + length revision + 1) fields in
      if leb total_len limit then some (join (kept ++ revision ∷ [])) else none

  extend_fields-extended :
      (history : Text) (c : ℕ) (fields : List Text)
      → extend_fields limit history revision (onto_first c fields)
        ≡ extended history (onto_first c fields)
  unfolding extend_fields
  extend_fields-extended history c [] = refl
  extend_fields-extended history c (f ∷ fs) = refl

  -- Where the texts of the revisions have no comma, the new one is within the limit, and the history
  -- begins with one, the history with the new one at its end is the longest end of the old history
  -- that fits: it is within the limit and ends with the new revision, in front of which stand the
  -- old ones in their order but for the first few, and those had to go: with the last of them the
  -- history would be too long.
  pub extend_history-IsLatest :
      (c : ℕ) (rest : Text)
      → (c == b',') ≡ false
      → HasNoComma revision
      → (history : Text) × (dropped : List Text) × (kept : List Text) × (extend_history limit
            (c ∷ rest)
            revision
          ≡ some history)
        × (split (c ∷ rest) ≡ dropped ++ kept)
        × (split history ≡ kept ++ revision ∷ [])
        × (length history ≤ limit)
        × IsNeeded limit revision dropped kept
  unfolding extend_history
  extend_history-IsLatest c rest plain clean =
      let fields = split (c ∷ rest) in
      let n = length (c ∷ rest) + length revision + 1 in
      let l = drop_oldest-IsLongest fields n (omega (arith, room-split (c ∷ rest))) in
      let (kept, total_len) = drop_oldest limit n fields in
      let fitting : leb total_len limit ≡ true = ground (arith, l.fits) in
      let led = split-onto_first c rest plain in
      let whole = subst (All HasNoComma) l.parted (HasNoComma-split (c ∷ rest)) in
      (
        join (kept ++ revision ∷ []),
        l.dropped,
        kept,
        ap (extend_fields limit (c ∷ rest) revision) led
            ∙ extend_fields-extended (c ∷ rest) c (split rest)
            ∙ ap (extended (c ∷ rest)) (sym led)
            ∙ chosen (leb total_len limit) (some (join (kept ++ revision ∷ []))) none fitting,
        l.parted,
        split-join_last kept revision (All-drop HasNoComma l.dropped kept whole) clean,
        omega (arith, length-join_last kept revision, l.fits, l.counted),
        l.needed,
      )

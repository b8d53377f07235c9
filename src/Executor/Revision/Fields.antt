-- ===== src/Executor/Revision/Fields.antt =====
-- What strings.Split and strings.Join do to the fields of a revision history, and to its length.
use batch_release.Base.{
  ℕ, ◌+◌, ◌≤◌, ◌≡◌, refl, ap, ◌∙◌, inl, inr, Bool, true, false, Option, List, [], ◌∷◌, ◌++◌, length,
  All, ◌==◌, arith, Bool-cases, if◌then◌else◌,
}
use batch_release.Base.Text.{Text}
use batch_release.Executor.Revision.{split, join, onto_first}

-- The characters of the fields, with one comma for each.
unfoldable pub room : List Text → ℕ
room [] = 0
room (field ∷ fields) = length field + 1 + room fields

abbrev pub HasNoComma : Text → Type 0
HasNoComma = All (λ c. (c == b',') ≡ false)

length-append : (s t : Text) → length (s ++ t) ≡ length s + length t
length-append [] t = omega arith
length-append (c ∷ s) t = omega (arith, length-append s t)

room-append : (p q : List Text) → room (p ++ q) ≡ room p + room q
unfolding room
room-append [] q = omega arith
room-append (f ∷ p) q = omega (arith, room-append p q)

length-join :
    (field : Text) (fields : List Text) → length (join (field ∷ fields)) + 1 ≡ room (field ∷ fields)
unfolding room join
length-join f [] = omega arith
length-join f (g ∷ gs) = ground (arith, length-join g gs, length-append f (b',' ∷ join (g ∷ gs)))

room-onto_first :
    (c : ℕ) (fields : List Text) → 1 ≤ room fields → room (onto_first c fields) ≡ room fields + 1
unfolding room
room-onto_first c [] h = omega arith
room-onto_first c (f ∷ fs) h = omega arith

pub room-split : (s : Text) → room (split s) ≡ length s + 1
unfolding room split
room-split [] = refl
room-split (c ∷ s) = elim (Bool-cases (c == b',')) [
  | inl comma ↦ rw comma (omega (arith, room-split s))
  | inr plain ↦ rw plain (omega (arith, room-split s, room-onto_first c (split s)))
]

pub split-onto_first :
    (c : ℕ) (s : Text) → (c == b',') ≡ false → split (c ∷ s) ≡ onto_first c (split s)
unfolding split
split-onto_first c s plain = rw plain refl

pub chosen : (b : Bool) (x y : Option Text) → b ≡ true → (if b then x else y) ≡ x
chosen b x y h = rw h refl

split-append : (field s : Text) → HasNoComma field → split (field ++ b',' ∷ s) ≡ field ∷ split s
unfolding split
split-append [] s h = refl
split-append (c ∷ f) s h = rw (h.0, split-append f s h.1) refl

split-plain : (field : Text) → HasNoComma field → split field ≡ field ∷ []
unfolding split
split-plain [] h = refl
split-plain (c ∷ f) h = rw (h.0, split-plain f h.1) refl

split-join :
    (field : Text) (fields : List Text)
    → All HasNoComma (field ∷ fields)
    → split (join (field ∷ fields)) ≡ field ∷ fields
unfolding join
split-join f [] h = split-plain f h.0
split-join f (g ∷ gs) h =
    split-append f (join (g ∷ gs)) h.0 ∙ ap (λ (l : List Text). f ∷ l) (split-join g gs h.1)

HasNoComma-onto_first :
    (c : ℕ) (fields : List Text)
    → (c == b',') ≡ false
    → All HasNoComma fields
    → All HasNoComma (onto_first c fields)
HasNoComma-onto_first c [] h hs = ((h, tt), tt)
HasNoComma-onto_first c (f ∷ fs) h hs = ((h, hs.0), hs.1)

pub HasNoComma-split : (s : Text) → All HasNoComma (split s)
unfolding split
HasNoComma-split [] = (tt, tt)
HasNoComma-split (c ∷ s) = elim (Bool-cases (c == b',')) [
  | inl comma ↦ rw comma (tt, HasNoComma-split s)
  | inr plain ↦ rw plain (HasNoComma-onto_first c (split s) plain (HasNoComma-split s))
]

pub All-drop : (P : Text → Type 0) (dropped kept : List Text) → All P (dropped ++ kept) → All P kept
All-drop P [] kept h = h
All-drop P (f ∷ dropped) kept h = All-drop P dropped kept h.1

All-with_last :
    (P : Text → Type 0) (kept : List Text) (last : Text)
    → All P kept
    → P last
    → All P (kept ++ last ∷ [])
All-with_last P [] last h l = (l, tt)
All-with_last P (f ∷ kept) last h l = (h.0, All-with_last P kept last h.1 l)

pub length-join_last :
    (kept : List Text) (last : Text) → length (join (kept ++ last ∷ [])) ≡ room kept + length last
unfolding room
length-join_last [] last = omega (arith, length-join last [])
length-join_last (f ∷ kept) last =
    omega (arith, length-join f (kept ++ last ∷ []), room-append kept (last ∷ []))

pub split-join_last :
    (kept : List Text) (last : Text)
    → All HasNoComma kept
    → HasNoComma last
    → split (join (kept ++ last ∷ [])) ≡ kept ++ last ∷ []
split-join_last [] last h l = split-join last [] (l, tt)
split-join_last (f ∷ kept) last h l =
    split-join f (kept ++ last ∷ []) (h.0, All-with_last HasNoComma kept last h.1 l)

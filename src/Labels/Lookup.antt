-- ===== src/Labels/Lookup.antt =====
-- What a map of labels holds after CloneAndAddLabel and CloneAndRemoveLabel, and what a selector
-- holds after CloneSelectorAndAddLabel (pkg/util/labels/labels.go).
use batch_release.Base.{
  ◌≡◌, ◌≢◌, refl, ◌∙◌, inl, inr, true, false, Option, none, some, [], ◌∷◌, arith, Bool-cases,
  if◌then◌else◌,
}
use batch_release.Base.GoMap.{
  GoMap, Entries, entries, lookup, insert, lookup-insert, get, get-put, get-delete,
}
use batch_release.Base.Text.{Text, text_eq, text_eq_iff}
use batch_release.Objects.{Selector}
use batch_release.Labels.{
  copy_onto, clone, clone_and_add_label, clone_and_remove_label, clone_selector_and_add_label,
  selector_has_label,
}

-- No key stands twice, as in every map of Go.
abbrev pub IsMap : Entries → Type 0
IsMap [] = Unit
IsMap ((k, v) ∷ m) = (lookup k m ≡ none) × IsMap m

abbrev or_else : Option Text → Option Text → Option Text
or_else none o = o
or_else (some v) o = some v

lookup-copy_onto :
    (j : Text) (acc m : Entries)
    → IsMap m
    → lookup j (copy_onto acc m) ≡ or_else (lookup j m) (lookup j acc)
unfolding copy_onto lookup
lookup-copy_onto j acc [] h = refl
lookup-copy_onto j acc ((k, v) ∷ m) h =
    let ih = lookup-copy_onto j (insert k v acc) m h.1 in
    let put_there = lookup-insert k j v acc in
    elim (Bool-cases (text_eq k j)) [
      | inl here ↦
          let fresh : lookup j m ≡ none = rw ((text_eq_iff k j).0 here) at h.0 in
          rw here (ih ∙ rw (fresh, put_there, here) refl)
      | inr there ↦ rw there (ih ∙ rw (put_there, there) refl)
    ]

or_else-none : (o : Option Text) → or_else o none ≡ o
or_else-none none = refl
or_else-none (some v) = refl

get-clone : (j : Text) (m : GoMap) → IsMap (entries m) → get j (clone m) ≡ get j m
unfolding get clone lookup
get-clone j m h = lookup-copy_onto j [] (entries m) h ∙ or_else-none (lookup j (entries m))

-- Of a map, CloneAndAddLabel of a key that is not empty gives a map with the value under that key
-- and what it had under the others.
pub get-clone_and_add_label :
    (labels : GoMap) (key value j : Text)
    → IsMap (entries labels)
    → key ≢ []
    → get j (clone_and_add_label labels key value)
      ≡ (if text_eq key j then some value else get j labels)
unfolding clone_and_add_label
get-clone_and_add_label labels key value j h some_key =
    let keyed : text_eq key [] ≡ false = ground (arith, text_eq_iff key []) in
    rw keyed (get-put key j value (clone labels) ∙ rw (get-clone j labels h) refl)

-- Of a map, CloneAndRemoveLabel of a key that is not empty gives a map with nothing under that key
-- and what it had under the others.
get-clone_and_remove_label :
    (labels : GoMap) (key j : Text)
    → IsMap (entries labels)
    → key ≢ []
    → get j (clone_and_remove_label labels key) ≡ (if text_eq key j then none else get j labels)
unfolding clone_and_remove_label
get-clone_and_remove_label labels key j h some_key =
    let keyed : text_eq key [] ≡ false = ground (arith, text_eq_iff key []) in
    rw keyed (get-delete key j (clone labels) ∙ rw (get-clone j labels h) refl)

-- A selector with a label added, whose key and value are not empty, has that label, and it has any
-- other label exactly if it had it before.
pub selector_has_label-clone_selector_and_add_label :
    (selector : Selector) (key value j : Text)
    → IsMap (entries selector.match_labels)
    → key ≢ []
    → value ≢ []
    → selector_has_label (clone_selector_and_add_label selector key value) j
      ≡ (if text_eq key j then true else selector_has_label selector j)
unfolding clone_selector_and_add_label selector_has_label
selector_has_label-clone_selector_and_add_label selector key value j h some_key some_value =
    let keyed : text_eq key [] ≡ false = ground (arith, text_eq_iff key []) in
    let valued : text_eq value [] ≡ false = ground (arith, text_eq_iff value []) in
    let found = get-put key j value (clone selector.match_labels) in
    let kept = get-clone j selector.match_labels h in
    elim (Bool-cases (text_eq key j)) [
      | inl here ↦ rw (keyed, found, here, valued) refl
      | inr there ↦ rw (keyed, found, there, kept) refl
    ]

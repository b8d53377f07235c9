-- ===== src/Base/GoMap.antt =====
-- map[string]string: `none` is the nil map, and a map that exists is an association list.
use batch_release.Base.{◌≡◌, refl, Option, none, some, List, [], ◌∷◌, arith, if◌then◌else◌}
use batch_release.Base.Text.{Text, text_eq, text_eq_iff}

abbrev pub Entries : Type 0
Entries = List (Text × Text)

abbrev pub GoMap : Type 0
GoMap = Option Entries

unfoldable pub lookup : Text → Entries → Option Text
lookup k [] = none
lookup k ((j, v) ∷ m) = if text_eq j k then some v else lookup k m

unfoldable pub insert : Text → Text → Entries → Entries
insert k v [] = (k, v) ∷ []
insert k v ((j, w) ∷ m) = if text_eq j k then (k, v) ∷ m else (j, w) ∷ insert k v m

unfoldable pub erase : Text → Entries → Entries
erase k [] = []
erase k ((j, w) ∷ m) = if text_eq j k then erase k m else (j, w) ∷ erase k m

pub lookup-insert :
    (k j v : Text) (m : Entries)
    → lookup j (insert k v m) ≡ (if text_eq k j then some v else lookup j m)
unfolding lookup insert
lookup-insert k j v [] = refl
lookup-insert k j v ((i, w) ∷ m) =
    ground (arith, text_eq_iff k j, text_eq_iff i k, text_eq_iff i j, lookup-insert k j v m)

pub lookup-erase :
    (k j : Text) (m : Entries) → lookup j (erase k m) ≡ (if text_eq k j then none else lookup j m)
unfolding lookup erase
lookup-erase k j [] = ground arith
lookup-erase k j ((i, w) ∷ m) =
    ground (arith, text_eq_iff k j, text_eq_iff i k, text_eq_iff i j, lookup-erase k j m)

-- `for k, v := range m`, `m[k]` and `delete(m, k)` treat the nil map as an empty one.
abbrev pub entries : GoMap → Entries
entries none = []
entries (some m) = m

unfoldable pub get : Text → GoMap → Option Text
get k m = lookup k (entries m)

-- `m[k]` as a value: the empty string where there is none.
abbrev pub or_empty : Option Text → Text
or_empty none = []
or_empty (some v) = v

-- `if m == nil { m = make(map[string]string) }`
abbrev pub make_if_nil : GoMap → GoMap
make_if_nil m = some (entries m)

-- `m[k] = v` on a map that exists; each such write of the program stands behind a `make`.
unfoldable pub put : Text → Text → GoMap → GoMap
put k v m = some (insert k v (entries m))

delete_from : Text → GoMap → GoMap
delete_from k none = none
delete_from k (some m) = some (erase k m)

unfoldable pub delete : Text → GoMap → GoMap
unfolding delete_from
delete k m = delete_from k m

pub get-put :
    (k j v : Text) (m : GoMap) → get j (put k v m) ≡ (if text_eq k j then some v else get j m)
unfolding get put
get-put k j v m = lookup-insert k j v (entries m)

pub get-make_if_nil : (k : Text) (m : GoMap) → get k (make_if_nil m) ≡ get k m
unfolding get
get-make_if_nil k m = refl

pub get-delete :
    (k j : Text) (m : GoMap) → get j (delete k m) ≡ (if text_eq k j then none else get j m)
unfolding get delete lookup
get-delete k j none = ground arith
get-delete k j (some m) = lookup-erase k j m

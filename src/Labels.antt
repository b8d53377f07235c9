-- ===== src/Labels.antt =====
-- pkg/util/labels/labels.go. A function of the source that writes into the map it is given returns
-- that map too; here the result is the map.
pub mod Lookup
use batch_release.Base.{Bool, not, Option, none, some, List, [], ◌∷◌, map, if◌then◌else◌}
use batch_release.Base.Text.{Text, text_eq}
use batch_release.Base.GoMap.{
  GoMap, Entries, entries, insert, get, or_empty, make_if_nil, put, delete,
}
use batch_release.Objects.{Selector, Requirement}

-- `for key, value := range labels { newLabels[key] = value }`
unfoldable pub copy_onto : Entries → Entries → Entries
copy_onto acc [] = acc
copy_onto acc ((k, v) ∷ m) = copy_onto (insert k v acc) m

unfoldable pub clone : GoMap → GoMap
unfolding copy_onto
clone labels = some (copy_onto [] (entries labels))

unfoldable pub clone_and_add_label : GoMap → Text → Text → GoMap
clone_and_add_label labels label_key label_value =
    if text_eq label_key [] then labels else put label_key label_value (clone labels)

unfoldable pub clone_and_remove_label : GoMap → Text → GoMap
clone_and_remove_label labels label_key =
    if text_eq label_key [] then labels else delete label_key (clone labels)

unfoldable pub add_label : GoMap → Text → Text → GoMap
add_label labels label_key label_value =
    if text_eq label_key [] then labels else put label_key label_value (make_if_nil labels)

-- The loop over MatchExpressions copies each field, a nil list of values as nil.
unfoldable pub copy_expressions : Option (List Requirement) → Option (List Requirement)
copy_expressions none = none
copy_expressions (some expressions) =
    some
      (map (λ me. record { key = me.key; operator = me.operator; values = me.values }) expressions)

unfoldable pub clone_selector_and_add_label : Selector → Text → Text → Selector
clone_selector_and_add_label selector label_key label_value =
    if text_eq label_key [] then selector else record {
      match_labels = put label_key label_value (clone selector.match_labels);
      match_expressions = copy_expressions selector.match_expressions;
    }

unfoldable pub add_label_to_selector : Selector → Text → Text → Selector
add_label_to_selector selector label_key label_value =
    if text_eq label_key [] then selector else record selector {
      match_labels = put label_key label_value (make_if_nil selector.match_labels);
    }

unfoldable pub selector_has_label : Selector → Text → Bool
selector_has_label selector label_key =
    not (text_eq (or_empty (get label_key selector.match_labels)) [])

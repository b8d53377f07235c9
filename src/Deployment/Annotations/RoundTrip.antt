-- ===== src/Deployment/Annotations/RoundTrip.antt =====
-- What setReplicasAnnotations writes is what getReplicasAnnotation and getMaxReplicasAnnotation
-- read (pkg/util/deployment/deployment.go).
use batch_release.Base.{
  ◌≡◌, ◌≢◌, refl, sym, ap, ◌∙◌, inl, inr, Bool, true, false, not, Option, none, some, [], arith,
  Bool-cases, if◌then◌else◌,
}
use batch_release.Base.Int.{ℤ, IsInt32, to_int32_exact}
use batch_release.Base.Text.{
  Text, text_eq, text_eq_iff, text_eq_refl, print_int, parse_int, parse-print,
}
use batch_release.Base.GoMap.{GoMap, lookup, get, or_empty, make_if_nil, put, get-put}
use batch_release.Objects.{ReplicaSet}
use batch_release.Deployment.Annotations.{
  replicas_annotation, max_replicas_annotation, write_if_changed, set_replicas_annotations,
  annotations_need_update, replicas_annotations_need_update, get_int_from_annotation,
  get_replicas_annotation, get_max_replicas_annotation,
}

or_empty_present : (o : Option Text) (v : Text) → or_empty o ≡ v → v ≢ [] → o ≡ some v
or_empty_present none v e h = absurd (h (sym e))
or_empty_present (some u) v e h = rw e refl

get-write_if_changed :
    (key j value : Text) (m : GoMap) (updated : Bool)
    → value ≢ []
    → get j (write_if_changed key value (m, updated)).0
      ≡ (if text_eq key j then some value else get j m)
unfolding write_if_changed
get-write_if_changed key j value m updated h =
    elim (Bool-cases (text_eq (or_empty (get key m)) value)) [
      | inl same ↦
          let held =
            or_empty_present (get key m) value ((text_eq_iff (or_empty (get key m)) value).0 same)
              h in
          elim (Bool-cases (text_eq key j)) [
            | inl here ↦ rw (same, here) (rw ((text_eq_iff key j).0 here) at held)
            | inr there ↦ rw (same, there) refl
          ]
      | inr differs ↦ rw differs (get-put key j value m)
    ]

-- What is printed of an int32 reads back, also through the conversion to int32.
parse-print-int32 : (z : ℤ) → IsInt32 z → parse_int (print_int z) ≡ some z
parse-print-int32 z h = parse-print z (ground (arith, h.upper)) (ground (arith, h.lower))

print_int_nonempty : (z : ℤ) → IsInt32 z → print_int z ≢ []
unfolding parse_int
print_int_nonempty z h e = let back = parse-print-int32 z h in ground (arith, ap parse_int e)

-- The two writes of SetReplicasAnnotations, under any two keys.
module _ (j k u v : Text) where
  abbrev write_both : GoMap → GoMap × Bool
  write_both m = write_if_changed k v (write_if_changed j u (m, false))

  get-write_both_first :
      (m : GoMap) → text_eq k j ≡ false → u ≢ [] → v ≢ [] → get j (write_both m).0 ≡ some u
  get-write_both_first m other some_u some_v =
      let (n, b) = write_if_changed j u (m, false) in
      get-write_if_changed k j v n b some_v
      ∙ rw other (get-write_if_changed j j u m false some_u ∙ rw (text_eq_refl j) refl)

  get-write_both_second : (m : GoMap) → v ≢ [] → get k (write_both m).0 ≡ some v
  get-write_both_second m some_v =
      let (n, b) = write_if_changed j u (m, false) in
      get-write_if_changed k k v n b some_v ∙ rw (text_eq_refl k) refl

  write_both-flag :
      (m : GoMap)
      → (write_both m).1 ≡ (
          if not (text_eq (or_empty (get j m)) u)
          then true
          else not (text_eq (or_empty (get k m)) v))
  unfolding write_if_changed
  write_both-flag m = elim (Bool-cases (text_eq (or_empty (get j m)) u)) [
    | inl same ↦ elim (Bool-cases (text_eq (or_empty (get k m)) v)) [
      | inl same' ↦ rw (same, same') refl
      | inr differs ↦ rw (same, differs) refl
    ]
    | inr differs ↦ elim (Bool-cases (text_eq (or_empty (get k (put j u m))) v)) [
      | inl same ↦ rw (differs, same) refl
      | inr differs' ↦ rw (differs, differs') refl
    ]
  ]

distinct : text_eq max_replicas_annotation replicas_annotation ≡ false
unfolding text_eq
distinct = refl

get_int_from_annotation-get :
    (rs : ReplicaSet) (key : Text) (n : ℤ)
    → IsInt32 n
    → get key rs.annotations ≡ some (print_int n)
    → get_int_from_annotation rs key ≡ some n
unfolding get_int_from_annotation
get_int_from_annotation-get rs key n sized held =
    ground (arith, held, parse-print-int32 n sized, to_int32_exact n sized)

needs_no_update :
    (m : GoMap) (desired max : ℤ)
    → get replicas_annotation m ≡ some (print_int desired)
    → get max_replicas_annotation m ≡ some (print_int max)
    → annotations_need_update m desired max ≡ false
unfolding annotations_need_update
needs_no_update none desired max held held_max =
    let nothing : get replicas_annotation none ≡ none = unfold get lookup in refl in
    absurd (ground (arith, nothing, held))
needs_no_update (some m) desired max held held_max =
    rw (held, held_max, text_eq_refl (print_int desired), text_eq_refl (print_int max)) refl

needs_update :
    (m : GoMap) (desired max : ℤ)
    → IsInt32 desired
    → (if not (text_eq (or_empty (get replicas_annotation (make_if_nil m))) (print_int desired))
        then true
        else not (text_eq (or_empty (get max_replicas_annotation (make_if_nil m))) (print_int max)))
      ≡ annotations_need_update m desired max
unfolding annotations_need_update
needs_update none desired max sized =
    let nothing : get replicas_annotation (some []) ≡ none = unfold get lookup in refl in
    let differs : text_eq [] (print_int desired) ≡ false = ground (
      arith,
      text_eq_iff (print_int desired) [],
      text_eq_iff [] (print_int desired),
      print_int_nonempty desired sized,
    ) in
    rw (nothing, differs) refl
needs_update (some m) desired max sized = refl

module _ (rs : ReplicaSet) (desired max : ℤ) (sized : IsInt32 desired)
    (max_sized : IsInt32 max) where
  read_replicas :
      get replicas_annotation (set_replicas_annotations rs desired max).0.annotations
      ≡ some (print_int desired)
  unfolding set_replicas_annotations
  read_replicas =
      get-write_both_first replicas_annotation max_replicas_annotation (print_int desired)
        (print_int max) (make_if_nil rs.annotations) distinct (print_int_nonempty desired sized)
        (print_int_nonempty max max_sized)

  read_max :
      get max_replicas_annotation (set_replicas_annotations rs desired max).0.annotations
      ≡ some (print_int max)
  unfolding set_replicas_annotations
  read_max =
      get-write_both_second replicas_annotation max_replicas_annotation (print_int desired)
        (print_int max) (make_if_nil rs.annotations) (print_int_nonempty max max_sized)

  -- Of int32s, the desired and the maximal size that SetReplicasAnnotations writes are those that
  -- GetReplicasAnnotation and GetMaxReplicasAnnotation read, and then ReplicasAnnotationsNeedUpdate
  -- asks for no further write.
  pub get_replicas_annotation-set_replicas_annotations :
      let rs' = (set_replicas_annotations rs desired max).0 in
      (get_replicas_annotation rs' ≡ some desired)
      × (get_max_replicas_annotation rs' ≡ some max)
      × (replicas_annotations_need_update rs' desired max ≡ false)
  unfolding get_replicas_annotation get_max_replicas_annotation replicas_annotations_need_update
  get_replicas_annotation-set_replicas_annotations =
      let rs' = (set_replicas_annotations rs desired max).0 in
      (
        get_int_from_annotation-get rs' replicas_annotation desired sized read_replicas,
        get_int_from_annotation-get rs' max_replicas_annotation max max_sized read_max,
        needs_no_update rs'.annotations desired max read_replicas read_max,
      )

  -- SetReplicasAnnotations of two int32s reports a write exactly where ReplicasAnnotationsNeedUpdate
  -- asks for one.
  pub set_replicas_annotations_updated :
      (set_replicas_annotations rs desired max).1 ≡ replicas_annotations_need_update rs desired max
  unfolding set_replicas_annotations replicas_annotations_need_update
  set_replicas_annotations_updated =
      write_both-flag replicas_annotation max_replicas_annotation (print_int desired)
        (print_int max) (make_if_nil rs.annotations)
      ∙ needs_update rs.annotations desired max sized

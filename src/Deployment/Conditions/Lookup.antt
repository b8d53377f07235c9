-- ===== src/Deployment/Conditions/Lookup.antt =====
-- What a status holds after SetDeploymentCondition and RemoveDeploymentCondition
-- (pkg/util/deployment/deployment.go).
use batch_release.Base.{
  ◌≡◌, ◌≢◌, refl, ◌∙◌, inl, inr, true, false, Option, none, some, List, [], ◌∷◌, ◌++◌, arith,
  Bool-cases, if◌then◌else◌,
}
use batch_release.Base.Text.{Text, text_eq, text_eq_iff, text_eq_refl}
use batch_release.Objects.{DeploymentCondition, DeploymentStatus, ConditionStatus, same_status}
use batch_release.Deployment.Conditions.{
  find_condition, get_deployment_condition, filter_out_condition, append_condition,
  replace_condition, set_deployment_condition, remove_deployment_condition,
}

same_status→eq : (s t : ConditionStatus) → same_status s t ≡ true → s ≡ t
same_status→eq s t h = ground arith

pub find_condition-filter_out_condition :
    (j k : Text) (cs : List DeploymentCondition)
    → find_condition k (filter_out_condition cs j)
      ≡ (if text_eq j k then none else find_condition k cs)
unfolding find_condition filter_out_condition
find_condition-filter_out_condition j k [] = ground arith
find_condition-filter_out_condition j k (c ∷ cs) = ground (
  arith,
  text_eq_iff c.kind j,
  text_eq_iff c.kind k,
  text_eq_iff j k,
  find_condition-filter_out_condition j k cs,
)

-- Another condition at the end is found where none is before it.
find_condition-append :
    (k : Text) (cs : List DeploymentCondition) (c : DeploymentCondition)
    → find_condition k cs ≡ none
    → find_condition k (cs ++ c ∷ []) ≡ (if text_eq c.kind k then some c else none)
unfolding find_condition
find_condition-append k [] c h = refl
find_condition-append k (d ∷ cs) c h = ground (arith, find_condition-append k cs c)

pub find_condition_append_other :
    (k : Text) (cs : List DeploymentCondition) (c : DeploymentCondition)
    → text_eq c.kind k ≡ false
    → find_condition k (cs ++ c ∷ []) ≡ find_condition k cs
unfolding find_condition
find_condition_append_other k [] c h = rw h refl
find_condition_append_other k (d ∷ cs) c h = ground (arith, find_condition_append_other k cs c h)

-- A condition that is appended for those of its type is the one of its type, and the others stay.
find_condition-append_condition :
    (k : Text) (status : DeploymentStatus) (c : DeploymentCondition)
    → get_deployment_condition (append_condition status c) k
      ≡ (if text_eq c.kind k then some c else get_deployment_condition status k)
unfolding get_deployment_condition
find_condition-append_condition k status c =
    let kept = find_condition-filter_out_condition c.kind k status.conditions in
    elim (Bool-cases (text_eq c.kind k)) [
      | inl here ↦
          rw
            (
              find_condition-append k (filter_out_condition status.conditions c.kind) c
                  (kept ∙ rw here refl),
              here,
            )
            refl
      | inr there ↦
          rw
            (
              find_condition_append_other k (filter_out_condition status.conditions c.kind) c there,
              kept,
              there,
            )
            refl
    ]

-- A condition of the type, the status and the reason of `c` is held.
abbrev Holds : DeploymentStatus → DeploymentCondition → Type 0
Holds status c =
    (held : DeploymentCondition) × (get_deployment_condition status c.kind ≡ some held)
    × (held.status ≡ c.status)
    × (held.reason ≡ c.reason)

append_condition-Holds :
    (status : DeploymentStatus) (c : DeploymentCondition) → Holds (append_condition status c) c
append_condition-Holds status c =
    (c, find_condition-append_condition c.kind status c ∙ rw (text_eq_refl c.kind) refl, refl, refl)

replace_condition-Holds :
    (found : Option DeploymentCondition) (status : DeploymentStatus) (c : DeploymentCondition)
    → get_deployment_condition status c.kind ≡ found
    → Holds (replace_condition found status c) c
unfolding replace_condition
replace_condition-Holds none status c h = append_condition-Holds status c
replace_condition-Holds (some current) status c h =
    elim (Bool-cases (same_status current.status c.status)) [
      | inl same ↦ elim (Bool-cases (text_eq current.reason c.reason)) [
        | inl same_reason ↦
            rw (same, same_reason)
              (
                current,
                h,
                same_status→eq current.status c.status same,
                (text_eq_iff current.reason c.reason).0 same_reason,
              )
        | inr new_reason ↦
            rw (same, new_reason)
              (append_condition-Holds status
                (record c { last_transition_time = current.last_transition_time }))
      ]
      | inr new_status ↦ rw new_status (append_condition-Holds status c)
    ]

replace_condition_others :
    (found : Option DeploymentCondition) (status : DeploymentStatus) (c : DeploymentCondition)
    (k : Text)
    → text_eq c.kind k ≡ false
    → get_deployment_condition (replace_condition found status c) k
      ≡ get_deployment_condition status k
unfolding replace_condition
replace_condition_others none status c k other =
    find_condition-append_condition k status c ∙ rw other refl
replace_condition_others (some current) status c k other =
    elim (Bool-cases (same_status current.status c.status)) [
      | inl same ↦ elim (Bool-cases (text_eq current.reason c.reason)) [
        | inl same_reason ↦ rw (same, same_reason) refl
        | inr new_reason ↦
            rw (same, new_reason)
              (find_condition-append_condition k status
                  (record c { last_transition_time = current.last_transition_time })
                ∙ rw other refl)
      ]
      | inr new_status ↦ rw new_status (find_condition-append_condition k status c ∙ rw other refl)
    ]

-- After SetDeploymentCondition the status holds a condition of the given type with the given status
-- and reason.
pub get_deployment_condition-set_deployment_condition :
    (status : DeploymentStatus) (c : DeploymentCondition)
    → (held : DeploymentCondition) × (get_deployment_condition
          (set_deployment_condition status c)
          c.kind
        ≡ some held)
      × (held.status ≡ c.status)
      × (held.reason ≡ c.reason)
unfolding set_deployment_condition
get_deployment_condition-set_deployment_condition status c =
    replace_condition-Holds (get_deployment_condition status c.kind) status c refl

-- SetDeploymentCondition leaves what the status holds of another type as it is.
pub set_deployment_condition_others :
    (status : DeploymentStatus) (c : DeploymentCondition) (k : Text)
    → c.kind ≢ k
    → get_deployment_condition (set_deployment_condition status c) k
      ≡ get_deployment_condition status k
unfolding set_deployment_condition
set_deployment_condition_others status c k other =
    replace_condition_others (get_deployment_condition status c.kind) status c k
      (ground (arith, text_eq_iff c.kind k))

-- After RemoveDeploymentCondition of the type `j` the status holds no condition of that type, and
-- what it holds of another type is what it held.
pub get_deployment_condition-remove_deployment_condition :
    (status : DeploymentStatus) (j k : Text)
    → get_deployment_condition (remove_deployment_condition status j) k
      ≡ (if text_eq j k then none else get_deployment_condition status k)
unfolding get_deployment_condition remove_deployment_condition
get_deployment_condition-remove_deployment_condition status j k =
    find_condition-filter_out_condition j k status.conditions

-- ===== src/Deployment/Conditions/Unique.antt =====
-- Statuses with at most one condition of each type, and the operations on conditions
-- (pkg/util/deployment/deployment.go).
use batch_release.Base.{
  ◌≡◌, refl, ◌∙◌, inl, inr, Bool, true, false, Option, none, some, List, [], ◌∷◌, ◌++◌, arith,
  Bool-cases, if◌then◌else◌,
}
use batch_release.Base.Text.{Text, text_eq, text_eq_iff, text_eq_refl}
use batch_release.Objects.{DeploymentCondition, DeploymentStatus}
use batch_release.Deployment.Conditions.{
  find_condition, get_deployment_condition, filter_out_condition, append_condition,
  replace_condition, set_deployment_condition, remove_deployment_condition,
}
use batch_release.Deployment.Conditions.Lookup.{
  find_condition-filter_out_condition, find_condition_append_other,
}

-- No two conditions have the same type.
abbrev pub AreDistinct : List DeploymentCondition → Type 0
AreDistinct [] = Unit {0}
AreDistinct (c ∷ cs) = (find_condition c.kind cs ≡ none) × AreDistinct cs

pub record HasDistinct (status : DeploymentStatus) : Type 0 where
  pub distinct : AreDistinct status.conditions

none-filter_out_condition :
    (j k : Text) (cs : List DeploymentCondition)
    → find_condition k cs ≡ none
    → find_condition k (filter_out_condition cs j) ≡ none
none-filter_out_condition j k cs h = find_condition-filter_out_condition j k cs ∙ ground (arith, h)

AreDistinct-filter_out_condition :
    (j : Text) (cs : List DeploymentCondition)
    → AreDistinct cs
    → AreDistinct (filter_out_condition cs j)
unfolding filter_out_condition
AreDistinct-filter_out_condition j [] h = tt
AreDistinct-filter_out_condition j (c ∷ cs) h = elim (Bool-cases (text_eq c.kind j)) [
  | inl gone ↦ rw gone (AreDistinct-filter_out_condition j cs h.1)
  | inr kept ↦
      rw kept (none-filter_out_condition j c.kind cs h.0, AreDistinct-filter_out_condition j cs h.1)
]

AreDistinct-append :
    (cs : List DeploymentCondition) (c : DeploymentCondition)
    → AreDistinct cs
    → find_condition c.kind cs ≡ none
    → AreDistinct (cs ++ c ∷ [])
unfolding find_condition
AreDistinct-append [] c h missing = (refl, tt)
AreDistinct-append (d ∷ cs) c h missing = elim (Bool-cases (text_eq d.kind c.kind)) [
  | inl same ↦ absurd (ground (arith, same, missing))
  | inr other ↦
      let other' : text_eq c.kind d.kind ≡ false =
        ground (arith, other, text_eq_iff c.kind d.kind, text_eq_iff d.kind c.kind) in
      (
        find_condition_append_other d.kind cs c other' ∙ h.0,
        AreDistinct-append cs c h.1 (ground (arith, other, missing)),
      )
]

append_condition-HasDistinct :
    (status : DeploymentStatus) (c : DeploymentCondition)
    → HasDistinct status
    → HasDistinct (append_condition status c)
append_condition-HasDistinct status c h =
    let cs = status.conditions in
    record {
      distinct =
          AreDistinct-append (filter_out_condition cs c.kind) c
            (AreDistinct-filter_out_condition c.kind cs h.distinct)
            (find_condition-filter_out_condition c.kind c.kind cs ∙ rw (text_eq_refl c.kind) refl);
    }

pub HasDistinct-if :
    (b : Bool) (s t : DeploymentStatus)
    → HasDistinct s
    → HasDistinct t
    → HasDistinct (if b then s else t)
HasDistinct-if true s t h k = h
HasDistinct-if false s t h k = k

replace_condition-HasDistinct :
    (found : Option DeploymentCondition) (status : DeploymentStatus) (c : DeploymentCondition)
    → HasDistinct status
    → HasDistinct (replace_condition found status c)
unfolding replace_condition
replace_condition-HasDistinct none status c h = append_condition-HasDistinct status c h
replace_condition-HasDistinct (some current) status c h =
    HasDistinct-if _ status _ h (append_condition-HasDistinct status _ h)

pub set_deployment_condition-HasDistinct :
    (status : DeploymentStatus) (c : DeploymentCondition)
    → HasDistinct status
    → HasDistinct (set_deployment_condition status c)
unfolding set_deployment_condition
set_deployment_condition-HasDistinct status c =
    replace_condition-HasDistinct (get_deployment_condition status c.kind) status c

pub remove_deployment_condition-HasDistinct :
    (status : DeploymentStatus) (kind : Text)
    → HasDistinct status
    → HasDistinct (remove_deployment_condition status kind)
unfolding remove_deployment_condition
remove_deployment_condition-HasDistinct status kind h = record {
  distinct = AreDistinct-filter_out_condition kind status.conditions h.distinct;
}

pub ruleset distinct_rules =
    (HasDistinct-if, set_deployment_condition-HasDistinct, remove_deployment_condition-HasDistinct)

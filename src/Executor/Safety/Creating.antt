-- ===== src/Executor/Safety/Creating.antt =====
-- The branches of getNewReplicaSet for a replica set that exists, was created or was refused.
use batch_release.Base.{
  ℕ, ◌≡◌, refl, sym, ◌∙◌, subst, Bool, true, false, Option, none, some, if◌then◌else◌, Bool-cases,
  inl, inr, [], ◌≢◌,
}
use batch_release.Base.Int.{ℤ}
use batch_release.Base.Text.{Text, text_eq}
use batch_release.Base.GoMap.{GoMap, entries, get, delete, get-delete}
use batch_release.Labels.{clone_and_add_label}
use batch_release.Labels.Lookup.{IsMap, get-clone_and_add_label}
use batch_release.Objects.{ReplicaSet, Deployment, PodTemplate, DeploymentCondition}
use batch_release.Vendor.{Vendor}
use batch_release.Deployment.Annotations.{set_replicas_annotations, copy_deployment_annotations}
use batch_release.Deployment.Find.{equal_ignore_hash, without_hash, pod_template_hash_label}
use batch_release.Executor.Monad.{Env, patch_replica_set, ServerError, send, pure, ◌>>◌}
use batch_release.Executor.NewReplicaSet.{
  hold_de, with_progressing, try_update_held_de_status, sync_existing, note_creation,
  report_failure,
}
use batch_release.Executor.Revision.{revise, with_sizes, set_new_replica_set_annotations}
use batch_release.Executor.Safety.{View, Any, Safe, Safe-pure, Safe-if, Safe-then, Safe-answer}
use batch_release.Executor.Safety.Held.{
  KeepsSpecs, IsHeld, Safe-hold, IsHeld-with_progressing, holding_rules, update_held_de_status-Safe,
  try_update-Safe,
}

-- equality.Semantic.DeepEqual of templates is symmetric, and compares maps by their entries.
pub record ComparesTemplates (v : Vendor) : Type 0 where
  pub swapped : (s t : PodTemplate) → v.deep_equal s t ≡ true → v.deep_equal t s ≡ true
  pub same_labels :
      (s t : PodTemplate)
      → s.content ≡ t.content
      → ((k : Text) → get k s.labels ≡ get k t.labels)
      → v.deep_equal s t ≡ true

module _ (v : Vendor) (compares : ComparesTemplates v) (t : PodTemplate)
    (distinct : IsMap (entries t.labels)) where
  some_key : pod_template_hash_label ≢ []
  some_key h = cc

  hashed_labels :
      (hash k : Text)
      → get k (
          delete pod_template_hash_label
            (clone_and_add_label t.labels pod_template_hash_label hash))
        ≡ get k (delete pod_template_hash_label t.labels)
  hashed_labels hash k =
      let key = pod_template_hash_label in
      let added = get-clone_and_add_label t.labels key hash k distinct some_key in
      let without = get-delete key k (clone_and_add_label t.labels key hash) in
      let plain = get-delete key k t.labels in
      rw (without, plain)
        (elim (Bool-cases (text_eq key k)) [
          | inl here ↦ rw here refl
          | inr there ↦ rw there (added ∙ rw there refl)
        ])

  -- A template with the label of its hash is the template itself.
  pub hashed_template :
      (hash : Text)
      → equal_ignore_hash v
          (record t { labels = clone_and_add_label t.labels pod_template_hash_label hash })
          t
        ≡ true
  unfolding equal_ignore_hash without_hash
  hashed_template hash = compares.same_labels _ _ refl (hashed_labels hash)

pub template-annotated :
    (de : Deployment) (surge : ℤ) (rs : ReplicaSet) (rev : Text) (exists : Bool) (limit : ℕ)
    → (set_new_replica_set_annotations de surge rs rev exists limit).0.template ≡ rs.template
unfolding set_new_replica_set_annotations copy_deployment_annotations with_sizes
    set_replicas_annotations
template-annotated de surge rs rev exists limit =
    let copied = (copy_deployment_annotations de rs).0 in go (revise limit rev copied.annotations)
  where
    go :
        (o : Option (GoMap × Bool))
        → (elim o as (λ _. ReplicaSet × Bool) [
          | none ↦ ((copy_deployment_annotations de rs).0, false)
          | some (m, revised) ↦ with_sizes de surge exists (
            record (copy_deployment_annotations de rs).0 { annotations = m },
            if revised then true else (copy_deployment_annotations de rs).1,
          )
        ]).0.template
          ≡ rs.template
    go none = refl
    go (some (m, revised)) =
        sized exists m (if revised then true else (copy_deployment_annotations de rs).1)
      where
        sized :
            (b : Bool) (m : GoMap) (changed : Bool)
            → (with_sizes de surge b (
              record (copy_deployment_annotations de rs).0 { annotations = m },
              changed,
            )).0.template
              ≡ rs.template
        sized true m changed = refl
        sized false m changed = refl

-- The replica set has the template of the view, up to the label of its hash.
abbrev pub IsNew : View → Env → ReplicaSet → Type 0
IsNew v w rs = equal_ignore_hash w.vendor rs.template v.template ≡ true

module _ (v : View) (w : Env) (keeps : KeepsSpecs w.client) where
  pub IsNew-eq : (rs rs' : ReplicaSet) → rs'.template ≡ rs.template → IsNew v w rs → IsNew v w rs'
  IsNew-eq rs rs' h k =
      subst (λ (t : PodTemplate). equal_ignore_hash w.vendor t v.template ≡ true) (sym h) k

  patch-Safe :
      (rs sized : ReplicaSet)
      → sized.template ≡ rs.template
      → IsNew v w rs
      → Safe v (IsNew v w) (
          send (λ calls. w.client.on_patch_replica_set calls rs sized) (patch_replica_set rs sized))
  patch-Safe rs sized h new =
      Safe-answer v (IsNew v w) _ _
        (λ calls a k. IsNew-eq rs a (keeps.patched calls rs sized a k ∙ h) new)

  IsNew-annotated :
      (de : Deployment) (surge : ℤ) (rs : ReplicaSet) (rev : Text) (exists : Bool) (limit : ℕ)
      → IsNew v w rs
      → IsNew v w (set_new_replica_set_annotations de surge rs rev exists limit).0
  IsNew-annotated de surge rs rev exists limit =
      let annotated = (set_new_replica_set_annotations de surge rs rev exists limit).0 in
      IsNew-eq rs annotated (template-annotated de surge rs rev exists limit)

  pub sync_existing-Safe :
      (rs : ReplicaSet) (rev : Text) → IsNew v w rs → Safe v (IsNew v w) (sync_existing w rs rev)
  unfolding sync_existing
  sync_existing-Safe rs rev new =
      search
        (holding_rules, update_held_de_status-Safe, patch-Safe, template-annotated, IsNew-annotated)
        depth 16

  pub note_creation-Safe :
      (exists : Bool) (rs : ReplicaSet) (n : ℤ) (rev : Text)
      → IsNew v w rs
      → Safe v (IsNew v w) (note_creation w exists rs n rev)
  unfolding note_creation
  note_creation-Safe exists rs n rev new =
      search (holding_rules, update_held_de_status-Safe) depth 12

  note_failure-Safe :
      (b : Bool) (de : Deployment) (failed : DeploymentCondition)
      → IsHeld v de
      → Safe v Any (
          if b
          then (hold_de (with_progressing de failed) >> try_update_held_de_status w)
          else pure tt)
  note_failure-Safe b de failed held =
      Safe-if v Any b _ _
        (Safe-then v Any _ _ (Safe-hold v _ (IsHeld-with_progressing v de failed held))
          (try_update-Safe v w keeps))
        (Safe-pure v tt)

  pub report_failure-Safe :
      (x : ServerError) (rs : ReplicaSet) → Safe v (IsNew v w) (report_failure w x rs)
  unfolding report_failure
  report_failure-Safe x rs = search (holding_rules, note_failure-Safe) depth 14

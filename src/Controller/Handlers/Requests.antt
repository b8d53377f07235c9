-- ===== src/Controller/Handlers/Requests.antt =====
-- What the handlers request for the objects of a release.
use batch_release.Base.{
  Bool, Option, ◌≡◌, refl, ap, ◌∙◌, true, false, none, some, List, [], ◌∷◌, if◌then◌else◌,
}
use batch_release.Base.GoMap.{get, make_if_nil, get-put, get-delete}
use batch_release.Base.Int.{ℤ, eqb_ℤ}
use batch_release.Base.Text.{Text, text_eq_refl}
use batch_release.Objects.{Deployment, PodTemplate}
use batch_release.Release.{BatchRelease, BatchReleaseStatus, control_info_anno}
use batch_release.Executor.Phases.{control_info, taken_over, handed_back}
use batch_release.Vendor.{Vendor}
use batch_release.Controller.Handlers.{
  deployment, updated, Request, Json, same_replicas, enqueue_name, handle_deployment, on_deployment,
}

-- encoding/json reads the name of an OwnerReference back.
pub record ReadsOwners (v : Vendor) (json : Json) : Type 0 where
  pub name_read : (br : BatchRelease) → json.unmarshal_name (control_info v br) ≡ some br.name

same_branches : (b : Bool) → ◌≡◌ {A = List Request} (if b then [] else []) []
same_branches true = refl
same_branches false = refl

module _ (v : Vendor) (json : Json) (reads : ReadsOwners v json) (br : BatchRelease) where
  -- A Deployment that is marked, and one that is not.
  requested_for :
      (d : Deployment)
      → get control_info_anno d.annotations ≡ some (control_info v br)
      → handle_deployment json (deployment d)
        ≡ record { namespace = d.namespace; name = br.name } ∷ []
  unfolding handle_deployment enqueue_name
  requested_for d h =
      ap
        (λ (o : Option Text). elim o as (λ _. List Request) [
          | none ↦ []
          | some s ↦ enqueue_name json d.namespace (json.unmarshal_name s)
        ])
        h
      ∙ ap (enqueue_name json d.namespace) (reads.name_read br)

  not_requested :
      (d : Deployment)
      → get control_info_anno d.annotations ≡ none
      → handle_deployment json (deployment d) ≡ []
  unfolding handle_deployment enqueue_name
  not_requested d h =
      ap
        (λ (o : Option Text). elim o as (λ _. List Request) [
          | none ↦ []
          | some s ↦ enqueue_name json d.namespace (json.unmarshal_name s)
        ])
        h

  -- Where encoding/json reads the name back that it wrote, an update of a Deployment that init took
  -- over and somebody resized requests the release that controls it, in the Deployment's namespace,
  -- exactly if the number of its replicas has changed. When finalize has handed the Deployment back,
  -- no update of it requests anything.
  pub on_deployment-taken_over :
      (t : PodTemplate) (d old : Deployment) (n m : ℤ) (status : BatchReleaseStatus)
      → let held = record (taken_over (control_info v br) t d) { replicas = n } in
        (on_deployment json (updated (deployment old) (deployment held)) ≡ (
          if eqb_ℤ old.replicas n
          then []
          else record { namespace = d.namespace; name = br.name } ∷ []))
        × (on_deployment json (
              updated
                (deployment held)
                (deployment (record (handed_back status held) { replicas = m })))
            ≡ [])
  unfolding on_deployment same_replicas taken_over handed_back
  on_deployment-taken_over t d old n m status =
      let ref = control_info v br in
      let held = record (taken_over ref t d) { replicas = n } in
      let back = record (handed_back status held) { replicas = m } in
      let marked =
        get-put control_info_anno control_info_anno ref (make_if_nil d.annotations)
        ∙ rw (text_eq_refl control_info_anno) refl in
      let unmarked =
        get-delete control_info_anno control_info_anno held.annotations
        ∙ rw (text_eq_refl control_info_anno) refl in
      (
        ap (λ (sent : List Request). if eqb_ℤ old.replicas n then [] else sent)
            (requested_for held marked),
        ap (λ (sent : List Request). if eqb_ℤ n m then [] else sent) (not_requested back unmarked)
            ∙ same_branches (eqb_ℤ n m),
      )

-- ===== src/Executor/Phases/Handover.antt =====
-- What finalize hands back is what init took over, with the new template.
use batch_release.Base.{◌≡◌, refl, ◌∙◌, false, none, some, inl, inr, Bool-cases, if◌then◌else◌}
use batch_release.Base.GoMap.{get, make_if_nil, put, get-put, get-delete, get-make_if_nil}
use batch_release.Base.Text.{Text, text_eq}
use batch_release.Objects.{Deployment, PodTemplate, RollingUpdate, rolling}
use batch_release.Release.{BatchReleaseStatus, control_info_anno}
use batch_release.Executor.Phases.{taken_over, handed_back}

-- Of a deployment that is not paused and rolls within limits that the status holds, what init
-- changes and finalize then hands back is the deployment with the new template: its annotations are
-- those it had, less the one that names the release.
pub handed_back-taken_over :
    (control_info : Text) (t : PodTemplate) (d : Deployment) (status : BatchReleaseStatus)
    (limits : RollingUpdate)
    → d.paused ≡ false
    → d.strategy_type ≡ rolling
    → d.rolling_update ≡ some limits
    → status.max_unavailable ≡ limits.max_unavailable
    → status.max_surge ≡ limits.max_surge
    → let d' = handed_back status (taken_over control_info t d) in
      (d' ≡ record d { template = t; annotations = d'.annotations })
      × ((k : Text)
          → get k d'.annotations
            ≡ (if text_eq control_info_anno k then none else get k d.annotations))
unfolding handed_back taken_over
handed_back-taken_over control_info t d status limits running rolls held u s = (
  rw (running, rolls, held, u, s) refl,
  λ k.
      get-delete control_info_anno k
        (put control_info_anno control_info (make_if_nil d.annotations))
      ∙ hidden k,
)
  where
    hidden :
        (k : Text)
        → (if text_eq control_info_anno k
            then none
            else get k (put control_info_anno control_info (make_if_nil d.annotations)))
          ≡ (if text_eq control_info_anno k then none else get k d.annotations)
    hidden k =
        let found = get-put control_info_anno k control_info (make_if_nil d.annotations) in
        elim (Bool-cases (text_eq control_info_anno k)) [
          | inl here ↦ rw here refl
          | inr there ↦ rw there (found ∙ rw there (get-make_if_nil k d.annotations))
        ]

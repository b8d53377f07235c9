-- ===== src/Examples/States.antt =====
-- What a release hands back.
use batch_release.Base.{◌≡◌, refl, none, some, if◌then◌else◌}
use batch_release.Base.GoMap.{get}
use batch_release.Base.Int.{pos}
use batch_release.Base.Text.{Text, codes, text_eq}
use batch_release.Executor.Phases.{taken_over, handed_back}
use batch_release.Executor.Phases.Handover.{handed_back-taken_over}
use batch_release.Objects.{int_value}
use batch_release.Release.{Phase, StepState, control_info_anno}
use batch_release.Examples.Sample.{deployment, release_with, template}

handed_back-taken_over_example :
    let status = (release_with Phase.finalizing StepState.completed (pos 2)).status in
    let d' = handed_back status (taken_over (codes "release") template deployment) in
    (d' ≡ record deployment { template = template; annotations = d'.annotations })
    × ((k : Text)
        → get k d'.annotations
          ≡ (if text_eq control_info_anno k then none else get k deployment.annotations))
handed_back-taken_over_example =
    handed_back-taken_over (codes "release") template deployment
      (release_with Phase.finalizing StepState.completed (pos 2)).status
      (record { max_unavailable = some (int_value (pos 2)); max_surge = some (int_value (pos 3)) })
      refl refl refl refl refl

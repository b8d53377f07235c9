-- ===== src/Examples/Events.antt =====
-- Events on the objects of a release.
use batch_release.Base.{◌≡◌, refl, some, [], ◌∷◌}
use batch_release.Base.Int.{pos}
use batch_release.Base.Text.{codes}
use batch_release.Controller.Handlers.{deployment, updated, Json, on_deployment}
use batch_release.Controller.Handlers.Requests.{ReadsOwners, on_deployment-taken_over}
use batch_release.Executor.Phases.{taken_over, handed_back}
use batch_release.Release.{Phase, StepState}
use batch_release.Examples.Sample.{vendor, template, deployment as sample_deployment, release_with}

-- The sample's vendor writes the bare name.
abbrev json : Json
json = record {
  unmarshal_info = λ s. some (record { name = s; namespace = [] });
  unmarshal_name = λ s. some s;
}

json-ReadsOwners : ReadsOwners vendor json
json-ReadsOwners = record { name_read = λ br. refl }

on_deployment-taken_over_example :
    let br = release_with Phase.rolling_update StepState.upgrade (pos 1) in
    let held = record (taken_over (codes "release") template sample_deployment) {
      replicas = pos 12;
    } in
    (on_deployment json (updated (deployment sample_deployment) (deployment held))
      ≡ record { namespace = codes "default"; name = codes "release" } ∷ [])
    × (on_deployment json (
          updated
            (deployment held)
            (deployment (record (handed_back br.status held) { replicas = pos 9 })))
        ≡ [])
on_deployment-taken_over_example =
    on_deployment-taken_over vendor json json-ReadsOwners
      (release_with Phase.rolling_update StepState.upgrade (pos 1)) template sample_deployment
      sample_deployment (pos 12) (pos 9)
      (release_with Phase.rolling_update StepState.upgrade (pos 1)).status

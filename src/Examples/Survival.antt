-- ===== src/Examples/Survival.antt =====
-- A run and a reconciliation that do not panic.
use batch_release.Base.{◌≢◌, refl, sym, ap, subst, none, []}
use batch_release.Base.GoMap.{entries}
use batch_release.Labels.Lookup.{IsMap}
use batch_release.Base.Text.{codes, text_eq_iff}
use batch_release.Objects.{ReplicaSet, Deployment}
use batch_release.Executor.Monad.{Answer, answer, refuse, nil_dereference}
use batch_release.Executor.Phases.{run}
use batch_release.Executor.Safety.{view, IsFit}
use batch_release.Executor.Safety.Held.{KeepsSpecs}
use batch_release.Executor.Safety.Creating.{ComparesTemplates}
use batch_release.Executor.Safety.Ending.{HasEnded}
use batch_release.Executor.Safety.Phases.{run-HasEnded}
use batch_release.Controller.{crashed, reconcile}
use batch_release.Controller.Survival.{GetsDeployments, reconcile-Survives}
use batch_release.Examples.Positions.{
  env-IsRetry, client-KeepsSteps, at_second_step, at_second_step-IsOnStep,
}
use batch_release.Examples.Sample.{client, env, vendor, deployment, replica_set, template}

abbrev set_of : Answer ReplicaSet → ReplicaSet
set_of (answer rs) = rs
set_of (refuse x) = replica_set [] template 0 0 0

abbrev deployment_of : Answer Deployment → Deployment
deployment_of (answer d) = d
deployment_of (refuse x) = deployment

client-KeepsSpecs : KeepsSpecs client
client-KeepsSpecs = record {
  patched = λ calls from to rs h. ap (λ (a : Answer ReplicaSet). (set_of a).template) (sym h);
  created = λ calls sent rs h. ap (λ (a : Answer ReplicaSet). (set_of a).template) (sym h);
  updated = λ calls sent d h. (
    ap (λ (a : Answer Deployment). (deployment_of a).template) (sym h),
    ap (λ (a : Answer Deployment). (deployment_of a).selector) (sym h),
  );
}

vendor-ComparesTemplates : ComparesTemplates vendor
vendor-ComparesTemplates = record {
  swapped =
      λ s t h. (text_eq_iff t.content s.content).1 (sym ((text_eq_iff s.content t.content).0 h));
  same_labels = λ s t h k. (text_eq_iff s.content t.content).1 h;
}

at_second_step-IsFit : IsFit (view at_second_step)
at_second_step-IsFit = record {
  on_step = at_second_step-IsOnStep;
  selected = (record { match_labels = none; match_expressions = none }, refl);
  labelled = tt;
}

client-GetsDeployments : GetsDeployments client
client-GetsDeployments = record {
  selected = λ calls name namespace d h. (
    record { match_labels = none; match_expressions = none },
    ap (λ (a : Answer Deployment). (deployment_of a).selector) (sym h),
  );
  labelled = λ calls name namespace d h.
      subst (λ (d : Deployment). IsMap (entries d.template.labels)) (ap deployment_of h) tt;
}

run-HasEnded_example : HasEnded (run env at_second_step).0
run-HasEnded_example =
    run-HasEnded env env-IsRetry client-KeepsSpecs vendor-ComparesTemplates at_second_step
      at_second_step-IsFit

reconcile-Survives_example :
    (reconcile env (codes "release") (codes "default") []).0 ≢ crashed nil_dereference
reconcile-Survives_example =
    reconcile-Survives env env-IsRetry client-KeepsSteps client-KeepsSpecs client-GetsDeployments
      vendor-ComparesTemplates (codes "release") (codes "default") [] nil_dereference

-- ===== src/Examples/Rollbacks.antt =====
-- A release that is rolled back while it rolls out, and after it is completed.
use batch_release.Base.{◌≡◌, refl, none, false, []}
use batch_release.Base.GoMap.{put}
use batch_release.Base.Text.{Text, codes, text_eq, text_eq_refl, print_int}
use batch_release.Deployment.Hash.{
  compute_hash, safe_encode_string, fnv32a, fnv32a_from, collision_bytes,
}
use batch_release.Executor.Monad.{Executor, pure, ◌>>◌}
use batch_release.Executor.Phases.{
  stable_annotations, template_hash, with_rollback, taken_over, run,
}
use batch_release.Executor.Safety.Rollback.{Restarted, next_run-Restarted}
use batch_release.Examples.Positions.{env-IsRetry}
use batch_release.Executor.Phases.Restore.{Restores, rolling_run-Restores, completed_run-Restores}
use batch_release.Executor.Steps.{no_requeue, set_phase}
use batch_release.Executor.Store.{update_de}
use batch_release.Objects.{PodTemplate}
use batch_release.Release.{Phase, StepState, rollback_mark}
use batch_release.Base.Int.{pos}
use batch_release.Examples.Sample.{env, vendor, deployment, executor_at}

-- A release whose second version is recorded, and that is marked.
abbrev marked : Executor
marked =
    let e = executor_at Phase.rolling_update StepState.upgrade (pos 1) in
    record e {
      br = record e.br {
        annotations =
            put rollback_mark (codes "yes")
              (stable_annotations (codes "h1") (codes "v1") (codes "h0") (codes "v0") none);
      };
    }

another_hash : text_eq (codes "h1") (template_hash env marked) ≡ false
unfolding text_eq template_hash compute_hash safe_encode_string print_int fnv32a fnv32a_from
    collision_bytes
another_hash = refl

rolling_run-Restores_example :
    Restores env (record { labels = none; content = codes "v1" }) (run env marked)
rolling_run-Restores_example =
    rolling_run-Restores env env-IsRetry (codes "h1") (codes "v1") (codes "h0") (codes "v0")
      (codes "yes") none marked refl (record { labels = none; content = codes "v1" }) refl
      another_hash refl

-- The same release, after it is completed.
abbrev completed : Executor
completed = record marked {
  br = record marked.br { status = record marked.br.status { phase = Phase.completed } };
}

older_hash : text_eq (codes "h0") (template_hash env completed) ≡ false
unfolding text_eq template_hash compute_hash safe_encode_string print_int fnv32a fnv32a_from
    collision_bytes
older_hash = refl

some_hash : text_eq (codes "h0") [] ≡ false
unfolding text_eq
some_hash = refl

completed_run-Restores_example :
    Restores env (record { labels = none; content = codes "v0" }) (run env completed)
completed_run-Restores_example =
    completed_run-Restores env env-IsRetry (codes "h1") (codes "v1") (codes "h0") (codes "v0")
      (codes "yes") none completed refl (record { labels = none; content = codes "v0" }) refl
      some_hash older_hash refl

abbrev first_version : PodTemplate
first_version = record { labels = none; content = codes "v1" }

abbrev first_hash : Text
first_hash = compute_hash vendor first_version none

-- A release on its third step, beyond the two of a rollback.
abbrev on_third_step : Executor
on_third_step =
    let e = executor_at Phase.rolling_update StepState.upgrade (pos 2) in
    record e {
      br = record e.br {
        annotations =
            put rollback_mark (codes "yes")
              (stable_annotations first_hash (codes "v1") (codes "h0") (codes "v0") none);
      };
    }

next_run-Restarted_example :
    let read : Executor = record {
      br = with_rollback env first_version on_third_step.br;
      de = deployment;
      calls = [];
      events = [];
    } in
    Restarted (run env read)
    × ((info : Text) × (e'' : Executor) × (run env read
          ≡ (update_de env (taken_over info first_version)
                >> (set_phase Phase.rolling_back >> pure no_requeue))
              e''))
next_run-Restarted_example =
    next_run-Restarted env env-IsRetry first_hash (codes "v1") (codes "h0") (codes "v0")
      (codes "yes") none on_third_step refl refl refl first_version deployment [] []
      (text_eq_refl first_hash)

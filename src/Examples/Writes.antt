-- ===== src/Examples/Writes.antt =====
-- A run that went on to the next step, and the write of its status.
use batch_release.Base.{◌≡◌, refl, false, some}
use batch_release.Base.Int.{pos}
use batch_release.Controller.{same_release_status, after_run}
use batch_release.Controller.Writes.{Persists, after_run-Persists}
use batch_release.Executor.Monad.{Executor, Result, ok}
use batch_release.Executor.Steps.{Requeue, no_requeue}
use batch_release.Release.{BatchRelease, Phase, StepState}
use batch_release.Examples.Positions.{env-IsRetry}
use batch_release.Examples.Sample.{env, deployment, executor_at, release_with}

abbrev before : BatchRelease
before = release_with Phase.rolling_update StepState.completed (pos 1)

abbrev after : Result Requeue × Executor
after = (ok no_requeue, executor_at Phase.rolling_update StepState.initial (pos 2))

changed : same_release_status before.status after.1.br.status ≡ false
unfolding same_release_status
changed = refl

after_run-Persists_example :
    Persists
      (λ (found : BatchRelease). record found {
        status = record after.1.br.status {
          observed_generation = before.generation;
          last_update_time = some env.now;
        };
      })
      after
      (after_run env before deployment after)
after_run-Persists_example = after_run-Persists env env-IsRetry before deployment after changed

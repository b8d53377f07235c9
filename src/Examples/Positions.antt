-- ===== src/Examples/Positions.antt =====
-- A release that goes through its steps.
use batch_release.Base.{
  ◌*◌, ◌≤◌, ◌≡◌, refl, sym, ◌∙◌, ap, subst, inl, Bool, true, false, some, List, get_elem?, arith,
}
use batch_release.Base.Int.{pos, pos_part, ◌+ℤ◌, ◌-ℤ◌, add32, sub32, to_int32}
use batch_release.Base.Text.{text_eq, text_eq_refl, print_int}
use batch_release.Deployment.Hash.{
  compute_hash, safe_encode_string, fnv32a, fnv32a_from, collision_bytes,
}
use batch_release.Objects.{ReplicaSet}
use batch_release.Base.GoMap.{get, lookup}
use batch_release.Base.Sort.{sort}
use batch_release.Deployment.Counts.{filter_active, filter_replica_sets}
use batch_release.Deployment.Find.{
  find_new_replica_set, first_matching, find_old_replica_sets, all_but,
}
use batch_release.Executor.Steps.{
  rolling_update, step_by_step, step_case, block_step, is_last_step, complete_step, is_final_step,
}
use batch_release.Executor.Listing.{
  get_replica_sets_for_deployment, is_scaling_event, get_all_replica_sets_and_sync_revision,
  owned_by, any_resized,
}
use batch_release.Executor.NewReplicaSet.{get_new_replica_set}
use batch_release.Executor.Monad.{Executor, Result, ok, err, panic, Answer, answer, refuse, Ends}
use batch_release.Executor.Phases.{
  run, clean_status_reason_and_message, handle_pod_template_update, phase_case, is_pre_rollback,
  template_hash,
}
use batch_release.Executor.Ready.{desired_partition}
use batch_release.Executor.Position.{Position, position, position_of}
use batch_release.Executor.Position.Move.{IsOnStep}
use batch_release.Executor.Position.Order.{run-NextStep, run-MayComplete, NextStep, MayComplete}
use batch_release.Executor.Position.Course.{Lands}
use batch_release.Executor.Position.Course.Runs.{Rolled, run-Rolled}
use batch_release.Executor.Position.Progress.{Goes, Rollout, Rollout-ends}
use batch_release.Executor.Position.Reach.{Reach, Reach-IsOnStep, Reach-desired_partition}
use batch_release.Executor.Position.Storing.{IsRetry, Retried, KeepsSteps}
use batch_release.Executor.Steps.Range.{Never}
use batch_release.Release.{BatchRelease, Phase, Step, StepState}
use batch_release.Examples.Sample.{client, env, executor_at, release_with}

abbrev pub at_second_step : Executor
at_second_step = executor_at Phase.rolling_update StepState.completed (pos 1)

pub at_second_step-IsOnStep : IsOnStep (position at_second_step)
at_second_step-IsOnStep = record {
  from_start = omega arith;
  before_end = omega arith;
  few = omega arith;
}

pub env-IsRetry : IsRetry env
env-IsRetry = record { ends = λ m e. Retried.last e refl }

abbrev answered : Answer BatchRelease → BatchRelease
answered (answer br) = br
answered (refuse x) = release_with Phase.initial StepState.initial (pos 0)

pub client-KeepsSteps : KeepsSteps client
client-KeepsSteps = record {
  got = λ calls name namespace br h.
      subst (λ (b : BatchRelease). IsOnStep (position_of b)) (ap answered h)
        (record { from_start = omega arith; before_end = omega arith; few = omega arith });
  updated = λ calls br br' on h.
      subst (λ (b : BatchRelease). IsOnStep (position_of b)) (ap answered h) on;
}

Reach-IsOnStep_example : IsOnStep (position (run env (run env at_second_step).1).1)
Reach-IsOnStep_example =
    Reach-IsOnStep env env-IsRetry client-KeepsSteps at_second_step _ at_second_step-IsOnStep
      (Reach.ran (Reach.ran Reach.begun))

Reach-desired_partition_example :
    let e' = (run env at_second_step).1 in
    Ends
      (λ r e''.
        (e'' ≡ e')
        × ((step : Step) × (get_elem? e'.br.spec.strategy.steps
                (pos_part e'.br.status.current_step_index)
              ≡ some step)
            × (r ≡ step.replicas)))
      Never
      (desired_partition env e')
Reach-desired_partition_example =
    Reach-desired_partition env env-IsRetry client-KeepsSteps at_second_step _
      at_second_step-IsOnStep (Reach.ran Reach.begun)

going_forth : ¬ (at_second_step.br.status.phase ≡ Phase.rolling_back)
going_forth h = cc

run-NextStep_example : NextStep (position at_second_step) (position (run env at_second_step).1)
run-NextStep_example =
    run-NextStep env env-IsRetry client-KeepsSteps at_second_step at_second_step-IsOnStep
      going_forth

-- The same release, whose template is the one that was observed.
abbrev on_course : Executor
on_course = record at_second_step {
  br = record at_second_step.br {
    status = record at_second_step.br.status {
      observed_update_reversion = template_hash env at_second_step;
    };
  };
}

on_course-unmarked : is_pre_rollback on_course ≡ false
unfolding is_pre_rollback get lookup
on_course-unmarked = refl

on_course-same :
    text_eq on_course.br.status.observed_update_reversion (template_hash env on_course) ≡ true
unfolding template_hash
on_course-same = text_eq_refl (template_hash env at_second_step)

run-Rolled_example : Lands (Rolled env on_course) (position on_course) (run env on_course)
run-Rolled_example =
    run-Rolled env on_course at_second_step-IsOnStep (inl refl) on_course-unmarked on_course-same

-- What a run finds that has listed the replica sets.
abbrev scaling_seen : Result (List ReplicaSet) × Executor → Result Bool
scaling_seen (ok rss, e) = (is_scaling_event env rss e).0
scaling_seen (err x, e) = err x
scaling_seen (panic x, e) = panic x

abbrev clean : Executor
clean = (clean_status_reason_and_message env on_course).1

none_seen : scaling_seen (get_replica_sets_for_deployment env clean) ≡ ok false
unfolding clean_status_reason_and_message get_replica_sets_for_deployment is_scaling_event
    get_all_replica_sets_and_sync_revision get_new_replica_set find_new_replica_set sort owned_by
    any_resized lookup first_matching filter_active filter_replica_sets find_old_replica_sets
    all_but
none_seen = refl

on_course-Goes : Goes env on_course
on_course-Goes = record {
  rolls = refl;
  unmarked = on_course-unmarked;
  same = on_course-same;
  unscaled = λ seen.
      let none =
        sym none_seen
        ∙ ap scaling_seen seen.lists
        ∙ ap (λ (r : Result Bool × Executor). r.0) seen.sees in
      cc;
}

second_step_runs :
    (position (run env on_course).1)
    ≡ record { phase = Phase.rolling_update; state = StepState.initial; step = pos 2; steps = 3 }
unfolding run clean_status_reason_and_message handle_pod_template_update text_eq phase_case
    is_pre_rollback get rolling_update get_replica_sets_for_deployment is_scaling_event
    get_all_replica_sets_and_sync_revision get_new_replica_set find_new_replica_set sort owned_by
    any_resized step_by_step step_case complete_step is_final_step add32 sub32 to_int32 ◌+ℤ◌ ◌-ℤ◌
    lookup first_matching filter_active filter_replica_sets find_old_replica_sets all_but
    template_hash compute_hash safe_encode_string print_int fnv32a fnv32a_from collision_bytes
second_step_runs = refl

step_now : pos_part (position (run env on_course).1).step ≡ 2
step_now = ap (λ (p : Position). pos_part p.step) second_step_runs

moved_on : ¬ (position (run env on_course).1 ≡ position on_course)
moved_on h =
    let before = ap (λ (p : Position). pos_part p.step) h in omega (arith, step_now, before)

Rollout-ends_example : 1 ≤ 4 * 3
Rollout-ends_example =
    Rollout-ends env on_course 1 _ at_second_step-IsOnStep refl
      (Rollout.ran Rollout.begun on_course-Goes moved_on)

abbrev at_last_step : Executor
at_last_step = executor_at Phase.rolling_update StepState.blocking (pos 2)

at_last_step-IsOnStep : IsOnStep (position at_last_step)
at_last_step-IsOnStep = record {
  from_start = omega arith;
  before_end = omega arith;
  few = omega arith;
}

last_step_runs : (run env at_last_step).1.br.status.current_step_state ≡ StepState.completed
unfolding run clean_status_reason_and_message handle_pod_template_update text_eq phase_case
    is_pre_rollback get rolling_update get_replica_sets_for_deployment is_scaling_event
    get_all_replica_sets_and_sync_revision get_new_replica_set find_new_replica_set sort owned_by
    any_resized step_by_step step_case block_step is_last_step add32 sub32 to_int32 ◌+ℤ◌ ◌-ℤ◌ lookup
    first_matching filter_active filter_replica_sets find_old_replica_sets all_but
last_step_runs = refl

run-MayComplete_example : MayComplete (position at_last_step)
run-MayComplete_example =
    run-MayComplete env env-IsRetry client-KeepsSteps at_last_step at_last_step-IsOnStep
      (λ h. going_forth h) last_step_runs

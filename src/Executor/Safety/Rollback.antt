-- ===== src/Executor/Safety/Rollback.antt =====
-- The two runs of a rollback: the first asks the server to write the release with another template
-- and fewer steps, and the next one reads it back.
use batch_release.Base.{◌≡◌, sym, ap, ◌∙◌, subst, true, none, List, [], ◌∷◌}
use batch_release.Base.GoMap.{GoMap, put}
use batch_release.Base.Int.{pos}
use batch_release.Base.Text.{Text, codes, text_eq}
use batch_release.Objects.{Deployment, PodTemplate}
use batch_release.Release.{Phase, StepState, rollback_mark}
use batch_release.Deployment.Hash.{compute_hash}
use batch_release.Executor.Monad.{Env, Executor, Call, Result, ok, err, panic, pure, ◌>>◌}
use batch_release.Executor.Phases.{
  control_info, is_pre_rollback, phase_case, stable_annotations, template_hash, taken_over,
  with_rollback, run, rollback_steps, clean_status_reason_and_message,
}
use batch_release.Executor.Phases.Rollback.{marked}
use batch_release.Executor.Phases.Restart.{
  IsLimited, before_first_step, take_back, cleaned, run-marked, rolling-begins,
}
use batch_release.Executor.Steps.{Requeue, no_requeue, set_phase}
use batch_release.Executor.Store.{update_de}
use batch_release.Executor.Position.{position}
use batch_release.Executor.Position.Storing.{IsRetry, update_de-Stays}
use batch_release.Executor.Safety.Ending.{HasEnded}
use batch_release.Executor.Safety.Phases.{update_de-NoPanic}

-- The release is before its first step, of the two of a rollback.
abbrev pub IsBefore : Phase → Executor → Type 0
IsBefore ph e =
    position e ≡ record { phase = ph; state = StepState.other []; step = pos 0; steps = 2 }

-- The rollback has begun, or is still to begin where the deployment could not be written.
abbrev pub Restarted : Result Requeue × Executor → Type 0
Restarted (ok r, e) = IsBefore Phase.rolling_back e
Restarted (err x, e) = IsBefore Phase.rolling_update e
Restarted (panic f, e) = ⊥

after_write :
    (r : Result (Unit {0}) × Executor)
    → HasEnded r.0
    → IsBefore Phase.rolling_update r.1
    → Restarted (elim r.0 as (λ _. Result Requeue × Executor) [
      | ok u ↦ (set_phase Phase.rolling_back >> pure no_requeue) r.1
      | err x ↦ (err x, r.1)
      | panic x ↦ (panic x, r.1)
    ])
after_write (ok u, e) ended h = λ i. record (h i) { phase = Phase.rolling_back }
after_write (err x, e) ended h = h
after_write (panic x, e) ended h = elim ended [ ]

module _ (w : Env) (retry : IsRetry w) where
  take_back-Restarted :
      (from e : Executor) → IsBefore Phase.rolling_update e → Restarted (take_back w from e)
  take_back-Restarted from e h =
      let handed = taken_over (control_info w.vendor from.br) from.br.spec.template in
      after_write (update_de w handed e) ((update_de-NoPanic w retry handed).run e)
        ((update_de-Stays w retry handed).same e ∙ h)

module _ (w : Env) (retry : IsRetry w) (hash yaml csv csvr mark : Text) (m : GoMap) (e : Executor)
    (recorded : e.br.annotations ≡ put rollback_mark mark (stable_annotations hash yaml csv csvr m))
    (rolling : e.br.status.phase ≡ Phase.rolling_update) (limited : IsLimited e) where
  -- Where a write that conflicts is tried again as RetryOnConflict documents, and a release that
  -- rolls a template out, with the limits of its deployment saved, is marked for a rollback to a
  -- recorded template `t` whose hash is the recorded one, the run that reads back what the first
  -- run of the rollback asks the server to write does not panic, whatever step the release was
  -- on. It takes the deployment over with `t`, and leaves the release before the first of two steps,
  -- rolling back, or rolling out as before where that write fails.
  pub next_run-Restarted :
      (t : PodTemplate) (de : Deployment) (calls : List Call) (events : List Text)
      → text_eq hash (compute_hash w.vendor t none) ≡ true
      → let read : Executor = record {
        br = with_rollback w t e.br;
        de = de;
        calls = calls;
        events = events;
      } in
        Restarted (run w read)
        × ((info : Text) × (e'' : Executor) × (run w read
              ≡ (update_de w (taken_over info t)
                    >> (set_phase Phase.rolling_back >> pure no_requeue))
                  e''))
  unfolding with_rollback template_hash rollback_steps clean_status_reason_and_message
      is_pre_rollback
  next_run-Restarted t de calls events same =
      let read : Executor = record {
        br = with_rollback w t e.br;
        de = de;
        calls = calls;
        events = events;
      } in
      let c = cleaned w read in
      let restarted =
        before_first_step w
          (record c { events = codes "RollbackStarted" ∷ codes "RollbackRequested" ∷ events }) in
      let begun : run w read ≡ take_back w c restarted =
        run-marked w read (marked w hash yaml csv csvr mark m read recorded)
        ∙ ap (λ (ph : Phase). phase_case w ph c c) rolling
        ∙ rolling-begins w hash yaml csv csvr mark m c recorded same limited in
      (
        subst Restarted (sym begun) (
            take_back-Restarted w retry c restarted (
              ap
                (λ (ph : Phase). record {
                  phase = ph;
                  state = StepState.other [];
                  step = pos 0;
                  steps = 2;
                })
                rolling)),
        (control_info w.vendor c.br, restarted, begun),
      )

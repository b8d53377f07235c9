-- ===== src/Executor/Position/Phases.antt =====
-- One run of the executor makes one move.
use batch_release.Base.{
  ℕ, ◌≡◌, refl, sym, ap, subst, inl, inr, Bool, true, false, not, none, some, List, if◌then◌else◌,
}
use batch_release.Base.GoMap.{delete}
use batch_release.Base.Text.{Text, codes, text_eq}
use batch_release.Release.{BatchRelease, Phase, rollback_mark}
use batch_release.Executor.Monad.{
  bad_yaml, Env, Executor, M, Result, ok, err, panic, pure, throw, gets, record_event, ◌>>=◌, ◌>>◌,
}
use batch_release.Executor.Phases.{
  handed_back, template_hash, record_stable_version, initialise, with_rollback, pre_rollback,
  remove_rollback_mark, finalize, begin_release,
}
use batch_release.Executor.Steps.{Requeue, no_requeue, set_phase}
use batch_release.Executor.Store.{update_br, update_held_br, update_de}
use batch_release.Executor.Position.{
  Position, position, Stays, Stays-pure, Stays-throw, Stays-gets, Stays-record_event, Stays-option,
  Stays-then,
}
use batch_release.Executor.Position.Move.{
  IsOnStep, Begins, Move, Moves, taken, Moves-Stays, Moves-if, Moves-bind,
}
use batch_release.Executor.Position.Steps.{Moves-phase}
use batch_release.Executor.Position.Storing.{
  IsRetry, KeepsSteps, update_br-Stays, update_de-Stays, record_stable_version-Stays,
  update_held_br-IsOnStep,
}
use batch_release.Executor.Position.Init.{Entered, initialise-Entered}

-- What follows init runs only where it is done, from the position that it leaves.
after_init :
    (p base : Position) (k : M Requeue)
    → Move p base
    → Move p (taken base)
    → ((e : Executor) → position e ≡ taken base → Move p (position (k e).1))
    → (r : Result Bool × Executor) → Entered base r
    → Move p (
        position
          (elim r.0 as (λ _. Result Requeue × Executor) [
            | ok success ↦ (if success then k else pure no_requeue) r.1
            | err x ↦ (err x, r.1)
            | panic x ↦ (panic x, r.1)
          ]).1)
after_init p base k same renewed done (ok true, e) h = done e h
after_init p base k same renewed done (ok false, e) h = subst (Move p) (sym h) same
after_init p base k same renewed done (err x, e) (inl h) = subst (Move p) (sym h) same
after_init p base k same renewed done (err x, e) (inr h) = subst (Move p) (sym h) renewed
after_init p base k same renewed done (panic x, e) (inl h) = subst (Move p) (sym h) same
after_init p base k same renewed done (panic x, e) (inr h) = subst (Move p) (sym h) renewed

position-then_pure :
    (b : Requeue) (r : Result (Unit {0}) × Executor)
    → position
        (elim r.0 as (λ _. Result Requeue × Executor) [
          | ok u ↦ pure b r.1
          | err x ↦ (err x, r.1)
          | panic x ↦ (panic x, r.1)
        ]).1
      ≡ position r.1
position-then_pure b (ok u, e) = refl
position-then_pure b (err x, e) = refl
position-then_pure b (panic x, e) = refl

abbrev in_phase : Phase → Position → Position
in_phase ph q = record q { phase = ph }

module _ (w : Env) (retry : IsRetry w) where
  begin_release-Move :
      (p : Position) (e : Executor)
      → Move p (position e)
      → Move p (taken (position e))
      → Move p (record (taken (position e)) { phase = Phase.rolling_update })
      → Move p (position (begin_release w e).1)
  unfolding begin_release
  begin_release-Move p e same renewed begun =
      after_init p (position e) _ same renewed
        (λ e' h. subst (Move p) (ap (in_phase Phase.rolling_update) (sym h)) begun) (initialise w e)
        (initialise-Entered w retry e)

  rollback_init-Moves :
      (p : Position)
      → Begins p.phase Phase.rolling_back
      → Moves p (do
        success ← initialise w
        if success then (do set_phase Phase.rolling_back; pure no_requeue) else pure no_requeue)
  rollback_init-Moves p begins = record {
    at = λ e h.
        after_init p p (set_phase Phase.rolling_back >> pure no_requeue) (Move.stay refl)
          (Move.reset refl)
          (λ e' j.
            subst (Move p) (ap (in_phase Phase.rolling_back) (sym j))
              (Move.begin Phase.rolling_back begins refl))
          (initialise w e)
          (subst (λ (q : Position). Entered q (initialise w e)) h (initialise-Entered w retry e));
  }

  rollback_spec-Stays :
      (pod_template : Text)
      → Stays {A = Requeue} (elim (w.vendor.yaml_unmarshal pod_template) [
        | none ↦ throw bad_yaml
        | some template ↦ do update_br w (with_rollback w template); pure no_requeue
      ])
  rollback_spec-Stays pod_template =
      Stays-option (w.vendor.yaml_unmarshal pod_template)
        (λ template. update_br w (with_rollback w template) >> pure no_requeue) (throw bad_yaml)
        (λ template.
          Stays-then _ _ (update_br-Stays w retry (with_rollback w template))
            (Stays-pure no_requeue))
        (Stays-throw bad_yaml)

  pub pre_rollback-Moves :
      (p : Position) (reversion pod_template : Text)
      → Begins p.phase Phase.rolling_back
      → Moves p (pre_rollback w reversion pod_template)
  unfolding pre_rollback
  pre_rollback-Moves p reversion pod_template begins =
      Moves-bind p (record_event (codes "RollbackStarted")) _
        (Stays-record_event (codes "RollbackStarted"))
        (λ _. Moves-bind p (gets (template_hash w)) _ (Stays-gets (template_hash w)) (λ hash.
          Moves-if p (not (text_eq reversion hash)) _ _
            (Moves-Stays p _ (rollback_spec-Stays pod_template)) (rollback_init-Moves p begins)))

  pub remove_rollback_mark-Move :
      KeepsSteps w.client
      → (e : Executor) → IsOnStep (position e)
      → e.br.status.phase ≡ Phase.rolling_back
      → Move (position e) (position (remove_rollback_mark w e).1)
  unfolding remove_rollback_mark
  remove_rollback_mark-Move keeps e on back =
      let drop =
        λ (br : BatchRelease). record br { annotations = delete rollback_mark br.annotations } in
      Move.refetch back (
        subst IsOnStep (sym (position-then_pure no_requeue (update_held_br w drop e)))
          (update_held_br-IsOnStep w keeps drop (λ br. refl) retry e on))

  pub finalize-Moves : (p : Position) → p.phase ≡ Phase.finalizing → Moves p (finalize w)
  unfolding finalize
  finalize-Moves p final =
      Moves-bind p (gets (λ (e : Executor). e)) _ (Stays-gets (λ (e : Executor). e)) (λ e.
        let handed = handed_back e.br.status in
        Moves-bind p (update_de w handed) _ (update_de-Stays w retry handed) (λ _.
          Moves-bind p (record_stable_version w e.br.spec.template) _
            (record_stable_version-Stays w retry e.br.spec.template)
            (λ _.
              Moves-bind p (record_event (codes "BatchReleaseCompleted")) _
                (Stays-record_event (codes "BatchReleaseCompleted"))
                (λ _. Moves-phase p Phase.completed (Move.complete final refl)))))

  -- A position that a case of the switch starts from is the one it was reached with.
  pub fresh_start-Moves : (p : Position) → p.phase ≡ Phase.initial → Moves p (begin_release w)
  fresh_start-Moves p initial = record {
    at = λ e h. begin_release-Move p e (Move.stay h) (Move.reset (ap taken h)) (
        Move.begin Phase.rolling_update
          (subst (λ (ph : Phase). Begins ph Phase.rolling_update) (sym initial) Begins.release)
          (ap (λ (q : Position). in_phase Phase.rolling_update (taken q)) h));
  }

  pub unknown_phase-Moves :
      (p : Position) (s : List ℕ)
      → p.phase ≡ Phase.other s
      → Moves p (set_phase Phase.initial >> begin_release w)
  unknown_phase-Moves p s other = record {
    at = λ e h.
        let e' = record e {
          br = record e.br { status = record e.br.status { phase = Phase.initial } };
        } in
        begin_release-Move p e' (Move.restart (ap (in_phase Phase.initial) h))
          (Move.reset_unknown (ap (λ (q : Position). in_phase Phase.initial (taken q)) h))
          (Move.begin Phase.rolling_update
            (subst (λ (ph : Phase). Begins ph Phase.rolling_update) (sym other) (Begins.unknown s))
            (ap (λ (q : Position). in_phase Phase.rolling_update (taken q)) h));
  }

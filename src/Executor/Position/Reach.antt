-- ===== src/Executor/Position/Reach.antt =====
-- What holds of a release after any number of runs of Do, with what its users and the API server do
-- in between.
use batch_release.Base.{
  zero, suc, ◌≡◌, refl, sym, subst, some, List, [], ◌∷◌, length, get_elem?, arith,
}
use batch_release.Base.Int.{ℤ, pos, negsuc, ◌+ℤ◌, ◌≤ℤ◌, ◌<ℤ◌, pos_part, int_laws}
use batch_release.Release.{Phase, Step, StepState}
use batch_release.Executor.Monad.{Env, Executor, Ends, index, pure, ◌>>=◌}
use batch_release.Executor.OldSets.{current_partition}
use batch_release.Executor.Phases.{run}
use batch_release.Executor.Ready.{desired_partition}
use batch_release.Executor.Steps.Range.{Never}
use batch_release.Executor.Position.{Position, position}
use batch_release.Executor.Position.Move.{IsOnStep, Move, taken}
use batch_release.Executor.Position.Runs.{run-Move}
use batch_release.Executor.Position.Storing.{IsRetry, KeepsSteps}

pub moved_to : (p q : Position) → IsOnStep q → p ≡ q → IsOnStep p
moved_to p q on h = subst IsOnStep (sym h) on

at_start : (p : Position) → IsOnStep p → pos 0 <ℤ pos p.steps
at_start p on = omega (arith, on.from_start, on.before_end)

pub same_step :
    (p : Position) (ph : Phase) (s : StepState)
    → IsOnStep p
    → IsOnStep (record p { phase = ph; state = s })
same_step p ph s on = record {
  from_start = on.from_start;
  before_end = on.before_end;
  few = on.few;
}

first_step : (p : Position) (ph : Phase) → IsOnStep p → IsOnStep (record (taken p) { phase = ph })
first_step p ph on = record { from_start = omega arith; before_end = at_start p on; few = on.few }

next_step :
    (p : Position)
    → IsOnStep p
    → p.step +ℤ pos 1 <ℤ pos p.steps
    → IsOnStep (record p { step = p.step +ℤ pos 1; state = StepState.initial })
next_step p on more = record {
  from_start = omega (int_laws, on.from_start);
  before_end = more;
  few = on.few;
}

pub Move-IsOnStep : (p q : Position) → IsOnStep p → Move p q → IsOnStep q
Move-IsOnStep p q on (Move.stay h) = moved_to q p on h
Move-IsOnStep p q on (Move.restart h) = moved_to q _ (same_step p Phase.initial p.state on) h
Move-IsOnStep p q on (Move.reset h) = moved_to q _ (first_step p p.phase on) h
Move-IsOnStep p q on (Move.reset_unknown h) = moved_to q _ (first_step p Phase.initial on) h
Move-IsOnStep p q on (Move.begin next _ h) = moved_to q _ (first_step p next on) h
Move-IsOnStep p q on (Move.rescale _ h) = moved_to q _ (same_step p p.phase StepState.initial on) h
Move-IsOnStep p q on (Move.start _ _ h) = moved_to q _ (same_step p p.phase StepState.upgrade on) h
Move-IsOnStep p q on (Move.block _ _ h) = moved_to q _ (same_step p p.phase StepState.blocking on) h
Move-IsOnStep p q on (Move.pass _ _ _ h) =
    moved_to q _ (same_step p p.phase StepState.completed on) h
Move-IsOnStep p q on (Move.advance _ _ more h) = moved_to q _ (next_step p on more) h
Move-IsOnStep p q on (Move.finish _ _ _ h) =
    moved_to q _ (same_step p Phase.finalizing p.state on) h
Move-IsOnStep p q on (Move.complete _ h) = moved_to q _ (same_step p Phase.completed p.state on) h
Move-IsOnStep p q on (Move.refetch _ on') = on'

-- Where the index is that of an element, the read gives that element.
index-Ends :
    {A B : Type 0} (f : A → B) (xs : List A) (i : ℤ) (e : Executor)
    → pos 0 ≤ℤ i
    → i <ℤ pos (length xs)
    → Ends
        (λ r e'. (e' ≡ e) × ((a : A) × (get_elem? xs (pos_part i) ≡ some a) × (r ≡ f a)))
        Never
        ((index xs i >>= λ a. pure (f a)) e)
index-Ends f [] i e lo hi = absurd (omega arith)
index-Ends f (x ∷ xs) (pos zero) e lo hi = (refl, (x, refl, refl))
index-Ends f (x ∷ xs) (pos (suc n)) e lo hi = index-Ends f xs (pos n) e (omega arith) (omega arith)
index-Ends f (x ∷ xs) (negsuc n) e lo hi = absurd (omega arith)

-- The executors that a release goes through, from `e` on.
pub data Reach (w : Env) (e : Executor) : Executor → Type 0 where
  begun : Reach w e e
  -- One run, whether it returns, fails or panics.
  ran : {e' : Executor} → Reach w e e' → Reach w e (run w e').1
  -- The release is read again, with its deployment.
  reread : {e' e'' : Executor} → Reach w e e' → position e'' ≡ position e' → Reach w e e''
  -- A user continues a step that blocks.
  continued :
      {e' e'' : Executor}
      → Reach w e e'
      → e'.br.status.current_step_state ≡ StepState.blocking
      → position e'' ≡ record (position e') { state = StepState.completed }
      → Reach w e e''

module _ (w : Env) (retry : IsRetry w) (keeps : KeepsSteps w.client) (e : Executor) where
  -- Where a write that conflicts is tried again as RetryOnConflict documents, and the server keeps
  -- releases on one of their steps, of which there are fewer than 2^31, a release that starts
  -- on one of its steps is on one of its steps after any number of runs, whatever their outcomes, of
  -- reads that find the position as it was written, and of users that continue a step that blocks.
  pub Reach-IsOnStep :
      (e' : Executor) → IsOnStep (position e) → Reach w e e' → IsOnStep (position e')
  Reach-IsOnStep e' on begun = on
  Reach-IsOnStep _ on (ran {e'} r) =
      let on' = Reach-IsOnStep e' on r in
      Move-IsOnStep (position e') _ on' (run-Move w retry keeps e' on')
  Reach-IsOnStep e'' on (reread {e'} r h) = moved_to _ _ (Reach-IsOnStep e' on r) h
  Reach-IsOnStep e'' on (continued {e'} r _ h) =
      moved_to _ _
        (same_step (position e') e'.br.status.phase StepState.completed (Reach-IsOnStep e' on r)) h

  -- Where a write that conflicts is tried again as RetryOnConflict documents, and the server keeps
  -- releases on one of their steps, of which there are fewer than 2^31: after any number
  -- of runs, of reads that find the position as it was written, and of users that continue a step that
  -- blocks, from a release on one of its steps, DesiredPartition, which the reconciler calls after a
  -- run, makes no error, does not panic, changes nothing, and returns the replicas of the step at
  -- the release's current index.
  pub Reach-desired_partition :
      (e' : Executor)
      → IsOnStep (position e)
      → Reach w e e'
      → Ends
          (λ r e''.
            (e'' ≡ e')
            × ((step : Step) × (get_elem? e'.br.spec.strategy.steps
                    (pos_part e'.br.status.current_step_index)
                  ≡ some step)
                × (r ≡ step.replicas)))
          Never
          (desired_partition w e')
  unfolding desired_partition current_partition
  Reach-desired_partition e' on r =
      let on' = Reach-IsOnStep e' on r in
      index-Ends (λ (s : Step). s.replicas) e'.br.spec.strategy.steps
        e'.br.status.current_step_index e' on'.from_start on'.before_end

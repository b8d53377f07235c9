-- ===== src/Controller/Writes.antt =====
-- What a reconciliation writes: the status that the run left, whatever the run returned.
use batch_release.Base.{
  zero, suc, ◌≡◌, ◌⊎◌, refl, sym, subst, ◌∙◌, inl, inr, false, Option, none, some, List, [], ◌∷◌,
}
use batch_release.Base.Int.{ℤ, pos, negsuc}
use batch_release.Objects.{Deployment}
use batch_release.Release.{BatchRelease, Step}
use batch_release.Deployment.Progress.{Unsatisfied, deployment_rollout_satisfied}
use batch_release.Executor.Monad.{
  Env, Executor, M, Call, Error, Result, ok, err, panic, Answer, answer, refuse, result_of,
  get_batch_release, update_batch_release_status, pure, send, index, ◌>>=◌, ◌>>◌,
}
use batch_release.Executor.OldSets.{current_partition}
use batch_release.Executor.Position.Storing.{IsRetry, Retried, last, again}
use batch_release.Executor.Ready.{desired_partition}
use batch_release.Executor.Steps.{Requeue, no_requeue, after_default}
use batch_release.Executor.Store.{try_update_br_status, update_br_status}
use batch_release.Controller.{
  Outcome, outcome, failed, crashed, stamped, same_release_status, sync_batch_release_status,
  settle, after_run,
}

-- The latest request writes a status that `change` made.
abbrev Wrote : (BatchRelease → BatchRelease) → List Call → Type 0
Wrote change calls =
    (br : BatchRelease) × (before : List Call) × (calls
      ≡ update_batch_release_status (change br) ∷ before)

-- A write ends with the request made, or by an error of the server.
abbrev Written : (BatchRelease → BatchRelease) → Result (Unit {0}) × Executor → Type 0
Written change (ok u, e) = Wrote change e.calls
Written change (err x, e) = Unit {0}
Written change (panic x, e) = ⊥

module _ (w : Env) (old : BatchRelease) (change : BatchRelease → BatchRelease) where
  try-Written : (e : Executor) → Written change (try_update_br_status w old change e)
  unfolding try_update_br_status
  try-Written e = first (w.client.on_get_batch_release e.calls old.name old.namespace)
    where
      read : List Call
      read = get_batch_release old.name old.namespace ∷ e.calls

      sent : BatchRelease → Executor
      sent br = record e { calls = update_batch_release_status (change br) ∷ read }

      second :
          (br : BatchRelease) (a : Answer BatchRelease)
          → Written change (elim (result_of a) as (λ _. Result (Unit {0}) × Executor) [
            | ok br' ↦ (ok tt, sent br)
            | err x ↦ (err x, sent br)
            | panic x ↦ (panic x, sent br)
          ])
      second br (answer br') = (br, read, refl)
      second br (refuse x) = tt

      first :
          (a : Answer BatchRelease)
          → Written change (elim (result_of a) as (λ _. Result (Unit {0}) × Executor) [
            | ok br ↦
                (do
                  send
                      (λ calls. w.client.on_update_batch_release_status calls (change br))
                      (update_batch_release_status (change br))
                  pure tt)
                  (record e { calls = read })
            | err x ↦ (err x, record e { calls = read })
            | panic x ↦ (panic x, record e { calls = read })
          ])
      first (answer br) = second br (w.client.on_update_batch_release_status read (change br))
      first (refuse x) = tt

  Retried-Written :
      (m : M (Unit {0})) (r : Result (Unit {0}) × Executor)
      → ((e : Executor) → Written change (m e))
      → (e : Executor) → Retried m r e
      → Written change r
  Retried-Written m r each e (last _ h) = subst (Written change) (sym h) (each e)
  Retried-Written m r each e (again _ e' _ later) = Retried-Written m r each e' later

  update-Written : IsRetry w → (e : Executor) → Written change (update_br_status w old change e)
  unfolding update_br_status
  update-Written retry e =
      Retried-Written (try_update_br_status w old change) _ try-Written e
        (retry.ends (try_update_br_status w old change) e)

-- `m` makes no request.
abbrev Quiet : {A : Type 0} → M A → Type 0
Quiet m = (e : Executor) → (m e).1.calls ≡ e.calls

Quiet-bind :
    {A B : Type 0} (m : M A) (f : A → M B) → Quiet m → ((a : A) → Quiet (f a)) → Quiet (m >>= f)
Quiet-bind {A} {B} m f quiet quiet' e = go (m e) (quiet e)
  where
    go :
        (r : Result A × Executor)
        → r.1.calls ≡ e.calls
        → (elim r.0 as (λ _. Result B × Executor) [
          | ok a ↦ f a r.1
          | err x ↦ (err x, r.1)
          | panic x ↦ (panic x, r.1)
        ]).1.calls
          ≡ e.calls
    go (ok a, e') h = quiet' a e' ∙ h
    go (err x, e') h = h
    go (panic x, e') h = h

index-Quiet : {A : Type 0} (xs : List A) (i : ℤ) → Quiet (index xs i)
index-Quiet xs (negsuc n) e = refl
index-Quiet [] (pos n) e = refl
index-Quiet (x ∷ xs) (pos zero) e = refl
index-Quiet (x ∷ xs) (pos (suc n)) e = index-Quiet xs (pos n) e

desired_partition-Quiet : (w : Env) → Quiet (desired_partition w)
unfolding desired_partition current_partition
desired_partition-Quiet w e =
    Quiet-bind (index e.br.spec.strategy.steps e.br.status.current_step_index)
      (λ (step : Step). pure step.replicas)
      (index-Quiet e.br.spec.strategy.steps e.br.status.current_step_index) (λ _ _. refl) e

settle-Quiet : (w : Env) (de : Deployment) (r : Requeue) → Quiet (settle w de r)
unfolding settle
settle-Quiet w de after_default e = refl
settle-Quiet w de no_requeue e =
    Quiet-bind (desired_partition w)
      (λ partition. elim (deployment_rollout_satisfied w.vendor de partition) [
        | none ↦ pure no_requeue
        | some unsatisfied ↦ pure after_default
      ])
      (desired_partition-Quiet w)
      (λ partition e'. either (deployment_rollout_satisfied w.vendor de partition) e') e
  where
    either :
        (o : Option Unsatisfied) (e' : Executor)
        → ((elim o as (λ _. M Requeue) [ none ↦ pure no_requeue | some u ↦ pure after_default ])
            e').1.calls
          ≡ e'.calls
    either none e' = refl
    either (some u) e' = refl

-- Of a status that the run has changed: it is written, or the server's error is among those that the
-- reconciliation returns; after a panic nothing is written.
abbrev pub Persists :
    (BatchRelease → BatchRelease) → Result Requeue × Executor → Outcome × List Call → Type 0
Persists change (ok r, e) out = Wrote change out.1 ⊎ ((y : Error) × (out.0 ≡ failed (y ∷ [])))
Persists change (err x, e) out =
    (Wrote change out.1 × (out.0 ≡ failed (x ∷ []))) ⊎ ((y : Error) × (out.0 ≡ failed (x ∷ y ∷ [])))
Persists change (panic x, e) out = out ≡ (crashed x, e.calls)

module _ (w : Env) (retry : IsRetry w) (br : BatchRelease) (de : Deployment) where
  sync-Written :
      (e : Executor)
      → same_release_status br.status e.br.status ≡ false
      → Written (stamped w br e.br.status) (sync_batch_release_status w br e)
  unfolding sync_batch_release_status
  sync-Written e changed = rw changed (update-Written w br (stamped w br e.br.status) retry e)

  outcome-calls : (r : Result Requeue × Executor) → (outcome w r).1 ≡ r.1.calls
  unfolding outcome
  outcome-calls (ok q, e) = refl
  outcome-calls (err x, e) = refl
  outcome-calls (panic x, e) = refl

  -- After a run that succeeds.
  settled :
      (change : BatchRelease → BatchRelease) (q : Requeue) (s : Result (Unit {0}) × Executor)
      → Written change s
      → let out = outcome w (elim s.0 as (λ _. Result Requeue × Executor) [
        | ok u ↦ settle w de q s.1
        | err x ↦ (err x, s.1)
        | panic x ↦ (panic x, s.1)
      ]) in
        Wrote change out.1 ⊎ ((y : Error) × (out.0 ≡ failed (y ∷ [])))
  unfolding outcome
  settled change q (ok u, e) h =
      inl (subst (Wrote change) (sym (outcome-calls (settle w de q e) ∙ settle-Quiet w de q e)) h)
  settled change q (err x, e) h = inr (x, refl)
  settled change q (panic x, e) h = absurd h

  -- After a run that fails.
  failed_too :
      (change : BatchRelease → BatchRelease) (x : Error) (s : Result (Unit {0}) × Executor)
      → Written change s
      → let out : Outcome × List Call = elim s.0 [
        | ok u ↦ (failed (x ∷ []), s.1.calls)
        | err y ↦ (failed (x ∷ y ∷ []), s.1.calls)
        | panic y ↦ (crashed y, s.1.calls)
      ] in
        (Wrote change out.1 × (out.0 ≡ failed (x ∷ [])))
        ⊎ ((y : Error) × (out.0 ≡ failed (x ∷ y ∷ [])))
  failed_too change x (ok u, e) h = inl (h, refl)
  failed_too change x (err y, e) h = inr (y, refl)
  failed_too change x (panic y, e) h = absurd h

  -- Where a write that conflicts is tried again as RetryOnConflict documents, and a run of Do has
  -- changed the status: if the run panicked, so does the reconciliation, without a further request.
  -- If it returned or failed, the last request of the reconciliation writes to some release the status
  -- that the run left, each field of it but two, which are the generation of the release that was
  -- reconciled and the time; or the reconciliation fails with an error for it. The error of a run
  -- that failed is the first one returned.
  pub after_run-Persists :
      (r : Result Requeue × Executor)
      → same_release_status br.status r.1.br.status ≡ false
      → Persists
          (λ (found : BatchRelease). record found {
            status = record r.1.br.status {
              observed_generation = br.generation;
              last_update_time = some w.now;
            };
          })
          r
          (after_run w br de r)
  unfolding after_run stamped
  after_run-Persists (ok q, e) changed =
      settled (stamped w br e.br.status) q (sync_batch_release_status w br e)
        (sync-Written e changed)
  after_run-Persists (err x, e) changed =
      failed_too (stamped w br e.br.status) x (sync_batch_release_status w br e)
        (sync-Written e changed)
  after_run-Persists (panic x, e) changed = refl

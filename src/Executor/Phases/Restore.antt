-- ===== src/Executor/Phases/Restore.antt =====
-- What a run asks the server for where it rolls a release back: Do, preRollback and UpdateObj
-- (internal/controller/partition/executor.go).
use batch_release.Base.{◌≡◌, refl, sym, subst, ap, ◌∙◌, true, false, some, List, [], ◌∷◌}
use batch_release.Base.GoMap.{GoMap, put}
use batch_release.Base.Text.{Text, codes, text_eq}
use batch_release.Objects.{PodTemplate}
use batch_release.Release.{BatchRelease, Phase, rollback_mark}
use batch_release.Executor.Monad.{
  Env, Executor, M, Call, Result, ok, err, panic, Answer, answer, refuse, result_of,
  get_batch_release, update_batch_release, pure, send, IsServer, ◌>>◌,
}
use batch_release.Executor.Phases.{
  clean_status_reason_and_message, is_pre_rollback, phase_case, rollback_steps, run,
  stable_annotations, template_hash, with_rollback,
}
use batch_release.Executor.Phases.Rollback.{marked, rolling-restores, completed-restores}
use batch_release.Executor.Phases.Restart.{run-marked, cleaned}
use batch_release.Executor.Position.Storing.{IsRetry, Retried, last, again}
use batch_release.Executor.Steps.{Requeue, no_requeue}
use batch_release.Executor.Store.{try_update_br, update_br}

module _ (w : Env) (t : PodTemplate) where
  -- A release as the server had it, with the template `t` and the two steps of a rollback.
  abbrev pub restored : BatchRelease → BatchRelease
  restored br = record br {
    spec = record br.spec {
      strategy = record {
        steps =
            record { replicas = w.vendor.parse (codes "1") }
            ∷ record { replicas = w.vendor.parse (codes "100%") }
            ∷ [];
      };
      template = t;
    };
  }

  -- Where the computation returns, its last request writes the release that the server has just
  -- answered, restored; it fails only with an error of the server, and does not panic.
  abbrev pub Restores : {A : Type 0} → Result A × Executor → Type 0
  Restores (ok a, e) =
      (br : BatchRelease) × (name : Text) × (namespace : Text) × (before : List Call) × (e.calls
        ≡ update_batch_release (restored br) ∷ get_batch_release name namespace ∷ before)
      × (w.client.on_get_batch_release before name namespace ≡ answer br)
  Restores (err x, e) = IsServer x
  Restores (panic x, e) = ⊥

  with_rollback-restored : (br : BatchRelease) → with_rollback w t br ≡ restored br
  unfolding with_rollback rollback_steps
  with_rollback-restored br = refl

  try-Restores : (e : Executor) → Restores (try_update_br w (with_rollback w t) e)
  unfolding try_update_br
  try-Restores e = first (w.client.on_get_batch_release e.calls e.br.name e.br.namespace) refl
    where
      read : List Call
      read = get_batch_release e.br.name e.br.namespace ∷ e.calls

      sent : BatchRelease → Executor
      sent br = record e { calls = update_batch_release (with_rollback w t br) ∷ read }

      second :
          (br : BatchRelease)
          → w.client.on_get_batch_release e.calls e.br.name e.br.namespace ≡ answer br
          → (a : Answer BatchRelease)
          → Restores (elim (result_of a) as (λ _. Result (Unit {0}) × Executor) [
            | ok br' ↦ (ok tt, sent br)
            | err x ↦ (err x, sent br)
            | panic x ↦ (panic x, sent br)
          ])
      second br got (answer br') = (
        br,
        e.br.name,
        e.br.namespace,
        e.calls,
        ap (λ (b : BatchRelease). update_batch_release b ∷ read) (with_rollback-restored br),
        got,
      )
      second br got (refuse x) = tt

      first :
          (a : Answer BatchRelease)
          → w.client.on_get_batch_release e.calls e.br.name e.br.namespace ≡ a
          → Restores (elim (result_of a) as (λ _. Result (Unit {0}) × Executor) [
            | ok br ↦
                (do
                  send
                      (λ calls. w.client.on_update_batch_release calls (with_rollback w t br))
                      (update_batch_release (with_rollback w t br))
                  pure tt)
                  (record e { calls = read })
            | err x ↦ (err x, record e { calls = read })
            | panic x ↦ (panic x, record e { calls = read })
          ])
      first (answer br) got =
          second br got (w.client.on_update_batch_release read (with_rollback w t br))
      first (refuse x) got = tt

  Retried-Restores :
      (m : M (Unit {0})) (r : Result (Unit {0}) × Executor)
      → ((e : Executor) → Restores (m e))
      → (e : Executor) → Retried m r e
      → Restores r
  Retried-Restores m r each e (last _ h) =
      subst (λ (s : Result (Unit {0}) × Executor). Restores s) (sym h) (each e)
  Retried-Restores m r each e (again _ e' _ later) = Retried-Restores m r each e' later

  then_pure :
      (r : Result (Unit {0}) × Executor)
      → Restores r
      → Restores (elim r.0 as (λ _. Result Requeue × Executor) [
        | ok u ↦ (ok no_requeue, r.1)
        | err x ↦ (err x, r.1)
        | panic x ↦ (panic x, r.1)
      ])
  then_pure (ok u, e) h = h
  then_pure (err x, e) h = h
  then_pure (panic x, e) h = absurd h

  update-Restores :
      IsRetry w → (e : Executor) → Restores ((update_br w (with_rollback w t) >> pure no_requeue) e)
  unfolding update_br
  update-Restores retry e =
      let m = try_update_br w (with_rollback w t) in
      then_pure (w.retry_on_conflict m e) (Retried-Restores m _ try-Restores e (retry.ends m e))

  marked_run-Restores :
      IsRetry w
      → (e e' : Executor) → is_pre_rollback e ≡ true
      → phase_case w e.br.status.phase (cleaned w e) (cleaned w e)
        ≡ (update_br w (with_rollback w t) >> pure no_requeue) e'
      → Restores (run w e)
  marked_run-Restores retry e e' marked h =
      subst (λ (s : Result Requeue × Executor). Restores s) (sym (run-marked w e marked ∙ h))
        (update-Restores retry e')

module _ (w : Env) (retry : IsRetry w) (hash yaml csv csvr mark : Text) (m : GoMap) (e : Executor)
    (recorded : e.br.annotations
      ≡ put rollback_mark mark (stable_annotations hash yaml csv csvr m)) where
  -- A run of Do on a release that rolls a new template out, that carries the rollback mark over the
  -- annotations that recordStableVersion writes, and whose last recorded template has another hash
  -- than the one of the release and can be read back, where a write that conflicts is tried again as
  -- RetryOnConflict documents: it does not panic, fails only with an error of the server, and where it returns, its last request writes the
  -- release that the server answered to the request before, with that recorded template and the two
  -- steps "1" and "100%".
  pub rolling_run-Restores :
      (t : PodTemplate)
      → e.br.status.phase ≡ Phase.rolling_update
      → text_eq hash (template_hash w e) ≡ false
      → w.vendor.yaml_unmarshal yaml ≡ some t
      → Restores w t (run w e)
  unfolding clean_status_reason_and_message template_hash
  rolling_run-Restores t rolls differs read =
      let clean = cleaned w e in
      marked_run-Restores w t retry e _ (marked w hash yaml csv csvr mark m e recorded) (
        ap (λ (ph : Phase). phase_case w ph clean clean) rolls
        ∙ rolling-restores w hash yaml csv csvr mark m clean recorded t differs read)

  -- A run of Do on a completed release that carries the rollback mark over the annotations that
  -- recordStableVersion writes, where the template recorded before the last one has a hash that is not
  -- empty and is another than that of the release, and can be read back, and where a write that
  -- conflicts is tried again as RetryOnConflict documents: it does not panic, fails only with an error
  -- of the server, and where it returns, its last request writes the release that the server answered
  -- to the request before, with that earlier template and the two steps "1" and "100%".
  pub completed_run-Restores :
      (t : PodTemplate)
      → e.br.status.phase ≡ Phase.completed
      → text_eq csv [] ≡ false
      → text_eq csv (template_hash w e) ≡ false
      → w.vendor.yaml_unmarshal csvr ≡ some t
      → Restores w t (run w e)
  unfolding clean_status_reason_and_message template_hash
  completed_run-Restores t done another differs read =
      let clean = cleaned w e in
      marked_run-Restores w t retry e _ (marked w hash yaml csv csvr mark m e recorded) (
        ap (λ (ph : Phase). phase_case w ph clean clean) done
        ∙ completed-restores w hash yaml csv csvr mark m clean recorded t another differs read)

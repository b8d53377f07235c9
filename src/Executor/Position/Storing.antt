-- ===== src/Executor/Position/Storing.antt =====
-- UpdateObj under retry.RetryOnConflict: what an update does to the position of the release.
use batch_release.Base.{◌≡◌, refl, sym, ◌∙◌, List, ◌∷◌, subst}
use batch_release.Base.Text.{Text}
use batch_release.Objects.{Deployment, PodTemplate}
use batch_release.Release.{BatchRelease}
use batch_release.Executor.Monad.{
  Env, Executor, M, Client, Call, Result, ok, err, panic, Answer, answer, refuse, result_of, server,
  conflict, send, get_batch_release, update_batch_release, ◌>>=◌, ◌>>◌,
}
use batch_release.Executor.Phases.{record_stable_version}
use batch_release.Executor.Store.{
  hold, try_update_br, try_update_held_br, try_update_de, update_br, update_held_br, update_de,
}
use batch_release.Executor.Position.{
  position, position_of, Stays, stays_rules, Stays-bind, Stays-gets, Stays-if, Stays-option,
  Stays-pure,
}
use batch_release.Executor.Position.Move.{IsOnStep}

-- retry.RetryOnConflict of `m` may end like this: `m` is run, and run again only after a conflict.
pub data Retried (m : M (Unit {0})) (r : Result (Unit {0}) × Executor) : Executor → Type 0 where
  last : (e : Executor) → r ≡ m e → Retried m r e
  again : (e e' : Executor) → m e ≡ (err (server conflict), e') → Retried m r e' → Retried m r e

-- What retry.RetryOnConflict documents.
pub record IsRetry (w : Env) : Type 0 where
  pub ends : (m : M (Unit {0})) (e : Executor) → Retried m (w.retry_on_conflict m e) e

-- What every attempt keeps, all of them keep.
Retried-induction :
    (P : Executor → Type 0) (m : M (Unit {0})) (r : Result (Unit {0}) × Executor)
    → ((e : Executor) → P e → P (m e).1)
    → (e : Executor) → Retried m r e
    → P e
    → P r.1
Retried-induction P m r keep e (last _ h) p = rw h (keep e p)
Retried-induction P m r keep e (again _ e' h later) p =
    Retried-induction P m r keep e' later
      (subst (λ (s : Result (Unit {0}) × Executor). P s.1) h (keep e p))

module _ (w : Env) (retry : IsRetry w) where
  retry-Stays : (m : M (Unit {0})) → Stays m → Stays (w.retry_on_conflict m)
  retry-Stays m s = record {
    same = λ e.
        Retried-induction (λ e'. position e' ≡ position e) m (w.retry_on_conflict m e)
          (λ e' h. s.same e' ∙ h) e (retry.ends m e) refl;
  }

  try_update_br-Stays : (change : BatchRelease → BatchRelease) → Stays (try_update_br w change)
  unfolding try_update_br
  try_update_br-Stays change = search stays_rules depth 9

  try_update_de-Stays : (change : Deployment → Deployment) → Stays (try_update_de w change)
  unfolding try_update_de
  try_update_de-Stays change = search stays_rules depth 9

  pub update_br-Stays : (change : BatchRelease → BatchRelease) → Stays (update_br w change)
  unfolding update_br
  update_br-Stays change = retry-Stays (try_update_br w change) (try_update_br-Stays change)

  pub update_de-Stays : (change : Deployment → Deployment) → Stays (update_de w change)
  unfolding update_de
  update_de-Stays change = retry-Stays (try_update_de w change) (try_update_de-Stays change)

  pub record_stable_version-Stays : (t : PodTemplate) → Stays (record_stable_version w t)
  unfolding record_stable_version
  record_stable_version-Stays t = Stays-bind _ _ (Stays-gets (λ (e : Executor). e)) (λ e.
      Stays-if _ _ _ (Stays-pure _)
        (Stays-option (w.vendor.yaml_marshal t) _ _ (λ yaml. update_br-Stays _) (Stays-pure _)))

-- The server holds releases whose index is that of a step, as long as it is given no others.
pub record KeepsSteps (c : Client) : Type 0 where
  pub got :
      (calls : List Call) (name namespace : Text) (br : BatchRelease)
      → c.on_get_batch_release calls name namespace ≡ answer br
      → IsOnStep (position_of br)
  pub updated :
      (calls : List Call) (br br' : BatchRelease)
      → IsOnStep (position_of br)
      → c.on_update_batch_release calls br ≡ answer br'
      → IsOnStep (position_of br')

module _ (w : Env) (server_keeps : KeepsSteps w.client) (change : BatchRelease → BatchRelease)
    (still : (br : BatchRelease) → position_of (change br) ≡ position_of br) where
  -- Two requests, each of which may be refused.
  try_update_held_br-IsOnStep :
      (e : Executor) → IsOnStep (position e) → IsOnStep (position (try_update_held_br w change e).1)
  unfolding try_update_held_br
  try_update_held_br-IsOnStep e on =
      got (w.client.on_get_batch_release e.calls e.br.name e.br.namespace) refl
    where
      read : List Call
      read = get_batch_release e.br.name e.br.namespace ∷ e.calls

      held : BatchRelease → Executor
      held br = record e { br = change br; calls = update_batch_release (change br) ∷ read }

      written :
          (br : BatchRelease) (a : Answer BatchRelease)
          → IsOnStep (position_of (change br))
          → w.client.on_update_batch_release read (change br) ≡ a
          → IsOnStep (
              position
                (elim (result_of a) as (λ _. Result (Unit {0}) × Executor) [
                  | ok br' ↦ hold br' (held br)
                  | err x ↦ (err x, held br)
                  | panic x ↦ (panic x, held br)
                ]).1)
      written br (answer br') k h = server_keeps.updated read (change br) br' k h
      written br (refuse x) k h = k

      got :
          (a : Answer BatchRelease)
          → w.client.on_get_batch_release e.calls e.br.name e.br.namespace ≡ a
          → IsOnStep (
              position
                (elim (result_of a) as (λ _. Result (Unit {0}) × Executor) [
                  | ok br ↦
                      (do
                        hold (change br)
                        updated ←
                            send
                              (λ calls. w.client.on_update_batch_release calls (change br))
                              (update_batch_release (change br))
                        hold updated)
                        (record e { calls = read })
                  | err x ↦ (err x, record e { calls = read })
                  | panic x ↦ (panic x, record e { calls = read })
                ]).1)
      got (answer br) h =
          written br (w.client.on_update_batch_release read (change br))
            (subst IsOnStep (sym (still br))
              (server_keeps.got e.calls e.br.name e.br.namespace br h))
            refl
      got (refuse x) h = on

  pub update_held_br-IsOnStep :
      IsRetry w
      → (e : Executor) → IsOnStep (position e)
      → IsOnStep (position (update_held_br w change e).1)
  unfolding update_held_br
  update_held_br-IsOnStep retry e on =
      Retried-induction (λ e'. IsOnStep (position e')) (try_update_held_br w change)
        (w.retry_on_conflict (try_update_held_br w change) e) try_update_held_br-IsOnStep e
        (retry.ends (try_update_held_br w change) e) on

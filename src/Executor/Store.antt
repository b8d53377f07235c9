-- ===== src/Executor/Store.antt =====
-- UpdateObj and UpdateObjStatus: read the object, change it, write it back, and try again on a
-- conflict (internal/controller/partition/executor.go). The object is a copy that the caller
-- drops, but for removeRollbackMark, which hands over e.Br itself.
use batch_release.Base.Text.{Text}
use batch_release.Objects.{Deployment}
use batch_release.Release.{BatchRelease}
use batch_release.Executor.Monad.{
  Env, Executor, M, pure, gets, modify, send, get_deployment, update_deployment, get_batch_release,
  update_batch_release, update_batch_release_status, ◌>>=◌, ◌>>◌,
}

-- The object held under `e.Br` is written through a pointer.
abbrev pub hold : BatchRelease → M (Unit {0})
hold br = modify (λ e. record e { br = br })

module _ (w : Env) where
  open w use {client, retry_on_conflict}

  abbrev fetch_batch_release : Text → Text → M BatchRelease
  fetch_batch_release name namespace =
      send (λ calls. client.on_get_batch_release calls name namespace)
        (get_batch_release name namespace)

  -- One attempt of UpdateObj on a copy of e.Br.
  unfoldable pub try_update_br : (BatchRelease → BatchRelease) → M (Unit {0})
  try_update_br change = do
    held ← gets (λ (e : Executor). e.br)
    br ← fetch_batch_release held.name held.namespace
    send (λ calls. client.on_update_batch_release calls (change br))
        (update_batch_release (change br))
    pure tt

  -- One attempt on e.Br itself: what is read, changed and answered is held.
  unfoldable pub try_update_held_br : (BatchRelease → BatchRelease) → M (Unit {0})
  try_update_held_br change = do
    held ← gets (λ (e : Executor). e.br)
    br ← fetch_batch_release held.name held.namespace
    hold (change br)
    updated ←
        send (λ calls. client.on_update_batch_release calls (change br))
          (update_batch_release (change br))
    hold updated

  -- One attempt on a copy of e.de.
  unfoldable pub try_update_de : (Deployment → Deployment) → M (Unit {0})
  try_update_de change = do
    held ← gets (λ (e : Executor). e.de)
    d ←
        send (λ calls. client.on_get_deployment calls held.name held.namespace)
          (get_deployment held.name held.namespace)
    send (λ calls. client.on_update_deployment calls (change d)) (update_deployment (change d))
    pure tt

  -- One attempt of UpdateObjStatus on a copy of `old`.
  unfoldable pub try_update_br_status : BatchRelease → (BatchRelease → BatchRelease) → M (Unit {0})
  try_update_br_status old change = do
    br ← fetch_batch_release old.name old.namespace
    send (λ calls. client.on_update_batch_release_status calls (change br))
        (update_batch_release_status (change br))
    pure tt

  unfoldable pub update_br : (BatchRelease → BatchRelease) → M (Unit {0})
  update_br change = retry_on_conflict (try_update_br change)

  unfoldable pub update_held_br : (BatchRelease → BatchRelease) → M (Unit {0})
  update_held_br change = retry_on_conflict (try_update_held_br change)

  unfoldable pub update_de : (Deployment → Deployment) → M (Unit {0})
  update_de change = retry_on_conflict (try_update_de change)

  unfoldable pub update_br_status : BatchRelease → (BatchRelease → BatchRelease) → M (Unit {0})
  update_br_status old change = retry_on_conflict (try_update_br_status old change)

-- ===== src/Executor/Scale.antt =====
-- maxSurge, maxUnavailable, scaleReplicaSet and scaleReplicaSetAndRecordEvent
-- (internal/controller/partition/executor.go).
pub mod Effects
use batch_release.Base.{Bool, true, false, not, ◌||◌, Option, none, some, if◌then◌else◌}
use batch_release.Base.Int.{ℤ, pos, ltb_ℤ, eqb_ℤ, add32}
use batch_release.Base.Text.{Text, codes}
use batch_release.Objects.{ReplicaSet, Deployment}
use batch_release.Vendor.{Vendor}
use batch_release.Deployment.Annotations.{
  replicas_annotations_need_update, set_replicas_annotations,
}
use batch_release.Deployment.Limits.{resolve_fenceposts}
use batch_release.Executor.Monad.{
  Env, Executor, M, pure, gets, record_event, send, patch_replica_set, ◌>>=◌, ◌>>◌,
}

-- What scaleReplicaSet sends: the size and the two annotations.
unfoldable pub resized : ReplicaSet → ℤ → Deployment → ℤ → ReplicaSet
resized rs new_scale deployment surge =
    (set_replicas_annotations (record rs { replicas = new_scale }) deployment.replicas
      (add32 deployment.replicas surge)).0

-- `if sizeNeedsUpdate { scaled = true; Eventf(...) }`
abbrev pub announce : Bool → ReplicaSet → M (Bool × ReplicaSet)
announce true rs = do record_event (codes "ScalingReplicaSet"); pure (true, rs)
announce false rs = pure (false, rs)

module _ (w : Env) where
  open w use {client, vendor}

  abbrev fenceposts : Executor → ℤ × ℤ × Bool
  fenceposts e =
      resolve_fenceposts vendor e.br.status.max_surge e.br.status.max_unavailable e.de.replicas

  -- An error of ResolveFenceposts is dropped, and the counts that come with it are used.
  unfoldable pub max_surge : Executor → ℤ
  max_surge e = (fenceposts e).0

  abbrev resolved_unavailable : Executor → ℤ
  resolved_unavailable e = (fenceposts e).1

  unfoldable pub max_unavailable : Executor → ℤ
  max_unavailable e =
      if eqb_ℤ e.de.replicas (pos 0)
      then pos 0
      else if ltb_ℤ e.de.replicas (resolved_unavailable e)
      then e.de.replicas
      else resolved_unavailable e

  -- The patch, and the event if the size changes.
  unfoldable pub send_resized : Bool → ReplicaSet → ReplicaSet → M (Bool × ReplicaSet)
  send_resized size_needs_update rs rs_copy = do
    patched ←
        send (λ calls. client.on_patch_replica_set calls rs rs_copy) (patch_replica_set rs rs_copy)
    announce size_needs_update patched

  -- Whether it scaled, and the replica set as the server answers it.
  unfoldable pub scale_replica_set : ReplicaSet → ℤ → Deployment → M (Bool × ReplicaSet)
  scale_replica_set rs new_scale deployment = do
    surge ← gets max_surge
    let size_needs_update = not (eqb_ℤ rs.replicas new_scale)
    let annotations_need_update =
        replicas_annotations_need_update rs deployment.replicas (add32 deployment.replicas surge)
    if size_needs_update || annotations_need_update
        then send_resized size_needs_update rs (resized rs new_scale deployment surge)
        else pure (false, rs)

  unfoldable pub scale_replica_set_and_record_event :
      ReplicaSet → ℤ → Deployment → M (Bool × ReplicaSet)
  scale_replica_set_and_record_event rs new_scale deployment =
      if eqb_ℤ rs.replicas new_scale
      then pure (false, rs)
      else scale_replica_set rs new_scale deployment

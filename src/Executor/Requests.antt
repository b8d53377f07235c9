-- ===== src/Executor/Requests.antt =====
-- What the calls of a run ask for: by how many replicas each changes a replica set.
use batch_release.Base.Int.{ℤ, pos, ◌-ℤ◌}
use batch_release.Base.Sum.{total}
use batch_release.Executor.Monad.{Call, patch_replica_set, create_replica_set, Executor}

abbrev pub requested_change : Call → ℤ
requested_change (patch_replica_set from to) = to.replicas -ℤ from.replicas
requested_change (create_replica_set rs) = rs.replicas
requested_change _ = pos 0

-- The net number of replicas that the calls ask for.
abbrev pub requested : Executor → ℤ
requested e = total requested_change e.calls

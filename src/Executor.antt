-- ===== src/Executor.antt =====
-- internal/controller/partition/executor.go, part by part.
pub mod Monad
pub mod Requests
pub mod Scale
pub mod OldSets
pub mod NewSet
pub mod Proportion
pub mod Ready
pub mod Status
pub mod Store
pub mod Revision
pub mod NewReplicaSet
pub mod Listing
pub mod Steps
pub mod Phases
pub mod Position
pub mod Safety

-- ===== src/Deployment.antt =====
-- pkg/util/deployment/deployment.go, part by part.
pub mod Counts
pub mod Limits
pub mod Order
pub mod Find
pub mod Annotations
pub mod Conditions
pub mod Progress
pub mod Hash

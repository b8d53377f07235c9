-- ===== src/Examples.antt =====
-- Concrete objects on which the model runs, and the theorems at them.
mod Sample
mod Limits
mod Objects
mod States
mod Positions
mod Events
mod Writes
mod Rollbacks
mod Labels
mod Sizes
mod Rollout
mod Requests
mod Histories
mod Conditions
mod Survival
mod Command

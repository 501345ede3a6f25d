-- ===== src/Tests.antt =====
-- Runs of the definitions, and the theorems at concrete inputs.
mod Setting
mod Names
mod Transforms
mod Engines
mod Settling
mod Sparing
mod Copies
mod Controllers
mod Adopting
mod Cluster
mod Reconciler
mod Releasing
mod Cleaning
mod Defaults
mod Policies
mod Commands
